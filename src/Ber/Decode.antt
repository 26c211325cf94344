-- ===== src/Ber/Decode.antt =====
-- firmware/components/ber/ber_decode.c. A pointer and a length are the list of the bytes that the
-- call may read, so no pointer is NULL and the tests for that have no counterpart.
use wespe.Prelude.{
  ℕ, ◌+◌, ◌-◌, ◌*◌, ◌/◌, ◌%◌, ◌^◌, Bool, true, false, ◌||◌, not, List, [], ◌∷◌, ltb, ◌==◌,
  if◌then◌else◌, length, take, drop, top_bit,
}
use wespe.Ber.Types.{
  Result, ok, err, ◌>>=◌, truncated, bad_tag, bad_length, overflow, depth, Tlv, tag_integer,
  tag_octet_string, tag_null, tag_oid, tag_counter32, tag_gauge32, tag_timeticks, tag_counter64,
  max_nest_depth,
}

-- `(value << 8) | b` in an unsigned word of `w` bits; `b` is a byte, so the or is a sum.
unfoldable pub shift_in : ℕ → ℕ → ℕ → ℕ
shift_in w value b = value * 256 % 2 ^ w + b

-- The loops `value = (value << 8) | buf[i]`, from the value at their start.
unfoldable pub fold_bytes : ℕ → ℕ → List ℕ → ℕ
unfolding shift_in
fold_bytes w value [] = value
fold_bytes w value (b ∷ bs) = fold_bytes w (shift_in w value b) bs

-- decode_length: the content's length and the number of length octets.
unfoldable pub decode_length : List ℕ → Result (ℕ × ℕ)
unfolding fold_bytes
decode_length [] = err truncated
decode_length (first ∷ buf) =
    let nbytes = first % 128 in
    if not (top_bit first)
    then ok (first, 1)
    else if nbytes == 0
    then err bad_length
    else if ltb 4 nbytes
    then err overflow
    else if ltb (length (first ∷ buf)) (1 + nbytes)
    then err truncated
    else ok (fold_bytes 32 0 (take nbytes buf), 1 + nbytes)

-- ber_decode_tlv, past its test of the depth. `total_header` is `1 + len_header`.
unfoldable pub decode_element : List ℕ → Result Tlv
decode_element [] = err truncated
decode_element (tag ∷ []) = err truncated
decode_element (tag ∷ second ∷ buf) = do
  (content_len, len_header) ← decode_length (second ∷ buf)
  if ltb (length (tag ∷ second ∷ buf) - (1 + len_header)) content_len
      then err truncated
      else ok (record {
        tag = tag;
        value = take content_len (drop len_header (second ∷ buf));
        next = drop content_len (drop len_header (second ∷ buf));
      })

unfoldable pub decode_tlv : ℕ → List ℕ → Result Tlv
decode_tlv level buf = if ltb max_nest_depth level then err depth else decode_element buf

unfoldable pub expect_tag : ℕ → ℕ → List ℕ → Result Tlv
expect_tag level tag buf = do
  tlv ← decode_tlv level buf
  if tlv.tag == tag then ok tlv else err bad_tag

-- `tlv->length == 0 || tlv->length > most`
abbrev pub bad_width : ℕ → List ℕ → Bool
bad_width most value = length value == 0 || ltb most (length value)

-- `(tlv->value[0] & 0x80u) ? -1 : 0`, as a bit pattern. `value` is not empty where this is called.
unfoldable pub sign_fill : List ℕ → ℕ
sign_fill [] = 0
sign_fill (b ∷ bs) = if top_bit b then 2 ^ 32 - 1 else 0

-- ber_decode_integer: the int32_t as its bit pattern.
unfoldable pub decode_integer : Tlv → Result ℕ
unfolding fold_bytes sign_fill
decode_integer tlv =
    if not (tlv.tag == tag_integer)
    then err bad_tag
    else if bad_width 4 tlv.value
    then err overflow
    else ok (fold_bytes 32 (sign_fill tlv.value) tlv.value)

-- What the decoders of a message do at each INTEGER field: ber_expect_tag, ber_decode_integer, and
-- `p` moves on to `next`.
unfoldable pub decode_integer_field : ℕ → List ℕ → Result (ℕ × List ℕ)
decode_integer_field level buf = do
  tlv ← expect_tag level tag_integer buf
  value ← decode_integer tlv
  ok (value, tlv.next)

unfoldable pub decode_unsigned : Tlv → Result ℕ
unfolding fold_bytes
decode_unsigned tlv =
    if not (tlv.tag == tag_counter32 || tlv.tag == tag_gauge32 || tlv.tag == tag_timeticks)
    then err bad_tag
    else if bad_width 5 tlv.value
    then err overflow
    else ok (fold_bytes 32 0 tlv.value)

unfoldable pub decode_unsigned64 : Tlv → Result ℕ
unfolding fold_bytes
decode_unsigned64 tlv =
    if not (tlv.tag == tag_counter64)
    then err bad_tag
    else if bad_width 9 tlv.value
    then err overflow
    else ok (fold_bytes 64 0 tlv.value)

unfoldable pub decode_octet_string : ℕ → Tlv → Result (List ℕ)
decode_octet_string out_cap tlv =
    if not (tlv.tag == tag_octet_string)
    then err bad_tag
    else if ltb out_cap (length tlv.value)
    then err overflow
    else ok tlv.value

unfoldable pub decode_null : Tlv → Result (Unit {0})
decode_null tlv =
    if not (tlv.tag == tag_null)
    then err bad_tag
    else if not (length tlv.value == 0)
    then err bad_length
    else ok tt

-- The two nested loops of ber_decode_oid in one pass: `arc` is the arc so far, `within` says that
-- the last byte had its continuation bit set, and `room` is `out_cap - n`.
unfoldable pub decode_arcs : ℕ → ℕ → Bool → List ℕ → Result (List ℕ)
decode_arcs room arc within [] = if within then err truncated else ok []
decode_arcs room arc within (b ∷ bs) =
    let arc' = arc * 128 % 2 ^ 32 + b % 128 in
    let longer = decode_arcs room arc' true bs in
    let others = decode_arcs (room - 1) 0 false bs in
    if ltb ((2 ^ 32 - 1) / 128) arc
    then err overflow
    else if top_bit b
    then longer
    else if room == 0
    then err overflow
    else others >>= λ arcs. ok (arc' ∷ arcs)

-- The content of an OBJECT IDENTIFIER: the first byte packs two arcs.
unfoldable pub decode_oid_content : ℕ → List ℕ → Result (List ℕ)
unfolding decode_arcs
decode_oid_content out_cap [] = err bad_length
decode_oid_content out_cap (first ∷ bs) =
    if ltb out_cap 2
    then err overflow
    else decode_arcs (out_cap - 2) 0 false bs >>= λ arcs. ok (first / 40 ∷ first % 40 ∷ arcs)

unfoldable pub decode_oid : ℕ → Tlv → Result (List ℕ)
unfolding decode_oid_content
decode_oid out_cap tlv =
    if not (tlv.tag == tag_oid) then err bad_tag else decode_oid_content out_cap tlv.value
