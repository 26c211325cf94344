-- ===== src/Snmp/Codec/Room.antt =====
-- The encoders of firmware/components/snmp_core/snmp_codec.c never write in front of the buffer.
use wespe.Prelude.{
  Bool-cases, ◌||◌, ◌&&◌, ◌*◌, ◌%◌, ℕ, ◌+◌, ◌-◌, ◌≡◌, inl, inr, arith, List, [], ◌∷◌, ◌==◌,
  if◌then◌else◌, ltb, leb, length, length-append,
}
use wespe.Ber.Types.{
  Result, err, ◌>>=◌, Ensures, >>=-Ensures, tag_sequence, bad_tag, tag_integer, tag_octet_string,
  tag_null, tag_oid, tag_counter64,
}
use wespe.Ber.Encode.{
  Scratch, fresh, prepend_bytes, prepend_byte, prepend_arcs, prepend_tlv_header, container_header,
  encode_integer, encode_octet_string, encode_null, encode_null_tagged, encode_oid,
  encode_unsigned_tagged, encode_unsigned64_tagged,
}
use wespe.Ber.Wire.{
  encode_integer-bytes, encode_unsigned_tagged-bytes, encode_unsigned64_tagged-bytes,
  encode_octet_string-bytes, encode_null_tagged-bytes, prepend_tlv_header-bytes, prepend_byte-bytes,
  prepend_arcs-bytes,
}
use wespe.Mib.Types.{Varbind}
use wespe.Snmp.Codec.{
  is_exception_tag, is_raw_tag, is_unsigned_tag, encode_value, encode_varbind, encode_varbinds,
  encode_varbind_list, encode_response_shaped_pdu,
}

-- `written` is what lies between the cursor and the end of a buffer of `room` bytes.
abbrev pub Fits : ℕ → Scratch → Type 0
Fits room s = s.cursor + length s.written ≡ room

pub fresh-Fits : (room : ℕ) → Fits room (fresh room)
unfolding fresh
fresh-Fits room = omega arith

pub >>=-Fits :
    (room : ℕ) (r : Result Scratch) (f : Scratch → Result Scratch)
    → Ensures (Fits room) r
    → ((s : Scratch) → Fits room s → Ensures (Fits room) (f s))
    → Ensures (Fits room) (r >>= f)
>>=-Fits room = >>=-Ensures (Fits room) (Fits room)

pub prepend_bytes-Fits :
    (room : ℕ) (xs : List ℕ) (s : Scratch) → Fits room s → Ensures (Fits room) (prepend_bytes xs s)
unfolding prepend_bytes
prepend_bytes-Fits room xs s h = elim (Bool-cases (ltb s.cursor (length xs))) [
  | inl full ↦ rw full tt
  | inr free ↦ rw free (ground (arith, length-append xs s.written))
]

-- An operation that comes down to one write.
module _ (room : ℕ) (s : Scratch) (fits : Fits room s) where
  write-Fits : (r : Result Scratch) (xs : List ℕ) → r ≡ prepend_bytes xs s → Ensures (Fits room) r
  write-Fits r xs e = rw e (prepend_bytes-Fits room xs s fits)

  pub encode_integer-Fits : (v : ℕ) → Ensures (Fits room) (encode_integer v s)
  encode_integer-Fits v = write-Fits (encode_integer v s) _ (encode_integer-bytes v s)

  pub encode_octet_string-Fits : (bs : List ℕ) → Ensures (Fits room) (encode_octet_string bs s)
  encode_octet_string-Fits bs =
      write-Fits (encode_octet_string bs s) _ (encode_octet_string-bytes bs s)

  pub container_header-Fits : (tag n : ℕ) → Ensures (Fits room) (container_header tag n s)
  unfolding container_header
  container_header-Fits tag n =
      write-Fits (container_header tag n s) _ (prepend_tlv_header-bytes tag n s)

  encode_null_tagged-Fits : (tag : ℕ) → Ensures (Fits room) (encode_null_tagged tag s)
  encode_null_tagged-Fits tag =
      write-Fits (encode_null_tagged tag s) _ (encode_null_tagged-bytes tag s)

  pub encode_unsigned_tagged-Fits :
      (tag v : ℕ) → Ensures (Fits room) (encode_unsigned_tagged tag v s)
  encode_unsigned_tagged-Fits tag v =
      write-Fits (encode_unsigned_tagged tag v s) _ (encode_unsigned_tagged-bytes tag v s)

  encode_unsigned64_tagged-Fits :
      (tag v : ℕ) → Ensures (Fits room) (encode_unsigned64_tagged tag v s)
  encode_unsigned64_tagged-Fits tag v =
      write-Fits (encode_unsigned64_tagged tag v s) _ (encode_unsigned64_tagged-bytes tag v s)

  prepend_arcs-Fits : (arcs : List ℕ) → Ensures (Fits room) (prepend_arcs arcs s)
  prepend_arcs-Fits arcs = write-Fits (prepend_arcs arcs s) _ (prepend_arcs-bytes arcs s)

  prepend_byte-Fits : (b : ℕ) → Ensures (Fits room) (prepend_byte b s)
  prepend_byte-Fits b = write-Fits (prepend_byte b s) _ (prepend_byte-bytes b s)

pub encode_oid-Fits :
    (room : ℕ) (oid : List ℕ) (s : Scratch) → Fits room s → Ensures (Fits room) (encode_oid oid s)
unfolding encode_oid container_header
encode_oid-Fits room [] s h = tt
encode_oid-Fits room (a ∷ []) s h = tt
encode_oid-Fits room (a ∷ b ∷ arcs) s h = elim (Bool-cases (ltb 2 a || (ltb a 2 && leb 40 b))) [
  | inl bad ↦ rw bad tt
  | inr good ↦ rw good (
      >>=-Fits room (prepend_arcs arcs s) _ (prepend_arcs-Fits room s h arcs) (λ t ht.
        >>=-Fits room (prepend_byte ((a * 40 + b) % 256) t) _
          (prepend_byte-Fits room t ht ((a * 40 + b) % 256))
          (λ u hu. container_header-Fits room u hu tag_oid (s.cursor - u.cursor))))
]

encode_raw-Fits :
    (room : ℕ) (vb : Varbind) (s : Scratch)
    → Fits room s
    → Ensures
        (Fits room)
        (prepend_bytes vb.octets s >>= prepend_tlv_header vb.value_tag (length vb.octets))
encode_raw-Fits room vb s h =
    >>=-Fits room (prepend_bytes vb.octets s) _ (prepend_bytes-Fits room vb.octets s h) (λ t ht.
      unfold container_header in container_header-Fits room t ht vb.value_tag (length vb.octets))

-- The branches behind NULL.
abbrev encode_rest : Varbind → Scratch → Result Scratch
encode_rest vb s =
    if vb.value_tag == tag_oid
    then encode_oid vb.oid_value s
    else if is_unsigned_tag vb.value_tag
    then encode_unsigned_tagged vb.value_tag vb.int_value s
    else if vb.value_tag == tag_counter64
    then encode_unsigned64_tagged vb.value_tag vb.counter64_value s
    else if is_exception_tag vb.value_tag
    then encode_null_tagged vb.value_tag s
    else if is_raw_tag vb.value_tag
    then prepend_bytes vb.octets s >>= prepend_tlv_header vb.value_tag (length vb.octets)
    else err bad_tag

encode_rest-Fits :
    (room : ℕ) (vb : Varbind) (s : Scratch) → Fits room s → Ensures (Fits room) (encode_rest vb s)
encode_rest-Fits room vb s h = elim (Bool-cases (vb.value_tag == tag_oid)) [
  | inl e ↦ rw e (encode_oid-Fits room vb.oid_value s h)
  | inr n1 ↦ rw n1 (elim (Bool-cases (is_unsigned_tag vb.value_tag)) [
    | inl e ↦ rw e (encode_unsigned_tagged-Fits room s h vb.value_tag vb.int_value)
    | inr n2 ↦ rw n2 (elim (Bool-cases (vb.value_tag == tag_counter64)) [
      | inl e ↦ rw e (encode_unsigned64_tagged-Fits room s h vb.value_tag vb.counter64_value)
      | inr n3 ↦ rw n3 (elim (Bool-cases (is_exception_tag vb.value_tag)) [
        | inl e ↦ rw e (encode_null_tagged-Fits room s h vb.value_tag)
        | inr n4 ↦ rw n4 (elim (Bool-cases (is_raw_tag vb.value_tag)) [
          | inl e ↦ rw e (encode_raw-Fits room vb s h)
          | inr n5 ↦ rw n5 tt
        ])
      ])
    ])
  ])
]

encode_value-Fits :
    (room : ℕ) (vb : Varbind) (s : Scratch) → Fits room s → Ensures (Fits room) (encode_value vb s)
unfolding encode_value encode_null encode_null_tagged
encode_value-Fits room vb s h = elim (Bool-cases (vb.value_tag == tag_integer)) [
  | inl e ↦ rw e (encode_integer-Fits room s h vb.int_value)
  | inr n1 ↦ rw n1 (elim (Bool-cases (vb.value_tag == tag_octet_string)) [
    | inl e ↦ rw e (encode_octet_string-Fits room s h vb.octets)
    | inr n2 ↦ rw n2 (elim (Bool-cases (vb.value_tag == tag_null)) [
      | inl e ↦ rw e (encode_null_tagged-Fits room s h tag_null)
      | inr n3 ↦ rw n3 (encode_rest-Fits room vb s h)
    ])
  ])
]

encode_varbind-Fits :
    (room : ℕ) (vb : Varbind) (s : Scratch)
    → Fits room s
    → Ensures (Fits room) (encode_varbind vb s)
unfolding encode_varbind
encode_varbind-Fits room vb s h =
    >>=-Fits room (encode_value vb s) _ (encode_value-Fits room vb s h) (λ t ht.
      >>=-Fits room (encode_oid vb.oid t) _ (encode_oid-Fits room vb.oid t ht)
        (λ u hu. container_header-Fits room u hu tag_sequence (s.cursor - u.cursor)))

encode_varbinds-Fits :
    (room : ℕ) (vbs : List Varbind) (s : Scratch)
    → Fits room s
    → Ensures (Fits room) (encode_varbinds vbs s)
unfolding encode_varbinds
encode_varbinds-Fits room [] s h = h
encode_varbinds-Fits room (vb ∷ vbs) s h =
    >>=-Fits room (encode_varbinds vbs s) _ (encode_varbinds-Fits room vbs s h)
      (λ t ht. encode_varbind-Fits room vb t ht)

pub encode_varbind_list-Fits :
    (room : ℕ) (vbs : List Varbind) (s : Scratch)
    → Fits room s
    → Ensures (Fits room) (encode_varbind_list vbs s)
unfolding encode_varbind_list
encode_varbind_list-Fits room vbs s h =
    >>=-Fits room (encode_varbinds vbs s) _ (encode_varbinds-Fits room vbs s h)
      (λ t ht. container_header-Fits room t ht tag_sequence (s.cursor - t.cursor))

pub encode_response_shaped_pdu-Fits :
    (room pdu_tag request_id error_status error_index : ℕ) (vbs : List Varbind) (s : Scratch)
    → Fits room s
    → Ensures
        (Fits room)
        (encode_response_shaped_pdu pdu_tag request_id error_status error_index vbs s)
unfolding encode_response_shaped_pdu
encode_response_shaped_pdu-Fits room tag id es ei vbs s h =
    >>=-Fits room (encode_varbind_list vbs s) _ (encode_varbind_list-Fits room vbs s h) (λ t ht.
      >>=-Fits room (encode_integer ei t) _ (encode_integer-Fits room t ht ei) (λ t ht.
        >>=-Fits room (encode_integer es t) _ (encode_integer-Fits room t ht es) (λ t ht.
          >>=-Fits room (encode_integer id t) _ (encode_integer-Fits room t ht id)
            (λ t ht. container_header-Fits room t ht tag (s.cursor - t.cursor)))))
