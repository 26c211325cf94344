-- ===== src/Ber/Encode.antt =====
-- firmware/components/ber/ber_encode.c. The encoders build a message from right to left.
use wespe.Prelude.{
  ℕ, zero, suc, ◌+◌, ◌-◌, ◌*◌, ◌/◌, ◌%◌, ◌^◌, ◌&&◌, ◌||◌, not, List, [], ◌∷◌, ◌++◌, ltb, leb, ◌==◌,
  if◌then◌else◌, length, top_bit,
}
use wespe.Ber.Types.{
  Result, ok, err, ◌>>=◌, bad_length, overflow, tag_integer, tag_octet_string, tag_null, tag_oid,
}

-- The scratch buffer: `cursor` free bytes, and the bytes written so far, which are the end of
-- `buf` from `*cursor` on.
pub record Scratch : Type 0 where
  pub cursor : ℕ
  pub written : List ℕ

-- `size_t cursor = cap;`
unfoldable pub fresh : ℕ → Scratch
fresh cap = record { cursor = cap; written = [] }

unfoldable pub prepend_byte : ℕ → Scratch → Result Scratch
prepend_byte b s =
    if ltb s.cursor 1
    then err overflow
    else ok (record { cursor = s.cursor - 1; written = b ∷ s.written })

unfoldable pub prepend_bytes : List ℕ → Scratch → Result Scratch
prepend_bytes bytes s =
    if ltb s.cursor (length bytes)
    then err overflow
    else ok (record { cursor = s.cursor - length bytes; written = bytes ++ s.written })

-- The loops that call prepend_byte on tmp[0], tmp[1], ..., so that tmp[0] ends up rightmost.
unfoldable pub prepend_each : List ℕ → Scratch → Result Scratch
prepend_each [] s = ok s
prepend_each (b ∷ bs) s = prepend_byte b s >>= prepend_each bs

-- `while (tmp > 0) { len_bytes[n++] = tmp & 0xFF; tmp >>= 8; }`, at most `fuel` rounds.
unfoldable pub len_octets : ℕ → ℕ → List ℕ
len_octets zero tmp = []
len_octets (suc fuel) tmp =
    let rest = len_octets fuel (tmp / 256) in if tmp == 0 then [] else (tmp % 256) ∷ rest

-- A size_t has eight octets at most.
abbrev pub size_octets : ℕ
size_octets = 8

unfoldable pub prepend_length : ℕ → Scratch → Result Scratch
prepend_length content_len s =
    let octets = len_octets size_octets content_len in
    if leb content_len 127
    then prepend_byte content_len s
    else prepend_each octets s >>= prepend_byte (128 + length octets)

unfoldable pub prepend_tlv_header : ℕ → ℕ → Scratch → Result Scratch
prepend_tlv_header tag content_len s = prepend_length content_len s >>= prepend_byte tag

unfoldable pub container_header : ℕ → ℕ → Scratch → Result Scratch
container_header tag content_len s = prepend_tlv_header tag content_len s

-- The four bytes of a uint32_t, and the eight of a uint64_t, the highest first.
abbrev pub raw32 : ℕ → List ℕ
raw32 u = (u / 2 ^ 24 % 256) ∷ (u / 2 ^ 16 % 256) ∷ (u / 2 ^ 8 % 256) ∷ (u % 256) ∷ []

abbrev pub raw64 : ℕ → List ℕ
raw64 u =
    (u / 2 ^ 56 % 256)
    ∷ (u / 2 ^ 48 % 256)
    ∷ (u / 2 ^ 40 % 256)
    ∷ (u / 2 ^ 32 % 256)
    ∷ raw32 (u % 2 ^ 32)

-- The loop over `start` in ber_encode_integer; the list is `raw + start`.
unfoldable pub trim_signed : List ℕ → List ℕ
trim_signed [] = []
trim_signed (b ∷ []) = b ∷ []
trim_signed (b ∷ next ∷ rest) =
    let shorter = trim_signed (next ∷ rest) in
    if (b == 0 && not (top_bit next)) || (b == 255 && top_bit next)
    then shorter
    else b ∷ next ∷ rest

-- ber_encode_integer; the int32_t is given by its bit pattern.
unfoldable pub encode_integer : ℕ → Scratch → Result Scratch
encode_integer value s =
    let content = trim_signed (raw32 value) in
    prepend_bytes content s >>= prepend_tlv_header tag_integer (length content)

-- The loop over `start` in the unsigned encoders, and the step back to the pad byte. `before` is
-- raw[start - 1] and the list is `raw + start`.
unfoldable pub trim_unsigned : ℕ → List ℕ → List ℕ
trim_unsigned before [] = []
trim_unsigned before (b ∷ []) = if top_bit b then before ∷ b ∷ [] else b ∷ []
trim_unsigned before (b ∷ next ∷ rest) =
    let shorter = trim_unsigned b (next ∷ rest) in
    if b == 0 && not (top_bit next)
    then shorter
    else if top_bit b
    then before ∷ b ∷ next ∷ rest
    else b ∷ next ∷ rest

unfoldable pub encode_unsigned_tagged : ℕ → ℕ → Scratch → Result Scratch
encode_unsigned_tagged tag value s =
    let content = trim_unsigned 0 (raw32 value) in
    prepend_bytes content s >>= prepend_tlv_header tag (length content)

unfoldable pub encode_unsigned64_tagged : ℕ → ℕ → Scratch → Result Scratch
encode_unsigned64_tagged tag value s =
    let content = trim_unsigned 0 (raw64 value) in
    prepend_bytes content s >>= prepend_tlv_header tag (length content)

unfoldable pub encode_octet_string : List ℕ → Scratch → Result Scratch
encode_octet_string bytes s =
    prepend_bytes bytes s >>= prepend_tlv_header tag_octet_string (length bytes)

unfoldable pub encode_null : Scratch → Result Scratch
encode_null s = prepend_tlv_header tag_null 0 s

unfoldable pub encode_null_tagged : ℕ → Scratch → Result Scratch
encode_null_tagged tag s = prepend_tlv_header tag 0 s

-- `while (arc > 0) { tmp[n++] = (arc & 0x7F) | 0x80; arc >>= 7; }`, at most `fuel` rounds.
unfoldable pub more_groups : ℕ → ℕ → List ℕ
more_groups zero arc = []
more_groups (suc fuel) arc =
    let rest = more_groups fuel (arc / 128) in if arc == 0 then [] else (arc % 128 + 128) ∷ rest

-- tmp[0..n) for one arc, the lowest group first. Five rounds are more than a uint32_t needs.
unfoldable pub arc_groups : ℕ → List ℕ
arc_groups arc = (arc % 128) ∷ more_groups 5 (arc / 128)

-- The loop over the arcs from the third on, the last arc first.
unfoldable pub prepend_arcs : List ℕ → Scratch → Result Scratch
prepend_arcs [] s = ok s
prepend_arcs (arc ∷ arcs) s = prepend_arcs arcs s >>= prepend_each (arc_groups arc)

-- `start_cursor - *cursor`: what the calls between have written.
abbrev pub content_since : Scratch → Scratch → ℕ
content_since start s = start.cursor - s.cursor

unfoldable pub encode_oid : List ℕ → Scratch → Result Scratch
encode_oid [] s = err bad_length
encode_oid (a ∷ []) s = err bad_length
encode_oid (a ∷ b ∷ arcs) s = if ltb 2 a || (ltb a 2 && leb 40 b) then err overflow else do
  s' ← prepend_arcs arcs s
  s'' ← prepend_byte ((a * 40 + b) % 256) s'
  prepend_tlv_header tag_oid (content_since s s'') s''
