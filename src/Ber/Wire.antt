-- ===== src/Ber/Wire.antt =====
-- The bytes of an element, and what the encoders of ber_encode.c do in terms of them.
use wespe.Prelude.{
  ℕ, ◌+◌, ◌-◌, ◌*◌, ◌%◌, ◌≡◌, fun_ext, refl, ◌∙◌, arith, List, [], ◌∷◌, ◌++◌, reverse, append_assoc,
  ltb, leb, ◌&&◌, ◌||◌, false, if◌then◌else◌, length, length-append, Bool-cases, inl, inr, ◌≤◌, ◌<◌,
  append-nil,
}
use mathlib.Core.List.{reverse-append}
use wespe.Ber.Types.{
  Result, ok, ◌>>=◌, >>=_assoc, Result-cases, tag_integer, tag_octet_string, tag_oid,
}
use wespe.Ber.Encode.{
  Scratch, prepend_byte, prepend_bytes, prepend_each, len_octets, size_octets, prepend_length,
  prepend_tlv_header, raw32, raw64, trim_signed, trim_unsigned, encode_integer,
  encode_unsigned_tagged, encode_unsigned64_tagged, encode_octet_string, encode_null_tagged,
  arc_groups, prepend_arcs, encode_oid,
}

-- The length octets of a content of `n` bytes, in the order of the wire.
unfoldable pub length_bytes : ℕ → List ℕ
length_bytes n =
    if leb n 127
    then n ∷ []
    else (128 + length (len_octets size_octets n)) ∷ reverse (len_octets size_octets n)

-- A whole element.
unfoldable pub tlv_bytes : ℕ → List ℕ → List ℕ
unfolding length_bytes
tlv_bytes tag content = tag ∷ (length_bytes (length content) ++ content)

-- The content of an OBJECT IDENTIFIER from the third arc on.
unfoldable pub arcs_bytes : List ℕ → List ℕ
arcs_bytes [] = []
arcs_bytes (arc ∷ arcs) = reverse (arc_groups arc) ++ arcs_bytes arcs

unfoldable pub oid_content : ℕ → ℕ → List ℕ → List ℕ
unfolding arcs_bytes
oid_content a b arcs = ((a * 40 + b) % 256) ∷ arcs_bytes arcs

pub prepend_byte-bytes : (b : ℕ) (s : Scratch) → prepend_byte b s ≡ prepend_bytes (b ∷ []) s
unfolding prepend_byte prepend_bytes
prepend_byte-bytes b s = refl

-- Two writes are one write of both.
pub prepend_bytes-append :
    (xs ys : List ℕ) (s : Scratch)
    → (prepend_bytes ys s >>= prepend_bytes xs) ≡ prepend_bytes (xs ++ ys) s
unfolding prepend_bytes
prepend_bytes-append xs ys s = ground (arith, length-append xs ys, append_assoc xs ys s.written)

pub prepend_nothing : (s : Scratch) → ok s ≡ prepend_bytes [] s
unfolding prepend_bytes
prepend_nothing s = ground arith

prepend_each-reverse :
    (bs : List ℕ) (s : Scratch) → prepend_each bs s ≡ prepend_bytes (reverse bs) s
unfolding prepend_each
prepend_each-reverse [] s = prepend_nothing s
prepend_each-reverse (b ∷ bs) s =
    rw (fun_ext (prepend_each-reverse bs), prepend_byte-bytes b s, reverse-append (b ∷ []) bs)
      (prepend_bytes-append (reverse bs) (b ∷ []) s)

prepend_length-bytes : (n : ℕ) (s : Scratch) → prepend_length n s ≡ prepend_bytes (length_bytes n) s
unfolding prepend_length length_bytes
prepend_length-bytes n s = elim (Bool-cases (leb n 127)) [
  | inl short ↦ rw short (prepend_byte-bytes n s)
  | inr long ↦
      rw
        (
          long,
          prepend_each-reverse (len_octets size_octets n) s,
          fun_ext (prepend_byte-bytes (128 + length (len_octets size_octets n))),
        )
        (prepend_bytes-append (_ ∷ []) (reverse (len_octets size_octets n)) s)
]

pub prepend_tlv_header-bytes :
    (tag n : ℕ) (s : Scratch) → prepend_tlv_header tag n s ≡ prepend_bytes (tag ∷ length_bytes n) s
unfolding prepend_tlv_header
prepend_tlv_header-bytes tag n s =
    rw (prepend_length-bytes n s, fun_ext (prepend_byte-bytes tag))
      (prepend_bytes-append (tag ∷ []) (length_bytes n) s)

-- A content and then its header are the element.
pub prepend-tlv_bytes :
    (tag : ℕ) (content : List ℕ) (s : Scratch)
    → (prepend_bytes content s >>= prepend_tlv_header tag (length content))
      ≡ prepend_bytes (tlv_bytes tag content) s
unfolding tlv_bytes
prepend-tlv_bytes tag content s =
    rw (fun_ext (prepend_tlv_header-bytes tag (length content)))
      (prepend_bytes-append (tag ∷ length_bytes (length content)) content s)

-- Each scalar encoder writes one element, all of it or, where it does not fit, nothing.
pub encode_integer-bytes :
    (value : ℕ) (s : Scratch)
    → encode_integer value s ≡ prepend_bytes (tlv_bytes tag_integer (trim_signed (raw32 value))) s
unfolding encode_integer
encode_integer-bytes value s = prepend-tlv_bytes tag_integer (trim_signed (raw32 value)) s

pub encode_unsigned_tagged-bytes :
    (tag value : ℕ) (s : Scratch)
    → encode_unsigned_tagged tag value s
      ≡ prepend_bytes (tlv_bytes tag (trim_unsigned 0 (raw32 value))) s
unfolding encode_unsigned_tagged
encode_unsigned_tagged-bytes tag value s = prepend-tlv_bytes tag (trim_unsigned 0 (raw32 value)) s

pub encode_unsigned64_tagged-bytes :
    (tag value : ℕ) (s : Scratch)
    → encode_unsigned64_tagged tag value s
      ≡ prepend_bytes (tlv_bytes tag (trim_unsigned 0 (raw64 value))) s
unfolding encode_unsigned64_tagged
encode_unsigned64_tagged-bytes tag value s = prepend-tlv_bytes tag (trim_unsigned 0 (raw64 value)) s

pub encode_octet_string-bytes :
    (bytes : List ℕ) (s : Scratch)
    → encode_octet_string bytes s ≡ prepend_bytes (tlv_bytes tag_octet_string bytes) s
unfolding encode_octet_string
encode_octet_string-bytes bytes s = prepend-tlv_bytes tag_octet_string bytes s

pub encode_null_tagged-bytes :
    (tag : ℕ) (s : Scratch) → encode_null_tagged tag s ≡ prepend_bytes (tlv_bytes tag []) s
unfolding encode_null_tagged tlv_bytes
encode_null_tagged-bytes tag s = prepend_tlv_header-bytes tag 0 s ∙ rw (append-nil (length_bytes 0))

-- What a write leaves: the cursor has moved by as much as was written.
pub prepend_bytes-moves :
    (xs : List ℕ) (s t : Scratch)
    → prepend_bytes xs s ≡ ok t
    → (t.cursor + length xs ≡ s.cursor) × (t.written ≡ xs ++ s.written)
unfolding prepend_bytes
prepend_bytes-moves xs s t h = ground arith

-- `start - *cursor` after a write is the length of what was written.
content_len-length :
    (xs : List ℕ) (s : Scratch) (f : ℕ → Scratch → Result Scratch)
    → (prepend_bytes xs s >>= λ t. f (s.cursor - t.cursor) t)
      ≡ (prepend_bytes xs s >>= f (length xs))
content_len-length xs s f = elim (Result-cases (prepend_bytes xs s)) [
  | inl (t, e) ↦
      let n : s.cursor - t.cursor ≡ length xs = omega (arith, (prepend_bytes-moves xs s t e).0) in
      rw (e, n)
  | inr (x, e) ↦ rw e
]

-- A container: the calls between two positions wrote `xs`, and its length is read off the cursor.
pub container-tlv_bytes :
    (tag : ℕ) (xs : List ℕ) (s : Scratch)
    → (prepend_bytes xs s >>= λ t. prepend_tlv_header tag (s.cursor - t.cursor) t)
      ≡ prepend_bytes (tlv_bytes tag xs) s
container-tlv_bytes tag xs s =
    content_len-length xs s (prepend_tlv_header tag) ∙ prepend-tlv_bytes tag xs s

pub prepend_arcs-bytes :
    (arcs : List ℕ) (s : Scratch) → prepend_arcs arcs s ≡ prepend_bytes (arcs_bytes arcs) s
unfolding prepend_arcs arcs_bytes
prepend_arcs-bytes [] s = prepend_nothing s
prepend_arcs-bytes (arc ∷ arcs) s =
    rw (prepend_arcs-bytes arcs s, fun_ext (prepend_each-reverse (arc_groups arc)))
      (prepend_bytes-append (reverse (arc_groups arc)) (arcs_bytes arcs) s)

-- An OID that the first byte can hold is one element.
pub encode_oid-bytes :
    (a b : ℕ) (arcs : List ℕ) (s : Scratch)
    → a ≤ 2
    → (a < 2 → b < 40)
    → encode_oid (a ∷ b ∷ arcs) s ≡ prepend_bytes (tlv_bytes tag_oid (oid_content a b arcs)) s
unfolding encode_oid oid_content
encode_oid-bytes a b arcs s ha hb =
    let fits : (ltb 2 a || (ltb a 2 && leb 40 b)) ≡ false = ground arith in
    let first = (a * 40 + b) % 256 in
    rw
      (
        fits,
        >>=_assoc (prepend_arcs arcs s) (prepend_byte first)
            (λ t. prepend_tlv_header tag_oid (s.cursor - t.cursor) t),
        prepend_arcs-bytes arcs s,
        fun_ext (prepend_byte-bytes first),
        prepend_bytes-append (first ∷ []) (arcs_bytes arcs) s,
      )
      (container-tlv_bytes tag_oid (first ∷ arcs_bytes arcs) s)
