-- ===== src/Ber/ReadsBack.antt =====
-- Integers that firmware/components/ber/ber_encode.c writes, read back by ber_decode.c.
use wespe.Prelude.{
  ◌≢◌, ℕ, ◌≤◌, ◌<◌, ◌≡◌, refl, sym, ◌∙◌, arith, false, List, [], ◌∷◌, ◌++◌, ◌==◌, ◌&&◌, ◌||◌, not,
  length, Bool-cases, inl, inr, IsU32, IsU64, top_bit, IsByte, All, ◌⊎◌,
}
use wespe.Ber.Types.{
  Result, ok, Tlv, max_nest_depth, tag_integer, tag_counter64, tag_counter32, tag_gauge32,
  tag_timeticks,
}
use wespe.Ber.Decode.{
  fold_bytes, decode_tlv, sign_fill, decode_integer, decode_integer_field, decode_unsigned,
  decode_unsigned64, bad_width,
}
use wespe.Ber.Encode.{
  Scratch, raw32, raw64, trim_signed, trim_unsigned, encode_integer, encode_unsigned_tagged,
  encode_unsigned64_tagged,
}
use wespe.Ber.Wire.{
  tlv_bytes, encode_integer-bytes, encode_unsigned_tagged-bytes, encode_unsigned64_tagged-bytes,
  prepend_bytes-moves,
}
use wespe.Ber.Integers.{
  decode_tlv-tlv_bytes, expect_tag-tlv_bytes, signed_value, trim_signed-value, trim_unsigned-value,
  raw32-value, raw64-value, content_width, unsigned_width, unsigned64_width,
}

-- What reading an element back means: at the nesting `level` the element at the front of `buf`
-- decodes to `value`, and `rest` is what follows it.
abbrev pub ReadsBack {ℓ} : {A : Type ℓ} → (Tlv → Result A) → ℕ → List ℕ → A → List ℕ → Type ℓ
ReadsBack decode level buf value rest =
    (tlv : Tlv) × (decode_tlv level buf ≡ ok tlv) × (decode tlv ≡ ok value) × (tlv.next ≡ rest)

pub element_ReadsBack {ℓ} :
    {A : Type ℓ} (decode : Tlv → Result A) (level tag : ℕ) (content rest : List ℕ) (value : A)
    → level ≤ max_nest_depth
    → IsU32 (length content)
    → decode (record { tag = tag; value = content; next = rest }) ≡ ok value
    → ReadsBack decode level (tlv_bytes tag content ++ rest) value rest
element_ReadsBack decode level tag content rest value hl h e = (
  record { tag = tag; value = content; next = rest },
  decode_tlv-tlv_bytes level tag content rest hl h,
  e,
  refl,
)

pub decode_integer-content :
    (v : ℕ) (rest : List ℕ)
    → IsU32 v
    → decode_integer (record { tag = tag_integer; value = trim_signed (raw32 v); next = rest })
      ≡ ok v
unfolding decode_integer
decode_integer-content v rest h =
    let (lo, hi) = content_width v in
    let width : bad_width 4 (trim_signed (raw32 v)) ≡ false = ground arith in
    let value : signed_value (trim_signed (raw32 v)) ≡ v =
      trim_signed-value (raw32 v) (omega arith)
      ∙ raw32-value (sign_fill (raw32 v)) v (unfold sign_fill in ground arith) h in
    rw (width, value)

-- ber_encode_integer, where it succeeds, puts in front of what was written an INTEGER that
-- ber_decode_tlv, at any level within BER_MAX_NEST_DEPTH, and ber_decode_integer read back as the same int32_t, ending where the old bytes
-- begin; the value is given by its bit pattern.
pub encode_integer-ReadsBack :
    (level v : ℕ) (s t : Scratch)
    → level ≤ max_nest_depth
    → IsU32 v
    → encode_integer v s ≡ ok t
    → ReadsBack decode_integer level t.written v s.written
encode_integer-ReadsBack level v s t hl hv e =
    let content = trim_signed (raw32 v) in
    let (lo, hi) = content_width v in
    rw
      (prepend_bytes-moves (tlv_bytes tag_integer content) s t
        (sym (encode_integer-bytes v s) ∙ e)).1
      (element_ReadsBack decode_integer level tag_integer content s.written v hl (omega arith)
        (decode_integer-content v s.written hv))

-- A field of a message: the three steps that read it, in one.
pub decode_integer_field-content :
    (level v : ℕ) (rest : List ℕ)
    → level ≤ max_nest_depth
    → IsU32 v
    → decode_integer_field level (tlv_bytes tag_integer (trim_signed (raw32 v)) ++ rest)
      ≡ ok (v, rest)
unfolding decode_integer_field
decode_integer_field-content level v rest hl hv =
    let (lo, hi) = content_width v in
    rw (
      expect_tag-tlv_bytes level tag_integer (trim_signed (raw32 v)) rest hl (omega arith),
      decode_integer-content v rest hv,
    )

abbrev pub IsUnsignedTag : ℕ → Type 0
IsUnsignedTag tag = (tag ≡ tag_counter32) ⊎ ((tag ≡ tag_gauge32) ⊎ (tag ≡ tag_timeticks))

pub decode_unsigned-content :
    (tag v : ℕ) (rest : List ℕ)
    → IsUnsignedTag tag
    → IsU32 v
    → decode_unsigned (record { tag = tag; value = trim_unsigned 0 (raw32 v); next = rest }) ≡ ok v
unfolding decode_unsigned
decode_unsigned-content tag v rest ht h =
    let (lo, hi) = unsigned_width v in
    let known : not (tag == tag_counter32 || tag == tag_gauge32 || tag == tag_timeticks) ≡ false =
      ground arith in
    let width : bad_width 5 (trim_unsigned 0 (raw32 v)) ≡ false = ground arith in
    let value : fold_bytes 32 0 (trim_unsigned 0 (raw32 v)) ≡ v =
      trim_unsigned-value 32 0 (raw32 v) refl ∙ raw32-value 0 v (omega arith) h in
    rw (known, width, value)

pub decode_unsigned64-content :
    (v : ℕ) (rest : List ℕ)
    → IsU64 v
    → decode_unsigned64
        (record { tag = tag_counter64; value = trim_unsigned 0 (raw64 v); next = rest })
      ≡ ok v
unfolding decode_unsigned64
decode_unsigned64-content v rest h =
    let (lo, hi) = unsigned64_width v in
    let width : bad_width 9 (trim_unsigned 0 (raw64 v)) ≡ false = ground arith in
    let value : fold_bytes 64 0 (trim_unsigned 0 (raw64 v)) ≡ v =
      trim_unsigned-value 64 0 (raw64 v) refl ∙ raw64-value v h in
    rw (width, value)

-- Under each of the tags Counter32, Gauge32 and TimeTicks every uint32_t that
-- ber_encode_unsigned_tagged writes reads back through ber_decode_unsigned.
pub encode_unsigned_tagged-ReadsBack :
    (level tag v : ℕ) (s t : Scratch)
    → level ≤ max_nest_depth
    → IsUnsignedTag tag
    → IsU32 v
    → encode_unsigned_tagged tag v s ≡ ok t
    → ReadsBack decode_unsigned level t.written v s.written
encode_unsigned_tagged-ReadsBack level tag v s t hl ht hv e =
    let content = trim_unsigned 0 (raw32 v) in
    let (lo, hi) = unsigned_width v in
    rw
      (prepend_bytes-moves (tlv_bytes tag content) s t
        (sym (encode_unsigned_tagged-bytes tag v s) ∙ e)).1
      (element_ReadsBack decode_unsigned level tag content s.written v hl (omega arith)
        (decode_unsigned-content tag v s.written ht hv))

-- Every uint64_t that ber_encode_unsigned64_tagged writes under the tag Counter64 reads back through
-- ber_decode_unsigned64.
pub encode_unsigned64_tagged-ReadsBack :
    (level v : ℕ) (s t : Scratch)
    → level ≤ max_nest_depth
    → IsU64 v
    → encode_unsigned64_tagged tag_counter64 v s ≡ ok t
    → ReadsBack decode_unsigned64 level t.written v s.written
encode_unsigned64_tagged-ReadsBack level v s t hl hv e =
    let content = trim_unsigned 0 (raw64 v) in
    let (lo, hi) = unsigned64_width v in
    rw
      (prepend_bytes-moves (tlv_bytes tag_counter64 content) s t
        (sym (encode_unsigned64_tagged-bytes tag_counter64 v s) ∙ e)).1
      (element_ReadsBack decode_unsigned64 level tag_counter64 content s.written v hl (omega arith)
        (decode_unsigned64-content v s.written hv))

-- No shorter content would do: a leading zero byte is kept only before a byte with its top bit set,
-- and a leading 0xff only before one without.
abbrev IsMinimal : List ℕ → Type 0
IsMinimal (b ∷ next ∷ rest) = ((b ≢ 0) ⊎ (128 ≤ next)) × ((b ≢ 255) ⊎ (next < 128))
IsMinimal (b ∷ []) = Unit
IsMinimal [] = ⊥

trim_signed-IsMinimal :
    (b : ℕ) (xs : List ℕ) → All IsByte (b ∷ xs) → IsMinimal (trim_signed (b ∷ xs))
unfolding trim_signed
trim_signed-IsMinimal b [] h = tt
trim_signed-IsMinimal b (next ∷ rest) (hb, h) =
    elim (Bool-cases ((b == 0 && not (top_bit next)) || (b == 255 && top_bit next))) [
      | inl more ↦ rw more (trim_signed-IsMinimal next rest h)
      | inr stop ↦ rw stop (ground arith)
    ]

-- ber_encode_integer puts in front of what was written an INTEGER element whose content has one to
-- four bytes and is minimal, for every int32_t.
encode_integer-IsMinimal :
    (v : ℕ) (s t : Scratch)
    → IsU32 v
    → encode_integer v s ≡ ok t
    → (content : List ℕ) × (t.written ≡ tlv_bytes tag_integer content ++ s.written)
      × (1 ≤ length content)
      × (length content ≤ 4)
      × IsMinimal content
encode_integer-IsMinimal v s t hv e =
    let content = trim_signed (raw32 v) in
    let (lo, hi) = content_width v in
    let moved =
      prepend_bytes-moves (tlv_bytes tag_integer content) s t
        (sym (encode_integer-bytes v s) ∙ e) in
    (content, moved.1, lo, hi, trim_signed-IsMinimal _ _ (omega arith))
