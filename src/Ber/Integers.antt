-- ===== src/Ber/Integers.antt =====
-- INTEGER, the unsigned types and Counter64: what the encoders write reads back, and it is minimal.
use wespe.Prelude.{
  ℕ, suc, ◌-◌, ◌/◌, ◌%◌, ◌^◌, ◌≤◌, ◌≡◌, refl, ◌∙◌, arith, true, false, List, [], ◌∷◌, ◌++◌, ltb,
  ◌==◌, ◌&&◌, ◌||◌, not, length, Bool-cases, inl, inr, IsU32, IsU64, top_bit, IsByte, All,
}
use wespe.Ber.Types.{ok, max_nest_depth}
use wespe.Ber.Decode.{shift_in, fold_bytes, decode_tlv, expect_tag, sign_fill}
use wespe.Ber.Encode.{raw32, raw64, trim_signed, trim_unsigned}
use wespe.Ber.Wire.{tlv_bytes}
use wespe.Ber.RoundTrip.{decode_element-tlv_bytes}

-- Within the nesting limit an element that was written reads back.
pub decode_tlv-tlv_bytes :
    (level tag : ℕ) (content rest : List ℕ)
    → level ≤ max_nest_depth
    → IsU32 (length content)
    → decode_tlv level (tlv_bytes tag content ++ rest)
      ≡ ok (record { tag = tag; value = content; next = rest })
unfolding decode_tlv
decode_tlv-tlv_bytes level tag content rest hl h =
    let shallow : ltb max_nest_depth level ≡ false = ground arith in
    rw shallow (decode_element-tlv_bytes tag content rest h)

pub expect_tag-tlv_bytes :
    (level tag : ℕ) (content rest : List ℕ)
    → level ≤ max_nest_depth
    → IsU32 (length content)
    → expect_tag level tag (tlv_bytes tag content ++ rest)
      ≡ ok (record { tag = tag; value = content; next = rest })
unfolding expect_tag
expect_tag-tlv_bytes level tag content rest hl h =
    rw (decode_tlv-tlv_bytes level tag content rest hl h) (ground arith)

-- The two's complement value of a content, as decode_integer computes it.
abbrev pub signed_value : List ℕ → ℕ
signed_value xs = fold_bytes 32 (sign_fill xs) xs

shift_in_zero : (w b : ℕ) → shift_in w 0 b ≡ b
unfolding shift_in
shift_in_zero w b = omega arith

-- A leading zero byte, and a leading 0xff before a byte that keeps the sign, add nothing.
fold_zero : (w b : ℕ) (xs : List ℕ) → b ≡ 0 → fold_bytes w 0 (b ∷ xs) ≡ fold_bytes w 0 xs
unfolding fold_bytes
fold_zero w b xs e = rw (shift_in_zero w b, e)

fold_ones :
    (b : ℕ) (xs : List ℕ)
    → b ≡ 255
    → fold_bytes 32 (2 ^ 32 - 1) (b ∷ xs) ≡ fold_bytes 32 (2 ^ 32 - 1) xs
unfolding fold_bytes
fold_ones b xs e =
    let same : shift_in 32 (2 ^ 32 - 1) b ≡ 2 ^ 32 - 1 = unfold shift_in in omega arith in rw same

-- One round of the loop keeps the value.
signed_value_step :
    (b next : ℕ) (rest : List ℕ)
    → IsByte b
    → ((b == 0 && not (top_bit next)) || (b == 255 && top_bit next)) ≡ true
    → signed_value (next ∷ rest) ≡ signed_value (b ∷ next ∷ rest)
unfolding sign_fill
signed_value_step b next rest hb t =
    ground (arith, fold_zero 32 b (next ∷ rest), fold_ones b (next ∷ rest))

pub trim_signed-value :
    (xs : List ℕ) → All IsByte xs → signed_value (trim_signed xs) ≡ signed_value xs
unfolding trim_signed
trim_signed-value [] h = refl
trim_signed-value (b ∷ []) h = refl
trim_signed-value (b ∷ next ∷ rest) (hb, h) =
    elim (Bool-cases ((b == 0 && not (top_bit next)) || (b == 255 && top_bit next))) [
      | inl more ↦
          rw more (trim_signed-value (next ∷ rest) h ∙ signed_value_step b next rest hb more)
      | inr stop ↦ rw stop
    ]

pub trim_unsigned-value :
    (w before : ℕ) (xs : List ℕ)
    → before ≡ 0
    → fold_bytes w 0 (trim_unsigned before xs) ≡ fold_bytes w 0 xs
unfolding trim_unsigned
trim_unsigned-value w before [] h = refl
trim_unsigned-value w before (b ∷ []) h = ground (arith, fold_zero w before (b ∷ []))
trim_unsigned-value w before (b ∷ next ∷ rest) h = ground (
  arith,
  fold_zero w b (next ∷ rest),
  fold_zero w before (b ∷ next ∷ rest),
  trim_unsigned-value w b (next ∷ rest),
)

pub raw32-value : (start v : ℕ) → IsU32 start → IsU32 v → fold_bytes 32 start (raw32 v) ≡ v
unfolding fold_bytes shift_in
raw32-value start v hs hv = omega arith

pub raw64-value : (v : ℕ) → IsU64 v → fold_bytes 64 0 (raw64 v) ≡ v
unfolding fold_bytes shift_in
raw64-value v hv = omega arith

length-trim_signed :
    (b : ℕ) (xs : List ℕ)
    → (1 ≤ length (trim_signed (b ∷ xs))) × (length (trim_signed (b ∷ xs)) ≤ length (b ∷ xs))
unfolding trim_signed
length-trim_signed b [] = omega arith
length-trim_signed b (next ∷ rest) = ground (arith, length-trim_signed next rest)

length-trim_unsigned :
    (before b : ℕ) (xs : List ℕ)
    → (1 ≤ length (trim_unsigned before (b ∷ xs)))
      × (length (trim_unsigned before (b ∷ xs)) ≤ suc (length (b ∷ xs)))
unfolding trim_unsigned
length-trim_unsigned before b [] = ground arith
length-trim_unsigned before b (next ∷ rest) = ground (arith, length-trim_unsigned b next rest)

-- The contents that the encoders write have one to four, five and nine bytes.
pub content_width :
    (v : ℕ) → (1 ≤ length (trim_signed (raw32 v))) × (length (trim_signed (raw32 v)) ≤ 4)
content_width v =
    length-trim_signed (v / 2 ^ 24 % 256) ((v / 2 ^ 16 % 256) ∷ (v / 2 ^ 8 % 256) ∷ (v % 256) ∷ [])

pub unsigned_width :
    (v : ℕ) → (1 ≤ length (trim_unsigned 0 (raw32 v))) × (length (trim_unsigned 0 (raw32 v)) ≤ 5)
unsigned_width v =
    length-trim_unsigned 0 (v / 2 ^ 24 % 256)
      ((v / 2 ^ 16 % 256) ∷ (v / 2 ^ 8 % 256) ∷ (v % 256) ∷ [])

pub unsigned64_width :
    (v : ℕ) → (1 ≤ length (trim_unsigned 0 (raw64 v))) × (length (trim_unsigned 0 (raw64 v)) ≤ 9)
unsigned64_width v =
    length-trim_unsigned 0 (v / 2 ^ 56 % 256)
      ((v / 2 ^ 48 % 256) ∷ (v / 2 ^ 40 % 256) ∷ (v / 2 ^ 32 % 256) ∷ raw32 (v % 2 ^ 32))
