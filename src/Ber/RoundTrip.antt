-- ===== src/Ber/RoundTrip.antt =====
-- ber_decode.c reads back the elements that ber_encode.c writes.
use wespe.Prelude.{
  ℕ, zero, suc, ◌+◌, ◌-◌, ◌/◌, ◌%◌, ◌^◌, ◌≤◌, ◌<◌, ◌≡◌, refl, ◌∙◌, arith, true, false, List, [],
  ◌∷◌, ◌++◌, reverse, append_assoc, ltb, leb, ◌==◌, length, length-append, length-reverse,
  take-append, drop-append, Bool-cases, inl, inr, IsU32, top_bit,
}
use mathlib.Core.List.{reverse-append}
use wespe.Ber.Types.{ok}
use wespe.Ber.Decode.{shift_in, fold_bytes, decode_length, decode_element}
use wespe.Ber.Encode.{len_octets, size_octets}
use wespe.Ber.Wire.{length_bytes, tlv_bytes}

pub fold_bytes-append :
    (w v : ℕ) (xs ys : List ℕ) → fold_bytes w v (xs ++ ys) ≡ fold_bytes w (fold_bytes w v xs) ys
unfolding fold_bytes
fold_bytes-append w v [] ys = refl
fold_bytes-append w v (x ∷ xs) ys = fold_bytes-append w (shift_in w v x) xs ys

-- The length octets stand for the length, as far as an uint32_t reaches.
fold_bytes-len_octets :
    (f n : ℕ) → n < 256 ^ f → IsU32 n → fold_bytes 32 0 (reverse (len_octets f n)) ≡ n
unfolding len_octets
fold_bytes-len_octets zero n h small = unfold fold_bytes in omega arith
fold_bytes-len_octets (suc f) n h small = elim (Bool-cases (n == 0)) [
  | inl e ↦ rw e (unfold fold_bytes in ground arith)
  | inr e ↦
      rw
        (
          e,
          reverse-append ((n % 256) ∷ []) (len_octets f (n / 256)),
          fold_bytes-append 32 0 (reverse (len_octets f (n / 256))) ((n % 256) ∷ []),
          fold_bytes-len_octets f (n / 256) (omega arith) (omega arith),
        )
        (unfold fold_bytes shift_in in omega arith)
]

pub length-len_octets : (k f n : ℕ) → n < 256 ^ k → length (len_octets f n) ≤ k
unfolding len_octets
length-len_octets k zero n h = omega arith
length-len_octets zero (suc f) n h = ground arith
length-len_octets (suc k) (suc f) n h =
    ground (arith, length-len_octets k f (n / 256) (omega arith))

len_octets_pos : (f n : ℕ) → 0 < n → 1 ≤ length (len_octets (suc f) n)
unfolding len_octets
len_octets_pos f n h = ground arith

decode_length_short : (n : ℕ) (rest : List ℕ) → n ≤ 127 → decode_length (n ∷ rest) ≡ ok (n, 1)
unfolding decode_length
decode_length_short n rest h = ground arith

decode_length_long :
    (os rest : List ℕ)
    → 1 ≤ length os
    → length os ≤ 4
    → decode_length ((128 + length os) ∷ (os ++ rest)) ≡ ok (fold_bytes 32 0 os, 1 + length os)
unfolding decode_length
decode_length_long os rest lo hi =
    let n : (128 + length os) % 128 ≡ length os = omega arith in
    let top : top_bit (128 + length os) ≡ true = ground arith in
    rw (top, n, length-append os rest, take-append os rest) (ground arith)

-- The length octets read back, whatever follows them.
pub decode_length-length_bytes :
    (n : ℕ) (rest : List ℕ)
    → IsU32 n
    → decode_length (length_bytes n ++ rest) ≡ ok (n, length (length_bytes n))
unfolding length_bytes
decode_length-length_bytes n rest h = elim (Bool-cases (leb n 127)) [
  | inl short ↦ rw short (decode_length_short n rest (ground arith))
  | inr long ↦
      let os = len_octets size_octets n in
      let len = length-reverse os in
      let lo : 1 ≤ length os = len_octets_pos 7 n (ground arith) in
      let hi : length os ≤ 4 = length-len_octets 4 8 n (omega arith) in
      rw (long, ← len)
        (decode_length_long (reverse os) rest (rw len lo) (rw len hi)
          ∙ rw (fold_bytes-len_octets 8 n (omega arith) h) (ground arith))
]

length_bytes-pos : (n : ℕ) → (b : ℕ) × (bs : List ℕ) × (length_bytes n ≡ b ∷ bs)
unfolding length_bytes
length_bytes-pos n = elim (Bool-cases (leb n 127)) [
  | inl short ↦ (n, [], rw short)
  | inr long ↦
      (128 + length (len_octets size_octets n), reverse (len_octets size_octets n), rw long)
]

decode_element_step :
    (tag b : ℕ) (bs content rest : List ℕ)
    → decode_length (b ∷ (bs ++ (content ++ rest))) ≡ ok (length content, length (b ∷ bs))
    → decode_element (tag ∷ b ∷ (bs ++ (content ++ rest)))
      ≡ ok (record { tag = tag; value = content; next = rest })
unfolding decode_element
decode_element_step tag b bs content rest e = rw e (
    let room : ltb (length (tag ∷ b ∷ (bs ++ (content ++ rest))) - (1 + length (b ∷ bs)))
          (length content)
        ≡ false =
      ground (arith, length-append bs (content ++ rest), length-append content rest) in
    rw (
      room,
      drop-append (b ∷ bs) (content ++ rest),
      take-append content rest,
      drop-append content rest,
    ))

-- An element reads back as its tag and its content, whatever follows it.
pub decode_element-tlv_bytes :
    (tag : ℕ) (content rest : List ℕ)
    → IsU32 (length content)
    → decode_element (tlv_bytes tag content ++ rest)
      ≡ ok (record { tag = tag; value = content; next = rest })
unfolding tlv_bytes
decode_element-tlv_bytes tag content rest h =
    let (b, bs, e) = length_bytes-pos (length content) in
    let header = decode_length-length_bytes (length content) (content ++ rest) h in
    rw (append_assoc (length_bytes (length content)) content rest, e)
      (decode_element_step tag b bs content rest (rw e at header))

length-length_bytes : (n : ℕ) → IsU32 n → length (length_bytes n) ≤ 5
unfolding length_bytes
length-length_bytes n h = elim (Bool-cases (leb n 127)) [
  | inl short ↦ rw short (omega arith)
  | inr long ↦
      rw (long, length-reverse (len_octets size_octets n))
        (omega (arith, length-len_octets 4 8 n (omega arith)))
]

pub length-tlv_bytes :
    (tag : ℕ) (content : List ℕ)
    → IsU32 (length content)
    → length (tlv_bytes tag content) ≤ length content + 6
unfolding tlv_bytes
length-tlv_bytes tag content h = omega (
  arith,
  length-append (length_bytes (length content)) content,
  length-length_bytes (length content) h,
)
