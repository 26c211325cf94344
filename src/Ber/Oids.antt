-- ===== src/Ber/Oids.antt =====
-- OBJECT IDENTIFIER: which arcs ber_decode_oid reads back from what ber_encode_oid writes.
use wespe.Prelude.{
  ℕ, zero, suc, ◌+◌, ◌-◌, ◌*◌, ◌/◌, ◌%◌, ◌^◌, ◌≤◌, ◌<◌, ◌≡◌, ◌≢◌, refl, sym, ◌∙◌, arith, Bool, true,
  false, List, [], ◌∷◌, ◌++◌, reverse, append_assoc, ltb, ◌==◌, length, length-append,
  length-reverse, Bool-cases, inl, inr, IsU32, top_bit, top_bit_clear, All,
}
use mathlib.Core.List.{reverse-append}
use wespe.Ber.Types.{ok, ◌>>=◌, Tlv, max_nest_depth, max_oid_len, tag_oid, Result-cases}
use wespe.Ber.ReadsBack.{ReadsBack, element_ReadsBack}
use wespe.Ber.Integers.{decode_tlv-tlv_bytes}
use wespe.Ber.Decode.{decode_arcs, decode_oid_content, decode_oid, decode_tlv}
use wespe.Ber.Encode.{Scratch, more_groups, arc_groups, encode_oid}
use wespe.Ber.Wire.{arcs_bytes, oid_content, tlv_bytes, encode_oid-bytes, prepend_bytes-moves}

-- A byte with its continuation bit, and the last byte of an arc.
inner_group :
    (room x g b : ℕ) (within : Bool) (bs : List ℕ)
    → x < 2 ^ 25
    → g < 128
    → decode_arcs room x within ((g + 128) ∷ b ∷ bs) ≡ decode_arcs room (x * 128 + g) false (b ∷ bs)
unfolding decode_arcs
inner_group room x g b within bs hx hg =
    let narrow : ltb ((2 ^ 32 - 1) / 128) x ≡ false = ground arith in
    let top : top_bit (g + 128) ≡ true = ground arith in
    let value : x * 128 % 2 ^ 32 + (g + 128) % 128 ≡ x * 128 + g = omega arith in
    rw (narrow, top, value)

last_group :
    (room x g : ℕ) (within : Bool) (bs : List ℕ)
    → x < 2 ^ 25
    → g < 128
    → 0 < room
    → decode_arcs room x within (g ∷ bs)
      ≡ (decode_arcs (room - 1) 0 false bs >>= λ arcs. ok ((x * 128 + g) ∷ arcs))
unfolding decode_arcs
last_group room x g within bs hx hg hr =
    let narrow : ltb ((2 ^ 32 - 1) / 128) x ≡ false = ground arith in
    let top : top_bit g ≡ false = top_bit_clear g hg in
    let free : (room == 0) ≡ false = ground arith in
    let value : x * 128 % 2 ^ 32 + g % 128 ≡ x * 128 + g = omega arith in
    rw (narrow, top, free, value)

decode_arcs-more_groups :
    (f x room b : ℕ) (bs : List ℕ)
    → x < 128 ^ f
    → x < 2 ^ 25
    → decode_arcs room 0 false (reverse (more_groups f x) ++ (b ∷ bs))
      ≡ decode_arcs room x false (b ∷ bs)
unfolding more_groups
decode_arcs-more_groups zero x room b bs h hx = let e : x ≡ 0 = omega arith in rw e
decode_arcs-more_groups (suc f) x room b bs h hx = elim (Bool-cases (x == 0)) [
  | inl e ↦ let z : x ≡ 0 = ground arith in rw (e, z)
  | inr e ↦
      let whole : x / 128 * 128 + x % 128 ≡ x = omega arith in
      rw (
        e,
        reverse-append ((x % 128 + 128) ∷ []) (more_groups f (x / 128)),
        append_assoc (reverse (more_groups f (x / 128))) ((x % 128 + 128) ∷ []) (b ∷ bs),
        decode_arcs-more_groups f (x / 128) room (x % 128 + 128) (b ∷ bs) (omega arith)
            (omega arith),
        inner_group room (x / 128) (x % 128) b false bs (omega arith) (omega arith),
        whole,
      )
]

decode_arcs-arc_groups :
    (room arc : ℕ) (bs : List ℕ)
    → IsU32 arc
    → 0 < room
    → decode_arcs room 0 false (reverse (arc_groups arc) ++ bs)
      ≡ (decode_arcs (room - 1) 0 false bs >>= λ arcs. ok (arc ∷ arcs))
unfolding arc_groups
decode_arcs-arc_groups room arc bs h hr =
    let whole : arc / 128 * 128 + arc % 128 ≡ arc = omega arith in
    rw (
      reverse-append ((arc % 128) ∷ []) (more_groups 5 (arc / 128)),
      append_assoc (reverse (more_groups 5 (arc / 128))) ((arc % 128) ∷ []) bs,
      decode_arcs-more_groups 5 (arc / 128) room (arc % 128) bs (omega arith) (omega arith),
      last_group room (arc / 128) (arc % 128) false bs (omega arith) (omega arith) hr,
      whole,
    )

decode_arcs-arcs_bytes :
    (room : ℕ) (arcs : List ℕ)
    → All IsU32 arcs
    → length arcs ≤ room
    → decode_arcs room 0 false (arcs_bytes arcs) ≡ ok arcs
unfolding arcs_bytes
decode_arcs-arcs_bytes room [] h hr = unfold decode_arcs in refl
decode_arcs-arcs_bytes room (arc ∷ arcs) (h, hs) hr = rw (
  decode_arcs-arc_groups room arc (arcs_bytes arcs) h (omega arith),
  decode_arcs-arcs_bytes (room - 1) arcs hs (omega arith),
)

-- The pairs of first arcs that survive: the second below 40, and the first 0, 1 or 2.
pub decode_oid_content-oid_content :
    (room a b : ℕ) (arcs : List ℕ)
    → a ≤ 2
    → b < 40
    → All IsU32 arcs
    → 2 + length arcs ≤ room
    → decode_oid_content room (oid_content a b arcs) ≡ ok (a ∷ b ∷ arcs)
unfolding decode_oid_content oid_content
decode_oid_content-oid_content room a b arcs ha hb hs hr =
    let enough : ltb room 2 ≡ false = ground arith in
    let first : (a * 40 + b) % 256 / 40 ≡ a = omega arith in
    let second : (a * 40 + b) % 256 % 40 ≡ b = omega arith in
    rw (enough, decode_arcs-arcs_bytes (room - 2) arcs hs (omega arith), first, second)

length-more_groups : (f arc : ℕ) → length (more_groups f arc) ≤ f
unfolding more_groups
length-more_groups zero arc = omega arith
length-more_groups (suc f) arc = ground (arith, length-more_groups f (arc / 128))

pub length-arcs_bytes : (arcs : List ℕ) → length (arcs_bytes arcs) ≤ 6 * length arcs
unfolding arcs_bytes arc_groups
length-arcs_bytes [] = omega arith
length-arcs_bytes (arc ∷ arcs) = omega (
  arith,
  length-append (reverse (arc_groups arc)) (arcs_bytes arcs),
  length-reverse (arc_groups arc),
  length-more_groups 5 (arc / 128),
  length-arcs_bytes arcs,
)

module _ (a b : ℕ) (arcs : List ℕ) (ha : a ≤ 2) (short : 2 + length arcs ≤ max_oid_len) where
  oid_content-IsU32 : IsU32 (length (oid_content a b arcs))
  unfolding oid_content
  oid_content-IsU32 = omega (arith, length-arcs_bytes arcs)

  -- An OID element reads back whole, with room for its arcs.
  pub decode_oid-content :
      (rest : List ℕ)
      → b < 40
      → All IsU32 arcs
      → decode_oid max_oid_len (record { tag = tag_oid; value = oid_content a b arcs; next = rest })
        ≡ ok (a ∷ b ∷ arcs)
  unfolding decode_oid
  decode_oid-content rest hb hs = decode_oid_content-oid_content max_oid_len a b arcs ha hb hs short

  -- ber_encode_oid, where it succeeds, puts in front of what was written an OBJECT IDENTIFIER that
  -- ber_decode_oid reads back, ending where the old bytes begin. This holds of every OID of two to
  -- BER_MAX_OID_LEN arcs, each a uint32_t, whose first arc is 0, 1 or 2 and whose second is below 40.
  pub encode_oid-ReadsBack :
      (level : ℕ) (s t : Scratch)
      → level ≤ max_nest_depth
      → b < 40
      → All IsU32 arcs
      → encode_oid (a ∷ b ∷ arcs) s ≡ ok t
      → ReadsBack (decode_oid max_oid_len) level t.written (a ∷ b ∷ arcs) s.written
  encode_oid-ReadsBack level s t hl hb hs e =
      let bytes = sym (encode_oid-bytes a b arcs s ha (λ _. hb)) ∙ e in
      rw (prepend_bytes-moves (tlv_bytes tag_oid (oid_content a b arcs)) s t bytes).1 (
        element_ReadsBack (decode_oid max_oid_len) level tag_oid (oid_content a b arcs) s.written
          (a ∷ b ∷ arcs) hl oid_content-IsU32 (decode_oid-content s.written hb hs))

first_arcs_lost :
    (room b : ℕ) (arcs : List ℕ)
    → 40 ≤ b
    → decode_oid_content room (oid_content 2 b arcs) ≢ ok (2 ∷ b ∷ arcs)
unfolding decode_oid_content oid_content
first_arcs_lost room b arcs hb e = elim (Bool-cases (ltb room 2)) [
  | inl small ↦ cc (rw small at e)
  | inr enough ↦ elim (Result-cases (decode_arcs (room - 2) 0 false (arcs_bytes arcs))) [
    | inr (x, d) ↦ cc (rw (enough, d) at e)
    | inl (others, d) ↦ let same : (2 * 40 + b) % 256 % 40 ≡ b = ground arith in omega arith
  ]
]

-- ber_encode_oid accepts an OID that starts 2.b with b of 40 or more, but the element that it writes
-- never reads back as that OID: the first byte is split by 40 whatever the first arc is, and above
-- 175 it has wrapped.
pub encode_oid_lossy :
    (b : ℕ) (arcs : List ℕ) (s t : Scratch) (level : ℕ) (tlv : Tlv)
    → 2 + length arcs ≤ max_oid_len
    → 40 ≤ b
    → level ≤ max_nest_depth
    → encode_oid (2 ∷ b ∷ arcs) s ≡ ok t
    → decode_tlv level t.written ≡ ok tlv
    → decode_oid max_oid_len tlv ≢ ok (2 ∷ b ∷ arcs)
unfolding decode_oid
encode_oid_lossy b arcs s t level tlv short hb hl e d r =
    let content = oid_content 2 b arcs in
    let small : 2 < 2 → b < 40 = λ h. absurd (omega arith) in
    let bytes = sym (encode_oid-bytes 2 b arcs s (omega arith) small) ∙ e in
    let written = (prepend_bytes-moves (tlv_bytes tag_oid content) s t bytes).1 in
    let fits = oid_content-IsU32 2 b arcs (omega arith) short in
    let read = decode_tlv-tlv_bytes level tag_oid content s.written hl fits in
    let same = sym (rw (← written) at read) ∙ d in
    let known : tlv.tag ≡ tag_oid = ground (arith, same) in
    let value : tlv.value ≡ content = ground (arith, same) in
    first_arcs_lost max_oid_len b arcs hb (rw (known, value) at r)
