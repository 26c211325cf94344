-- ===== src/Ber/Bounds.antt =====
-- What ber_decode.c promises on any input, well formed or not.
use wespe.Prelude.{
  ℕ, ◌+◌, ◌-◌, ◌*◌, ◌/◌, ◌%◌, ◌^◌, ◌≤◌, ◌<◌, ◌≡◌, arith, Bool, true, false, List, [], ◌∷◌, ◌++◌,
  ltb, ◌==◌, length, take, drop, length-take, take-append-drop, Bool-cases, inl, inr, IsU32, IsByte,
  All, top_bit,
}
use wespe.Ber.Types.{Result, ok, err, ◌>>=◌, Tlv, Ensures, max_nest_depth, Result-cases}
use wespe.Ber.Decode.{decode_length, decode_element, decode_tlv, decode_arcs, decode_oid_content}

-- The length octets lie inside the buffer, so `len - total_header` does not wrap.
pub decode_length_bounds :
    (buf : List ℕ) (n h : ℕ) → decode_length buf ≡ ok (n, h) → (1 ≤ h) × (h ≤ 5) × (h ≤ length buf)
unfolding decode_length
decode_length_bounds [] n h e = cc
decode_length_bounds (first ∷ buf) n h e = ground arith

-- How an accepted element is cut out of the buffer.
decode_tlv_parts :
    (level tag second : ℕ) (rest : List ℕ) (tlv : Tlv) (n h : ℕ)
    → decode_length (second ∷ rest) ≡ ok (n, h)
    → decode_tlv level (tag ∷ second ∷ rest) ≡ ok tlv
    → (tlv.tag ≡ tag)
      × (tlv.value ≡ take n (drop h (second ∷ rest)))
      × (tlv.next ≡ drop n (drop h (second ∷ rest)))
      × (n + h ≤ length (second ∷ rest))
      × (level ≤ max_nest_depth)
unfolding decode_tlv decode_element
decode_tlv_parts level tag second rest tlv n h d e =
    ground (arith, decode_length_bounds (second ∷ rest) n h d)

-- What ber_decode_tlv accepts is a header of two to six bytes, the content, and the rest: the
-- content and the next element lie inside the buffer, and the walk over it always moves on. The
-- nesting was within the limit.
pub decode_tlv_bounds :
    (level : ℕ) (buf : List ℕ) (tlv : Tlv)
    → decode_tlv level buf ≡ ok tlv
    → (header : List ℕ) × (buf ≡ header ++ (tlv.value ++ tlv.next))
      × (2 ≤ length header)
      × (length header ≤ 6)
      × (level ≤ max_nest_depth)
decode_tlv_bounds level [] tlv e = absurd (unfold decode_tlv decode_element in ground arith)
decode_tlv_bounds level (tag ∷ []) tlv e = absurd (unfold decode_tlv decode_element in ground arith)
decode_tlv_bounds level (tag ∷ second ∷ rest) tlv e =
    elim (Result-cases (decode_length (second ∷ rest))) [
      | inr (x, d) ↦ absurd (unfold decode_tlv decode_element in ground arith)
      | inl ((n, h), d) ↦
          let (_, value, next, fits, shallow) =
            decode_tlv_parts level tag second rest tlv n h d e in
          let (lo, hi, inside) = decode_length_bounds (second ∷ rest) n h d in
          let len = length-take h (second ∷ rest) inside in
          (
            tag ∷ take h (second ∷ rest),
            rw (
              value,
              next,
              take-append-drop n (drop h (second ∷ rest)),
              take-append-drop h (second ∷ rest),
            ),
            omega arith,
            omega arith,
            shallow,
          )
    ]

abbrev FitsRoom : ℕ → List ℕ → Type 0
FitsRoom room arcs = (length arcs ≤ room) × All IsU32 arcs

cons-FitsRoom :
    (room arc : ℕ) (r : Result (List ℕ))
    → 0 < room
    → IsU32 arc
    → Ensures (FitsRoom (room - 1)) r
    → Ensures (FitsRoom room) (r >>= λ arcs. ok (arc ∷ arcs))
cons-FitsRoom room arc (ok arcs) h a (fits, small) = (omega arith, (a, small))
cons-FitsRoom room arc (err e) h a f = tt

decode_arcs-FitsRoom :
    (room arc : ℕ) (within : Bool) (bs : List ℕ)
    → Ensures (FitsRoom room) (decode_arcs room arc within bs)
unfolding decode_arcs
decode_arcs-FitsRoom room arc true [] = tt
decode_arcs-FitsRoom room arc false [] = (omega arith, tt)
decode_arcs-FitsRoom room arc within (b ∷ bs) =
    let arc' = arc * 128 % 2 ^ 32 + b % 128 in
    elim (Bool-cases (ltb ((2 ^ 32 - 1) / 128) arc)) [
      | inl wide ↦ rw wide tt
      | inr narrow ↦ rw narrow (elim (Bool-cases (top_bit b)) [
        | inl more ↦ rw more (decode_arcs-FitsRoom room arc' true bs)
        | inr last ↦ rw last (elim (Bool-cases (room == 0)) [
          | inl full ↦ rw full tt
          | inr free ↦ rw free (
              cons-FitsRoom room arc' (decode_arcs (room - 1) 0 false bs) (ground arith)
                (ground arith) (decode_arcs-FitsRoom (room - 1) 0 false bs))
        ])
      ])
    ]

-- What ber_decode_oid stores, on any content of bytes, is two arcs at least, no more than `out_cap`
-- of them, and each is a uint32_t.
pub decode_oid_content_bounds :
    (room : ℕ) (bs oid : List ℕ)
    → All IsByte bs
    → decode_oid_content room bs ≡ ok oid
    → (2 ≤ length oid) × (length oid ≤ room) × All IsU32 oid
unfolding decode_oid_content
decode_oid_content_bounds room [] oid hb e = absurd (ground arith)
decode_oid_content_bounds room (b ∷ bs) oid (hb, hs) e =
    let enough : ltb room 2 ≡ false = ground arith in
    elim (Result-cases (decode_arcs (room - 2) 0 false bs)) [
      | inr (x, d) ↦ absurd (ground arith)
      | inl (arcs, d) ↦
          let (fits, small) = rw d at (decode_arcs-FitsRoom (room - 2) 0 false bs) in
          let whole : (b / 40) ∷ (b % 40) ∷ arcs ≡ oid = ground arith in
          rw (← whole) (omega arith, ground arith, (omega arith, (omega arith, small)))
    ]
