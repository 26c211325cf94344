-- ===== src/Snmp/Codec/Rounds.antt =====
-- The loop of snmp_decode_varbind_list ends: firmware/components/snmp_core/snmp_codec.c.
use wespe.Prelude.{
  ℕ, zero, suc, ◌+◌, ◌-◌, ◌*◌, ◌≤◌, ◌≡◌, inl, inr, refl, arith, false, Bool-cases, List, [], ◌∷◌,
  ◌++◌, ◌==◌, length, length-append,
}
use wespe.Ber.Types.{Result, ok, err, ◌>>=◌, Tlv, Ensures, Result-cases, tag_sequence}
use wespe.Ber.Decode.{decode_tlv, expect_tag}
use wespe.Ber.Bounds.{decode_tlv_bounds}
use wespe.Mib.Types.{Varbind}
use wespe.Snmp.Codec.{decode_varbind, decode_varbinds, decode_varbind_list}

-- An element takes two bytes at least of what is left.
expect_tag-shorter :
    (level tag : ℕ) (buf : List ℕ) (tlv : Tlv)
    → expect_tag level tag buf ≡ ok tlv
    → (length tlv.next + 2 ≤ length buf) × (length tlv.value + 2 ≤ length buf)
unfolding expect_tag
expect_tag-shorter level tag buf tlv e = elim (Result-cases (decode_tlv level buf)) [
  | inr (x, d) ↦ absurd (ground (arith, rw d at e))
  | inl (found, d) ↦
      let (header, split, two, six, shallow) = decode_tlv_bounds level buf found d in
      let same : found ≡ tlv = ground (arith, rw d at e) in
      let size = length-append header (found.value ++ found.next) in
      let size' = length-append found.value found.next in
      rw (← same, split) (omega (arith, size, size'), omega (arith, size, size'))
]

-- As many varbinds as there is room for, with two bytes each.
abbrev pub Bounded : ℕ → List ℕ → List Varbind → Type 0
Bounded room buf vbs = (length vbs ≤ room) × (2 * length vbs ≤ length buf)

cons-Bounded :
    (room : ℕ) (buf next : List ℕ) (vb : Varbind) (r : Result (List Varbind))
    → (room == 0) ≡ false
    → length next + 2 ≤ length buf
    → Ensures (Bounded (room - 1) next) r
    → Ensures (Bounded room buf) (r >>= λ rest. ok (vb ∷ rest))
cons-Bounded room buf next vb (err e) free h b = tt
cons-Bounded room buf next vb (ok vbs) free h (few, short) = (ground arith, omega arith)

widen :
    (room : ℕ) (inner buf : List ℕ) (r : Result (List Varbind))
    → length inner ≤ length buf
    → Ensures (Bounded room inner) r
    → Ensures (Bounded room buf) r
widen room inner buf (err e) h b = tt
widen room inner buf (ok vbs) h (few, short) = (few, omega arith)

-- With a round for each byte or more, how many rounds there are makes no difference.
decode_varbinds-rounds :
    (f g level room : ℕ) (buf : List ℕ)
    → length buf ≤ f
    → length buf ≤ g
    → (decode_varbinds f level room buf ≡ decode_varbinds g level room buf)
      × Ensures (Bounded room buf) (decode_varbinds f level room buf)
unfolding decode_varbinds
decode_varbinds-rounds f g level room [] hf hg = (refl, (omega arith, omega arith))
decode_varbinds-rounds zero g level room (b ∷ bs) hf hg = absurd (omega arith)
decode_varbinds-rounds (suc f) zero level room (b ∷ bs) hf hg = absurd (omega arith)
decode_varbinds-rounds (suc f) (suc g) level room (b ∷ bs) hf hg =
    elim (Result-cases (expect_tag (level + 1) tag_sequence (b ∷ bs))) [
      | inr (x, e) ↦ rw e (refl, tt)
      | inl (seq, e) ↦
          let (shorter, _) = expect_tag-shorter (level + 1) tag_sequence (b ∷ bs) seq e in
          let (ih, bounded) =
            decode_varbinds-rounds f g level (room - 1) seq.next (omega arith) (omega arith) in
          elim (Bool-cases (room == 0)) [
            | inl full ↦ rw (e, full) (refl, tt)
            | inr free ↦ elim (Result-cases (decode_varbind (level + 2) seq)) [
              | inr (x, d) ↦ rw (e, free, d) (refl, tt)
              | inl (vb, d) ↦
                  rw (e, free, d)
                    (
                      rw ih refl,
                      cons-Bounded room (b ∷ bs) seq.next vb
                          (decode_varbinds f level (room - 1) seq.next) free shorter bounded,
                    )
            ]
          ]
    ]

-- On any bytes, snmp_decode_varbind_list ends within a round for each of them: more rounds make no
-- difference. What it accepts is at most `out_cap` varbinds, with two bytes for each at least.
pub decode_varbind_list_rounds :
    (level out_cap rounds : ℕ) (buf : List ℕ)
    → length buf ≤ rounds
    → (decode_varbind_list level out_cap buf ≡ (
        expect_tag level tag_sequence buf >>= λ list_seq.
        decode_varbinds rounds level out_cap list_seq.value))
      × Ensures (Bounded out_cap buf) (decode_varbind_list level out_cap buf)
unfolding decode_varbind_list
decode_varbind_list_rounds level out_cap rounds buf h =
    elim (Result-cases (expect_tag level tag_sequence buf)) [
      | inr (x, e) ↦ rw e (refl, tt)
      | inl (seq, e) ↦
          let (_, shorter) = expect_tag-shorter level tag_sequence buf seq e in
          let (same, bounded) =
            decode_varbinds-rounds (length seq.value) rounds level out_cap seq.value (omega arith)
              (omega arith) in
          rw e (same, widen out_cap seq.value buf _ (omega arith) bounded)
    ]
