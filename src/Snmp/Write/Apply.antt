-- ===== src/Snmp/Write/Apply.antt =====
-- Pass 2 of firmware/components/snmp_core/snmp_pdu_set.c: the setters are called.
use wespe.Prelude.{
  ℕ, ◌+◌, ◌≡◌, inl, inr, refl, sym, ap, arith, false, Bool-cases, List, [], ◌∷◌, ◌++◌, length,
}
use wespe.Mib.Types.{MibResult, Varbind, Resolved, found}
use wespe.Mib.Registry.{Registry}
use wespe.Mib.Resolve.{registry_resolve, resolved_set}
use wespe.Snmp.Errors.{gen_err}
use wespe.Snmp.Bulk.{is_ok}
use wespe.Snmp.Write.{all_done, failed, apply_one, apply}
use wespe.Snmp.Write.Validate.{is_ok-ok, Lookup-cases}

module _ {D : Type 0} (reg : Registry D) where
  -- Setters that were called one after the other, each with MIB_OK, from one device state to another.
  pub data Sets : D → List Varbind → D → Type 0 where
    nothing : (d : D) → Sets d [] d
    one :
        {d : D} {vb : Varbind} {vbs : List Varbind} {last : D} (r : Resolved D) (d' : D)
        → registry_resolve reg d vb.oid ≡ found r
        → resolved_set r d vb ≡ (MibResult.ok, d')
        → Sets d' vbs last
        → Sets d (vb ∷ vbs) last

  -- Where pass 2 broke off: the varbinds before it are set, and stay set.
  pub record Breaks (d : D) (vbs : List Varbind) (index : ℕ) (d' : D) : Type 0 where
    pub before : List Varbind
    pub bad : Varbind
    pub after : List Varbind
    pub split : vbs ≡ before ++ (bad ∷ after)
    pub position : index ≡ length before + 1
    pub reached : D
    pub sets : Sets d before reached
    pub result : MibResult
    pub refuses : apply_one reg reached bad ≡ (result, d')
    pub not_ok : is_ok result ≡ false

  apply_one-ok :
      (d : D) (vb : Varbind) (d' : D)
      → apply_one reg d vb ≡ (MibResult.ok, d')
      → (r : Resolved D) × (registry_resolve reg d vb.oid ≡ found r)
        × (resolved_set r d vb ≡ (MibResult.ok, d'))
  unfolding apply_one
  apply_one-ok d vb d' e = elim (Lookup-cases reg d vb.oid) [
    | inl (r, f) ↦ (r, f, rw (apply_one, f) at e)
    | inr (res, f, bad) ↦ absurd (ground arith)
  ]

  pub apply-done :
      (d : D) (i : ℕ) (vbs : List Varbind) (d' : D)
      → apply reg d i vbs ≡ (all_done, d')
      → Sets d vbs d'
  unfolding apply
  apply-done d i [] d' e = let same : d ≡ d' = ground arith in rw (sym same) (nothing d)
  apply-done d i (vb ∷ vbs) d' e =
      let d1 = (apply_one reg d vb).1 in
      elim (Bool-cases (is_ok (apply_one reg d vb).0)) [
        | inl good ↦
            let (r, f, set) =
              apply_one-ok d vb d1 (ap (λ res. (res, d1)) (is_ok-ok (apply_one reg d vb).0 good)) in
            one r d1 f set (apply-done d1 (i + 1) vbs d' (rw good at e))
        | inr bad ↦ absurd (ground arith)
      ]

  pub apply-Breaks :
      (d : D) (i : ℕ) (vbs : List Varbind) (status index : ℕ) (d' : D)
      → apply reg d i vbs ≡ (failed status index, d')
      → (k : ℕ) × (index ≡ i + k) × (status ≡ gen_err) × Breaks d vbs k d'
  unfolding apply
  apply-Breaks d i [] status index d' e = absurd (ground arith)
  apply-Breaks d i (vb ∷ vbs) status index d' e =
      let d1 = (apply_one reg d vb).1 in
      elim (Bool-cases (is_ok (apply_one reg d vb).0)) [
        | inl good ↦
            let (r, f, set) =
              apply_one-ok d vb d1 (ap (λ res. (res, d1)) (is_ok-ok (apply_one reg d vb).0 good)) in
            let (k, place, general, breaks) =
              apply-Breaks d1 (i + 1) vbs status index d' (rw good at e) in
            (
              k + 1,
              omega arith,
              general,
              record {
                before = vb ∷ breaks.before;
                bad = breaks.bad;
                after = breaks.after;
                split = ap (λ xs. vb ∷ xs) breaks.split;
                position = omega (arith, breaks.position);
                reached = breaks.reached;
                sets = one r d1 f set breaks.sets;
                result = breaks.result;
                refuses = breaks.refuses;
                not_ok = breaks.not_ok;
              },
            )
        | inr bad ↦
            let general : status ≡ gen_err = ground arith in
            let place : index ≡ i + 1 = ground arith in
            let last : d1 ≡ d' = ground arith in
            (
              1,
              place,
              general,
              record {
                before = [];
                bad = vb;
                after = vbs;
                split = refl;
                position = omega arith;
                reached = d;
                sets = nothing d;
                result = (apply_one reg d vb).0;
                refuses = ap (λ x. ((apply_one reg d vb).0, x)) last;
                not_ok = bad;
              },
            )
      ]
