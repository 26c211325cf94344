-- ===== src/Snmp/Write/Validate.antt =====
-- Pass 1 of firmware/components/snmp_core/snmp_pdu_set.c: no setter is called.
use wespe.Prelude.{
  ℕ, ◌+◌, ◌≡◌, ◌≢◌, ◌⊎◌, inl, inr, refl, ap, arith, true, false, Bool-cases, List, [], ◌∷◌, ◌++◌,
  length, All,
}
use wespe.Mib.Types.{MibResult, Varbind, Access, Resolved, Lookup, found, miss}
use wespe.Mib.Registry.{Registry}
use wespe.Mib.Resolve.{registry_resolve}
use wespe.Mib.Resolve.Exact.{IsMiss, registry_resolve-IsMiss}
use wespe.Snmp.Types.{Version}
use wespe.Snmp.Errors.{error_translate, translate_v1, no_error}
use wespe.Snmp.Bulk.{is_ok}
use wespe.Snmp.Write.{is_rw, all_done, failed, validate_one, validate}

-- The results that are not MIB_OK have an error-status of their own in SNMPv1.
failure_status :
    (res : MibResult)
    → is_ok res ≡ false
    → (error_translate Version.v1 res).v1_error_status ≢ no_error
unfolding error_translate translate_v1
failure_status MibResult.ok h = absurd (ground arith)
failure_status MibResult.no_such_object h = ground arith
failure_status MibResult.no_such_instance h = ground arith
failure_status MibResult.end_of_view h = ground arith
failure_status MibResult.wrong_type h = ground arith
failure_status MibResult.wrong_value h = ground arith
failure_status MibResult.not_writable h = ground arith
failure_status MibResult.gen_err h = ground arith

pub is_ok-ok : (res : MibResult) → is_ok res ≡ true → res ≡ MibResult.ok
is_ok-ok MibResult.ok h = refl
is_ok-ok MibResult.no_such_object h = absurd (ground arith)
is_ok-ok MibResult.no_such_instance h = absurd (ground arith)
is_ok-ok MibResult.end_of_view h = absurd (ground arith)
is_ok-ok MibResult.wrong_type h = absurd (ground arith)
is_ok-ok MibResult.wrong_value h = absurd (ground arith)
is_ok-ok MibResult.not_writable h = absurd (ground arith)
is_ok-ok MibResult.gen_err h = absurd (ground arith)

is_rw-rw : (access : Access) → is_rw access ≡ true → access ≡ Access.rw
is_rw-rw Access.rw h = refl
is_rw-rw Access.ro h = absurd (ground arith)

module _ {D : Type 0} (reg : Registry D) where
  -- A varbind that may be set: its OID is an instance that is writable and has the tag of its value.
  pub record Settable (d : D) (vb : Varbind) : Type 0 where
    pub instance_of : Resolved D
    pub resolves : registry_resolve reg d vb.oid ≡ found instance_of
    pub writable : instance_of.access ≡ Access.rw
    pub same_tag : vb.value_tag ≡ instance_of.value_tag

  -- A lookup finds the instance, or fails with a result that is not MIB_OK.
  pub Lookup-cases :
      (d : D) (oid : List ℕ)
      → ((r : Resolved D) × (registry_resolve reg d oid ≡ found r))
        ⊎ ((res : MibResult) × (registry_resolve reg d oid ≡ miss res) × (is_ok res ≡ false))
  Lookup-cases d oid = step (registry_resolve reg d oid) (registry_resolve-IsMiss reg d oid)
    where
      step :
          (l : Lookup D)
          → IsMiss l
          → ((r : Resolved D) × (l ≡ found r))
            ⊎ ((res : MibResult) × (l ≡ miss res) × (is_ok res ≡ false))
      step (found r) h = inl (r, refl)
      step (miss res) (inl e) = inr (res, refl, rw e refl)
      step (miss res) (inr e) = inr (res, refl, rw e refl)

  validate_one-Settable :
      (d : D) (vb : Varbind) → validate_one reg d vb ≡ MibResult.ok → Settable d vb
  unfolding validate_one
  validate_one-Settable d vb e = elim (Lookup-cases d vb.oid) [
    | inl (r, f) ↦
        let checks = rw (validate_one, f) at e in
        let rw_access : is_rw r.access ≡ true = ground arith in
        let tags : vb.value_tag ≡ r.value_tag = ground arith in
        record {
          instance_of = r;
          resolves = f;
          writable = is_rw-rw r.access rw_access;
          same_tag = tags;
        }
    | inr (res, f, bad) ↦ absurd (ground arith)
  ]

  -- Where pass 1 stopped.
  pub record Stops (d : D) (vbs : List Varbind) (status index : ℕ) : Type 0 where
    pub before : List Varbind
    pub bad : Varbind
    pub after : List Varbind
    pub split : vbs ≡ before ++ (bad ∷ after)
    pub position : index ≡ length before + 1
    pub settable : All (Settable d) before
    pub refused : validate_one reg d bad ≢ MibResult.ok
    pub reason : status ≡ (error_translate Version.v1 (validate_one reg d bad)).v1_error_status

  pub validate-done :
      (d : D) (i : ℕ) (vbs : List Varbind) → validate reg d i vbs ≡ all_done → All (Settable d) vbs
  unfolding validate
  validate-done d i [] e = tt
  validate-done d i (vb ∷ vbs) e = elim (Bool-cases (is_ok (validate_one reg d vb))) [
    | inl good ↦ (
      validate_one-Settable d vb (is_ok-ok (validate_one reg d vb) good),
      validate-done d (i + 1) vbs (rw good at e),
    )
    | inr bad ↦ absurd (ground arith)
  ]

  pub validate-Stops :
      (d : D) (i : ℕ) (vbs : List Varbind) (status index : ℕ)
      → validate reg d i vbs ≡ failed status index
      → (k : ℕ) × (index ≡ i + k) × Stops d vbs status k
  unfolding validate
  validate-Stops d i [] status index e = absurd (ground arith)
  validate-Stops d i (vb ∷ vbs) status index e = elim (Bool-cases (is_ok (validate_one reg d vb))) [
    | inl good ↦
        let accepted = is_ok-ok (validate_one reg d vb) good in
        let (k, place, stops) = validate-Stops d (i + 1) vbs status index (rw good at e) in
        (
          k + 1,
          omega arith,
          record {
            before = vb ∷ stops.before;
            bad = stops.bad;
            after = stops.after;
            split = ap (λ xs. vb ∷ xs) stops.split;
            position = omega (arith, stops.position);
            settable = (validate_one-Settable d vb accepted, stops.settable);
            refused = stops.refused;
            reason = stops.reason;
          },
        )
    | inr bad ↦
        let reason : status ≡ (error_translate Version.v1 (validate_one reg d vb)).v1_error_status =
          ground arith in
        let place : index ≡ i + 1 = ground arith in
        (
          1,
          place,
          record {
            before = [];
            bad = vb;
            after = vbs;
            split = refl;
            position = omega arith;
            settable = tt;
            refused = λ e. absurd (ground (arith, rw e at bad));
            reason = reason;
          },
        )
  ]
