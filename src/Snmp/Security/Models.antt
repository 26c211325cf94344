-- ===== src/Snmp/Security/Models.antt =====
-- The table of security models, firmware/components/snmp_core/snmp_security.c.
use wespe.Prelude.{
  ℕ, ◌≤◌, ◌≡◌, ◌≢◌, ◌⊎◌, inl, inr, refl, sym, arith, false, Bool-cases, none, some, Option-cases,
  List, [], ◌∷◌, ◌++◌, ◌==◌, leb, if◌then◌else◌, length, length-append,
}
use wespe.Ber.Types.{ok, err, overflow}
use wespe.Snmp.Security.{
  Model, Slot, Security, security_max_models, overwrite, security_register, lookup_slot,
  security_lookup,
}

abbrev new_slot : ℕ → Model → Slot
new_slot version model = record { version = version; model = model }

-- What a lookup finds in `after` when the model was put in for the version.
abbrev Updates : ℕ → Model → List Slot → List Slot → Type 0
Updates version model before after =
    (lookup_slot after version ≡ some model)
    × ((v : ℕ) → v ≢ version → lookup_slot after v ≡ lookup_slot before v)

append-Updates :
    (version : ℕ) (model : Model) (slots : List Slot)
    → overwrite version model slots ≡ none
    → Updates version model slots (slots ++ (new_slot version model ∷ []))
unfolding overwrite lookup_slot
append-Updates version model [] e = (ground arith, λ v h. ground arith)
append-Updates version model (slot ∷ slots) e =
    elim (Option-cases (overwrite version model slots)) [
      | inl f ↦
          let (here, elsewhere) = append-Updates version model slots f in
          let other : (slot.version == version) ≡ false = ground arith in
          (rw other here, λ v h. rw (elsewhere v h) refl)
      | inr (rest, f) ↦ absurd (ground arith)
    ]

overwrite-Updates :
    (version : ℕ) (model : Model) (slots after : List Slot)
    → overwrite version model slots ≡ some after
    → Updates version model slots after × (length after ≡ length slots)
unfolding overwrite lookup_slot
overwrite-Updates version model [] after e = absurd (ground arith)
overwrite-Updates version model (slot ∷ slots) after e =
    elim (Bool-cases (slot.version == version)) [
      | inl same ↦
          let whole : new_slot slot.version model ∷ slots ≡ after = ground arith in
          rw (sym whole) ((ground arith, λ v h. ground arith), refl)
      | inr other ↦ elim (Option-cases (overwrite version model slots)) [
        | inl f ↦ absurd (ground arith)
        | inr (rest, f) ↦
            let whole : slot ∷ rest ≡ after = ground arith in
            let ((here, elsewhere), same_length) = overwrite-Updates version model slots rest f in
            rw (sym whole)
              ((rw other here, λ v h. rw (elsewhere v h) refl), omega (arith, same_length))
      ]
    ]

register-Updates :
    (version : ℕ) (model : Model) (sec after : Security)
    → security_register version model sec ≡ (after, ok tt)
    → Updates version model sec.slots after.slots × (after.communities ≡ sec.communities)
unfolding security_register
register-Updates version model sec after e =
    elim (Option-cases (overwrite version model sec.slots)) [
      | inl new ↦ elim (Bool-cases (leb security_max_models (length sec.slots))) [
        | inl full ↦ absurd (ground arith)
        | inr free ↦
            let slots : sec.slots ++ (new_slot version model ∷ []) ≡ after.slots = ground arith in
            let comms : after.communities ≡ sec.communities = ground arith in
            (rw (sym slots) (append-Updates version model sec.slots new), comms)
      ]
      | inr (rest, old) ↦
          let slots : rest ≡ after.slots = ground arith in
          let comms : after.communities ≡ sec.communities = ground arith in
          (rw (sym slots) (overwrite-Updates version model sec.slots rest old).0, comms)
    ]

-- After a registration that returns BER_OK, a lookup of its version finds the model, and a lookup of
-- any other version finds what it found before: a version is registered once, the later model in
-- place of the earlier.
pub security_register-lookup :
    (version : ℕ) (model : Model) (sec after : Security) (v : ℕ)
    → security_register version model sec ≡ (after, ok tt)
    → security_lookup after v ≡ (if v == version then some model else security_lookup sec v)
unfolding security_lookup
security_register-lookup version model sec after v e =
    let ((here, elsewhere), comms) = register-Updates version model sec after e in
    elim (Bool-cases (v == version)) [
      | inl same ↦ let v_version : v ≡ version = ground arith in rw (same, v_version) here
      | inr other ↦ rw other (elsewhere v (ground arith))
    ]

-- A table within SNMP_SECURITY_MAX_MODELS slots stays within them, and a registration that does not
-- return BER_OK changes nothing; it is refused with BER_ERR_OVERFLOW, and only when the table is full.
security_register_bounds :
    (version : ℕ) (model : Model) (sec : Security)
    → length sec.slots ≤ security_max_models
    → (length (security_register version model sec).0.slots ≤ security_max_models)
      × (((security_register version model sec).1 ≡ ok tt)
          ⊎ ((security_register version model sec ≡ (sec, err overflow))
              × (length sec.slots ≡ security_max_models)))
unfolding security_register
security_register_bounds version model sec h =
    elim (Option-cases (overwrite version model sec.slots)) [
      | inl new ↦ elim (Bool-cases (leb security_max_models (length sec.slots))) [
        | inl full ↦ rw (security_register, new, full) (h, inr (refl, ground arith))
        | inr free ↦
            rw (security_register, new, free)
              (ground (arith, length-append sec.slots (new_slot version model ∷ [])), inl refl)
      ]
      | inr (rest, old) ↦
          rw (security_register, old)
            (omega (arith, h, (overwrite-Updates version model sec.slots rest old).1), inl refl)
    ]
