-- ===== src/Snmp/Write/Set.antt =====
-- What a SetRequest does: firmware/components/snmp_core/snmp_pdu_set.c.
use wespe.Prelude.{ℕ, ◌≡◌, inl, inr, refl, arith, true, false, Bool-cases, All}
use wespe.Ber.Types.{Result, ok, err, bad_args, pdu_get_response}
use wespe.Mib.Registry.{Registry}
use wespe.Snmp.Types.{Ctx}
use wespe.Snmp.Errors.{no_error, gen_err}
use wespe.Snmp.Write.{
  is_readwrite, Outcome, all_done, failed, validate, apply, set_response, after_validate,
  handle_set,
}
use wespe.Snmp.Write.Validate.{Settable, Stops, validate-done, validate-Stops}
use wespe.Snmp.Write.Apply.{Sets, Breaks, apply-done, apply-Breaks}

module _ {D : Type 0} (reg : Registry D) where
  -- Every way in which a SetRequest ends.
  pub data SetOutcome (ctx : Ctx) (d : D) : Result (Ctx × D) → Type 0 where
    denied : is_readwrite ctx.access_mode ≡ false → SetOutcome ctx d (err bad_args)
    refused :
        (status index : ℕ)
        → is_readwrite ctx.access_mode ≡ true
        → Stops reg d ctx.varbinds status index
        → SetOutcome ctx d (
            ok (
              record ctx { pdu_tag = pdu_get_response; error_status = status; error_index = index },
              d,
            ))
    committed :
        (d' : D)
        → is_readwrite ctx.access_mode ≡ true
        → All (Settable reg d) ctx.varbinds
        → Sets reg d ctx.varbinds d'
        → SetOutcome ctx d (
            ok (
              record ctx { pdu_tag = pdu_get_response; error_status = no_error; error_index = 0 },
              d',
            ))
    broken :
        (index : ℕ) (d' : D)
        → is_readwrite ctx.access_mode ≡ true
        → All (Settable reg d) ctx.varbinds
        → Breaks reg d ctx.varbinds index d'
        → SetOutcome ctx d (
            ok (
              record ctx {
                pdu_tag = pdu_get_response;
                error_status = gen_err;
                error_index = index;
              },
              d',
            ))

  after_apply :
      (ctx : Ctx) (d : D) (result : Outcome × D)
      → is_readwrite ctx.access_mode ≡ true
      → All (Settable reg d) ctx.varbinds
      → apply reg d 0 ctx.varbinds ≡ result
      → SetOutcome ctx d (ok (set_response ctx result.0, result.1))
  after_apply ctx d (all_done, d') h all e =
      committed d' h all (apply-done reg d 0 ctx.varbinds d' e)
  after_apply ctx d (failed status index, d') h all e =
      let (k, place, general, breaks) = apply-Breaks reg d 0 ctx.varbinds status index d' e in
      let same : index ≡ k = omega arith in rw (general, same) (broken k d' h all breaks)

  after_pass1 :
      (ctx : Ctx) (d : D) (outcome : Outcome)
      → is_readwrite ctx.access_mode ≡ true
      → validate reg d 0 ctx.varbinds ≡ outcome
      → SetOutcome ctx d (ok (after_validate reg ctx d outcome))
  unfolding after_validate
  after_pass1 ctx d all_done h e =
      after_apply ctx d (apply reg d 0 ctx.varbinds) h (validate-done reg d 0 ctx.varbinds e) refl
  after_pass1 ctx d (failed status index) h e =
      let (k, place, stops) = validate-Stops reg d 0 ctx.varbinds status index e in
      let same : index ≡ k = omega arith in rw same (refused status k h stops)

  -- A SetRequest without read-write access is dropped with BER_ERR_BAD_ARGS. With it, the response
  -- has the request's varbinds, and one of three things has happened. A varbind is not settable: the
  -- device is as it was, error-index is the place of the first such varbind, and error-status its
  -- reason. Or all are settable and every setter returned MIB_OK, in order, and error-status is
  -- noError. Or all are settable and a setter failed: error-status is genErr, error-index is its
  -- place, and what was set before it stays set.
  pub handle_set-SetOutcome : (ctx : Ctx) (d : D) → SetOutcome ctx d (handle_set reg ctx d)
  unfolding handle_set
  handle_set-SetOutcome ctx d = elim (Bool-cases (is_readwrite ctx.access_mode)) [
    | inl may ↦ rw (handle_set, may) (after_pass1 ctx d (validate reg d 0 ctx.varbinds) may refl)
    | inr may_not ↦ rw (handle_set, may_not) (denied may_not)
  ]
