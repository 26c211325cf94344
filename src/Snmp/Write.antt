-- ===== src/Snmp/Write.antt =====
-- firmware/components/snmp_core/snmp_pdu_set.c.
pub mod Validate
pub mod Apply
pub mod Set
use wespe.Prelude.{ℕ, zero, suc, ◌+◌, Bool, true, false, not, List, [], ◌∷◌, ◌==◌, if◌then◌else◌}
use wespe.Ber.Types.{Result, ok, err, bad_args, pdu_get_response}
use wespe.Mib.Types.{MibResult, Varbind, Access, Resolved, Lookup, found, miss}
use wespe.Mib.Registry.{Registry}
use wespe.Mib.Resolve.{registry_resolve, resolved_set}
use wespe.Snmp.Types.{Version, AccessMode, Ctx}
use wespe.Snmp.Errors.{Translation, error_translate, no_error, gen_err}
use wespe.Snmp.Bulk.{is_ok}

abbrev pub is_rw : Access → Bool
is_rw Access.ro = false
is_rw Access.rw = true

abbrev pub is_readwrite : AccessMode → Bool
is_readwrite AccessMode.none = false
is_readwrite AccessMode.read = false
is_readwrite AccessMode.readwrite = true

-- How far a pass got: to the end, or to a varbind with an error-status and its error-index.
pub data Outcome : Type 0 where
  all_done : Outcome
  failed : ℕ → ℕ → Outcome

-- The response; its varbinds are those of the request.
abbrev pub set_response : Ctx → Outcome → Ctx
set_response ctx all_done = record ctx {
  pdu_tag = pdu_get_response;
  error_status = no_error;
  error_index = 0;
}
set_response ctx (failed status index) = record ctx {
  pdu_tag = pdu_get_response;
  error_status = status;
  error_index = index;
}

module _ {D : Type 0} (reg : Registry D) where
  -- What pass 1 finds out about one varbind.
  unfoldable pub validate_one : D → Varbind → MibResult
  validate_one d vb = elim (registry_resolve reg d vb.oid) [
    | miss r ↦ r
    | found r ↦
        if not (is_rw r.access)
        then MibResult.not_writable
        else if not (vb.value_tag == r.value_tag)
        then MibResult.wrong_type
        else MibResult.ok
  ]

  -- Pass 1, from index `i` on: no setter is called.
  unfoldable pub validate : D → ℕ → List Varbind → Outcome
  validate d i [] = all_done
  validate d i (vb ∷ vbs) =
      let res = validate_one d vb in
      let tr = error_translate Version.v1 res in
      let others = validate d (i + 1) vbs in
      if is_ok res then others else failed tr.v1_error_status (i + 1)

  unfoldable pub apply_one : D → Varbind → MibResult × D
  apply_one d vb = elim (registry_resolve reg d vb.oid) [
    | miss r ↦ (r, d)
    | found r ↦ resolved_set r d vb
  ]

  -- Pass 2, from index `i` on. What was set before a failure stays set.
  unfoldable pub apply : D → ℕ → List Varbind → Outcome × D
  apply d i [] = (all_done, d)
  apply d i (vb ∷ vbs) =
      let (res, d') = apply_one d vb in
      let others = apply d' (i + 1) vbs in
      if is_ok res then others else (failed gen_err (i + 1), d')

  unfoldable pub after_validate : Ctx → D → Outcome → Ctx × D
  after_validate ctx d (failed status index) = (set_response ctx (failed status index), d)
  after_validate ctx d all_done =
      let (outcome, d') = apply d 0 ctx.varbinds in (set_response ctx outcome, d')

  unfoldable pub handle_set : Ctx → D → Result (Ctx × D)
  unfolding after_validate
  handle_set ctx d =
      if not (is_readwrite ctx.access_mode)
      then err bad_args
      else ok (after_validate ctx d (validate d 0 ctx.varbinds))
