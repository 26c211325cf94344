-- ===== src/Snmp/Read.antt =====
-- firmware/components/snmp_core/snmp_pdu_get.c. `reg` is the registry, and `d` the state of the
-- device, which getters may change.
pub mod Response
pub mod Walk
pub mod Counter64
use wespe.Prelude.{
  ℕ, zero, suc, ◌+◌, Bool, true, false, ◌&&◌, Option, none, some, List, [], ◌∷◌, ◌==◌,
  if◌then◌else◌,
}
use wespe.Ber.Types.{Result, ok, err, pdu_get_response, tag_counter64}
use wespe.Mib.Types.{MibResult, Varbind, zeroed, Resolved, Lookup, found, miss}
use wespe.Mib.Registry.{Registry}
use wespe.Mib.Resolve.{registry_resolve, registry_resolve_next, resolved_get}
use wespe.Snmp.Types.{Version, is_v1, Ctx}
use wespe.Snmp.Errors.{Translation, error_translate, no_error}

pub data LookupMode : Type 0 where
  exact next : LookupMode

abbrev pub is_exact : LookupMode → Bool
is_exact LookupMode.exact = true
is_exact LookupMode.next = false

abbrev pub counter64_skip_guard : ℕ
counter64_skip_guard = 64

-- A read either goes through, or aborts the PDU with an error-status and an error-index.
pub data Verdict : Type 0 where
  proceed : Verdict
  abort : ℕ → ℕ → Verdict

-- What a varbind of the response is, for a lookup that does not abort.
abbrev pub answered : Varbind → Varbind → Translation → Varbind
answered request scratch tr =
    if tr.v2c_exception_tag == 0
    then scratch
    else record request { value_tag = tr.v2c_exception_tag; octets = [] }

-- The fields that every branch sets.
abbrev pub respond : Ctx → Verdict → List Varbind → Ctx
respond ctx proceed vbs = record ctx {
  pdu_tag = pdu_get_response;
  error_status = no_error;
  error_index = 0;
  varbinds = vbs;
}
respond ctx (abort status index) vbs = record ctx {
  pdu_tag = pdu_get_response;
  error_status = status;
  error_index = index;
  varbinds = vbs;
}

module _ {D : Type 0} (reg : Registry D) where
  -- `(mode == LOOKUP_EXACT) ? mib_registry_resolve(...) : mib_registry_resolve_next(...)`
  unfoldable pub resolve : LookupMode → D → List ℕ → Lookup D
  resolve LookupMode.exact d oid = registry_resolve reg d oid
  resolve LookupMode.next d oid = elim (registry_resolve_next reg d oid) [
    | some r ↦ found r
    | none ↦ miss MibResult.end_of_view
  ]

  -- The loop of lookup_and_fetch, with the rounds that the guard leaves; `current` is the OID of
  -- `current`, and the result comes with `out_vb` and the device state.
  unfoldable pub lookup_loop :
      ℕ → Version → LookupMode → List ℕ → Varbind → D → MibResult × Varbind × D
  lookup_loop zero version mode current out_vb d = (MibResult.gen_err, out_vb, d)
  lookup_loop (suc guard) version mode current out_vb d = elim (resolve mode d current) [
    | miss r ↦ (r, out_vb, d)
    | found r ↦
        let further = lookup_loop guard version mode r.oid out_vb d in
        if is_v1 version && r.value_tag == tag_counter64
        then if is_exact mode then (MibResult.no_such_object, out_vb, d) else further
        else resolved_get r d (record out_vb { oid = r.oid })
  ]

  unfoldable pub lookup_and_fetch :
      Version → LookupMode → Varbind → Varbind → D → MibResult × Varbind × D
  lookup_and_fetch version mode request_vb out_vb d =
      lookup_loop counter64_skip_guard version mode request_vb.oid out_vb d

  -- SNMPv1, pass 1: probe the varbinds from index `i` on.
  unfoldable pub probe_v1 : LookupMode → ℕ → List Varbind → D → Verdict × D
  probe_v1 mode i [] d = (proceed, d)
  probe_v1 mode i (vb ∷ vbs) d =
      let (res, scratch, d') = lookup_and_fetch Version.v1 mode vb zeroed d in
      let tr = error_translate Version.v1 res in
      let others = probe_v1 mode (i + 1) vbs d' in
      if tr.pdu_level_abort then (abort tr.v1_error_status (i + 1), d') else others

  -- SNMPv1, pass 2: look each up again, into the varbind itself.
  unfoldable pub commit_v1 : LookupMode → List Varbind → D → List Varbind × D
  commit_v1 mode [] d = ([], d)
  commit_v1 mode (vb ∷ vbs) d =
      let (res, vb', d') = lookup_and_fetch Version.v1 mode vb vb d in
      let (vbs', d'') = commit_v1 mode vbs d' in (vb' ∷ vbs', d'')

  -- The other versions: one pass over the varbinds from index `i` on. On an abort the varbinds before
  -- it have their answers, and it and those after it are as they came.
  unfoldable pub read_v2c : Version → LookupMode → ℕ → List Varbind → D → Verdict × List Varbind × D
  read_v2c version mode i [] d = (proceed, [], d)
  read_v2c version mode i (vb ∷ vbs) d =
      let (res, scratch, d') = lookup_and_fetch version mode vb zeroed d in
      let tr = error_translate version res in
      let (verdict, vbs', d'') = read_v2c version mode (i + 1) vbs d' in
      if tr.pdu_level_abort
      then (abort tr.v1_error_status (i + 1), vb ∷ vbs, d')
      else (verdict, answered vb scratch tr ∷ vbs', d'')

  unfoldable pub after_probe : LookupMode → Ctx → Verdict → D → Ctx × D
  after_probe mode ctx (abort status index) d = (respond ctx (abort status index) ctx.varbinds, d)
  after_probe mode ctx proceed d =
      let (vbs, d') = commit_v1 mode ctx.varbinds d in (respond ctx proceed vbs, d')

  -- process_read_pdu; it always returns BER_OK.
  unfoldable pub process_read_pdu : LookupMode → Ctx → D → Ctx × D
  unfolding after_probe
  process_read_pdu mode ctx d =
      let (verdict, d') = probe_v1 mode 0 ctx.varbinds d in
      let (verdict2, vbs, d2) = read_v2c ctx.version mode 0 ctx.varbinds d in
      if is_v1 ctx.version then after_probe mode ctx verdict d' else (respond ctx verdict2 vbs, d2)

  unfoldable pub handle_get : Ctx → D → Result (Ctx × D)
  handle_get ctx d = ok (process_read_pdu LookupMode.exact ctx d)

  unfoldable pub handle_getnext : Ctx → D → Result (Ctx × D)
  handle_getnext ctx d = ok (process_read_pdu LookupMode.next ctx d)
