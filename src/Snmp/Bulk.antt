-- ===== src/Snmp/Bulk.antt =====
-- firmware/components/snmp_core/snmp_pdu_getbulk.c.
pub mod Bounds
pub mod InPlace
pub mod Embed
pub mod Overwrite
use wespe.Prelude.{
  ℕ, zero, suc, ◌+◌, ◌-◌, Bool, true, false, ◌&&◌, not, Option, none, some, List, [], ◌∷◌, ◌++◌,
  ltb, leb, ◌==◌, if◌then◌else◌, length, take, drop, is_negative,
}
use wespe.Ber.Types.{Result, ok, err, bad_tag, pdu_get_response, tag_end_of_mib_view}
use wespe.Mib.Types.{MibResult, Varbind, zeroed, Resolved}
use wespe.Mib.Registry.{Registry}
use wespe.Mib.Resolve.{registry_resolve_next, resolved_get}
use wespe.Snmp.Types.{Version, is_v2c, Ctx, max_varbinds}
use wespe.Snmp.Errors.{Translation, error_translate}

abbrev pub max_repeating_columns : ℕ
max_repeating_columns = 16

-- append_result: `none` is its result 0, at a response that is full. The response is a list of its
-- own here; Bulk/InPlace writes it over the request's varbinds.
unfoldable pub append_result : List Varbind → Varbind → MibResult → Varbind → Option (List Varbind)
append_result resp current res fetched =
    let tr = error_translate Version.v2c res in
    if leb max_varbinds (length resp)
    then none
    else if tr.pdu_level_abort
    then some (resp ++ (record current { value_tag = tag_end_of_mib_view; octets = [] } ∷ []))
    else if tr.v2c_exception_tag == 0
    then some (resp ++ (fetched ∷ []))
    else some (resp ++ (record current { value_tag = tr.v2c_exception_tag; octets = [] } ∷ []))

abbrev pub is_ok : MibResult → Bool
is_ok MibResult.ok = true
is_ok _ = false

-- cursor[r] and exhausted[r].
pub record Repeater : Type 0 where
  pub cursor : Varbind
  pub exhausted : Bool

abbrev pub start_repeater : Varbind → Repeater
start_repeater vb = record { cursor = vb; exhausted = false }

-- `cursor[r] = ctx->varbinds[non_repeaters + r]`, with `exhausted` all zero.
unfoldable pub repeaters_of : List Varbind → List Repeater
repeaters_of [] = []
repeaters_of (vb ∷ vbs) = start_repeater vb ∷ repeaters_of vbs

-- The state of the handler: `full` is the jump to `done`.
pub record Bulk (D : Type 0) : Type 0 where
  pub resp : List Varbind
  pub device : D
  pub full : Bool

-- The state after a call of append_result.
abbrev pub appended : {D : Type 0} → Option (List Varbind) → List Varbind → D → Bulk D
appended none resp d = record { resp = resp; device = d; full = true }
appended (some resp') resp d = record { resp = resp'; device = d; full = false }

-- `n < 0 ? 0 : (size_t)n`
abbrev pub non_negative : ℕ → ℕ
non_negative n = if is_negative n then 0 else n

module _ {D : Type 0} (reg : Registry D) where
  unfoldable pub getnext_into : Varbind → Varbind → D → MibResult × Varbind × D
  getnext_into current out_vb d = elim (registry_resolve_next reg d current.oid) [
    | none ↦ (MibResult.end_of_view, out_vb, d)
    | some r ↦ resolved_get r d (record out_vb { oid = r.oid })
  ]

  -- The loop over the non-repeating varbinds.
  unfoldable pub non_repeating : List Varbind → Bulk D → Bulk D
  non_repeating [] b = b
  non_repeating (vb ∷ vbs) b =
      let (res, fetched, d) = getnext_into vb zeroed b.device in
      let b' = appended (append_result b.resp vb res fetched) b.resp d in
      let others = non_repeating vbs b' in if b'.full then b' else others

  -- One repeater in one round: what is looked up, the repeater after it, and whether it was active.
  unfoldable pub advance : Repeater → D → MibResult × Varbind × Repeater × Bool × D
  advance r d =
      let (res, fetched, d') = getnext_into r.cursor zeroed d in
      if r.exhausted
      then (MibResult.end_of_view, zeroed, r, false, d)
      else if is_ok res
      then (res, fetched, record { cursor = fetched; exhausted = false }, true, d')
      else (res, fetched, record { cursor = r.cursor; exhausted = true }, false, d')

  -- The loop over the repeaters in one round; `any` is any_active.
  unfoldable pub round : List Repeater → Bool → Bulk D → List Repeater × Bool × Bulk D
  round [] any b = ([], any, b)
  round (r ∷ rs) any b =
      let (res, fetched, r', active, d) = advance r b.device in
      let b' = appended (append_result b.resp r'.cursor res fetched) b.resp d in
      let any' = if active then true else any in
      let (rs', any'', b'') = round rs any' b' in
      if b'.full then (r' ∷ rs, any', b') else (r' ∷ rs', any'', b'')

  -- The loop over the rounds, at most max_repetitions of them.
  unfoldable pub rounds : ℕ → List Repeater → Bulk D → Bulk D
  rounds zero rs b = b
  rounds (suc n) rs b =
      let (rs', any, b') = round rs false b in
      let others = rounds n rs' b' in if b'.full then b' else if any then others else b'

  unfoldable pub handle_getbulk : Ctx → D → Result (Ctx × D)
  handle_getbulk ctx d =
      let total = length ctx.varbinds in
      let asked = non_negative ctx.error_status in
      let non_repeaters = if ltb total asked then total else asked in
      let max_repetitions = non_negative ctx.error_index in
      let rest = total - non_repeaters in
      let repeaters = if ltb max_repeating_columns rest then max_repeating_columns else rest in
      let b =
        non_repeating (take non_repeaters ctx.varbinds)
          (record { resp = []; device = d; full = false }) in
      let rs = repeaters_of (take repeaters (drop non_repeaters ctx.varbinds)) in
      let repeated = rounds max_repetitions rs b in
      let b' =
        if b.full then b else if ltb 0 repeaters && ltb 0 max_repetitions then repeated else b in
      if not (is_v2c ctx.version)
      then err bad_tag
      else ok (
        record ctx {
          varbinds = b'.resp;
          pdu_tag = pdu_get_response;
          error_status = 0;
          error_index = 0;
        },
        b'.device,
      )
