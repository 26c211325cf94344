-- ===== src/Snmp/Bulk/InPlace.antt =====
-- firmware/components/snmp_core/snmp_pdu_getbulk.c, with the response written over the request.
use wespe.Prelude.{
  ℕ, zero, suc, ◌+◌, ◌-◌, Bool, true, false, ◌&&◌, not, Option, none, some, List, [], ◌∷◌, ◌++◌,
  ltb, leb, ◌==◌, if◌then◌else◌, length, take, drop, set, get_or,
}
use wespe.Ber.Types.{Result, ok, err, bad_tag, pdu_get_response, tag_end_of_mib_view}
use wespe.Mib.Types.{MibResult, Varbind, zeroed}
use wespe.Mib.Registry.{Registry}
use wespe.Snmp.Types.{Version, is_v2c, Ctx, max_varbinds}
use wespe.Snmp.Errors.{error_translate}
use wespe.Snmp.Bulk.{
  max_repeating_columns, Repeater, repeaters_of, getnext_into, advance, non_negative,
}

-- append_result: `array` is ctx->varbinds with all SNMP_MAX_VARBINDS entries, `count` is *resp_count;
-- `none` is its result 0.
unfoldable pub append_in_place :
    List Varbind → ℕ → Varbind → MibResult → Varbind → Option (List Varbind × ℕ)
append_in_place array count current res fetched =
    let tr = error_translate Version.v2c res in
    if leb max_varbinds count
    then none
    else if tr.pdu_level_abort
    then some (
      set array count (record current { value_tag = tag_end_of_mib_view; octets = [] }),
      count + 1,
    )
    else if tr.v2c_exception_tag == 0
    then some (set array count fetched, count + 1)
    else some (
      set array count (record current { value_tag = tr.v2c_exception_tag; octets = [] }),
      count + 1,
    )

-- The state of the handler: `full` is the jump to `done`.
pub record InPlace (D : Type 0) : Type 0 where
  pub array : List Varbind
  pub count : ℕ
  pub device : D
  pub full : Bool

-- The state after a call of append_result.
abbrev pub written : {D : Type 0} → Option (List Varbind × ℕ) → InPlace D → D → InPlace D
written none s d = record s { device = d; full = true }
written (some (array, count)) s d = record {
  array = array;
  count = count;
  device = d;
  full = false;
}

module _ {D : Type 0} (reg : Registry D) where
  -- The loop over the non-repeating varbinds from `i` on, `n` of them.
  unfoldable pub non_repeating_in_place : ℕ → ℕ → InPlace D → InPlace D
  non_repeating_in_place zero i s = s
  non_repeating_in_place (suc n) i s =
      let current = get_or s.array i zeroed in
      let (res, fetched, d) = getnext_into reg current zeroed s.device in
      let s' = written (append_in_place s.array s.count current res fetched) s d in
      let others = non_repeating_in_place n (i + 1) s' in if s'.full then s' else others

  -- The loop over the repeaters in one round; `any` is any_active.
  unfoldable pub round_in_place :
      List Repeater → Bool → InPlace D → List Repeater × Bool × InPlace D
  round_in_place [] any s = ([], any, s)
  round_in_place (r ∷ rs) any s =
      let (res, fetched, r', active, d) = advance reg r s.device in
      let s' = written (append_in_place s.array s.count r'.cursor res fetched) s d in
      let any' = if active then true else any in
      let (rs', any'', s'') = round_in_place rs any' s' in
      if s'.full then (r' ∷ rs, any', s') else (r' ∷ rs', any'', s'')

  -- The loop over the rounds, at most max_repetitions of them.
  unfoldable pub rounds_in_place : ℕ → List Repeater → InPlace D → InPlace D
  rounds_in_place zero rs s = s
  rounds_in_place (suc n) rs s =
      let (rs', any, s') = round_in_place rs false s in
      let others = rounds_in_place n rs' s' in if s'.full then s' else if any then others else s'

  -- `behind` is what the entries of ctx->varbinds hold that are not of the request. The cursors are
  -- copied after the non-repeating varbinds have been written.
  unfoldable pub handle_getbulk_in_place : List Varbind → Ctx → D → Result (Ctx × D)
  handle_getbulk_in_place behind ctx d =
      let total = length ctx.varbinds in
      let asked = non_negative ctx.error_status in
      let non_repeaters = if ltb total asked then total else asked in
      let max_repetitions = non_negative ctx.error_index in
      let rest = total - non_repeaters in
      let repeaters = if ltb max_repeating_columns rest then max_repeating_columns else rest in
      let s =
        non_repeating_in_place non_repeaters 0
          (record { array = ctx.varbinds ++ behind; count = 0; device = d; full = false }) in
      let rs = repeaters_of (take repeaters (drop non_repeaters s.array)) in
      let repeated = rounds_in_place max_repetitions rs s in
      let s' =
        if s.full then s else if ltb 0 repeaters && ltb 0 max_repetitions then repeated else s in
      if not (is_v2c ctx.version)
      then err bad_tag
      else ok (
        record ctx {
          varbinds = take s'.count s'.array;
          pdu_tag = pdu_get_response;
          error_status = 0;
          error_index = 0;
        },
        s'.device,
      )
