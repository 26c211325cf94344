-- ===== src/Snmp/Keeps/Bulk.antt =====
-- GetBulk: firmware/components/snmp_core/snmp_pdu_getbulk.c.
use wespe.Prelude.{
  ltb, length, take, drop, ◌-◌, ◌&&◌, ℕ, zero, suc, Bool, true, false, inl, inr, Bool-cases, Option,
  Option-cases, none, some, List, [], ◌∷◌, if◌then◌else◌,
}
use wespe.Ber.Types.{Result, ok, err}
use wespe.Mib.Types.{Varbind, zeroed}
use wespe.Mib.Registry.{Registry}
use wespe.Mib.Resolve.{registry_resolve_next}
use wespe.Mib.Resolve.Next.{registry_resolve_next-IsNext}
use wespe.Snmp.Types.{is_v2c, Ctx}
use wespe.Snmp.Bulk.{
  non_negative, max_repeating_columns, repeaters_of, Bulk, Repeater, getnext_into, append_result,
  appended, non_repeating, advance, round, rounds, handle_getbulk, is_ok,
}
use wespe.Snmp.Keeps.{IsKept}

module _ {D : Type 0} (reg : Registry D) (P : D → Type 0) (k : IsKept reg P) where
  getnext_into-keeps : (current vb : Varbind) (d : D) → P d → P (getnext_into reg current vb d).2
  unfolding getnext_into
  getnext_into-keeps current vb d p =
      let next = registry_resolve_next-IsNext reg d current.oid k.sorted (k.tables d p) in
      elim (Option-cases (registry_resolve_next reg d current.oid)) [
        | inl e ↦ rw (getnext_into, e) p
        | inr (r, e) ↦
            rw (getnext_into, e) (k.gets d r (record vb { oid = r.oid }) p (rw e at next).0)
      ]

  appended-keeps :
      (r : Option (List Varbind)) (resp : List Varbind) (d : D) → P d → P (appended r resp d).device
  appended-keeps none resp d p = p
  appended-keeps (some resp') resp d p = p

  non_repeating-keeps :
      (vbs : List Varbind) (b : Bulk D) → P b.device → P (non_repeating reg vbs b).device
  unfolding non_repeating
  non_repeating-keeps [] b p = p
  non_repeating-keeps (vb ∷ vbs) b p =
      let (res, fetched, d) = getnext_into reg vb zeroed b.device in
      let b' = appended (append_result b.resp vb res fetched) b.resp d in
      let kept =
        appended-keeps (append_result b.resp vb res fetched) b.resp d
          (getnext_into-keeps vb zeroed b.device p) in
      elim (Bool-cases b'.full) [
        | inl full ↦ rw full kept
        | inr room ↦ rw room (non_repeating-keeps vbs b' kept)
      ]

  advance-keeps : (r : Repeater) (d : D) → P d → P (advance reg r d).4
  unfolding advance
  advance-keeps r d p =
      let (res, fetched, d') = getnext_into reg r.cursor zeroed d in
      let kept = getnext_into-keeps r.cursor zeroed d p in
      elim (Bool-cases r.exhausted) [
        | inl out ↦ rw (advance, out) p
        | inr live ↦ elim (Bool-cases (is_ok res)) [
          | inl good ↦ rw (advance, live, good) kept
          | inr bad ↦ rw (advance, live, bad) kept
        ]
      ]

  round-keeps :
      (rs : List Repeater) (any : Bool) (b : Bulk D) → P b.device → P (round reg rs any b).2.device
  unfolding round
  round-keeps [] any b p = p
  round-keeps (r ∷ rs) any b p =
      let (res, fetched, r', active, d) = advance reg r b.device in
      let step = append_result b.resp r'.cursor res fetched in
      let b' = appended step b.resp d in
      let any' = if active then true else any in
      let kept = appended-keeps step b.resp d (advance-keeps r b.device p) in
      elim (Bool-cases b'.full) [
        | inl full ↦ rw full kept
        | inr room ↦ rw room (round-keeps rs any' b' kept)
      ]

  rounds-keeps :
      (n : ℕ) (rs : List Repeater) (b : Bulk D) → P b.device → P (rounds reg n rs b).device
  unfolding rounds
  rounds-keeps zero rs b p = p
  rounds-keeps (suc n) rs b p =
      let (rs', any, b') = round reg rs false b in
      let kept = round-keeps rs false b p in
      elim (Bool-cases b'.full) [
        | inl full ↦ rw full kept
        | inr room ↦ elim (Bool-cases any) [
          | inl active ↦ rw (room, active) (rounds-keeps n rs' b' kept)
          | inr idle ↦ rw (room, idle) kept
        ]
      ]

  -- What the device is after a handler, if it does not drop the request.
  abbrev pub Keeps : Result (Ctx × D) → Type 0
  Keeps (ok (ctx, d)) = P d
  Keeps (err e) = Unit

  choose-keeps :
      (b repeated : Bulk D) (c : Bool)
      → P b.device
      → P repeated.device
      → P (if b.full then b else if c then repeated else b).device
  choose-keeps b repeated c p q = elim (Bool-cases b.full) [
    | inl full ↦ rw full p
    | inr room ↦ elim (Bool-cases c) [ inl e ↦ rw (room, e) q | inr e ↦ rw (room, e) p ]
  ]

  pub getbulk-Keeps : (ctx : Ctx) (d : D) → P d → Keeps (handle_getbulk reg ctx d)
  unfolding handle_getbulk
  getbulk-Keeps ctx d p =
      let total = length ctx.varbinds in
      let asked = non_negative ctx.error_status in
      let non_repeaters = if ltb total asked then total else asked in
      let max_repetitions = non_negative ctx.error_index in
      let rest = total - non_repeaters in
      let repeaters = if ltb max_repeating_columns rest then max_repeating_columns else rest in
      let start : Bulk D = record { resp = []; device = d; full = false } in
      let b = non_repeating reg (take non_repeaters ctx.varbinds) start in
      let rs = repeaters_of (take repeaters (drop non_repeaters ctx.varbinds)) in
      let kept = non_repeating-keeps (take non_repeaters ctx.varbinds) start p in
      elim (Bool-cases (is_v2c ctx.version)) [
        | inl two ↦ rw two (
            choose-keeps b (rounds reg max_repetitions rs b)
              (ltb 0 repeaters && ltb 0 max_repetitions) kept
              (rounds-keeps max_repetitions rs b kept))
        | inr other ↦ rw other tt
      ]
