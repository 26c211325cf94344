-- ===== src/Snmp/Keeps/Message.antt =====
-- Set, the dispatcher and a whole exchange: snmp_pdu_set.c, snmp_dispatch.c and snmp_message.c of
-- firmware/components/snmp_core.
use wespe.Prelude.{ℕ, ◌+◌, ◌||◌, inl, inr, Bool-cases, List, [], ◌∷◌, ◌==◌, length}
use wespe.Ber.Types.{
  Result, ok, err, pdu_get_request, pdu_get_next_request, pdu_set_request, pdu_get_bulk_request,
}
use wespe.Mib.Types.{Varbind}
use wespe.Mib.Registry.{Registry}
use wespe.Mib.Resolve.{registry_resolve}
use wespe.Mib.Resolve.Instances.{Lookup-cases}
use wespe.Snmp.Types.{Ctx}
use wespe.Snmp.Read.{LookupMode, resolve, handle_get, handle_getnext}
use wespe.Snmp.Bulk.{is_ok}
use wespe.Snmp.Write.{
  is_readwrite, Outcome, all_done, failed, validate, apply_one, apply, after_validate, handle_set,
}
use wespe.Snmp.Dispatch.{dispatch_pdu}
use wespe.Snmp.Security.{Security, Model}
use wespe.Snmp.Message.{message_process, answer, send, receive}
use wespe.Snmp.Keeps.{IsKept, resolve-IsInstance}
use wespe.Snmp.Keeps.Read.{read_pdu-keeps}
use wespe.Snmp.Keeps.Bulk.{Keeps, getbulk-Keeps}

module _ {D : Type 0} (reg : Registry D) (P : D → Type 0) (k : IsKept reg P) where
  apply_one-keeps : (d : D) (vb : Varbind) → P d → P (apply_one reg d vb).1
  unfolding apply_one resolve
  apply_one-keeps d vb p = elim (Lookup-cases (registry_resolve reg d vb.oid)) [
    | inr (res, e) ↦ rw (apply_one, e) p
    | inl (r, e) ↦
        rw (apply_one, e)
          (k.sets d r vb p (resolve-IsInstance reg P k LookupMode.exact d vb.oid r p e))
  ]

  apply-keeps : (d : D) (i : ℕ) (vbs : List Varbind) → P d → P (apply reg d i vbs).1
  unfolding apply
  apply-keeps d i [] p = p
  apply-keeps d i (vb ∷ vbs) p =
      let (res, d') = apply_one reg d vb in
      let kept = apply_one-keeps d vb p in
      elim (Bool-cases (is_ok res)) [
        | inl good ↦ rw good (apply-keeps d' (i + 1) vbs kept)
        | inr bad ↦ rw bad kept
      ]

  after_validate-keeps :
      (ctx : Ctx) (d : D) (outcome : Outcome) → P d → P (after_validate reg ctx d outcome).1
  unfolding after_validate
  after_validate-keeps ctx d (failed status index) p = p
  after_validate-keeps ctx d all_done p = apply-keeps d 0 ctx.varbinds p

  set-Keeps : (ctx : Ctx) (d : D) → P d → Keeps reg P k (handle_set reg ctx d)
  unfolding handle_set
  set-Keeps ctx d p = elim (Bool-cases (is_readwrite ctx.access_mode)) [
    | inl may ↦ rw (handle_set, may) (after_validate-keeps ctx d (validate reg d 0 ctx.varbinds) p)
    | inr may_not ↦ rw (handle_set, may_not) tt
  ]

  dispatch-Keeps : (ctx : Ctx) (d : D) → P d → Keeps reg P k (dispatch_pdu reg ctx d)
  unfolding dispatch_pdu handle_get handle_getnext
  dispatch-Keeps ctx d p = elim (Bool-cases (ctx.pdu_tag == pdu_get_request)) [
    | inl get ↦ rw (dispatch_pdu, get) (read_pdu-keeps reg P k LookupMode.exact ctx d p)
    | inr a ↦ elim (Bool-cases (ctx.pdu_tag == pdu_get_next_request)) [
      | inl next ↦ rw (dispatch_pdu, a, next) (read_pdu-keeps reg P k LookupMode.next ctx d p)
      | inr b ↦ elim (Bool-cases (ctx.pdu_tag == pdu_set_request)) [
        | inl set ↦ rw (dispatch_pdu, a, b, set) (set-Keeps ctx d p)
        | inr c ↦ elim (Bool-cases (ctx.pdu_tag == pdu_get_bulk_request)) [
          | inl bulk ↦ rw (dispatch_pdu, a, b, c, bulk) (getbulk-Keeps reg P k ctx d p)
          | inr other ↦ rw (dispatch_pdu, a, b, c, other) tt
        ]
      ]
    ]
  ]

  send-keeps :
      (model : Model) (out_cap : ℕ) (d : D) (r : Result (Ctx × D))
      → P d
      → Keeps reg P k r
      → P (send model out_cap d r).1
  unfolding send
  send-keeps model out_cap d (err e) p q = p
  send-keeps model out_cap d (ok (ctx, d')) p q = by_bytes (model.prepare_outgoing ctx out_cap)
    where
      by_bytes :
          (r : Result (List ℕ))
          → P (elim r as (λ x. List ℕ × D) [ err e ↦ ([], d') | ok bytes ↦ (bytes, d') ]).1
      by_bytes (err e) = q
      by_bytes (ok bytes) = q

  answer-keeps :
      (out_cap : ℕ) (d : D) (r : Result (Model × Ctx)) → P d → P (answer reg out_cap d r).1
  unfolding answer
  answer-keeps out_cap d (err e) p = p
  answer-keeps out_cap d (ok (model, ctx)) p =
      send-keeps model out_cap d (dispatch_pdu reg ctx d) p (dispatch-Keeps ctx d p)

  -- Whatever the datagram is, one call of snmp_message_process keeps every property of the device that
  -- each getter and each setter of the registry keeps, and under which the registry is well-formed.
  pub message_process-keeps :
      (sec : Security) (msg : List ℕ) (out_cap : ℕ) (d : D)
      → P d
      → P (message_process reg sec msg out_cap d).1
  unfolding message_process
  message_process-keeps sec msg out_cap d p = elim (Bool-cases (length msg == 0 || out_cap == 0)) [
    | inl nothing ↦ rw (message_process, nothing) p
    | inr some ↦ rw (message_process, some) (answer-keeps out_cap d (receive sec msg) p)
  ]
