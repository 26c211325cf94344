-- ===== src/Snmp/Message/Bounds.antt =====
-- A response never overruns the caller's buffer: firmware/components/snmp_core/snmp_message.c.
use wespe.Prelude.{
  ℕ, ◌≤◌, ◌≡◌, inl, inr, sym, arith, ◌||◌, Bool-cases, some, Option-cases, List, [], ◌∷◌, ◌==◌,
  length, All,
}
use wespe.Ber.Types.{Result, Result-cases, ok, err}
use wespe.Mib.Registry.{Registry}
use wespe.Snmp.Types.{Ctx, zeroed_ctx}
use wespe.Snmp.Dispatch.{dispatch_pdu}
use wespe.Snmp.Security.{
  Model, Slot, Security, lookup_slot, security_lookup, community_model, usm_outgoing,
  usm_stub_model,
}
use wespe.Snmp.Security.Bounds.{community_outgoing_bounds}
use wespe.Snmp.Message.{sniff_version, accept, receive, send, answer, message_process}

-- A model whose datagrams fit the buffer they are written to.
abbrev pub IsBounded : Model → Type 0
IsBounded model =
    (ctx : Ctx) (room : ℕ) (bytes : List ℕ)
    → model.prepare_outgoing ctx room ≡ ok bytes
    → length bytes ≤ room

pub community_model-IsBounded : IsBounded community_model
community_model-IsBounded = community_outgoing_bounds

pub usm_stub_model-IsBounded : IsBounded usm_stub_model
unfolding usm_outgoing
usm_stub_model-IsBounded ctx room bytes e = absurd (ground arith)

lookup_slot-IsBounded :
    (slots : List Slot) (version : ℕ) (model : Model)
    → All (λ slot. IsBounded slot.model) slots
    → lookup_slot slots version ≡ some model
    → IsBounded model
unfolding lookup_slot
lookup_slot-IsBounded [] version model all e = absurd (ground arith)
lookup_slot-IsBounded (slot ∷ slots) version model (h, all) e =
    elim (Bool-cases (slot.version == version)) [
      | inl same ↦ let found_ : slot.model ≡ model = ground arith in rw (sym found_) h
      | inr other ↦ lookup_slot-IsBounded slots version model all (rw other at e)
    ]

module _ {D : Type 0} (reg : Registry D) where
  send_bounds :
      (model : Model) (out_cap : ℕ) (d : D) (result : Result (Ctx × D))
      → IsBounded model
      → length (send model out_cap d result).0 ≤ out_cap
  unfolding send
  send_bounds model out_cap d (err e) h = omega arith
  send_bounds model out_cap d (ok (ctx, d')) h =
      elim (Result-cases (model.prepare_outgoing ctx out_cap)) [
        | inl (bytes, e) ↦ rw (send, e) (h ctx out_cap bytes e)
        | inr (x, e) ↦ rw (send, e) (omega arith)
      ]

  answer_bounds :
      (sec : Security) (msg : List ℕ) (out_cap : ℕ) (d : D)
      → All (λ slot. IsBounded slot.model) sec.slots
      → length (answer reg out_cap d (receive sec msg)).0 ≤ out_cap
  unfolding answer receive accept security_lookup
  answer_bounds sec msg out_cap d all = elim (Result-cases (sniff_version msg)) [
    | inr (x, e) ↦ rw e (omega arith)
    | inl (version, e) ↦ elim (Option-cases (lookup_slot sec.slots version)) [
      | inl f ↦ rw (e, f) (omega arith)
      | inr (model, f) ↦
          elim (Result-cases (model.process_incoming sec.communities msg 0 zeroed_ctx)) [
            | inr (x, g) ↦ rw (e, f, g) (omega arith)
            | inl (ctx, g) ↦
                rw (e, f, g)
                  (send_bounds model out_cap d (dispatch_pdu reg ctx d)
                    (lookup_slot-IsBounded sec.slots version model all f))
          ]
    ]
  ]

  -- Whatever datagram comes in, what snmp_message_process returns fits the buffer of the caller, if
  -- each registered model keeps to the buffer that it is given (the two of this repository do).
  pub message_process_bounds :
      (sec : Security) (msg : List ℕ) (out_cap : ℕ) (d : D)
      → All (λ slot. IsBounded slot.model) sec.slots
      → length (message_process reg sec msg out_cap d).0 ≤ out_cap
  unfolding message_process
  message_process_bounds sec msg out_cap d all =
      elim (Bool-cases (length msg == 0 || out_cap == 0)) [
        | inl empty ↦ rw (message_process, empty) (omega arith)
        | inr some_room ↦ rw (message_process, some_room) (answer_bounds sec msg out_cap d all)
      ]
