-- ===== src/Snmp/Message.antt =====
-- firmware/components/snmp_core/snmp_message.c: one datagram in, at most one out.
pub mod Access
pub mod Bounds
pub mod Credentials
pub mod Exchange
use wespe.Prelude.{
  ℕ, ◌+◌, Bool, true, false, ◌||◌, not, Option, none, some, List, [], ◌∷◌, ◌==◌, if◌then◌else◌,
  length,
}
use wespe.Ber.Types.{Result, ok, err, ◌>>=◌, ◌>>◌, bad_tag, bad_args, tag_sequence}
use wespe.Ber.Decode.{decode_tlv, decode_integer_field}
use wespe.Mib.Registry.{Registry}
use wespe.Snmp.Types.{Ctx, zeroed_ctx}
use wespe.Snmp.Dispatch.{dispatch_pdu}
use wespe.Snmp.Security.{Security, Model, security_lookup}

-- The outer SEQUENCE and msgVersion.
unfoldable pub sniff_version : List ℕ → Result ℕ
sniff_version msg = do
  top ← decode_tlv 0 msg
  if not (top.tag == tag_sequence)
      then err bad_tag
      else do (version, p) ← decode_integer_field 1 top.value; ok version

-- The request, once the model for its version is looked up; a status other than BER_OK drops it.
unfoldable pub accept : Security → List ℕ → Option Model → Result (Model × Ctx)
accept sec msg none = err bad_args
accept sec msg (some model) =
    model.process_incoming sec.communities msg 0 zeroed_ctx >>= λ ctx. ok (model, ctx)

unfoldable pub receive : Security → List ℕ → Result (Model × Ctx)
receive sec msg = do version ← sniff_version msg; accept sec msg (security_lookup sec version)

-- The response to a request that was handled, and the device state after it; `[]` is the result 0.
unfoldable pub send : {D : Type 0} → Model → ℕ → D → Result (Ctx × D) → List ℕ × D
send model out_cap d (err e) = ([], d)
send model out_cap d (ok (ctx, d')) = elim (model.prepare_outgoing ctx out_cap) [
  | err e ↦ ([], d')
  | ok bytes ↦ (bytes, d')
]

module _ {D : Type 0} (reg : Registry D) where
  unfoldable pub answer : ℕ → D → Result (Model × Ctx) → List ℕ × D
  unfolding send
  answer out_cap d (err e) = ([], d)
  answer out_cap d (ok (model, ctx)) = send model out_cap d (dispatch_pdu reg ctx d)

  -- snmp_message_process: the bytes written to `out`, none where it returns 0.
  unfoldable pub message_process : Security → List ℕ → ℕ → D → List ℕ × D
  unfolding answer
  message_process sec msg out_cap d =
      if length msg == 0 || out_cap == 0 then ([], d) else answer out_cap d (receive sec msg)
