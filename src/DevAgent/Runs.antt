-- ===== src/DevAgent/Runs.antt =====
-- The agent of tools/dev_agent/dev_agent.c from its start on.
use wespe.Prelude.{
  ℕ, ◌+◌, ◌≤◌, ◌==◌, Bool-cases, inl, inr, List, [], ◌++◌, length, take, All, All-append,
}
use wespe.Mib.Resolve.Instances.{resolved_get-Gets, resolved_set-Sets}
use wespe.Snmp.Security.{Slot, usm_stub_init, community_init, security_register, overwrite}
use wespe.Snmp.Message.Bounds.{
  IsBounded, message_process_bounds, community_model-IsBounded, usm_stub_model-IsBounded,
}
use wespe.Snmp.Keeps.{IsKept}
use wespe.Snmp.Keeps.Message.{message_process-keeps}
use wespe.Transport.Replies.{reply-FitsIn}
use wespe.Transport.{Received, failed, datagram}
use wespe.DevAgent.Types.{DevAgent}
use wespe.DevAgent.Agent.{max_packet_len, initial_agent, dev_registry, dev_security, agent_round}
use wespe.DevAgent.Valid.{
  IsValid, registered, dev_registry-registered, initial_agent-IsValid, AllGet-IsValid,
  AllSet-IsValid,
}
use wespe.DevAgent.Served.{registered-AllSorted, registered-IsTable}

dev_security-IsBounded : All (λ (slot : Slot). IsBounded slot.model) dev_security.slots
unfolding dev_security security_register overwrite usm_stub_init community_init
dev_security-IsBounded =
    (community_model-IsBounded, (community_model-IsBounded, (usm_stub_model-IsBounded, tt)))

registered-IsKept : IsKept registered IsValid
registered-IsKept = record {
  sorted = registered-AllSorted;
  tables = λ d v. registered-IsTable d v.interfaces;
  gets = λ d r vb v m.
      resolved_get-Gets (λ d vb out. IsValid d → IsValid out.2) registered AllGet-IsValid d r m d vb
        v;
  sets = λ d r vb v m.
      resolved_set-Sets (λ d vb out. IsValid d → IsValid out.1) registered AllSet-IsValid d r m d vb
        v;
}

pub dev_registry-IsKept : IsKept dev_registry IsValid
dev_registry-IsKept = rw dev_registry-registered registered-IsKept

module _ {Peer : Type 0} where
  -- The states that are reached, and what was sent: seconds pass between rounds of the loop.
  pub data Runs : DevAgent → List (Peer × List ℕ) → Type 0 where
    start : Runs initial_agent []
    pass :
        {d : DevAgent} {sent : List (Peer × List ℕ)} (seconds : ℕ)
        → Runs d sent
        → Runs (record d { elapsed = d.elapsed + seconds }) sent
    serve :
        {d : DevAgent} {sent : List (Peer × List ℕ)} (event : Received Peer)
        → Runs d sent
        → Runs (agent_round event d).1 (sent ++ (agent_round event d).0)

  -- A datagram that is sent has at least one byte, and fits the buffer.
  abbrev pub Fits : Peer × List ℕ → Type 0
  Fits p = (1 ≤ length p.1) × (length p.1 ≤ max_packet_len)

  round-keeps :
      (event : Received Peer) (d : DevAgent)
      → IsValid d
      → IsValid (agent_round event d).1 × All Fits (agent_round event d).0
  unfolding agent_round
  round-keeps failed d v = (v, tt)
  round-keeps (datagram from bytes) d v =
      let msg = take max_packet_len bytes in
      let kept =
        message_process-keeps dev_registry IsValid dev_registry-IsKept dev_security msg
          max_packet_len d v in
      let fits =
        message_process_bounds dev_registry dev_security msg max_packet_len d
          dev_security-IsBounded in
      elim (Bool-cases (length msg == 0)) [
        | inl nothing ↦ rw nothing (v, tt)
        | inr some ↦ rw some (kept, reply-FitsIn max_packet_len from _ fits)
      ]

  -- In every state that the agent reaches, whatever it receives and whenever: both tables of
  -- interfaces and the table of sensors have their rows 1 and 2, each label leaves room for its NUL,
  -- each counter of readings is a uint64_t, the relay is on or off, and every datagram that was sent
  -- has at least one byte and no more than MAX_PACKET_LEN.
  pub Runs-KeepsValid :
      {d : DevAgent} {sent : List (Peer × List ℕ)} → Runs d sent → IsValid d × All Fits sent
  Runs-KeepsValid start = (initial_agent-IsValid, tt)
  Runs-KeepsValid (pass seconds runs) =
      let (v, fits) = Runs-KeepsValid runs in
      (
        record {
          interfaces = v.interfaces;
          sensors = v.sensors;
          sensors_fit = v.sensors_fit;
          relay = v.relay;
        },
        fits,
      )
  Runs-KeepsValid (serve {d} {sent} event runs) =
      let (v, fits) = Runs-KeepsValid runs in
      let (v', fits') = round-keeps event d v in
      (v', All-append Fits sent (agent_round event d).0 fits fits')
