-- ===== src/DevAgent/Agent.antt =====
-- main of tools/dev_agent/dev_agent.c. The arguments and the set-up of the socket are not modelled.
use wespe.Prelude.{ℕ, List, [], ◌∷◌, ◌==◌, if◌then◌else◌, length, take}
use wespe.Mib.Registry.{Registry, registry_reset, register_module, register_table}
use wespe.Snmp.Security.{Security, usm_stub_init, community_init}
use wespe.Snmp.Message.{message_process}
use wespe.Transport.{Received, failed, datagram, reply}
use wespe.DevAgent.Types.{DevAgent}
use wespe.DevAgent.Scalars.{mib_ii, mib_wespe}
use wespe.DevAgent.Interfaces.{initial_if_rows, iftable_scalars, iftable, ifxtable}
use wespe.DevAgent.Sensors.{initial_sensor_rows, wsensor_table}

abbrev pub max_packet_len : ℕ
max_packet_len = 1472

abbrev pub initial_agent : DevAgent
initial_agent = record {
  elapsed = 0;
  relay_on = 0;
  if_rows = initial_if_rows;
  sensor_rows = initial_sensor_rows;
}

unfoldable pub dev_registry : Registry DevAgent
dev_registry =
    let ii = (register_module mib_ii registry_reset).0 in
    let wespe = (register_module mib_wespe ii).0 in
    let scalars = (register_module iftable_scalars wespe).0 in
    let interfaces = (register_table iftable scalars).0 in
    let interfaces_x = (register_table ifxtable interfaces).0 in
    (register_table wsensor_table interfaces_x).0

-- "public" for reading, "private" for writing
unfoldable pub dev_security : Security
dev_security = usm_stub_init (
    community_init (112 ∷ 117 ∷ 98 ∷ 108 ∷ 105 ∷ 99 ∷ [])
      (112 ∷ 114 ∷ 105 ∷ 118 ∷ 97 ∷ 116 ∷ 101 ∷ [])
      (record { slots = []; communities = record { ro = []; rw = [] } }))

module _ {Peer : Type 0} where
  -- A round of the loop: recvfrom, snmp_message_process, sendto. What recvfrom brings comes as an
  -- event, and what sendto is given is a result.
  unfoldable pub agent_round : Received Peer → DevAgent → List (Peer × List ℕ) × DevAgent
  unfolding dev_registry dev_security
  agent_round failed d = ([], d)
  agent_round (datagram from bytes) d =
      let in_buf = take max_packet_len bytes in
      let (out_buf, d') = message_process dev_registry dev_security in_buf max_packet_len d in
      if length in_buf == 0 then ([], d) else (reply from out_buf, d')
