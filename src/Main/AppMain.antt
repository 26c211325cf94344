-- ===== src/Main/AppMain.antt =====
-- firmware/main/app_main.c: the order in which the parts are brought up.
use wespe.Prelude.{
  ℕ, ◌/◌, ◌%◌, ◌^◌, Bool, not, Option, none, some, List, [], ◌∷◌, ltb, if◌then◌else◌, length,
}
use wespe.Mib.Registry.{Registry}
use wespe.Snmp.Types.{Version}
use wespe.Snmp.Security.{Security}
use wespe.Snmp.Trap.{trap_build}
use wespe.Transport.{TrapSender, no_traps, set_trap_destination, send_trap}
use wespe.Hal.Interfaces.{Hal}
use wespe.Device.Types.{Device}
use wespe.Device.Boot.{register_all}
use wespe.Device.Boot.Agent.{boot_security}

abbrev pub oid_cold_start : List ℕ
oid_cold_start = 1 ∷ 3 ∷ 6 ∷ 1 ∷ 6 ∷ 3 ∷ 1 ∷ 1 ∷ 5 ∷ 1 ∷ []

-- The CONFIG_WESPE_ texts that app_main reads.
pub record Config : Type 0 where
  pub ro_community : List ℕ
  pub rw_community : List ℕ
  pub trap_dest_ip : List ℕ

-- What app_main calls and ESP-IDF or lwIP answers: whether WiFi connects and the tasks start, the
-- initialisation of the drivers, and the functions of sockets.
pub record Environment (H Socket Address : Type 0) : Type 0 where
  pub wifi_connects : Bool
  pub sensor_init : H → Bool × H
  pub relay_init : H → Bool × H
  pub inet_pton : List ℕ → Option Address
  pub transport_starts : Bool
  pub opened : Option Socket
  pub sendto : Socket → Address → List ℕ → Option ℕ

-- The agent once it is up, and the traps that were sent on the way.
pub record Agent (H Socket Address : Type 0) : Type 0 where
  pub registry : Registry (Device H)
  pub device : Device H
  pub security : Security
  pub sender : TrapSender Socket Address
  pub sent : List (Address × List ℕ)

module _ {H Socket Address : Type 0} (hal : Hal H) (env : Environment H Socket Address)
    (config : Config) where
  unfoldable pub trap_sender : TrapSender Socket Address
  trap_sender =
      if ltb 0 (length config.trap_dest_ip)
      then (set_trap_destination (env.inet_pton config.trap_dest_ip) no_traps).1
      else no_traps

  unfoldable pub cold_start_packet : H → Option (List ℕ)
  cold_start_packet hardware =
      let uptime_hundredths = hal.uptime_ms hardware / 10 % 2 ^ 32 in
      trap_build Version.v2c config.ro_community uptime_hundredths oid_cold_start [] [] 128

  -- The coldStart trap, if it could be built; its OID is short enough to be copied.
  unfoldable pub announce :
      H → TrapSender Socket Address → TrapSender Socket Address × List (Address × List ℕ)
  unfolding cold_start_packet
  announce hardware sender = elim (cold_start_packet hardware) [
    | none ↦ (sender, [])
    | some packet ↦
        let (result, sender', sent) = send_trap env.sendto env.opened packet sender in
        if ltb 0 (length packet) then (sender', sent) else (sender, [])
  ]

  -- `none` where app_main halts.
  unfoldable pub app_main : H → Option (Agent H Socket Address)
  unfolding trap_sender announce
  app_main hardware =
      let after_sensor = (env.sensor_init hardware).1 in
      let after_relay = (env.relay_init after_sensor).1 in
      let (registry, device) = register_all hal after_relay in
      let (sender, sent) = announce after_relay trap_sender in
      if not env.wifi_connects
      then none
      else if not env.transport_starts
      then none
      else some (record {
        registry = registry;
        device = device;
        security = boot_security config.ro_community config.rw_community;
        sender = sender;
        sent = sent;
      })
