-- ===== src/Monitor.antt =====
-- firmware/main/trap_monitor.c: the task that watches the relay and the temperature.
pub mod Changes
pub mod Hysteresis
use wespe.Prelude.{
  ℕ, ◌+◌, ◌-◌, ◌%◌, ◌^◌, Bool, true, false, not, ◌&&◌, Option, none, some, List, [], ◌∷◌, ◌++◌, ltb,
  length, if◌then◌else◌,
}
use wespe.Ber.Types.{tag_integer}
use wespe.Mib.Types.{Varbind, zeroed}
use wespe.Snmp.Types.{Version}
use wespe.Snmp.Trap.{trap_build}

abbrev pub oid_relay_change_trap : List ℕ
oid_relay_change_trap = 1 ∷ 3 ∷ 6 ∷ 1 ∷ 4 ∷ 1 ∷ 99999 ∷ 3 ∷ 1 ∷ []

abbrev pub oid_temp_threshold_trap : List ℕ
oid_temp_threshold_trap = 1 ∷ 3 ∷ 6 ∷ 1 ∷ 4 ∷ 1 ∷ 99999 ∷ 3 ∷ 2 ∷ []

abbrev pub oid_wespe_relay_state : List ℕ
oid_wespe_relay_state = 1 ∷ 3 ∷ 6 ∷ 1 ∷ 4 ∷ 1 ∷ 99999 ∷ 2 ∷ 2 ∷ 0 ∷ []

abbrev pub oid_wespe_temperature : List ℕ
oid_wespe_temperature = 1 ∷ 3 ∷ 6 ∷ 1 ∷ 4 ∷ 1 ∷ 99999 ∷ 2 ∷ 1 ∷ 0 ∷ []

-- The two settings, as bit patterns of int32_t.
pub record Config : Type 0 where
  pub threshold : ℕ
  pub hysteresis : ℕ

-- The variables that the loop keeps.
pub record Monitor : Type 0 where
  pub have_relay_baseline : Bool
  pub last_relay_on : Bool
  pub have_temp_baseline : Bool
  pub over_threshold : Bool

abbrev pub start : Monitor
start = record {
  have_relay_baseline = false;
  last_relay_on = false;
  have_temp_baseline = false;
  over_threshold = false;
}

-- What the drivers answer in one round; `none` is a failure.
pub record Reading : Type 0 where
  pub relay : Option Bool
  pub temperature : Option ℕ

pub data Notification : Type 0 where
  relay_change : Bool → Notification
  temp_threshold : ℕ → Notification

-- `a < b` on the bit patterns of int32_t.
abbrev pub signed_lt : ℕ → ℕ → Bool
signed_lt a b = ltb ((a + 2 ^ 31) % 2 ^ 32) ((b + 2 ^ 31) % 2 ^ 32)

-- `threshold - hysteresis`
abbrev pub clear_level : Config → ℕ
clear_level cfg = (cfg.threshold + (2 ^ 32 - cfg.hysteresis)) % 2 ^ 32

abbrev pub differs : Bool → Bool → Bool
differs true b = not b
differs false b = b

unfoldable pub poll_relay : Monitor → Option Bool → Monitor × List Notification
poll_relay m none = (m, [])
poll_relay m (some relay_on) =
    if not m.have_relay_baseline
    then (record m { last_relay_on = relay_on; have_relay_baseline = true }, [])
    else if differs relay_on m.last_relay_on
    then (record m { last_relay_on = relay_on }, relay_change relay_on ∷ [])
    else (m, [])

unfoldable pub poll_temperature : Config → Monitor → Option ℕ → Monitor × List Notification
poll_temperature cfg m none = (m, [])
poll_temperature cfg m (some decidegrees) =
    let at_least = not (signed_lt decidegrees cfg.threshold) in
    if not m.have_temp_baseline
    then (record m { over_threshold = at_least; have_temp_baseline = true }, [])
    else if not m.over_threshold && at_least
    then (record m { over_threshold = true }, temp_threshold decidegrees ∷ [])
    else if m.over_threshold && signed_lt decidegrees (clear_level cfg)
    then (record m { over_threshold = false }, [])
    else (m, [])

-- One round of the loop.
unfoldable pub poll : Config → Monitor → Reading → Monitor × List Notification
poll cfg m reading =
    let (m', changes) = poll_relay m reading.relay in
    let (m'', crossings) = poll_temperature cfg m' reading.temperature in
    (m'', changes ++ crossings)

unfoldable pub monitor : Config → Monitor → List Reading → Monitor × List Notification
monitor cfg m [] = (m, [])
monitor cfg m (reading ∷ readings) =
    let (m', now) = poll cfg m reading in
    let (m'', later) = monitor cfg m' readings in (m'', now ++ later)

-- The packet that send_trap hands to the transport, none where it could not be built; the OIDs of
-- these traps are short enough to be copied.
abbrev pub handed_over : Option (List ℕ) → Option (List ℕ)
handed_over none = none
handed_over (some packet) = if ltb 0 (length packet) then some packet else none

unfoldable pub send_trap : List ℕ → ℕ → Notification → Option (List ℕ)
send_trap community uptime (relay_change relay_on) = handed_over (
    trap_build Version.v2c community uptime oid_relay_change_trap []
      (record zeroed {
        oid = oid_wespe_relay_state;
        value_tag = tag_integer;
        int_value = if relay_on then 1 else 0;
      }
        ∷ [])
      256)
send_trap community uptime (temp_threshold decidegrees) = handed_over (
    trap_build Version.v2c community uptime oid_temp_threshold_trap []
      (record zeroed {
        oid = oid_wespe_temperature;
        value_tag = tag_integer;
        int_value = decidegrees;
      }
        ∷ [])
      256)
