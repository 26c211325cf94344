-- ===== src/Hal/Interfaces.antt =====
-- The interfaces of the drivers: relay.h, sensor.h and sysinfo.h of
-- firmware/components/device_hal/include, over a state `H` of the hardware and of the drivers. A
-- result through a pointer is `some` where the call returns 0, and `none` where it fails; an int32_t
-- is its bit pattern.
use wespe.Prelude.{ℕ, Bool, Option, List}

abbrev pub sensor_max_count : ℕ
sensor_max_count = 4

pub record Relay (H : Type 0) : Type 0 where
  pub relay_get_state : H → Option Bool
  pub relay_set_state : Bool → H → Bool × H

pub record Sensor (H : Type 0) : Type 0 where
  pub sensor_read_temperature : H → Option ℕ
  pub sensor_count : H → ℕ
  pub sensor_read_indexed : ℕ → H → Option ℕ

-- sysinfo_wifi_last_change_ticks keeps what it last saw.
pub record Sysinfo (H : Type 0) : Type 0 where
  pub uptime_ms : H → ℕ
  pub free_heap_bytes : H → ℕ
  pub wifi_rssi_dbm : H → Option ℕ
  pub wifi_mac : H → Option (List ℕ)
  pub wifi_oper_up : H → Bool
  pub wifi_last_change_ticks : H → ℕ × H

pub record Hal (H : Type 0) : Type 0 where
  pub relay : Relay H
  pub open relay use *
  pub sensor : Sensor H
  pub open sensor use *
  pub sysinfo : Sysinfo H
  pub open sysinfo use *
