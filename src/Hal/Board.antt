-- ===== src/Hal/Board.antt =====
-- What the drivers of firmware/components/device_hal keep in static variables, and what ESP-IDF tells
-- them at the moment.
use wespe.Prelude.{ℕ, Bool, false, Option, none, List}

-- `uptime_us` is esp_timer_get_time(), `ap_rssi` the signal of the access point, if the station is
-- associated, and `mac` the address, if it can be read. The static variables follow, and the level of
-- the relay's pin.
pub record Board : Type 0 where
  pub uptime_us : ℕ
  pub free_heap : ℕ
  pub ap_rssi : Option ℕ
  pub mac : Option (List ℕ)
  pub relay_on : Bool
  pub relay_level : ℕ
  pub last_change_initialized : Bool
  pub last_oper_up : Bool
  pub last_change_ticks : ℕ
  pub have_reading : Bool
  pub last_decidegrees : ℕ

abbrev pub cold_board : Board
cold_board = record {
  uptime_us = 0;
  free_heap = 0;
  ap_rssi = none;
  mac = none;
  relay_on = false;
  relay_level = 0;
  last_change_initialized = false;
  last_oper_up = false;
  last_change_ticks = 0;
  have_reading = false;
  last_decidegrees = 0;
}
