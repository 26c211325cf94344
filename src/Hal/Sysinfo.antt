-- ===== src/Hal/Sysinfo.antt =====
-- firmware/components/device_hal/sysinfo_esp32.c.
pub mod LastChange
use wespe.Prelude.{ℕ, ◌/◌, ◌%◌, ◌^◌, Bool, true, false, not, Option, none, some, if◌then◌else◌}
use wespe.Hal.Interfaces.{Sysinfo}
use wespe.Hal.Board.{Board}

abbrev pub sysinfo_uptime_ms : Board → ℕ
sysinfo_uptime_ms b = b.uptime_us / 1000

-- Associated, in that esp_wifi_sta_get_ap_info succeeds.
abbrev pub sysinfo_wifi_oper_up : Board → Bool
sysinfo_wifi_oper_up b = elim b.ap_rssi [ none ↦ false | some rssi ↦ true ]

abbrev pub same_state : Bool → Bool → Bool
same_state true b = b
same_state false b = not b

unfoldable pub sysinfo_wifi_last_change_ticks : Board → ℕ × Board
sysinfo_wifi_last_change_ticks b =
    let up = sysinfo_wifi_oper_up b in
    let now = (sysinfo_uptime_ms b / 10) % 2 ^ 32 in
    if not b.last_change_initialized
    then (0, record b { last_change_initialized = true; last_oper_up = up })
    else if not (same_state up b.last_oper_up)
    then (now, record b { last_oper_up = up; last_change_ticks = now })
    else (b.last_change_ticks, b)

abbrev pub sysinfo_esp32 : Sysinfo Board
sysinfo_esp32 = record {
  uptime_ms = sysinfo_uptime_ms;
  free_heap_bytes = λ b. b.free_heap % 2 ^ 32;
  wifi_rssi_dbm = λ b. b.ap_rssi;
  wifi_mac = λ b. b.mac;
  wifi_oper_up = sysinfo_wifi_oper_up;
  wifi_last_change_ticks = sysinfo_wifi_last_change_ticks;
}
