-- ===== src/Main/Provisioning.antt =====
-- firmware/main/wifi_provisioning.c: the handler of WiFi events, and the wait for its verdict.
pub mod Verdict
use wespe.Prelude.{
  ℕ, ◌+◌, Bool, true, false, ◌||◌, Option, none, some, List, [], ◌∷◌, ltb, if◌then◌else◌,
}

abbrev pub max_retry : ℕ
max_retry = 10

-- The events that the handler tells apart.
pub data Event : Type 0 where
  sta_start sta_disconnected sta_got_ip other : Event

-- s_retry_count, the two bits of s_event_group, and how often esp_wifi_connect was called.
pub record Wifi : Type 0 where
  pub retry_count : ℕ
  pub connected_bit : Bool
  pub fail_bit : Bool
  pub connects : ℕ

abbrev pub cold_wifi : Wifi
cold_wifi = record { retry_count = 0; connected_bit = false; fail_bit = false; connects = 0 }

unfoldable pub event_handler : Event → Wifi → Wifi
event_handler sta_start w = record w { connects = w.connects + 1 }
event_handler sta_disconnected w =
    if ltb w.retry_count max_retry
    then record w { connects = w.connects + 1; retry_count = w.retry_count + 1 }
    else record w { fail_bit = true }
event_handler sta_got_ip w = record w { retry_count = 0; connected_bit = true }
event_handler other w = w

-- The end of wifi_provisioning_connect_blocking, as events come in: it waits until one of the bits is
-- set. 0 is `true`, and `none` means that it still waits.
unfoldable pub connect_blocking : List Event → Wifi → Option Bool
unfolding event_handler
connect_blocking [] w = none
connect_blocking (event ∷ events) w =
    let w' = event_handler event w in
    let later = connect_blocking events w' in
    if w'.connected_bit || w'.fail_bit then some w'.connected_bit else later
