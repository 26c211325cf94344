-- ===== src/Checks/Device.antt =====
-- The firmware's objects over the drivers of firmware/components/device_hal, on small inputs.
use wespe.Prelude.{
  ℕ, ◌≤◌, ◌<◌, ◌^◌, ◌≡◌, ◌↔◌, refl, arith, true, false, some, List, [], ◌∷◌, ◌++◌, length, All,
}
use wespe.Ber.Types.{tag_octet_string}
use wespe.Mib.Types.{MibResult, Varbind, zeroed, Resolved}
use wespe.Mib.Registry.Sorted.{AllSorted}
use wespe.Mib.Resolve.Next.{IsTable, IsInstance}
use wespe.Mib.Resolve.Rows.{From}
use wespe.Mib.Resolve.Walk.{walk, Covers}
use wespe.Transport.{Received, datagram, udp_round}
use wespe.Hal.Interfaces.{Hal}
use wespe.Hal.Board.{Board, cold_board}
use wespe.Hal.Sysinfo.{sysinfo_esp32}
use wespe.Hal.Relays.{relay_mock}
use wespe.Hal.Mock.{sensor_mock, mock_count}
use wespe.Device.Types.{Device, with_octets}
use wespe.Device.System.{
  get_sys_contact, set_sys_contact, get_sys_name, set_sys_name, get_sys_location, set_sys_location,
}
use wespe.Device.System.Strings.{IsStringField, strings-IsStringField}
use wespe.Device.Sensors.{
  sensor_row_exists, sensor_first_index, sensor_next_index, sensor_get_cell, sensor_set_cell,
}
use wespe.Device.Sensors.Rows.{sensor_rows}
use wespe.Device.Sensors.Labels.{label_text, set_label-ReadsBack}
use wespe.Device.Boot.{initial_device, register_all}
use wespe.Device.Boot.Registered.{firmware}
use wespe.Device.Boot.Slots.{IsValid}
use wespe.Device.Boot.Served.{ServesType, register_all-KeepsContract}
use wespe.Device.Boot.Walk.{firmware-walk_ends}
use wespe.Device.Boot.Agent.{Runs, boot, elapse, serve, Fits, boot_security, Runs-IsValid}
use wespe.Checks.Fixtures.{public_text, private_text}

-- The build with mock drivers.
abbrev mock : Hal Board
mock = record { relay = relay_mock; sensor = sensor_mock false; sysinfo = sysinfo_esp32 }

abbrev mock_device : Device Board
mock_device = initial_device cold_board

three : mock_count false cold_board ≡ 3
unfolding mock_count
three = refl

-- Two seconds after boot, a GetRequest for sysServices in the community "public".
abbrev later : Device Board
later = record (register_all mock cold_board).1 {
  hardware = record cold_board { uptime_us = 2000000 };
}

abbrev request : List ℕ
request =
    48 ∷ 38 ∷ 2 ∷ 1 ∷ 1 ∷ 4 ∷ 6 ∷ 112 ∷ 117 ∷ 98 ∷ 108 ∷ 105 ∷ 99 ∷ 160 ∷ 25 ∷ 2 ∷ 1 ∷ 7 ∷ 2 ∷ 1 ∷ 0
    ∷ 2 ∷ 1 ∷ 0 ∷ 48 ∷ 14 ∷ 48 ∷ 12 ∷ 6 ∷ 8 ∷ 43 ∷ 6 ∷ 1 ∷ 2 ∷ 1 ∷ 1 ∷ 7 ∷ 0 ∷ 5 ∷ 0 ∷ []

abbrev heard : Received ℕ
heard = datagram 7 request

abbrev outcome : List (ℕ × List ℕ) × Device Board
outcome =
    udp_round (register_all mock cold_board).0 (boot_security public_text private_text) heard later

run : Runs mock cold_board public_text private_text outcome.1 ([] ++ outcome.0)
run = serve heard (elapse (record cold_board { uptime_us = 2000000 }) boot)

mock_bounded : (b : Board) → mock_count false b ≤ 4
unfolding mock_count
mock_bounded b = omega arith

Runs-IsValid_example :
    IsValid outcome.1
    × All (Fits {Peer = ℕ} mock cold_board public_text private_text) ([] ++ outcome.0)
Runs-IsValid_example = Runs-IsValid mock cold_board public_text private_text mock_bounded run

register_all-KeepsContract_example :
    AllSorted (register_all mock cold_board).0.modules
    × ((d : Device Board) → All (λ t. IsTable t d) (register_all mock cold_board).0.tables)
    × ((d : Device Board) (r : Resolved (Device Board))
        → IsInstance (register_all mock cold_board).0 d r
        → ServesType r)
    × (length (register_all mock cold_board).0.modules ≡ 3)
    × (length (register_all mock cold_board).0.tables ≡ 3)
register_all-KeepsContract_example = register_all-KeepsContract mock cold_board

few : mock_count false cold_board ≤ 4
unfolding mock_count
few = omega arith

firmware-walk_ends_example :
    (rs : List (Resolved (Device Board))) × (walk 48 (firmware mock) mock_device (1 ∷ 3 ∷ [])
      ≡ some rs)
    × Covers (firmware mock) mock_device (1 ∷ 3 ∷ []) rs
firmware-walk_ends_example = firmware-walk_ends mock mock_device (1 ∷ 3 ∷ []) few

word : mock_count false cold_board < 2 ^ 32
unfolding mock_count
word = omega arith

sensor_rows_example :
    From (sensor_next_index mock mock_device) 2 (sensor_first_index mock mock_device)
    ↔ ((1 ≤ 2) × (2 ≤ mock_count false cold_board))
sensor_rows_example = sensor_rows mock mock_device 2 word

strings-IsStringField_example :
    IsStringField {H = Board} get_sys_contact set_sys_contact
    × IsStringField {H = Board} get_sys_name set_sys_name
    × IsStringField {H = Board} get_sys_location set_sys_location
strings-IsStringField_example = strings-IsStringField Board

-- "attic", for the second sensor.
abbrev attic : Varbind
attic = record zeroed { value_tag = tag_octet_string; octets = 97 ∷ 116 ∷ 116 ∷ 105 ∷ 99 ∷ [] }

labelled : (sensor_set_cell mock 2 2 mock_device attic).0 ≡ MibResult.ok
unfolding sensor_set_cell mock_count
labelled = refl

present : sensor_row_exists mock mock_device 3 ≡ true
unfolding mock_count
present = refl

set_label-ReadsBack_example :
    ((sensor_get_cell mock 2 3 (sensor_set_cell mock 2 2 mock_device attic).1 zeroed).0
      ≡ MibResult.ok)
    × ((sensor_get_cell mock 2 3 (sensor_set_cell mock 2 2 mock_device attic).1 zeroed).1
        ≡ with_octets (label_text mock 3 []) zeroed)
set_label-ReadsBack_example =
    set_label-ReadsBack mock 2 3 mock_device attic zeroed refl few present labelled
