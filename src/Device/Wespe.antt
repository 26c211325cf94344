-- ===== src/Device/Wespe.antt =====
-- The objects of WESPE-MIB: firmware/components/mib/mib_wespe.c.
use wespe.Prelude.{ℕ, ◌/◌, ◌%◌, ◌^◌, ◌&&◌, not, none, some, List, [], ◌∷◌, ◌==◌, if◌then◌else◌}
use wespe.Ber.Types.{tag_integer, tag_gauge32}
use wespe.Mib.Types.{MibResult, Access, Getter, Setter, Object}
use wespe.Mib.Registry.{Registry, register_module}
use wespe.Hal.Interfaces.{Hal}
use wespe.Device.Types.{Device, with_integer, get_integer}

abbrev pub oid_wespe_temperature : List ℕ
oid_wespe_temperature = 1 ∷ 3 ∷ 6 ∷ 1 ∷ 4 ∷ 1 ∷ 99999 ∷ 2 ∷ 1 ∷ 0 ∷ []

abbrev pub oid_wespe_relay_state : List ℕ
oid_wespe_relay_state = 1 ∷ 3 ∷ 6 ∷ 1 ∷ 4 ∷ 1 ∷ 99999 ∷ 2 ∷ 2 ∷ 0 ∷ []

abbrev pub oid_wespe_uptime_seconds : List ℕ
oid_wespe_uptime_seconds = 1 ∷ 3 ∷ 6 ∷ 1 ∷ 4 ∷ 1 ∷ 99999 ∷ 2 ∷ 3 ∷ 0 ∷ []

abbrev pub oid_wespe_free_heap : List ℕ
oid_wespe_free_heap = 1 ∷ 3 ∷ 6 ∷ 1 ∷ 4 ∷ 1 ∷ 99999 ∷ 2 ∷ 4 ∷ 0 ∷ []

abbrev pub oid_wespe_wifi_rssi : List ℕ
oid_wespe_wifi_rssi = 1 ∷ 3 ∷ 6 ∷ 1 ∷ 4 ∷ 1 ∷ 99999 ∷ 2 ∷ 5 ∷ 0 ∷ []

module _ {H : Type 0} (hal : Hal H) where
  unfoldable pub get_temperature : Getter (Device H)
  get_temperature = get_integer hal.sensor_read_temperature

  unfoldable pub get_relay_state : Getter (Device H)
  get_relay_state d vb = elim (hal.relay_get_state d.hardware) [
    | none ↦ (MibResult.gen_err, vb, d)
    | some on ↦ (MibResult.ok, with_integer (if on then 1 else 0) vb, d)
  ]

  unfoldable pub set_relay_state : Setter (Device H)
  set_relay_state d vb =
      let (done, hardware) = hal.relay_set_state (vb.int_value == 1) d.hardware in
      if not (vb.value_tag == tag_integer)
      then (MibResult.wrong_type, d)
      else if not (vb.int_value == 0) && not (vb.int_value == 1)
      then (MibResult.wrong_value, d)
      else (if done then MibResult.ok else MibResult.gen_err, record d { hardware = hardware })

  unfoldable pub get_uptime_seconds : Getter (Device H)
  get_uptime_seconds d vb =
      let seconds = hal.uptime_ms d.hardware / 1000 in
      (MibResult.ok, record vb { value_tag = tag_gauge32; int_value = seconds % 2 ^ 32 }, d)

  unfoldable pub get_free_heap : Getter (Device H)
  get_free_heap d vb = (
    MibResult.ok,
    record vb { value_tag = tag_gauge32; int_value = hal.free_heap_bytes d.hardware },
    d,
  )

  unfoldable pub get_wifi_rssi : Getter (Device H)
  get_wifi_rssi = get_integer hal.wifi_rssi_dbm

  abbrev pub mib_wespe_objects : List (Object (Device H))
  mib_wespe_objects =
      record {
        oid = oid_wespe_temperature;
        value_tag = tag_integer;
        access = Access.ro;
        getter = get_temperature;
        setter = none;
      }
      ∷ record {
        oid = oid_wespe_relay_state;
        value_tag = tag_integer;
        access = Access.rw;
        getter = get_relay_state;
        setter = some set_relay_state;
      }
      ∷ record {
        oid = oid_wespe_uptime_seconds;
        value_tag = tag_gauge32;
        access = Access.ro;
        getter = get_uptime_seconds;
        setter = none;
      }
      ∷ record {
        oid = oid_wespe_free_heap;
        value_tag = tag_gauge32;
        access = Access.ro;
        getter = get_free_heap;
        setter = none;
      }
      ∷ record {
        oid = oid_wespe_wifi_rssi;
        value_tag = tag_integer;
        access = Access.ro;
        getter = get_wifi_rssi;
        setter = none;
      }
      ∷ []

  unfoldable pub mib_wespe_register : Registry (Device H) → Registry (Device H)
  mib_wespe_register reg = (register_module mib_wespe_objects reg).0
