-- ===== src/Device/Boot/Valid.antt =====
-- The static variables of the MIB modules stay inside their arrays: mib_ii.c, mib_wespe.c, mib_iftable.c
-- and mib_sensor_table.c of firmware/components/mib.
use wespe.Prelude.{ℕ, ◌≤◌, refl, arith, inl, inr, Option, Option-cases}
use wespe.Mib.Types.{Varbind}
use wespe.Mib.Resolve.Instances.{AllGet, AllSet}
use wespe.Hal.Interfaces.{Hal, sensor_max_count}
use wespe.Device.Types.{Device, get_integer}
use wespe.Device.System.{
  get_sys_descr, get_sys_object_id, get_sys_uptime, get_sys_contact, set_sys_contact, get_sys_name,
  set_sys_name, get_sys_location, set_sys_location, get_sys_services,
}
use wespe.Device.Wespe.{
  get_temperature, get_relay_state, set_relay_state, get_uptime_seconds, get_free_heap,
  get_wifi_rssi,
}
use wespe.Device.Interfaces.{get_if_number, iftable_get_cell, ifxtable_get_cell}
use wespe.Device.Sensors.{mib_sensor_table_register}
use wespe.Device.Boot.{register_all}
use wespe.Device.Boot.Slots.{IsValid, sensor_get-IsValid, sensor_set-IsValid}
use wespe.Device.Boot.Registered.{firmware}

module _ {H : Type 0} where
  set_contact-IsValid : (d : Device H) (vb : Varbind) → IsValid d → IsValid (set_sys_contact d vb).1
  unfolding set_sys_contact
  set_contact-IsValid d vb v = ground arith

  set_name-IsValid : (d : Device H) (vb : Varbind) → IsValid d → IsValid (set_sys_name d vb).1
  unfolding set_sys_name
  set_name-IsValid d vb v = ground arith

  set_location-IsValid :
      (d : Device H) (vb : Varbind) → IsValid d → IsValid (set_sys_location d vb).1
  unfolding set_sys_location
  set_location-IsValid d vb v = ground arith

  with_hardware : (d : Device H) (h : H) → IsValid d → IsValid (record d { hardware = h })
  with_hardware d h v = ground arith

module _ {H : Type 0} (hal : Hal H) where
  get_integer-IsValid :
      (driver : H → Option ℕ) (d : Device H) (vb : Varbind)
      → IsValid d
      → IsValid (get_integer driver d vb).2
  get_integer-IsValid driver d vb v = elim (Option-cases (driver d.hardware)) [
    | inl e ↦ rw (e, get_integer) v
    | inr (n, e) ↦ rw (e, get_integer) v
  ]

  get_relay-IsValid :
      (d : Device H) (vb : Varbind) → IsValid d → IsValid (get_relay_state hal d vb).2
  unfolding get_relay_state
  get_relay-IsValid d vb v = elim (Option-cases (hal.relay_get_state d.hardware)) [
    | inl e ↦ rw (get_relay_state, e) v
    | inr (n, e) ↦ rw (get_relay_state, e) v
  ]

  set_relay-IsValid :
      (d : Device H) (vb : Varbind) → IsValid d → IsValid (set_relay_state hal d vb).1
  unfolding set_relay_state
  set_relay-IsValid d vb v = ground arith

  iftable-IsValid :
      (column index : ℕ) (d : Device H) (vb : Varbind)
      → IsValid d
      → IsValid (iftable_get_cell hal column index d vb).2
  unfolding iftable_get_cell
  iftable-IsValid column index d vb v = ground arith

  ifxtable-IsValid :
      (column index : ℕ) (d : Device H) (vb : Varbind)
      → IsValid d
      → IsValid (ifxtable_get_cell column index d vb).2
  unfolding ifxtable_get_cell
  ifxtable-IsValid column index d vb v = ground arith

  module _ (bounded : (h : H) → hal.sensor_count h ≤ sensor_max_count) where
    pub AllGet-IsValid : AllGet (λ d vb out. IsValid d → IsValid out.2) (firmware hal)
    unfolding get_sys_descr get_sys_object_id get_sys_uptime get_sys_contact get_sys_name
        get_sys_location get_sys_services get_temperature get_uptime_seconds get_free_heap
        get_wifi_rssi get_if_number
    AllGet-IsValid = (
      (
        (
          λ d vb v. v,
          (
            λ d vb v. v,
            (λ d vb v. v, (λ d vb v. v, (λ d vb v. v, (λ d vb v. v, (λ d vb v. v, tt))))),
          ),
        ),
        (
          (
            get_integer-IsValid hal.sensor_read_temperature,
            (
              get_relay-IsValid,
              (λ d vb v. v, (λ d vb v. v, (get_integer-IsValid hal.wifi_rssi_dbm, tt))),
            ),
          ),
          ((λ d vb v. v, tt), tt),
        ),
      ),
      (iftable-IsValid, (ifxtable-IsValid, (sensor_get-IsValid hal bounded, tt))),
    )

    pub AllSet-IsValid : AllSet (λ d vb out. IsValid d → IsValid out.1) (firmware hal)
    AllSet-IsValid = (
      (
        (
          λ d vb v. v,
          (
            λ d vb v. v,
            (
              λ d vb v. v,
              (set_contact-IsValid, (set_name-IsValid, (set_location-IsValid, (λ d vb v. v, tt)))),
            ),
          ),
        ),
        (
          (λ d vb v. v, (set_relay-IsValid, (λ d vb v. v, (λ d vb v. v, (λ d vb v. v, tt))))),
          ((λ d vb v. v, tt), tt),
        ),
      ),
      (λ d vb v. v, (λ d vb v. v, (sensor_set-IsValid hal bounded, tt))),
    )

  pub register_all-IsValid : (hardware : H) → IsValid (register_all hal hardware).1
  unfolding register_all mib_sensor_table_register
  register_all-IsValid hardware = record {
    contact_fits = omega arith;
    name_fits = omega arith;
    location_fits = omega arith;
    labels_count = refl;
    labels_fit = omega arith;
    counters_count = refl;
    counters_fit = omega arith;
    inside = refl;
  }
