-- ===== src/Device/Boot/Registered.antt =====
-- The registry after boot keeps to the contract of mib_tree.h and mib_table.h: firmware/main/app_main.c
-- and the register functions of firmware/components/mib.
use wespe.Prelude.{◌≡◌, refl, arith, [], ◌∷◌, All}
use wespe.Mib.Registry.{Registry, registry_reset, register_module, register_table}
use wespe.Mib.Registry.Sorted.{AllSorted}
use wespe.Mib.Resolve.Next.{IsTable}
use wespe.Hal.Interfaces.{Hal}
use wespe.Device.Types.{Device}
use wespe.Mib.Oid.{oid_compare, oid_compare-Compares}
use wespe.Device.System.{
  oid_sys_descr, oid_sys_object_id, oid_sys_uptime, oid_sys_contact, oid_sys_name, oid_sys_location,
  oid_sys_services, mib_ii_objects, mib_ii_register,
}
use wespe.Device.Wespe.{
  oid_wespe_temperature, oid_wespe_relay_state, oid_wespe_uptime_seconds, oid_wespe_free_heap,
  oid_wespe_wifi_rssi, mib_wespe_objects, mib_wespe_register,
}
use wespe.Device.Interfaces.{iftable_scalars, iftable, ifxtable, mib_iftable_register}
use wespe.Device.Sensors.{sensor_table, mib_sensor_table_register}
use wespe.Device.Sensors.Rows.{sensor_next_index-IsAscending, sensor_first_index-IsU32}
use wespe.Device.Boot.{register_all}

module _ {H : Type 0} (hal : Hal H) where
  -- All that the modules offer.
  abbrev pub firmware : Registry (Device H)
  firmware = record {
    modules = mib_ii_objects hal ∷ mib_wespe_objects hal ∷ iftable_scalars ∷ [];
    tables = iftable hal ∷ ifxtable ∷ sensor_table hal ∷ [];
  }

  -- No registration finds the registry full.
  pub register_all-firmware : (hardware : H) → (register_all hal hardware).0 ≡ firmware
  unfolding register_all mib_ii_register mib_wespe_register mib_iftable_register
      mib_sensor_table_register register_module register_table registry_reset
  register_all-firmware hardware = refl

  pub firmware-AllSorted : AllSorted firmware.modules
  unfolding oid_compare
  firmware-AllSorted = (
    (
      oid_compare-Compares oid_sys_descr oid_sys_object_id,
      (
        oid_compare-Compares oid_sys_object_id oid_sys_uptime,
        (
          oid_compare-Compares oid_sys_uptime oid_sys_contact,
          (
            oid_compare-Compares oid_sys_contact oid_sys_name,
            (
              oid_compare-Compares oid_sys_name oid_sys_location,
              (oid_compare-Compares oid_sys_location oid_sys_services, tt),
            ),
          ),
        ),
      ),
    ),
    (
      (
        oid_compare-Compares oid_wespe_temperature oid_wespe_relay_state,
        (
          oid_compare-Compares oid_wespe_relay_state oid_wespe_uptime_seconds,
          (
            oid_compare-Compares oid_wespe_uptime_seconds oid_wespe_free_heap,
            (oid_compare-Compares oid_wespe_free_heap oid_wespe_wifi_rssi, tt),
          ),
        ),
      ),
      (tt, tt),
    ),
  )

  pub firmware-IsTable : (d : Device H) → All (λ t. IsTable t d) firmware.tables
  firmware-IsTable d = (
    record { sorted = omega arith; first_u32 = λ i e. ground arith; ascending = λ i j u e. cc },
    (
      record { sorted = omega arith; first_u32 = λ i e. ground arith; ascending = λ i j u e. cc },
      (
        record {
          sorted = omega arith;
          first_u32 = sensor_first_index-IsU32 hal d;
          ascending = sensor_next_index-IsAscending hal d;
        },
        tt,
      ),
    ),
  )
