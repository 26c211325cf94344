-- ===== src/Device/Boot.antt =====
-- What firmware/main/app_main.c registers, in its order.
pub mod Registered
pub mod Slots
pub mod Valid
pub mod Served
pub mod Walk
pub mod Agent
use wespe.Prelude.{ℕ, true, List, [], ◌∷◌}
use wespe.Mib.Registry.{Registry, registry_reset}
use wespe.Hal.Interfaces.{Hal}
use wespe.Device.Types.{Device}
use wespe.Device.System.{initial_name, mib_ii_register}
use wespe.Device.Wespe.{mib_wespe_register}
use wespe.Device.Interfaces.{mib_iftable_register}
use wespe.Device.Sensors.{mib_sensor_table_register}

module _ {H : Type 0} where
  -- The static variables before main.
  abbrev pub initial_device : H → Device H
  initial_device hardware = record {
    sys_contact = [];
    sys_name = initial_name;
    sys_location = [];
    labels = [] ∷ [] ∷ [] ∷ [] ∷ [];
    read_count = 0 ∷ 0 ∷ 0 ∷ 0 ∷ [];
    in_bounds = true;
    hardware = hardware;
  }

module _ {H : Type 0} (hal : Hal H) where
  unfoldable pub register_all : H → Registry (Device H) × Device H
  register_all hardware =
      let ii = mib_ii_register hal registry_reset in
      let wespe = mib_wespe_register hal ii in
      let interfaces = mib_iftable_register hal wespe in
      mib_sensor_table_register hal interfaces (initial_device hardware)
