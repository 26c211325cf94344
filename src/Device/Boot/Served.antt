-- ===== src/Device/Boot/Served.antt =====
-- What the getters of the firmware serve: mib_ii.c, mib_wespe.c, mib_iftable.c and mib_sensor_table.c of
-- firmware/components/mib.
use wespe.Prelude.{ℕ, ◌≡◌, refl, arith, length, All}
use wespe.Mib.Types.{MibResult, Varbind, Resolved}
use wespe.Mib.Registry.Sorted.{AllSorted}
use wespe.Mib.Tables.{populate_scalar, populate_cell}
use wespe.Mib.Resolve.{resolved_get, target_get}
use wespe.Mib.Resolve.Next.{IsTable, IsInstance}
use wespe.Mib.Resolve.Instances.{IsInstance-all}
use wespe.Hal.Interfaces.{Hal}
use wespe.Device.Types.{Device}
use wespe.Device.System.{
  get_sys_descr, get_sys_object_id, get_sys_uptime, get_sys_contact, get_sys_name, get_sys_location,
  get_sys_services,
}
use wespe.Device.Wespe.{
  get_temperature, get_relay_state, get_uptime_seconds, get_free_heap, get_wifi_rssi,
}
use wespe.Device.Interfaces.{
  iftable, ifxtable, iftable_columns, ifxtable_columns, get_if_number, iftable_get_cell,
  ifxtable_get_cell,
}
use wespe.Device.Sensors.{sensor_table, sensor_table_columns, sensor_get_cell}
use wespe.Device.Boot.{register_all}
use wespe.Device.Boot.Registered.{
  firmware, firmware-AllSorted, firmware-IsTable, register_all-firmware,
}

module _ {H : Type 0} where
  -- After MIB_OK the varbind has the declared type, and the OID that it had.
  abbrev pub ServesType : Resolved (Device H) → Type 0
  ServesType r =
      (d d' : Device H) (vb vb' : Varbind)
      → resolved_get r d vb ≡ (MibResult.ok, vb', d')
      → (vb'.value_tag ≡ r.value_tag) × (vb'.oid ≡ vb.oid)

module _ {H : Type 0} (hal : Hal H) where
  scalars-ServesType : All (All (λ o. ServesType (populate_scalar o))) (firmware hal).modules
  unfolding resolved_get target_get populate_scalar get_sys_descr get_sys_object_id get_sys_uptime
      get_sys_contact get_sys_name get_sys_location get_sys_services get_temperature get_relay_state
      get_uptime_seconds get_free_heap get_wifi_rssi get_if_number
  scalars-ServesType = (
    (
      λ d d' vb vb' e. ground arith,
      (
        λ d d' vb vb' e. ground arith,
        (
          λ d d' vb vb' e. ground arith,
          (
            λ d d' vb vb' e. ground arith,
            (
              λ d d' vb vb' e. ground arith,
              (λ d d' vb vb' e. ground arith, (λ d d' vb vb' e. ground arith, tt)),
            ),
          ),
        ),
      ),
    ),
    (
      (
        λ d d' vb vb' e. ground arith,
        (
          λ d d' vb vb' e. ground arith,
          (
            λ d d' vb vb' e. ground arith,
            (λ d d' vb vb' e. ground arith, (λ d d' vb vb' e. ground arith, tt)),
          ),
        ),
      ),
      ((λ d d' vb vb' e. ground arith, tt), tt),
    ),
  )

  iftable-ServesType :
      All (λ col. (i : ℕ) → ServesType (populate_cell (iftable hal) col i)) iftable_columns
  unfolding resolved_get target_get populate_cell iftable_get_cell
  iftable-ServesType = (
    λ i d d' vb vb' e. ground arith,
    (
      λ i d d' vb vb' e. ground arith,
      (
        λ i d d' vb vb' e. ground arith,
        (
          λ i d d' vb vb' e. ground arith,
          (
            λ i d d' vb vb' e. ground arith,
            (
              λ i d d' vb vb' e. ground arith,
              (
                λ i d d' vb vb' e. ground arith,
                (
                  λ i d d' vb vb' e. ground arith,
                  (
                    λ i d d' vb vb' e. ground arith,
                    (λ i d d' vb vb' e. ground arith, (λ i d d' vb vb' e. ground arith, tt)),
                  ),
                ),
              ),
            ),
          ),
        ),
      ),
    ),
  )

  ifxtable-ServesType :
      All (λ col. (i : ℕ) → ServesType (populate_cell (ifxtable {H = H}) col i)) ifxtable_columns
  unfolding resolved_get target_get populate_cell ifxtable_get_cell
  ifxtable-ServesType = (
    λ i d d' vb vb' e. ground arith,
    (λ i d d' vb vb' e. ground arith, (λ i d d' vb vb' e. ground arith, tt)),
  )

  sensors-ServesType :
      All
        (λ col. (i : ℕ) → ServesType (populate_cell (sensor_table hal) col i))
        sensor_table_columns
  unfolding resolved_get target_get populate_cell sensor_get_cell
  sensors-ServesType = (
    λ i d d' vb vb' e. ground arith,
    (
      λ i d d' vb vb' e. ground arith,
      (
        λ i d d' vb vb' e. ground arith,
        (λ i d d' vb vb' e. ground arith, (λ i d d' vb vb' e. ground arith, tt)),
      ),
    ),
  )

  firmware-ServesType :
      (d : Device H) (r : Resolved (Device H)) → IsInstance (firmware hal) d r → ServesType r
  firmware-ServesType d r m =
      IsInstance-all ServesType (firmware hal) d r scalars-ServesType
        (iftable-ServesType, (ifxtable-ServesType, (sensors-ServesType, tt))) m

  -- What app_main registers is all registered, and it keeps to the contract of mib_tree.h and
  -- mib_table.h in every state of the device: modules are sorted by OID, and columns by number; the
  -- index callbacks enumerate ascending uint32_t; and a getter that returns MIB_OK leaves a value of
  -- the type that the object or the column declares, and leaves the OID alone.
  pub register_all-KeepsContract :
      (hardware : H)
      → AllSorted (register_all hal hardware).0.modules
        × ((d : Device H) → All (λ t. IsTable t d) (register_all hal hardware).0.tables)
        × ((d : Device H) (r : Resolved (Device H))
            → IsInstance (register_all hal hardware).0 d r
            → ServesType r)
        × (length (register_all hal hardware).0.modules ≡ 3)
        × (length (register_all hal hardware).0.tables ≡ 3)
  register_all-KeepsContract hardware =
      rw (register_all-firmware hal hardware)
        (firmware-AllSorted hal, firmware-IsTable hal, firmware-ServesType, refl, refl)
