-- ===== src/Device/Boot/Walk.antt =====
-- A walk over all that the firmware serves: the tables of firmware/components/mib/mib_ii.c, mib_wespe.c,
-- mib_iftable.c and mib_sensor_table.c.
use wespe.Prelude.{ℕ, ◌≤◌, ◌≡◌, arith, some, none, List, [], ◌∷◌}
use wespe.Mib.Types.{Resolved}
use wespe.Mib.Resolve.Rows.{From, From-all}
use wespe.Mib.Resolve.Oids.{RowsWithin, served_oids, In-served_oids}
use wespe.Mib.Resolve.Next.{IsRow}
use wespe.Mib.Resolve.Walk.{walk, Covers, walk-Covers}
use wespe.Hal.Interfaces.{Hal, sensor_max_count}
use wespe.Device.Types.{Device}
use wespe.Device.Sensors.{sensor_table}
use wespe.Device.Sensors.Rows.{sensor_rows}
use wespe.Device.Boot.Registered.{firmware, firmware-AllSorted, firmware-IsTable}

module _ {H : Type 0} (hal : Hal H) where
  abbrev rows_at_most : List ℕ
  rows_at_most = 1 ∷ 1 ∷ sensor_max_count ∷ []

  one_row : (i : ℕ) → From (λ (j : ℕ). none) i (some 1) → (1 ≤ i) × (i ≤ 1)
  one_row i f =
      From-all (λ i. (1 ≤ i) × (i ≤ 1)) (λ (j : ℕ). none) i (some 1)
        (λ j k e. absurd (ground arith)) (λ j e. ground arith) f

  firmware-RowsWithin :
      (d : Device H)
      → hal.sensor_count d.hardware ≤ sensor_max_count
      → RowsWithin d (firmware hal).tables rows_at_most
  firmware-RowsWithin d h = (λ i row. one_row i row, (λ i row. one_row i row, (sensor_row, tt)))
    where
      sensor_row : (i : ℕ) → IsRow (sensor_table hal) d i → (1 ≤ i) × (i ≤ sensor_max_count)
      sensor_row i row =
          let (low, high) = (sensor_rows hal d i (omega arith)).0 row in (low, omega arith)

  -- From any OID, with at most SENSOR_MAX_COUNT sensors and the device left as it is, a walk over all
  -- that the firmware serves ends within 48 GetNexts; it lists instances in ascending order, and
  -- nothing that is served is left out between the start, its elements and the end.
  pub firmware-walk_ends :
      (d : Device H) (oid : List ℕ)
      → hal.sensor_count d.hardware ≤ sensor_max_count
      → (rs : List (Resolved (Device H))) × (walk 48 (firmware hal) d oid ≡ some rs)
        × Covers (firmware hal) d oid rs
  firmware-walk_ends d oid h =
      walk-Covers (firmware hal) d (firmware-AllSorted hal) (firmware-IsTable hal d)
        (served_oids (firmware hal) rows_at_most)
        (λ a m. In-served_oids (firmware hal) d rows_at_most a (firmware-RowsWithin d h) m) 48 oid
        (omega arith)
