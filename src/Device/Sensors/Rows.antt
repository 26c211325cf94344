-- ===== src/Device/Sensors/Rows.antt =====
-- The rows of wespeSensorTable: firmware/components/mib/mib_sensor_table.c.
use wespe.Prelude.{ℕ, zero, suc, ◌≤◌, ◌≡◌, ◌↔◌, arith, Option, some, IsU32}
use wespe.Mib.Resolve.Rows.{From, here, there, From-all, IsAscending}
use wespe.Hal.Interfaces.{Hal}
use wespe.Device.Types.{Device}
use wespe.Device.Sensors.{sensor_first_index, sensor_next_index}

module _ {H : Type 0} (hal : Hal H) (d : Device H) where
  pub sensor_next_index-IsAscending : IsAscending (sensor_next_index hal d)
  sensor_next_index-IsAscending i j u e = ground arith

  pub sensor_first_index-IsU32 : (i : ℕ) → sensor_first_index hal d ≡ some i → IsU32 i
  sensor_first_index-IsU32 i e = ground arith

  Reached : ℕ → Type 0
  Reached i = (1 ≤ i) × (i ≤ hal.sensor_count d.hardware)

  next-Reached : (i j : ℕ) → sensor_next_index hal d i ≡ some j → Reached j
  unfolding Reached
  next-Reached i j e = ground arith

  From-next :
      (i j : ℕ) (r : Option ℕ)
      → sensor_next_index hal d i ≡ some j
      → From (sensor_next_index hal d) i r
      → From (sensor_next_index hal d) j r
  From-next i j r n (here e) = there i e (here n)
  From-next i j r n (there k e f) = there k e (From-next i j (sensor_next_index hal d k) n f)

  reach :
      (i : ℕ)
      → IsU32 (suc i)
      → suc i ≤ hal.sensor_count d.hardware
      → From (sensor_next_index hal d) (suc i) (sensor_first_index hal d)
  reach zero u h = here (ground arith)
  reach (suc i) u h =
      From-next (suc i) (suc (suc i)) (sensor_first_index hal d) (ground arith)
        (reach i (omega arith) (omega arith))

  -- The rows that the index callbacks of wespeSensorTable enumerate are exactly those from 1 to
  -- sensor_count(), if that is a uint32_t.
  pub sensor_rows :
      (i : ℕ)
      → IsU32 (hal.sensor_count d.hardware)
      → From (sensor_next_index hal d) i (sensor_first_index hal d)
        ↔ ((1 ≤ i) × (i ≤ hal.sensor_count d.hardware))
  unfolding Reached
  sensor_rows i u = (to, from i)
    where
      first : (j : ℕ) → sensor_first_index hal d ≡ some j → Reached j
      first j e = ground arith

      to : From (sensor_next_index hal d) i (sensor_first_index hal d) → Reached i
      to f =
          From-all Reached (sensor_next_index hal d) i (sensor_first_index hal d) next-Reached first
            f

      from : (i : ℕ) → Reached i → From (sensor_next_index hal d) i (sensor_first_index hal d)
      from zero (h, k) = absurd (omega arith)
      from (suc i) (h, k) = reach i (omega arith) k
