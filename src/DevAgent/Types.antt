-- ===== src/DevAgent/Types.antt =====
-- The static variables of tools/dev_agent/dev_agent.c.
use wespe.Prelude.{ℕ, Option, none, some, List, [], ◌∷◌, ◌==◌, if◌then◌else◌}

-- mock_if_row_t
pub record MockIfRow : Type 0 where
  pub index : ℕ
  pub descr : List ℕ
  pub name : List ℕ
  pub if_type : ℕ
  pub mac : List ℕ
  pub in_octets : ℕ
  pub out_octets : ℕ

-- mock_sensor_row_t
pub record MockSensorRow : Type 0 where
  pub index : ℕ
  pub label : List ℕ
  pub decidegrees : ℕ
  pub read_count : ℕ

-- `elapsed` is time(NULL) - s_boot_time in seconds, the only use that is made of either.
pub record DevAgent : Type 0 where
  pub elapsed : ℕ
  pub relay_on : ℕ
  pub if_rows : List MockIfRow
  pub sensor_rows : List MockSensorRow

module _ {A : Type 0} (index_of : A → ℕ) where
  -- The loops of find_if_row and find_sensor_row.
  unfoldable pub find_row : ℕ → List A → Option A
  find_row index [] = none
  find_row index (row ∷ rows) = if index_of row == index then some row else find_row index rows

  -- What is written through the pointer that they return.
  unfoldable pub store_row : A → List A → List A
  store_row new [] = []
  store_row new (row ∷ rows) =
      if index_of row == index_of new then new ∷ rows else row ∷ store_row new rows
