-- ===== src/DevAgent/Rows.antt =====
-- The rows of the tables in tools/dev_agent/dev_agent.c: find_if_row, find_sensor_row, and the index
-- callbacks.
use wespe.Prelude.{
  ℕ, ◌≤◌, ◌<◌, ◌≡◌, inl, inr, refl, arith, Bool-cases, Option, none, some, List, [], ◌∷◌, map, ltb,
  ◌==◌, if◌then◌else◌, All, IsU32,
}
use wespe.Mib.Resolve.Rows.{From, From-all, IsAscending}
use wespe.DevAgent.Types.{MockIfRow, DevAgent, find_row, store_row}
use wespe.DevAgent.Interfaces.{index_of_first, index_above, if_first_index, if_next_index}
use wespe.DevAgent.Sensors.{wsensor_row_count, wsensor_first_index, wsensor_next_index}

module _ {A : Type 0} (index_of : A → ℕ) where
  pub map-store_row :
      (new : A) (rows : List A) → map index_of (store_row index_of new rows) ≡ map index_of rows
  unfolding store_row
  map-store_row new [] = refl
  map-store_row new (row ∷ rows) = elim (Bool-cases (index_of row == index_of new)) [
    | inl e ↦ ground arith
    | inr e ↦ rw e (rw (map-store_row new rows) refl)
  ]

  pub All-store_row :
      (P : A → Type 0) (new : A) (rows : List A)
      → P new
      → All P rows
      → All P (store_row index_of new rows)
  unfolding store_row
  All-store_row P new [] p h = tt
  All-store_row P new (row ∷ rows) p (h, hs) = elim (Bool-cases (index_of row == index_of new)) [
    | inl e ↦ rw e (p, hs)
    | inr e ↦ rw e (h, All-store_row P new rows p hs)
  ]

  pub All-find_row :
      (P : A → Type 0) (index : ℕ) (row : A) (rows : List A)
      → All P rows
      → find_row index_of index rows ≡ some row
      → P row
  unfolding find_row
  All-find_row P index row [] h e = absurd (ground arith)
  All-find_row P index row (first ∷ rows) (h, hs) e = elim (Bool-cases (index_of first == index)) [
    | inl f ↦ let same : first ≡ row = ground arith in rw (← same) h
    | inr f ↦ All-find_row P index row rows hs (ground arith)
  ]

-- The interfaces stay the two that there are.
abbrev pub if_index : MockIfRow → ℕ
if_index row = row.index

abbrev pub HasInterfaces : DevAgent → Type 0
HasInterfaces d = map if_index d.if_rows ≡ 1 ∷ 2 ∷ []

-- The loop of if_next_index, on the numbers of the rows.
first_above : ℕ → List ℕ → Option ℕ
first_above i [] = none
first_above i (j ∷ js) = if ltb i j then some j else first_above i js

index_above_lem :
    (i : ℕ) (rows : List MockIfRow) → index_above i rows ≡ first_above i (map if_index rows)
unfolding index_above first_above
index_above_lem i [] = refl
index_above_lem i (row ∷ rows) = rw (index_above, index_above_lem i rows) refl

next_interface :
    (d : DevAgent) (i : ℕ) → HasInterfaces d → if_next_index d i ≡ first_above i (1 ∷ 2 ∷ [])
next_interface d i h = rw (index_above_lem i d.if_rows, h) refl

first_interface : (d : DevAgent) → HasInterfaces d → if_first_index d ≡ some 1
unfolding index_of_first
first_interface d h = first_of d.if_rows h
  where
    first_of :
        (rows : List MockIfRow) → map if_index rows ≡ 1 ∷ 2 ∷ [] → index_of_first rows ≡ some 1
    first_of [] e = absurd (ground arith)
    first_of (row ∷ rows) e = ground arith

module _ (d : DevAgent) (h : HasInterfaces d) where
  above_lem : (i j : ℕ) → if_next_index d i ≡ some j → (i < j) × (1 ≤ j) × (j ≤ 2)
  unfolding first_above
  above_lem i j e =
      let f : first_above i (1 ∷ 2 ∷ []) ≡ some j = rw (next_interface d i h) at e in ground arith

  pub if_next_index-IsAscending : IsAscending (if_next_index d)
  if_next_index-IsAscending i j u e = let (less, low, high) = above_lem i j e in (less, omega arith)

  pub if_first_index-IsU32 : (i : ℕ) → if_first_index d ≡ some i → IsU32 i
  if_first_index-IsU32 i e = let f : some 1 ≡ some i = rw (first_interface d h) at e in ground arith

  pub if_rows_within : (i : ℕ) → From (if_next_index d) i (if_first_index d) → (1 ≤ i) × (i ≤ 2)
  if_rows_within i f =
      From-all (λ i. (1 ≤ i) × (i ≤ 2)) (if_next_index d) i (if_first_index d)
        (λ j k e. let (less, low, high) = above_lem j k e in (low, high))
        (λ j e. let f : some 1 ≡ some j = rw (first_interface d h) at e in ground arith) f

module _ (d : DevAgent) where
  wsensor_next_lem : (i j : ℕ) → wsensor_next_index d i ≡ some j → (i < j) × (1 ≤ j) × (j ≤ 2)
  unfolding wsensor_next_index wsensor_row_count
  wsensor_next_lem i j e = ground arith

  pub wsensor_next_index-IsAscending : IsAscending (wsensor_next_index d)
  wsensor_next_index-IsAscending i j u e =
      let (less, low, high) = wsensor_next_lem i j e in (less, omega arith)

  pub wsensor_rows_within :
      (i : ℕ) → From (wsensor_next_index d) i (wsensor_first_index d) → (1 ≤ i) × (i ≤ 2)
  wsensor_rows_within i f =
      From-all (λ i. (1 ≤ i) × (i ≤ 2)) (wsensor_next_index d) i (wsensor_first_index d)
        (λ j k e. let (less, low, high) = wsensor_next_lem j k e in (low, high))
        (λ j e. ground arith) f
