-- ===== src/Mib/Tables.antt =====
-- The table functions of firmware/components/mib/mib_registry.c: populate_scalar, populate_cell,
-- table_find_exact and table_find_next.
use Prim.Native.Nat.{Ordering}
use wespe.Prelude.{
  ℕ, zero, suc, ◌+◌, ◌^◌, Option, none, some, Bool, true, false, not, List, [], ◌∷◌, ◌++◌, ltb,
  ◌==◌, if◌then◌else◌, length, take, drop,
}
use wespe.Mib.Types.{MibResult, Object, Column, Table, scalar, cell, Resolved, Lookup, found, miss}
use wespe.Mib.Oid.{oid_compare}

-- Row indices are uint32_t and strictly ascending, so a table has no more rows than this.
unfoldable pub row_fuel : ℕ
row_fuel = 2 ^ 32

-- The first column with the number.
unfoldable pub find_column : List Column → ℕ → Option Column
find_column [] num = none
find_column (col ∷ cols) num =
    let rest = find_column cols num in if col.number == num then some col else rest

-- The loop of table_find_exact over the rows, from the result of the last index callback on.
unfoldable pub row_exists : ℕ → (ℕ → Option ℕ) → ℕ → Option ℕ → Bool
row_exists zero next idx r = false
row_exists (suc fuel) next idx none = false
row_exists (suc fuel) next idx (some cur) =
    let rest = row_exists fuel next idx (next cur) in
    if cur == idx then true else if ltb idx cur then false else rest

-- The loop of table_find_next over the rows of one column.
unfoldable pub scan_rows : ℕ → (ℕ → Option ℕ) → (ℕ → List ℕ) → List ℕ → Option ℕ → Option ℕ
scan_rows zero next cand oid r = none
scan_rows (suc fuel) next cand oid none = none
scan_rows (suc fuel) next cand oid (some idx) =
    let rest = scan_rows fuel next cand oid (next idx) in
    elim (oid_compare (cand idx) oid) [ Ordering.gt ↦ some idx | _ ↦ rest ]

module _ {D : Type 0} where
  unfoldable pub populate_scalar : Object D → Resolved D
  populate_scalar obj = record {
    oid = obj.oid;
    value_tag = obj.value_tag;
    access = obj.access;
    target = scalar obj;
  }

  unfoldable pub cell_oid : Table D → ℕ → ℕ → List ℕ
  cell_oid t column index = t.entry_oid ++ (column ∷ index ∷ [])

  unfoldable pub populate_cell : Table D → Column → ℕ → Resolved D
  unfolding cell_oid
  populate_cell t col index = record {
    oid = cell_oid t col.number index;
    value_tag = col.value_tag;
    access = col.access;
    target = cell t col.number index;
  }

  -- The end of table_find_exact; the list is what follows the entry's OID.
  unfoldable pub find_cell : Table D → D → List ℕ → Lookup D
  find_cell t d (col_num ∷ idx ∷ []) = elim (find_column t.columns col_num) [
    | none ↦ miss MibResult.no_such_object
    | some col ↦
        if row_exists row_fuel (t.next_index d) idx (t.first_index d)
        then found (populate_cell t col idx)
        else miss MibResult.no_such_instance
  ]
  find_cell t d other = miss MibResult.no_such_object

  unfoldable pub table_find_exact : Table D → D → List ℕ → Lookup D
  unfolding find_cell
  table_find_exact t d oid =
      if not (length oid == length t.entry_oid + 2)
      then miss MibResult.no_such_object
      else elim (oid_compare (take (length t.entry_oid) oid) t.entry_oid) [
        | Ordering.eq ↦ find_cell t d (drop (length t.entry_oid) oid)
        | _ ↦ miss MibResult.no_such_object
      ]

  -- Its loop over the columns; `none` is MIB_END_OF_VIEW.
  unfoldable pub scan_columns : Table D → D → List ℕ → List Column → Option (Resolved D)
  scan_columns t d oid [] = none
  scan_columns t d oid (col ∷ cols) =
      let rest = scan_columns t d oid cols in
      elim (scan_rows row_fuel (t.next_index d) (cell_oid t col.number) oid (t.first_index d)) [
        | some idx ↦ some (populate_cell t col idx)
        | none ↦ rest
      ]

  unfoldable pub table_find_next : Table D → D → List ℕ → Option (Resolved D)
  unfolding scan_columns
  table_find_next t d oid = scan_columns t d oid t.columns
