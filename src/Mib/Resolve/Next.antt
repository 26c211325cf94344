-- ===== src/Mib/Resolve/Next.antt =====
-- What mib_registry_resolve_next returns, over scalars and table cells alike.
use wespe.Prelude.{
  ℕ, ◌≤◌, ◌<◌, ◌≡◌, ◌⊎◌, inl, inr, refl, ap, ◌∙◌, arith, Option, none, some, List, [], ◌∷◌, All,
  Option-cases, Bool-cases, ltb, IsU32,
}
use mathlib.Core.Option
use wespe.Mib.Types.{Object, Column, Table, Resolved}
use wespe.Mib.Oid.{◌≺◌, ≺_irrefl, ≺_trans, ≺-append}
use wespe.Mib.Next.{nearer, IsNext, IsNext-either, nearer-IsNext, IsNext-iff}
use wespe.Mib.Registry.{Registry, registry_find_next}
use wespe.Mib.Registry.Sorted.{AllSorted, IsRegistered}
use wespe.Mib.Registry.FindNext.{registry_find_next-IsNext}
use wespe.Mib.Tables.{
  row_fuel, populate_scalar, cell_oid, populate_cell, scan_rows, scan_columns, table_find_next,
}
use wespe.Mib.Resolve.{resolve_next_from, registry_resolve_next}
use wespe.Mib.Resolve.Rows.{From, IsAscending, Enough, IsFirstRow, scan_rows-IsFirstRow}

abbrev pub SortedColumns : List Column → Type 0
SortedColumns [] = Unit
SortedColumns (col ∷ cols) = All (λ c. col.number < c.number) cols × SortedColumns cols

module _ {D : Type 0} where
  -- An existing row of the table.
  abbrev pub IsRow : Table D → D → ℕ → Type 0
  IsRow t d i = From (t.next_index d) i (t.first_index d)

  -- A cell of one of the columns; then the conditions that mib_table.h puts on a table: columns
  -- ascending by number, and rows ascending uint32_t.
  abbrev pub InColumns : Table D → D → List Column → Resolved D → Type 0
  InColumns t d [] r = ⊥
  InColumns t d (col ∷ cols) r =
      ((i : ℕ) × IsRow t d i × (r ≡ populate_cell t col i)) ⊎ InColumns t d cols r

  pub record IsTable (t : Table D) (d : D) : Type 0 where
    pub sorted : SortedColumns t.columns
    pub first_u32 : (i : ℕ) → t.first_index d ≡ some i → IsU32 i
    pub ascending : IsAscending (t.next_index d)

  abbrev pub InTables : List (Table D) → D → Resolved D → Type 0
  InTables [] d r = ⊥
  InTables (t ∷ tables) d r = InColumns t d t.columns r ⊎ InTables tables d r

  -- What the registry serves in the device state `d`: a registered scalar, or a cell of a registered
  -- table whose column is defined and whose row exists.
  abbrev pub IsInstance : Registry D → D → Resolved D → Type 0
  IsInstance reg d r =
      ((o : Object D) × IsRegistered reg.modules o × (r ≡ populate_scalar o))
      ⊎ InTables reg.tables d r

  cell_lt_row :
      (t : Table D) (col : Column) (i j : ℕ)
      → i < j
      → cell_oid t col.number i ≺ cell_oid t col.number j
  unfolding cell_oid
  cell_lt_row t col i j h = ≺-append t.entry_oid _ _ (inr (refl, inl h))

  cell_lt_column :
      (t : Table D) (c d : Column) (i j : ℕ)
      → c.number < d.number
      → cell_oid t c.number i ≺ cell_oid t d.number j
  unfolding cell_oid
  cell_lt_column t c d i j h = ≺-append t.entry_oid _ _ (inl h)

  abbrev key : Resolved D → List ℕ
  key r = r.oid

  later_columns :
      (t : Table D) (d : D) (col : Column) (i : ℕ) (cols : List Column) (r : Resolved D)
      → All (λ c. col.number < c.number) cols
      → InColumns t d cols r
      → cell_oid t col.number i ≺ r.oid
  later_columns t d col i [] r h m = absurd m
  later_columns t d col i (c ∷ cols) r h (inl (j, row, e)) =
      rw e (unfold populate_cell in cell_lt_column t col c i j h.0)
  later_columns t d col i (c ∷ cols) r h (inr m) = later_columns t d col i cols r h.1 m

  module _ (t : Table D) (d : D) (is_table : IsTable t d) (oid : List ℕ) where
    first_Enough : (r : Option ℕ) → t.first_index d ≡ r → Enough row_fuel r
    unfolding row_fuel
    first_Enough none e = tt
    first_Enough (some i) e = omega (arith, is_table.first_u32 i e)

    abbrev row_of : Column → Option ℕ
    row_of col = scan_rows row_fuel (t.next_index d) (cell_oid t col.number) oid (t.first_index d)

    row_of-IsFirstRow :
        (col : Column)
        → IsFirstRow
            (t.next_index d)
            is_table.ascending
            (cell_oid t col.number)
            oid
            (t.first_index d)
            (row_of col)
    row_of-IsFirstRow col =
        scan_rows-IsFirstRow (t.next_index d) is_table.ascending (cell_oid t col.number) oid
          row_fuel (t.first_index d) (first_Enough (t.first_index d) refl)

    scan_columns_hit :
        (col : Column) (cols : List Column) {i : ℕ}
        → row_of col ≡ some i
        → scan_columns t d oid (col ∷ cols) ≡ some (populate_cell t col i)
    unfolding scan_columns
    scan_columns_hit col cols e = rw (e, scan_columns)

    scan_columns_miss :
        (col : Column) (cols : List Column)
        → row_of col ≡ none
        → scan_columns t d oid (col ∷ cols) ≡ scan_columns t d oid cols
    unfolding scan_columns
    scan_columns_miss col cols e = rw (e, scan_columns)

    cell_key : (col : Column) (i : ℕ) → key (populate_cell t col i) ≡ cell_oid t col.number i
    unfolding populate_cell
    cell_key col i = refl

    nothing_here :
        (col : Column)
        → ((i : ℕ) → IsRow t d i → ¬ (oid ≺ cell_oid t col.number i))
        → (r : Resolved D) → (i : ℕ) × IsRow t d i × (r ≡ populate_cell t col i)
        → ¬ (oid ≺ key r)
    nothing_here col h r (i, row, e) less = h i row (rw (ap key e ∙ cell_key col i) at less)

    nothing_between :
        (col : Column) (cols : List Column) (b : ℕ)
        → All (λ c. col.number < c.number) cols
        → ((i : ℕ) → IsRow t d i → oid ≺ cell_oid t col.number i → b ≤ i)
        → (r : Resolved D) → InColumns t d (col ∷ cols) r
        → oid ≺ key r
        → ¬ (key r ≺ cell_oid t col.number b)
    nothing_between col cols b h least r (inl (i, row, e)) less k =
        let at_i = ap key e ∙ cell_key col i in
        let before : cell_oid t col.number i ≺ cell_oid t col.number b = rw at_i at k in
        elim (Bool-cases (ltb b i)) [
          | inl after ↦ ≺_irrefl _ (≺_trans _ _ _ before (cell_lt_row t col b i (ground arith)))
          | inr others ↦
              let same : i ≡ b = ground (arith, least i row (rw at_i at less)) in
              ≺_irrefl (cell_oid t col.number b) (rw same at before)
        ]
    nothing_between col cols b h least r (inr m) less k =
        ≺_irrefl (key r)
          (≺_trans (key r) (cell_oid t col.number b) (key r) k (later_columns t d col b cols r h m))

    scan_columns-IsNext :
        (cols : List Column)
        → SortedColumns cols
        → IsNext key (InColumns t d cols) oid (scan_columns t d oid cols)
    scan_columns-IsNext [] h = unfold scan_columns in λ r m. absurd m
    scan_columns-IsNext (col ∷ cols) (smaller, h) =
        let rows = row_of-IsFirstRow col in
        elim (Option-cases (row_of col)) [
          | inl e ↦
              let none_here = rw e at rows in
              rw (scan_columns_miss col cols e) (
                IsNext-iff key
                  (λ r.
                    InColumns t d cols r ⊎ ((i : ℕ) × IsRow t d i × (r ≡ populate_cell t col i)))
                  (InColumns t d (col ∷ cols)) oid (scan_columns t d oid cols) swap back
                  (IsNext-either key (InColumns t d cols) _ oid (scan_columns t d oid cols)
                    (scan_columns-IsNext cols h) (nothing_here col none_here)))
          | inr (b, e) ↦
              let (row, less, least) = rw e at rows in
              rw (scan_columns_hit col cols e) (
                inl (b, row, refl),
                rw (cell_key col b) less,
                rw (cell_key col b) (nothing_between col cols b smaller least),
              )
        ]
      where
        swap :
            (r : Resolved D)
            → InColumns t d cols r ⊎ ((i : ℕ) × IsRow t d i × (r ≡ populate_cell t col i))
            → InColumns t d (col ∷ cols) r
        swap r (inl m) = inr m
        swap r (inr m) = inl m

        back :
            (r : Resolved D)
            → InColumns t d (col ∷ cols) r
            → InColumns t d cols r ⊎ ((i : ℕ) × IsRow t d i × (r ≡ populate_cell t col i))
        back r (inl m) = inr m
        back r (inr m) = inl m

    table_find_next-IsNext : IsNext key (InColumns t d t.columns) oid (table_find_next t d oid)
    unfolding table_find_next
    table_find_next-IsNext = scan_columns-IsNext t.columns is_table.sorted

  regroup :
      (M N P : Resolved D → Type 0) (oid : List ℕ) (r : Option (Resolved D))
      → IsNext key (λ r. (M r ⊎ N r) ⊎ P r) oid r
      → IsNext key (λ r. M r ⊎ (N r ⊎ P r)) oid r
  regroup M N P oid r =
      IsNext-iff key (λ r. (M r ⊎ N r) ⊎ P r) (λ r. M r ⊎ (N r ⊎ P r)) oid r to from
    where
      to : (r : Resolved D) → (M r ⊎ N r) ⊎ P r → M r ⊎ (N r ⊎ P r)
      to r (inl (inl m)) = inl m
      to r (inl (inr n)) = inr (inl n)
      to r (inr p) = inr (inr p)

      from : (r : Resolved D) → M r ⊎ (N r ⊎ P r) → (M r ⊎ N r) ⊎ P r
      from r (inl m) = inl (inl m)
      from r (inr (inl n)) = inl (inr n)
      from r (inr (inr p)) = inr p

  resolve_next_from-IsNext :
      (M : Resolved D → Type 0) (tables : List (Table D)) (d : D) (oid : List ℕ)
      (best : Option (Resolved D))
      → All (λ t. IsTable t d) tables
      → IsNext key M oid best
      → IsNext key (λ r. M r ⊎ InTables tables d r) oid (resolve_next_from best tables d oid)
  unfolding resolve_next_from
  resolve_next_from-IsNext M [] d oid best h k =
      IsNext-either key M (λ r. ⊥) oid best k (λ r x. absurd x)
  resolve_next_from-IsNext M (t ∷ tables) d oid best (here, rest) k =
      let next = table_find_next-IsNext t d here oid in
      elim (Option-cases (table_find_next t d oid)) [
        | inl e ↦ rw e (
            regroup M (InColumns t d t.columns) (InTables tables d) oid _ (
              resolve_next_from-IsNext (λ r. M r ⊎ InColumns t d t.columns r) tables d oid best rest
                (IsNext-either key M (InColumns t d t.columns) oid best k (rw e at next))))
        | inr (cand, e) ↦ rw e (
            regroup M (InColumns t d t.columns) (InTables tables d) oid _ (
              resolve_next_from-IsNext (λ r. M r ⊎ InColumns t d t.columns r) tables d oid
                (nearer key best cand) rest
                (nearer-IsNext key M (InColumns t d t.columns) oid best cand k (rw e at next))))
      ]

  IsScalar : Registry D → Resolved D → Type 0
  IsScalar reg r = (o : Object D) × IsRegistered reg.modules o × (r ≡ populate_scalar o)

  scalars-IsNext :
      (reg : Registry D) (oid : List ℕ) (best : Option (Object D))
      → IsNext (λ (o : Object D). o.oid) (IsRegistered reg.modules) oid best
      → IsNext key (IsScalar reg) oid (Option.map populate_scalar best)
  unfolding populate_scalar IsScalar
  scalars-IsNext reg oid none h = none_after
    where
      none_after : (r : Resolved D) → IsScalar reg r → ¬ (oid ≺ key r)
      none_after r (o, m, e) less = h o m (rw (ap key e) at less)
  scalars-IsNext reg oid (some b) (m, less, least) = ((b, m, refl), less, least')
    where
      least' : (r : Resolved D) → IsScalar reg r → oid ≺ key r → ¬ (key r ≺ b.oid)
      least' r (o, n, e) l k = least o n (rw (ap key e) at l) (rw (ap key e) at k)

  -- mib_registry_resolve_next, on sorted modules and well-formed tables, returns the instance with the
  -- smallest OID after the one given, of everything the registry serves in the current device state,
  -- scalars and table cells alike; and MIB_END_OF_VIEW exactly if nothing comes after it.
  pub registry_resolve_next-IsNext :
      (reg : Registry D) (d : D) (oid : List ℕ)
      → AllSorted reg.modules
      → All (λ t. IsTable t d) reg.tables
      → IsNext key (IsInstance reg d) oid (registry_resolve_next reg d oid)
  unfolding registry_resolve_next IsScalar
  registry_resolve_next-IsNext reg d oid sorted tables =
      resolve_next_from-IsNext (IsScalar reg) reg.tables d oid
        (Option.map populate_scalar (registry_find_next reg oid)) tables
        (scalars-IsNext reg oid (registry_find_next reg oid)
          (registry_find_next-IsNext reg oid sorted))
