-- ===== src/Mib/Resolve/Cells.antt =====
-- table_find_exact of firmware/components/mib/mib_registry.c: the cells that it finds.
use Prim.Native.Nat.{Ordering}
use wespe.Prelude.{
  ℕ, ◌+◌, ◌≡◌, inl, inr, refl, sym, ap, ◌∙◌, arith, Bool, true, Bool-cases, Option, none, some,
  Option-cases, List, [], ◌∷◌, ◌++◌, ◌==◌, length, length-append, take, drop, take-append,
  drop-append, take-append-drop,
}
use wespe.Mib.Types.{MibResult, Column, Table, Resolved, found, miss}
use wespe.Mib.Registry.Sorted.{In}
use wespe.Mib.Oid.{oid_compare, ≺_irrefl, ≺_cases}
use wespe.Mib.Tables.{
  row_fuel, find_column, row_exists, cell_oid, populate_cell, find_cell, table_find_exact,
}
use wespe.Mib.Resolve.Rows.{Enough, row_exists-From}
use wespe.Mib.Resolve.Next.{IsRow, InColumns, IsTable}

pub oid_compare_refl : (a : List ℕ) → oid_compare a a ≡ Ordering.eq
oid_compare_refl a = elim (≺_cases a a) [
  | inl (e, h) ↦ absurd (≺_irrefl a h)
  | inr (inl (e, h)) ↦ e
  | inr (inr (e, h)) ↦ absurd (≺_irrefl a h)
]

module _ {D : Type 0} (t : Table D) (d : D) where
  -- The column that is found has the number, and its rows are cells of the table.
  find_column-InColumns :
      (cols : List Column) (num i : ℕ) (col : Column)
      → find_column cols num ≡ some col
      → IsRow t d i
      → InColumns t d cols (populate_cell t col i) × (col.number ≡ num)
  unfolding find_column
  find_column-InColumns [] num i col e row = absurd (ground arith)
  find_column-InColumns (c ∷ cols) num i col e row = elim (Bool-cases (c.number == num)) [
    | inl hit ↦
        let same : c ≡ col = ground arith in
        let number : c.number ≡ num = ground arith in
        (inl (i, row, ap (λ x. populate_cell t x i) (sym same)), rw (sym same) number)
    | inr other ↦
        let (cell_in, number) = find_column-InColumns cols num i col (rw other at e) row in
        (inr cell_in, number)
  ]

  -- The parts of a cell.
  InColumns-parts :
      (cols : List Column) (r : Resolved D)
      → InColumns t d cols r
      → (col : Column) × (i : ℕ) × IsRow t d i
        × (r ≡ populate_cell t col i)
        × ((c : Column) × (find_column cols col.number ≡ some c))
  unfolding find_column
  InColumns-parts [] r h = absurd h
  InColumns-parts (c ∷ cols) r (inl (i, row, e)) =
      let own : (c.number == c.number) ≡ true = ground arith in (c, i, row, e, (c, rw own refl))
  InColumns-parts (c ∷ cols) r (inr h) =
      let (col, i, row, e, (c', f)) = InColumns-parts cols r h in
      elim (Bool-cases (c.number == col.number)) [
        | inl hit ↦ (col, i, row, e, (c, rw hit refl))
        | inr other ↦ (col, i, row, e, (c', rw (other, f) refl))
      ]

  -- A column of the table that has no such row.
  abbrev pub NoRow : List Column → List ℕ → Type 0
  NoRow cols oid =
      (col : Column) × (i : ℕ) × In col cols × (oid ≡ cell_oid t col.number i) × ¬ (IsRow t d i)

  module _ (is_table : IsTable t d) where
    enough : (r : Option ℕ) → t.first_index d ≡ r → Enough row_fuel r
    unfolding row_fuel
    enough none e = tt
    enough (some i) e = omega (arith, is_table.first_u32 i e)

    abbrev exists : ℕ → Bool
    exists i = row_exists row_fuel (t.next_index d) i (t.first_index d)

    row_found : (i : ℕ) → IsRow t d i → exists i ≡ true
    row_found i row =
        (row_exists-From (t.next_index d) is_table.ascending row_fuel i (t.first_index d)
            (enough (t.first_index d) refl)).1
          row

    exists-IsRow : (i : ℕ) → exists i ≡ true → IsRow t d i
    exists-IsRow i e =
        (row_exists-From (t.next_index d) is_table.ascending row_fuel i (t.first_index d)
            (enough (t.first_index d) refl)).0
          e

    find_cell-found :
        (rest : List ℕ) (r : Resolved D)
        → find_cell t d rest ≡ found r
        → InColumns t d t.columns r × (r.oid ≡ t.entry_oid ++ rest)
    unfolding find_cell populate_cell cell_oid
    find_cell-found [] r e = absurd (ground arith)
    find_cell-found (num ∷ []) r e = absurd (ground arith)
    find_cell-found (num ∷ i ∷ x ∷ more) r e = absurd (ground arith)
    find_cell-found (num ∷ i ∷ []) r e = elim (Option-cases (find_column t.columns num)) [
      | inl f ↦ absurd (ground (arith, rw (find_cell, f) at e))
      | inr (col, f) ↦ elim (Bool-cases (exists i)) [
        | inr gone ↦ absurd (ground (arith, rw (find_cell, f, gone) at e))
        | inl there ↦
            let (cell_in, number) =
              find_column-InColumns t.columns num i col f (exists-IsRow i there) in
            let same : populate_cell t col i ≡ r = ground (arith, rw (find_cell, f, there) at e) in
            rw (sym same) (cell_in, ap (λ n. t.entry_oid ++ (n ∷ i ∷ [])) number)
      ]
    ]

    -- What is found is a cell of the table, and has the OID.
    pub table_find_exact-found :
        (oid : List ℕ) (r : Resolved D)
        → table_find_exact t d oid ≡ found r
        → InColumns t d t.columns r × (r.oid ≡ oid)
    unfolding table_find_exact
    table_find_exact-found oid r e =
        let n = length t.entry_oid in
        elim (Bool-cases (length oid == n + 2)) [
          | inr other ↦ absurd (ground (arith, rw (table_find_exact, other) at e))
          | inl long ↦ elim (≺_cases (take n oid) t.entry_oid) [
            | inl (c, h) ↦ absurd (ground (arith, rw (table_find_exact, long, c) at e))
            | inr (inr (c, h)) ↦ absurd (ground (arith, rw (table_find_exact, long, c) at e))
            | inr (inl (c, prefix)) ↦
                let (cell_in, same) =
                  find_cell-found (drop n oid) r (rw (table_find_exact, long, c) at e) in
                (cell_in, same ∙ ap (λ p. p ++ drop n oid) (sym prefix) ∙ take-append-drop n oid)
          ]
        ]

    -- Every cell is found under its OID.
    pub table_find_exact-cell :
        (oid : List ℕ) (r : Resolved D)
        → InColumns t d t.columns r
        → r.oid ≡ oid
        → (x : Resolved D) × (table_find_exact t d oid ≡ found x)
    unfolding table_find_exact find_cell populate_cell cell_oid
    table_find_exact-cell oid r h at_oid =
        let (col, i, row, e, (c, f)) = InColumns-parts t.columns r h in
        let parts : oid ≡ t.entry_oid ++ (col.number ∷ i ∷ []) =
          sym at_oid ∙ ap (λ (x : Resolved D). x.oid) e in
        let tail = col.number ∷ i ∷ [] in
        let long : (length (t.entry_oid ++ tail) == length t.entry_oid + 2) ≡ true =
          ground (arith, length-append t.entry_oid tail) in
        (
          populate_cell t c i,
          rw
              (
                parts,
                table_find_exact,
                long,
                take-append t.entry_oid tail,
                oid_compare_refl t.entry_oid,
                parts,
                drop-append t.entry_oid tail,
                find_cell,
                f,
                row_found i row,
              )
              refl,
        )

    find_column-In :
        (cols : List Column) (num : ℕ) (col : Column)
        → find_column cols num ≡ some col
        → In col cols × (col.number ≡ num)
    unfolding find_column
    find_column-In [] num col e = absurd (ground arith)
    find_column-In (c ∷ cols) num col e = elim (Bool-cases (c.number == num)) [
      | inl hit ↦
          let same : c ≡ col = ground arith in
          let number : c.number ≡ num = ground arith in (inl (sym same), rw (sym same) number)
      | inr other ↦
          let (col_in, number) = find_column-In cols num col (rw other at e) in (inr col_in, number)
    ]

    find_cell-NoRow :
        (rest : List ℕ)
        → find_cell t d rest ≡ miss MibResult.no_such_instance
        → NoRow t.columns (t.entry_oid ++ rest)
    unfolding find_cell cell_oid
    find_cell-NoRow [] e = absurd (ground arith)
    find_cell-NoRow (num ∷ []) e = absurd (ground arith)
    find_cell-NoRow (num ∷ i ∷ x ∷ more) e = absurd (ground arith)
    find_cell-NoRow (num ∷ i ∷ []) e = elim (Option-cases (find_column t.columns num)) [
      | inl f ↦ absurd (ground (arith, rw (find_cell, f) at e))
      | inr (col, f) ↦ elim (Bool-cases (exists i)) [
        | inl there ↦ absurd (ground (arith, rw (find_cell, f, there) at e))
        | inr gone ↦
            let (col_in, number) = find_column-In t.columns num col f in
            (
              col,
              i,
              col_in,
              ap (λ n. t.entry_oid ++ (n ∷ i ∷ [])) (sym number),
              λ row. absurd (ground (arith, gone, row_found i row)),
            )
      ]
    ]

    -- The table answers that there is no such instance only for a row that it does not have.
    pub table_find_exact-NoRow :
        (oid : List ℕ)
        → table_find_exact t d oid ≡ miss MibResult.no_such_instance
        → NoRow t.columns oid
    unfolding table_find_exact
    table_find_exact-NoRow oid e =
        let n = length t.entry_oid in
        elim (Bool-cases (length oid == n + 2)) [
          | inr other ↦ absurd (ground (arith, rw (table_find_exact, other) at e))
          | inl long ↦ elim (≺_cases (take n oid) t.entry_oid) [
            | inl (c, h) ↦ absurd (ground (arith, rw (table_find_exact, long, c) at e))
            | inr (inr (c, h)) ↦ absurd (ground (arith, rw (table_find_exact, long, c) at e))
            | inr (inl (c, prefix)) ↦
                let no_row = find_cell-NoRow (drop n oid) (rw (table_find_exact, long, c) at e) in
                let parts : t.entry_oid ++ drop n oid ≡ oid =
                  ap (λ p. p ++ drop n oid) (sym prefix) ∙ take-append-drop n oid in
                rw parts at no_row
          ]
        ]
