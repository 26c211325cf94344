-- ===== src/Mib/Resolve/Oids.antt =====
-- The OIDs of all that a registry can serve, when the rows of each table are bounded:
-- mib_registry_resolve_next of firmware/components/mib/mib_registry.c.
use wespe.Prelude.{
  ℕ, zero, suc, ◌≤◌, ◌≡◌, inl, inr, ap, arith, List, [], ◌∷◌, ◌++◌, ◌==◌, Bool-cases,
}
use wespe.Mib.Types.{Object, Column, Table, Resolved}
use wespe.Mib.Registry.{Registry}
use wespe.Mib.Registry.Sorted.{In, IsRegistered}
use wespe.Mib.Tables.{cell_oid, populate_cell, populate_scalar}
use wespe.Mib.Resolve.Next.{IsRow, InColumns, InTables, IsInstance}

In-append_left : {A : Type 0} (x : A) (xs ys : List A) → In x xs → In x (xs ++ ys)
In-append_left x [] ys m = absurd m
In-append_left x (y ∷ xs) ys (inl e) = inl e
In-append_left x (y ∷ xs) ys (inr m) = inr (In-append_left x xs ys m)

In-append_right : {A : Type 0} (x : A) (xs ys : List A) → In x ys → In x (xs ++ ys)
In-append_right x [] ys m = m
In-append_right x (y ∷ xs) ys m = inr (In-append_right x xs ys m)

module _ {D : Type 0} where
  -- The OIDs of scalars, and of the cells of the rows 1 to `n`.
  abbrev object_oids : List (Object D) → List (List ℕ)
  object_oids [] = []
  object_oids (o ∷ objs) = o.oid ∷ object_oids objs

  abbrev module_oids : List (List (Object D)) → List (List ℕ)
  module_oids [] = []
  module_oids (objs ∷ modules) = object_oids objs ++ module_oids modules

  abbrev row_oids : Table D → Column → ℕ → List (List ℕ)
  row_oids t col zero = []
  row_oids t col (suc n) = cell_oid t col.number (suc n) ∷ row_oids t col n

  abbrev column_oids : Table D → List Column → ℕ → List (List ℕ)
  column_oids t [] n = []
  column_oids t (col ∷ cols) n = row_oids t col n ++ column_oids t cols n

  In-object_oids : (o : Object D) (objs : List (Object D)) → In o objs → In o.oid (object_oids objs)
  In-object_oids o [] m = absurd m
  In-object_oids o (p ∷ objs) (inl e) = inl (ap (λ (x : Object D). x.oid) e)
  In-object_oids o (p ∷ objs) (inr m) = inr (In-object_oids o objs m)

  In-module_oids :
      (o : Object D) (modules : List (List (Object D)))
      → IsRegistered modules o
      → In o.oid (module_oids modules)
  In-module_oids o [] m = absurd m
  In-module_oids o (objs ∷ modules) (inl m) =
      In-append_left o.oid (object_oids objs) (module_oids modules) (In-object_oids o objs m)
  In-module_oids o (objs ∷ modules) (inr m) =
      In-append_right o.oid (object_oids objs) (module_oids modules) (In-module_oids o modules m)

  In-row_oids :
      (t : Table D) (col : Column) (n i : ℕ)
      → 1 ≤ i
      → i ≤ n
      → In (cell_oid t col.number i) (row_oids t col n)
  In-row_oids t col zero i h k = absurd (omega arith)
  In-row_oids t col (suc n) i h k = elim (Bool-cases (i == suc n)) [
    | inl e ↦ let same : i ≡ suc n = ground arith in inl (ap (cell_oid t col.number) same)
    | inr e ↦ inr (In-row_oids t col n i h (ground arith))
  ]

  In-column_oids :
      (t : Table D) (d : D) (cols : List Column) (n : ℕ) (r : Resolved D)
      → ((i : ℕ) → IsRow t d i → (1 ≤ i) × (i ≤ n))
      → InColumns t d cols r
      → In r.oid (column_oids t cols n)
  unfolding populate_cell
  In-column_oids t d [] n r h m = absurd m
  In-column_oids t d (col ∷ cols) n r h (inl (i, row, e)) =
      let (low, high) = h i row in
      In-append_left r.oid (row_oids t col n) (column_oids t cols n)
        (rw e (In-row_oids t col n i low high))
  In-column_oids t d (col ∷ cols) n r h (inr m) =
      In-append_right r.oid (row_oids t col n) (column_oids t cols n)
        (In-column_oids t d cols n r h m)

  -- The rows of the n-th table are from 1 to the n-th number.
  abbrev pub RowsWithin : D → List (Table D) → List ℕ → Type 0
  RowsWithin d [] ns = Unit
  RowsWithin d (t ∷ tables) [] = ⊥
  RowsWithin d (t ∷ tables) (n ∷ ns) =
      ((i : ℕ) → IsRow t d i → (1 ≤ i) × (i ≤ n)) × RowsWithin d tables ns

  abbrev pub table_oids : List (Table D) → List ℕ → List (List ℕ)
  table_oids [] ns = []
  table_oids (t ∷ tables) [] = []
  table_oids (t ∷ tables) (n ∷ ns) = column_oids t t.columns n ++ table_oids tables ns

  abbrev pub served_oids : Registry D → List ℕ → List (List ℕ)
  served_oids reg ns = module_oids reg.modules ++ table_oids reg.tables ns

  In-table_oids :
      (d : D) (tables : List (Table D)) (ns : List ℕ) (r : Resolved D)
      → RowsWithin d tables ns
      → InTables tables d r
      → In r.oid (table_oids tables ns)
  In-table_oids d [] ns r h m = absurd m
  In-table_oids d (t ∷ tables) [] r h m = absurd h
  In-table_oids d (t ∷ tables) (n ∷ ns) r (h, hs) (inl m) =
      In-append_left r.oid (column_oids t t.columns n) (table_oids tables ns)
        (In-column_oids t d t.columns n r h m)
  In-table_oids d (t ∷ tables) (n ∷ ns) r (h, hs) (inr m) =
      In-append_right r.oid (column_oids t t.columns n) (table_oids tables ns)
        (In-table_oids d tables ns r hs m)

  -- All instances have one of these OIDs.
  pub In-served_oids :
      (reg : Registry D) (d : D) (ns : List ℕ) (r : Resolved D)
      → RowsWithin d reg.tables ns
      → IsInstance reg d r
      → In r.oid (served_oids reg ns)
  unfolding populate_scalar
  In-served_oids reg d ns r h (inl (o, m, e)) =
      In-append_left r.oid (module_oids reg.modules) (table_oids reg.tables ns)
        (rw e (In-module_oids o reg.modules m))
  In-served_oids reg d ns r h (inr m) =
      In-append_right r.oid (module_oids reg.modules) (table_oids reg.tables ns)
        (In-table_oids d reg.tables ns r h m)
