-- ===== src/Mib/Resolve/Instances.antt =====
-- What holds of every getter and every setter that is registered holds of what is resolved:
-- mib_resolved_get and mib_resolved_set of firmware/components/mib/mib_registry.c.
use wespe.Prelude.{ℕ, ◌≡◌, ◌⊎◌, inl, inr, refl, Option, none, some, List, [], ◌∷◌, All}
use wespe.Mib.Types.{
  MibResult, Lookup, found, miss, scalar, cell, Column, Varbind, Object, Table, Resolved, Getter,
  Setter,
}
use wespe.Mib.Registry.{Registry}
use wespe.Mib.Registry.Sorted.{In, IsRegistered}
use wespe.Mib.Tables.{populate_scalar, populate_cell}
use wespe.Mib.Resolve.{resolved_get, resolved_set, target_get, target_set}
use wespe.Mib.Resolve.Next.{InColumns, InTables, IsInstance}

All-In : {A : Type 0} (P : A → Type 0) (xs : List A) (x : A) → All P xs → In x xs → P x
All-In P [] x h m = absurd m
All-In P (y ∷ ys) x (h, hs) (inl e) = rw e h
All-In P (y ∷ ys) x (h, hs) (inr m) = All-In P ys x hs m

module _ {D : Type 0} where
  All-IsRegistered :
      (P : Object D → Type 0) (modules : List (List (Object D))) (o : Object D)
      → All (All P) modules
      → IsRegistered modules o
      → P o
  All-IsRegistered P [] o h m = absurd m
  All-IsRegistered P (objs ∷ modules) o (h, hs) (inl m) = All-In P objs o h m
  All-IsRegistered P (objs ∷ modules) o (h, hs) (inr m) = All-IsRegistered P modules o hs m

  in_columns :
      (P : Resolved D → Type 0) (t : Table D) (d : D) (cols : List Column) (r : Resolved D)
      → ((col : Column) (i : ℕ) → P (populate_cell t col i))
      → InColumns t d cols r
      → P r
  in_columns P t d [] r h m = absurd m
  in_columns P t d (col ∷ cols) r h (inl (i, row, e)) = rw e (h col i)
  in_columns P t d (col ∷ cols) r h (inr m) = in_columns P t d cols r h m

  in_tables :
      (P : Resolved D → Type 0) (Q : Table D → Type 0) (tables : List (Table D)) (d : D)
      (r : Resolved D)
      → ((t : Table D) → Q t → (col : Column) (i : ℕ) → P (populate_cell t col i))
      → All Q tables
      → InTables tables d r
      → P r
  in_tables P Q [] d r f h m = absurd m
  in_tables P Q (t ∷ tables) d r f (h, hs) (inl m) = in_columns P t d t.columns r (f t h) m
  in_tables P Q (t ∷ tables) d r f (h, hs) (inr m) = in_tables P Q tables d r f hs m

  -- What holds of each registered scalar and of each cell of each column holds of all instances.
  pub IsInstance-all :
      (P : Resolved D → Type 0) (reg : Registry D) (d : D) (r : Resolved D)
      → All (All (λ o. P (populate_scalar o))) reg.modules
      → All (λ t. All (λ col. (i : ℕ) → P (populate_cell t col i)) t.columns) reg.tables
      → IsInstance reg d r
      → P r
  IsInstance-all P reg d r scalars cells (inl (o, m, e)) =
      rw e (All-IsRegistered (λ o. P (populate_scalar o)) reg.modules o scalars m)
  IsInstance-all P reg d r scalars cells (inr m) = by_table reg.tables cells m
    where
      by_column :
          (t : Table D) (cols : List Column)
          → All (λ col. (i : ℕ) → P (populate_cell t col i)) cols
          → InColumns t d cols r
          → P r
      by_column t [] h m = absurd m
      by_column t (col ∷ cols) (h, hs) (inl (i, row, e)) = rw e (h i)
      by_column t (col ∷ cols) (h, hs) (inr m) = by_column t cols hs m

      by_table :
          (tables : List (Table D))
          → All (λ t. All (λ col. (i : ℕ) → P (populate_cell t col i)) t.columns) tables
          → InTables tables d r
          → P r
      by_table [] h m = absurd m
      by_table (t ∷ tables) (h, hs) (inl m) = by_column t t.columns h m
      by_table (t ∷ tables) (h, hs) (inr m) = by_table tables hs m

  module _ (Q : D → Varbind → MibResult × Varbind × D → Type 0) where
    abbrev pub Gets : Getter D → Type 0
    Gets getter = (d : D) (vb : Varbind) → Q d vb (getter d vb)

    abbrev pub AllGet : Registry D → Type 0
    AllGet reg =
        All (All (λ o. Gets o.getter)) reg.modules
        × All (λ t. (column index : ℕ) → Gets (t.get_cell column index)) reg.tables

    pub resolved_get-Gets :
        (reg : Registry D)
        → AllGet reg
        → (d : D) (r : Resolved D) → IsInstance reg d r
        → Gets (resolved_get r)
    unfolding resolved_get target_get populate_scalar populate_cell
    resolved_get-Gets reg (scalars, cells) d r (inl (o, m, e)) =
        rw e (All-IsRegistered (λ o. Gets o.getter) reg.modules o scalars m)
    resolved_get-Gets reg (scalars, cells) d r (inr m) =
        in_tables (λ r. Gets (resolved_get r))
          (λ t. (column index : ℕ) → Gets (t.get_cell column index)) reg.tables d r
          (λ t h col i. h col.number i) cells m

  module _ (Q : D → Varbind → MibResult × D → Type 0) where
    -- NULL counts as a setter that answers MIB_NOT_WRITABLE.
    abbrev pub Sets : Option (Setter D) → Type 0
    Sets none = (d : D) (vb : Varbind) → Q d vb (MibResult.not_writable, d)
    Sets (some setter) = (d : D) (vb : Varbind) → Q d vb (setter d vb)

    abbrev pub SetsCells : Option (ℕ → ℕ → Setter D) → Type 0
    SetsCells none = (d : D) (vb : Varbind) → Q d vb (MibResult.not_writable, d)
    SetsCells (some set_cell) =
        (column index : ℕ) (d : D) (vb : Varbind) → Q d vb (set_cell column index d vb)

    abbrev pub AllSet : Registry D → Type 0
    AllSet reg =
        All (All (λ o. Sets o.setter)) reg.modules × All (λ t. SetsCells t.set_cell) reg.tables

    scalar_sets :
        (o : Object D)
        → Sets o.setter
        → (d : D) (vb : Varbind) → Q d vb (target_set (scalar o) d vb)
    unfolding target_set
    scalar_sets o h d vb = by_setter o.setter h
      where
        by_setter :
            (s : Option (Setter D))
            → Sets s
            → Q d vb (elim s [ none ↦ (MibResult.not_writable, d) | some setter ↦ setter d vb ])
        by_setter none h = h d vb
        by_setter (some setter) h = h d vb

    cell_sets :
        (t : Table D)
        → SetsCells t.set_cell
        → (column index : ℕ) (d : D) (vb : Varbind) → Q d vb (target_set (cell t column index) d vb)
    unfolding target_set
    cell_sets t h column index d vb = by_setter t.set_cell h
      where
        by_setter :
            (s : Option (ℕ → ℕ → Setter D))
            → SetsCells s
            → Q d vb (elim s [
              | none ↦ (MibResult.not_writable, d)
              | some set_cell ↦ set_cell column index d vb
            ])
        by_setter none h = h d vb
        by_setter (some set_cell) h = h column index d vb

    pub resolved_set-Sets :
        (reg : Registry D)
        → AllSet reg
        → (d : D) (r : Resolved D) → IsInstance reg d r
        → (d' : D) (vb : Varbind) → Q d' vb (resolved_set r d' vb)
    unfolding resolved_set populate_scalar populate_cell
    resolved_set-Sets reg (scalars, cells) d r (inl (o, m, e)) =
        rw e (scalar_sets o (All-IsRegistered (λ o. Sets o.setter) reg.modules o scalars m))
    resolved_set-Sets reg (scalars, cells) d r (inr m) =
        in_tables (λ r. (d' : D) (vb : Varbind) → Q d' vb (resolved_set r d' vb))
          (λ t. SetsCells t.set_cell) reg.tables d r (λ t h col i. cell_sets t h col.number i) cells
          m

  pub Lookup-cases :
      (l : Lookup D) → ((r : Resolved D) × (l ≡ found r)) ⊎ ((res : MibResult) × (l ≡ miss res))
  Lookup-cases (found r) = inl (r, refl)
  Lookup-cases (miss res) = inr (res, refl)
