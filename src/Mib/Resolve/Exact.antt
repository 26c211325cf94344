-- ===== src/Mib/Resolve/Exact.antt =====
-- mib_registry_resolve of firmware/components/mib/mib_registry.c.
use wespe.Prelude.{
  ℕ, ◌≡◌, ◌≢◌, ◌⊎◌, inl, inr, refl, sym, ap, ◌∙◌, arith, Option-cases, List, [], ◌∷◌, All,
}
use wespe.Mib.Types.{MibResult, Object, Table, Resolved, Lookup, found, miss}
use wespe.Mib.Registry.{Registry, registry_find}
use wespe.Mib.Registry.Sorted.{AllSorted, IsRegistered}
use wespe.Mib.Registry.Find.{registry_find-Locates}
use wespe.Mib.Tables.{table_find_exact, populate_scalar}
use wespe.Mib.Resolve.{resolve_tables, registry_resolve}
use wespe.Mib.Resolve.Next.{InColumns, IsTable, InTables, IsInstance}
use wespe.Mib.Resolve.Cells.{
  NoRow, table_find_exact-found, table_find_exact-cell, table_find_exact-NoRow,
}

module _ {D : Type 0} where
  -- The two ways in which an OID can fail to name an instance.
  abbrev pub IsMiss : Lookup D → Type 0
  IsMiss (found r) = Unit {0}
  IsMiss (miss res) = (res ≡ MibResult.no_such_object) ⊎ (res ≡ MibResult.no_such_instance)

  resolve_tables-IsMiss :
      (tables : List (Table D)) (d : D) (oid : List ℕ) → IsMiss (resolve_tables tables d oid)
  unfolding resolve_tables
  resolve_tables-IsMiss [] d oid = inl refl
  resolve_tables-IsMiss (t ∷ tables) d oid =
      step (resolve_tables tables d oid) (table_find_exact t d oid)
        (resolve_tables-IsMiss tables d oid)
    where
      step :
          (rest l : Lookup D)
          → IsMiss rest
          → IsMiss (elim l [
            | found r ↦ found r
            | miss MibResult.no_such_instance ↦ miss MibResult.no_such_instance
            | miss _ ↦ rest
          ])
      step rest (found r) h = tt
      step rest (miss MibResult.no_such_instance) h = inr refl
      step rest (miss MibResult.ok) h = h
      step rest (miss MibResult.no_such_object) h = h
      step rest (miss MibResult.end_of_view) h = h
      step rest (miss MibResult.wrong_type) h = h
      step rest (miss MibResult.wrong_value) h = h
      step rest (miss MibResult.not_writable) h = h
      step rest (miss MibResult.gen_err) h = h

  pub registry_resolve-IsMiss :
      (reg : Registry D) (d : D) (oid : List ℕ) → IsMiss (registry_resolve reg d oid)
  unfolding registry_resolve
  registry_resolve-IsMiss reg d oid = elim (Option-cases (registry_find reg oid)) [
    | inl e ↦ rw (registry_resolve, e) (resolve_tables-IsMiss reg.tables d oid)
    | inr (obj, e) ↦ rw (registry_resolve, e) tt
  ]

  -- A registered table has a column, but not a row, for the OID.
  abbrev pub InNoRow : List (Table D) → D → List ℕ → Type 0
  InNoRow [] d oid = ⊥
  InNoRow (t ∷ tables) d oid = NoRow t d t.columns oid ⊎ InNoRow tables d oid

  -- What an exact search may answer: an instance with the OID; or that no instance has it; or that a
  -- table has a column but no row for it, and no scalar has it.
  abbrev pub Resolves : Registry D → D → List ℕ → Lookup D → Type 0
  Resolves reg d oid (found r) = IsInstance reg d r × (r.oid ≡ oid)
  Resolves reg d oid (miss res) =
      ((res ≡ MibResult.no_such_object) × ((r : Resolved D) → IsInstance reg d r → r.oid ≢ oid))
      ⊎ ((res ≡ MibResult.no_such_instance)
          × InNoRow reg.tables d oid
          × ((o : Object D) → IsRegistered reg.modules o → o.oid ≢ oid))

  -- The same of the tables alone.
  abbrev TablesResolve : List (Table D) → D → List ℕ → Lookup D → Type 0
  TablesResolve tables d oid (found r) = InTables tables d r × (r.oid ≡ oid)
  TablesResolve tables d oid (miss res) =
      ((res ≡ MibResult.no_such_object) × ((r : Resolved D) → InTables tables d r → r.oid ≢ oid))
      ⊎ ((res ≡ MibResult.no_such_instance) × InNoRow tables d oid)

  resolve_tables-TablesResolve :
      (tables : List (Table D)) (d : D) (oid : List ℕ)
      → All (λ t. IsTable t d) tables
      → TablesResolve tables d oid (resolve_tables tables d oid)
  unfolding resolve_tables
  resolve_tables-TablesResolve [] d oid h = inl (refl, λ r x. absurd x)
  resolve_tables-TablesResolve (t ∷ tables) d oid (h, hs) =
      step (table_find_exact t d oid) (resolve_tables tables d oid) refl
        (resolve_tables-TablesResolve tables d oid hs)
    where
      later :
          (l : Lookup D)
          → ((r : Resolved D) → InColumns t d t.columns r → r.oid ≢ oid)
          → TablesResolve tables d oid l
          → TablesResolve (t ∷ tables) d oid l
      later (found r) none_here (m, e) = (inr m, e)
      later (miss res) none_here (inr (e, no_row)) = inr (e, inr no_row)
      later (miss res) none_here (inl (e, none_later)) = inl (e, both)
        where
          both : (r : Resolved D) → InTables (t ∷ tables) d r → r.oid ≢ oid
          both r (inl m) = none_here r m
          both r (inr m) = none_later r m

      missed :
          (res : MibResult)
          → table_find_exact t d oid ≡ miss res
          → (r : Resolved D) → InColumns t d t.columns r
          → r.oid ≢ oid
      missed res e r m same =
          let (x, f) = table_find_exact-cell t d h oid r m same in
          absurd (ground (arith, sym e ∙ f))

      step :
          (l rest : Lookup D)
          → table_find_exact t d oid ≡ l
          → TablesResolve tables d oid rest
          → TablesResolve (t ∷ tables) d oid (elim l [
            | found r ↦ found r
            | miss MibResult.no_such_instance ↦ miss MibResult.no_such_instance
            | miss _ ↦ rest
          ])
      step (found r) rest e k =
          let (m, same) = table_find_exact-found t d h oid r e in (inl m, same)
      step (miss MibResult.no_such_instance) rest e k =
          inr (refl, inl (table_find_exact-NoRow t d h oid e))
      step (miss MibResult.ok) rest e k = later rest (missed MibResult.ok e) k
      step (miss MibResult.no_such_object) rest e k =
          later rest (missed MibResult.no_such_object e) k
      step (miss MibResult.end_of_view) rest e k = later rest (missed MibResult.end_of_view e) k
      step (miss MibResult.wrong_type) rest e k = later rest (missed MibResult.wrong_type e) k
      step (miss MibResult.wrong_value) rest e k = later rest (missed MibResult.wrong_value e) k
      step (miss MibResult.not_writable) rest e k = later rest (missed MibResult.not_writable e) k
      step (miss MibResult.gen_err) rest e k = later rest (missed MibResult.gen_err e) k

  with_scalars :
      (reg : Registry D) (d : D) (oid : List ℕ) (l : Lookup D)
      → ((o : Object D) → IsRegistered reg.modules o → o.oid ≢ oid)
      → TablesResolve reg.tables d oid l
      → Resolves reg d oid l
  unfolding populate_scalar
  with_scalars reg d oid (found r) none_here (m, e) = (inr m, e)
  with_scalars reg d oid (miss res) none_here (inr (e, no_row)) = inr (e, no_row, none_here)
  with_scalars reg d oid (miss res) none_here (inl (e, none_later)) = inl (e, both)
    where
      both : (r : Resolved D) → IsInstance reg d r → r.oid ≢ oid
      both r (inl (o, m, same)) =
          λ at_oid. none_here o m (sym (ap (λ (x : Resolved D). x.oid) same) ∙ at_oid)
      both r (inr m) = none_later r m

  pub registry_resolve-Resolves :
      (reg : Registry D) (d : D) (oid : List ℕ)
      → AllSorted reg.modules
      → All (λ t. IsTable t d) reg.tables
      → Resolves reg d oid (registry_resolve reg d oid)
  unfolding registry_resolve populate_scalar
  registry_resolve-Resolves reg d oid sorted tables =
      let scalar = registry_find-Locates reg oid sorted in
      elim (Option-cases (registry_find reg oid)) [
        | inl e ↦
            rw (registry_resolve, e)
              (with_scalars reg d oid (resolve_tables reg.tables d oid) (rw e at scalar)
                (resolve_tables-TablesResolve reg.tables d oid tables))
        | inr (o, e) ↦
            let (m, same) = rw e at scalar in rw (registry_resolve, e) (inl (o, m, refl), same)
      ]
