-- ===== src/Mib/Resolve.antt =====
-- mib_registry_resolve, mib_registry_resolve_next, mib_resolved_get and mib_resolved_set of
-- firmware/components/mib/mib_registry.c. They read the device state `d` through the index callbacks
-- of the tables; a search does not change it.
pub mod Rows
pub mod Next
pub mod Cells
pub mod Exact
pub mod Instances
pub mod Walk
pub mod Oids
pub mod Shifting
use wespe.Prelude.{ℕ, Option, none, some, List, [], ◌∷◌}
use mathlib.Core.Option
use wespe.Mib.Types.{
  MibResult, Varbind, Object, Table, Target, scalar, cell, Resolved, Lookup, found, miss, Getter,
  Setter,
}
use wespe.Mib.Next.{nearer}
use wespe.Mib.Registry.{Registry, registry_find, registry_find_next}
use wespe.Mib.Tables.{populate_scalar, table_find_exact, table_find_next}

module _ {D : Type 0} where
  -- The loop over the tables: the first that has the cell, or owns it without having the row.
  unfoldable pub resolve_tables : List (Table D) → D → List ℕ → Lookup D
  resolve_tables [] d oid = miss MibResult.no_such_object
  resolve_tables (t ∷ tables) d oid =
      let rest = resolve_tables tables d oid in
      elim (table_find_exact t d oid) [
        | found r ↦ found r
        | miss MibResult.no_such_instance ↦ miss MibResult.no_such_instance
        | miss _ ↦ rest
      ]

  unfoldable pub registry_resolve : Registry D → D → List ℕ → Lookup D
  unfolding resolve_tables
  registry_resolve reg d oid = elim (registry_find reg oid) [
    | some obj ↦ found (populate_scalar obj)
    | none ↦ resolve_tables reg.tables d oid
  ]

  -- The loop over the tables of mib_registry_resolve_next, from the best candidate so far.
  unfoldable pub resolve_next_from :
      Option (Resolved D) → List (Table D) → D → List ℕ → Option (Resolved D)
  resolve_next_from best [] d oid = best
  resolve_next_from best (t ∷ tables) d oid =
      let best' : Option (Resolved D) = elim (table_find_next t d oid) [
        | none ↦ best
        | some cand ↦ nearer (λ (r : Resolved D). r.oid) best cand
      ] in
      resolve_next_from best' tables d oid

  -- `none` is MIB_END_OF_VIEW.
  unfoldable pub registry_resolve_next : Registry D → D → List ℕ → Option (Resolved D)
  unfolding resolve_next_from
  registry_resolve_next reg d oid =
      resolve_next_from (Option.map populate_scalar (registry_find_next reg oid)) reg.tables d oid

  unfoldable pub target_get : Target D → Getter D
  target_get (scalar obj) d vb = obj.getter d vb
  target_get (cell t column index) d vb = t.get_cell column index d vb

  unfoldable pub resolved_get : Resolved D → Getter D
  unfolding target_get
  resolved_get r = target_get r.target

  unfoldable pub target_set : Target D → Setter D
  target_set (scalar obj) d vb = elim obj.setter [
    | none ↦ (MibResult.not_writable, d)
    | some setter ↦ setter d vb
  ]
  target_set (cell t column index) d vb = elim t.set_cell [
    | none ↦ (MibResult.not_writable, d)
    | some set_cell ↦ set_cell column index d vb
  ]

  unfoldable pub resolved_set : Resolved D → Setter D
  unfolding target_set
  resolved_set r = target_set r.target
