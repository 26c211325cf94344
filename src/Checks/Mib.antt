-- ===== src/Checks/Mib.antt =====
-- The registry of firmware/components/mib on a small agent.
use wespe.Prelude.{ℕ, ◌^◌, ◌≡◌, ◌↔◌, refl, arith, true, Option, none, some, List, [], ◌∷◌, ◌++◌}
use wespe.Mib.Types.{MibResult, Resolved, miss}
use wespe.Mib.Oid.{oid_compare}
use wespe.Mib.Next.{IsNext, nearer}
use wespe.Mib.Registry.{
  registry_find, registry_find_next, find_in, find_loop, find_next_from, upper_bound,
}
use wespe.Mib.Tables.{
  row_exists, scan_rows, row_fuel, cell_oid, populate_cell, scan_columns, table_find_next,
  populate_scalar, table_find_exact, find_cell, find_column,
}
use wespe.Mib.Resolve.{registry_resolve, registry_resolve_next, resolve_next_from, resolve_tables}
use wespe.Mib.Resolve.Rows.{From, row_exists-From}
use wespe.Mib.Resolve.Next.{IsInstance, registry_resolve_next-IsNext}
use wespe.Checks.Fixtures.{
  descr_oid, relay_oid, entry, next_row, agent, agent-AllSorted, next_row-IsAscending,
  interfaces-IsTable,
}

row_exists-From_example :
    (row_exists (2 ^ 32) next_row 2 (some 1) ≡ true) ↔ From next_row 2 (some 1)
row_exists-From_example =
    row_exists-From next_row next_row-IsAscending (2 ^ 32) 2 (some 1) (omega arith, omega arith)

registry_resolve_next-IsNext_example :
    IsNext
      (λ (r : Resolved ℕ). r.oid)
      (IsInstance agent 0)
      descr_oid
      (registry_resolve_next agent 0 descr_oid)
registry_resolve_next-IsNext_example =
    registry_resolve_next-IsNext agent 0 descr_oid agent-AllSorted (interfaces-IsTable 0, tt)

-- A walk: after the description come the cells column by column, and then the relay.
oid_of : Option (Resolved ℕ) → List ℕ
oid_of none = []
oid_of (some r) = r.oid

first_cell : oid_of (registry_resolve_next agent 0 descr_oid) ≡ entry ++ (1 ∷ 1 ∷ [])
unfolding registry_resolve_next resolve_next_from registry_find_next find_next_from upper_bound
    nearer oid_compare table_find_next scan_columns scan_rows cell_oid populate_cell populate_scalar
    oid_of row_fuel
first_cell = refl

after_cells : oid_of (registry_resolve_next agent 0 (entry ++ (3 ∷ 2 ∷ []))) ≡ relay_oid
unfolding registry_resolve_next resolve_next_from registry_find_next find_next_from upper_bound
    nearer oid_compare table_find_next scan_columns scan_rows cell_oid populate_cell populate_scalar
    oid_of row_fuel
after_cells = refl

no_row : registry_resolve agent 0 (entry ++ (1 ∷ 3 ∷ [])) ≡ miss MibResult.no_such_instance
unfolding registry_resolve resolve_tables registry_find find_in find_loop oid_compare
    table_find_exact find_cell find_column row_exists row_fuel
no_row = refl
