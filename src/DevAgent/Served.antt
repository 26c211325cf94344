-- ===== src/DevAgent/Served.antt =====
-- What the registry of tools/dev_agent/dev_agent.c serves.
use wespe.Prelude.{ℕ, ◌≡◌, refl, arith, inl, inr, All-map, Option-cases, length, All}
use wespe.Mib.Types.{MibResult, Varbind, Resolved, Getter}
use wespe.Mib.Oid.{oid_compare, oid_compare-Compares}
use wespe.Mib.Registry.Sorted.{AllSorted}
use wespe.Mib.Tables.{populate_scalar, populate_cell}
use wespe.Mib.Resolve.{resolved_get, target_get}
use wespe.Mib.Resolve.Next.{IsTable, IsInstance}
use wespe.Mib.Resolve.Instances.{IsInstance-all}
use wespe.DevAgent.Types.{MockIfRow, DevAgent}
use wespe.DevAgent.Scalars.{
  oid_sys_descr, oid_sys_object_id, oid_sys_uptime, oid_sys_name, oid_wespe_temperature,
  oid_wespe_relay_state, oid_wespe_uptime_seconds, get_sys_descr, get_sys_object_id, get_sys_uptime,
  get_sys_name, get_temperature, get_relay_state, get_wespe_uptime,
}
use wespe.DevAgent.Interfaces.{
  iftable, ifxtable, iftable_columns, ifxtable_columns, get_if_number, find_if_row, if_cell,
  ifx_cell, with_if_row, refresh_climbing_counters,
}
use wespe.DevAgent.Sensors.{wsensor_columns, wsensor_cell, wsensor_get_cell}
use wespe.DevAgent.Agent.{dev_registry}
use wespe.DevAgent.Rows.{
  HasInterfaces, if_next_index-IsAscending, if_first_index-IsU32, wsensor_next_index-IsAscending,
}
use wespe.DevAgent.Valid.{IsValid, registered, dev_registry-registered}

pub registered-AllSorted : AllSorted registered.modules
unfolding oid_compare
registered-AllSorted = (
  (
    oid_compare-Compares oid_sys_descr oid_sys_object_id,
    (
      oid_compare-Compares oid_sys_object_id oid_sys_uptime,
      (oid_compare-Compares oid_sys_uptime oid_sys_name, tt),
    ),
  ),
  (
    (
      oid_compare-Compares oid_wespe_temperature oid_wespe_relay_state,
      (oid_compare-Compares oid_wespe_relay_state oid_wespe_uptime_seconds, tt),
    ),
    (tt, tt),
  ),
)

pub registered-IsTable : (d : DevAgent) → HasInterfaces d → All (λ t. IsTable t d) registered.tables
registered-IsTable d h = (
  record {
    sorted = omega arith;
    first_u32 = if_first_index-IsU32 d h;
    ascending = if_next_index-IsAscending d h;
  },
  (
    record {
      sorted = omega arith;
      first_u32 = if_first_index-IsU32 d h;
      ascending = if_next_index-IsAscending d h;
    },
    (
      record {
        sorted = omega arith;
        first_u32 = λ i e. ground arith;
        ascending = wsensor_next_index-IsAscending d;
      },
      tt,
    ),
  ),
)

-- After MIB_OK the varbind has type `tag`, and the OID that it had.
abbrev GetsType : ℕ → Getter DevAgent → Type 0
GetsType tag getter =
    (d d' : DevAgent) (vb vb' : Varbind)
    → getter d vb ≡ (MibResult.ok, vb', d')
    → (vb'.value_tag ≡ tag) × (vb'.oid ≡ vb.oid)

abbrev pub ServesType : Resolved DevAgent → Type 0
ServesType r = GetsType r.value_tag (resolved_get r)

with_if_row-GetsType :
    (tag : ℕ) (cell : MockIfRow → Getter DevAgent)
    → ((row : MockIfRow) → GetsType tag (cell row))
    → (index : ℕ) → GetsType tag (with_if_row cell index)
unfolding with_if_row
with_if_row-GetsType tag cell h index d d' vb vb' e = elim (Option-cases (find_if_row index d)) [
  | inl f ↦ absurd (ground (arith, rw (with_if_row, f) at e))
  | inr (row, f) ↦
      let (fresh, d0) = refresh_climbing_counters row d in
      h fresh d0 d' vb vb' (rw (with_if_row, f) at e)
]

scalars-ServesType : All (All (λ o. ServesType (populate_scalar o))) registered.modules
unfolding resolved_get target_get populate_scalar get_sys_descr get_sys_object_id get_sys_uptime
    get_sys_name get_temperature get_relay_state get_wespe_uptime get_if_number
scalars-ServesType = (
  (
    λ d d' vb vb' e. ground arith,
    (
      λ d d' vb vb' e. ground arith,
      (λ d d' vb vb' e. ground arith, (λ d d' vb vb' e. ground arith, tt)),
    ),
  ),
  (
    (
      λ d d' vb vb' e. ground arith,
      (λ d d' vb vb' e. ground arith, (λ d d' vb vb' e. ground arith, tt)),
    ),
    ((λ d d' vb vb' e. ground arith, tt), tt),
  ),
)

if_cell-GetsType :
    All (λ col. (row : MockIfRow) → GetsType col.value_tag (if_cell col.number row)) iftable_columns
unfolding if_cell
if_cell-GetsType = (
  λ row d d' vb vb' e. ground arith,
  (
    λ row d d' vb vb' e. ground arith,
    (
      λ row d d' vb vb' e. ground arith,
      (
        λ row d d' vb vb' e. ground arith,
        (
          λ row d d' vb vb' e. ground arith,
          (
            λ row d d' vb vb' e. ground arith,
            (
              λ row d d' vb vb' e. ground arith,
              (
                λ row d d' vb vb' e. ground arith,
                (
                  λ row d d' vb vb' e. ground arith,
                  (λ row d d' vb vb' e. ground arith, (λ row d d' vb vb' e. ground arith, tt)),
                ),
              ),
            ),
          ),
        ),
      ),
    ),
  ),
)

ifx_cell-GetsType :
    All
      (λ col. (row : MockIfRow) → GetsType col.value_tag (ifx_cell col.number row))
      ifxtable_columns
unfolding ifx_cell
ifx_cell-GetsType = (
  λ row d d' vb vb' e. ground arith,
  (λ row d d' vb vb' e. ground arith, (λ row d d' vb vb' e. ground arith, tt)),
)

wsensor-GetsType :
    All (λ col. (i : ℕ) → GetsType col.value_tag (wsensor_get_cell col.number i)) wsensor_columns
unfolding wsensor_get_cell wsensor_cell
wsensor-GetsType = (
  λ i d d' vb vb' e. ground arith,
  (
    λ i d d' vb vb' e. ground arith,
    (
      λ i d d' vb vb' e. ground arith,
      (λ i d d' vb vb' e. ground arith, (λ i d d' vb vb' e. ground arith, tt)),
    ),
  ),
)

cells-ServesType :
    All (λ t. All (λ col. (i : ℕ) → ServesType (populate_cell t col i)) t.columns) registered.tables
unfolding resolved_get target_get populate_cell
cells-ServesType = (
  All-map (λ col. (row : MockIfRow) → GetsType col.value_tag (if_cell col.number row))
      (λ col. (i : ℕ) → ServesType (populate_cell iftable col i)) iftable_columns
      (λ col. with_if_row-GetsType col.value_tag (if_cell col.number)) if_cell-GetsType,
  (
    All-map (λ col. (row : MockIfRow) → GetsType col.value_tag (ifx_cell col.number row))
        (λ col. (i : ℕ) → ServesType (populate_cell ifxtable col i)) ifxtable_columns
        (λ col. with_if_row-GetsType col.value_tag (ifx_cell col.number)) ifx_cell-GetsType,
    (wsensor-GetsType, tt),
  ),
)

-- What main registers is all registered, and it keeps to the contract of mib_tree.h and mib_table.h:
-- modules are sorted by OID, and columns by number; in every valid state the index callbacks enumerate
-- ascending uint32_t; and a getter that returns MIB_OK leaves a value of the type that the object or
-- the column declares, and leaves the OID alone.
pub dev_registry-KeepsContract :
    AllSorted dev_registry.modules
    × ((d : DevAgent) → IsValid d → All (λ t. IsTable t d) dev_registry.tables)
    × ((d : DevAgent) (r : Resolved DevAgent) → IsInstance dev_registry d r → ServesType r)
    × (length dev_registry.modules ≡ 3)
    × (length dev_registry.tables ≡ 3)
dev_registry-KeepsContract = rw dev_registry-registered (
  registered-AllSorted,
  λ d v. registered-IsTable d v.interfaces,
  λ d r. IsInstance-all ServesType registered d r scalars-ServesType cells-ServesType,
  refl,
  refl,
)
