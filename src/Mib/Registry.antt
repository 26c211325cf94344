-- ===== src/Mib/Registry.antt =====
-- The registration table and the scalar searches of firmware/components/mib/mib_registry.c.
pub mod Sorted
pub mod Search
pub mod FindNext
pub mod Find
use Prim.Native.Nat.{Ordering}
use wespe.Prelude.{
  ℕ, zero, suc, ◌+◌, ◌-◌, ◌/◌, Option, none, some, Bool, true, false, List, [], ◌∷◌, ◌++◌, ltb, leb,
  if◌then◌else◌, length, get_elem?,
}
use wespe.Mib.Types.{Object, Table}
use wespe.Mib.Oid.{oid_compare}
use wespe.Mib.Next.{nearer}

abbrev pub max_modules : ℕ
max_modules = 4

abbrev pub max_tables : ℕ
max_tables = 4

-- s_modules and s_tables, each with its count.
pub record Registry (D : Type 0) : Type 0 where
  pub modules : List (List (Object D))
  pub tables : List (Table D)

module _ {D : Type 0} where
  -- mib_registry_reset, and the state at the start.
  unfoldable pub registry_reset : Registry D
  registry_reset = record { modules = []; tables = [] }

  -- 0 on success is `true`, -1 is `false`.
  unfoldable pub register_module : List (Object D) → Registry D → Registry D × Bool
  register_module objects reg =
      if leb max_modules (length reg.modules)
      then (reg, false)
      else (record reg { modules = reg.modules ++ (objects ∷ []) }, true)

  unfoldable pub register_table : Table D → Registry D → Registry D × Bool
  register_table table reg =
      if leb max_tables (length reg.tables)
      then (reg, false)
      else (record reg { tables = reg.tables ++ (table ∷ []) }, true)

  total_count : List (List (Object D)) → ℕ
  total_count [] = 0
  total_count (objs ∷ modules) = length objs + total_count modules

  unfoldable pub registry_count : Registry D → ℕ
  unfolding total_count
  registry_count reg = total_count reg.modules

  -- The binary search of mib_registry_find in one module, with fuel. A read past the array would end
  -- it as a miss.
  unfoldable pub find_loop : List (Object D) → List ℕ → ℕ → ℕ → ℕ → Option (Object D)
  find_loop objs oid zero lo hi = none
  find_loop objs oid (suc fuel) lo hi =
      let mid = lo + (hi - lo) / 2 in
      let upper = find_loop objs oid fuel (mid + 1) hi in
      let lower = find_loop objs oid fuel lo mid in
      if ltb lo hi
      then elim (get_elem? objs mid) [
        | none ↦ none
        | some obj ↦ elim (oid_compare obj.oid oid) [
          | Ordering.eq ↦ some obj
          | Ordering.lt ↦ upper
          | Ordering.gt ↦ lower
        ]
      ]
      else none

  -- The loop over the modules. Each round of the search at least halves the range, so as many rounds
  -- as the module has objects, and one, are enough.
  unfoldable pub find_in : List (List (Object D)) → List ℕ → Option (Object D)
  find_in [] oid = none
  find_in (objs ∷ modules) oid =
      let others = find_in modules oid in
      elim (find_loop objs oid (suc (length objs)) 0 (length objs)) [
        | some obj ↦ some obj
        | none ↦ others
      ]

  unfoldable pub registry_find : Registry D → List ℕ → Option (Object D)
  unfolding find_in
  registry_find reg oid = find_in reg.modules oid

  -- The search of mib_registry_find_next in one module: the first index whose OID is greater.
  unfoldable pub upper_bound : List (Object D) → List ℕ → ℕ → ℕ → ℕ → ℕ
  upper_bound objs oid zero lo hi = lo
  upper_bound objs oid (suc fuel) lo hi =
      let mid = lo + (hi - lo) / 2 in
      let upper = upper_bound objs oid fuel (mid + 1) hi in
      let lower = upper_bound objs oid fuel lo mid in
      if ltb lo hi
      then elim (get_elem? objs mid) [
        | none ↦ lo
        | some obj ↦ elim (oid_compare obj.oid oid) [ Ordering.gt ↦ lower | _ ↦ upper ]
      ]
      else lo

  unfoldable pub find_next_from :
      Option (Object D) → List (List (Object D)) → List ℕ → Option (Object D)
  find_next_from best [] oid = best
  find_next_from best (objs ∷ modules) oid =
      let lo = upper_bound objs oid (suc (length objs)) 0 (length objs) in
      let best' : Option (Object D) = elim (get_elem? objs lo) [
        | none ↦ best
        | some cand ↦ nearer (λ (o : Object D). o.oid) best cand
      ] in
      find_next_from best' modules oid

  unfoldable pub registry_find_next : Registry D → List ℕ → Option (Object D)
  unfolding find_next_from
  registry_find_next reg oid = find_next_from none reg.modules oid
