-- ===== src/Mib/Resolve/Shifting.antt =====
-- A walk while the device changes between one GetNext and the next: mib_registry_resolve_next of
-- firmware/components/mib/mib_registry.c.
use mathlib.Core.Option
use wespe.Prelude.{
  ℕ, ◌<◌, ◌≡◌, inl, inr, refl, arith, Option, Option-cases, none, some, List, [], ◌∷◌, length, All,
}
use wespe.Mib.Types.{Resolved}
use wespe.Mib.Oid.{◌≺◌}
use wespe.Mib.Registry.{Registry}
use wespe.Mib.Registry.Sorted.{In, AllSorted}
use wespe.Mib.Resolve.{registry_resolve_next}
use wespe.Mib.Resolve.Next.{IsTable, IsInstance, registry_resolve_next-IsNext}
use wespe.Mib.Resolve.Walk.{count_after, count_after_lt, count_after_bound}

module _ {D : Type 0} (reg : Registry D) where
  -- Each GetNext finds the device in a state of its own; `none` means that the states ran out.
  unfoldable pub walk_over : List D → List ℕ → Option (List (Resolved D))
  walk_over [] oid = none
  walk_over (d ∷ ds) oid = elim (registry_resolve_next reg d oid) [
    | none ↦ some []
    | some r ↦ Option.map (λ rs. r ∷ rs) (walk_over ds r.oid)
  ]

  -- Each element is the next instance of its own state, and the last state has nothing left.
  abbrev pub Follows : List D → List ℕ → List (Resolved D) → Type 0
  Follows [] oid rs = ⊥
  Follows (d ∷ ds) oid [] = (a : Resolved D) → IsInstance reg d a → ¬ (oid ≺ a.oid)
  Follows (d ∷ ds) oid (r ∷ rs) =
      IsInstance reg d r
      × (oid ≺ r.oid)
      × ((a : Resolved D) → IsInstance reg d a → oid ≺ a.oid → ¬ (a.oid ≺ r.oid))
      × Follows ds r.oid rs

  -- A state in which the tables keep to their contract, and serve no other OID.
  pub record Serves (oids : List (List ℕ)) (d : D) : Type 0 where
    pub tables : All (λ t. IsTable t d) reg.tables
    pub within : (a : Resolved D) → IsInstance reg d a → In a.oid oids

  module _ (sorted : AllSorted reg.modules) (oids : List (List ℕ)) where
    walk_over_ends :
        (ds : List D) (oid : List ℕ)
        → All (Serves oids) ds
        → count_after oids oid < length ds
        → (rs : List (Resolved D)) × (walk_over ds oid ≡ some rs) × Follows ds oid rs
    unfolding walk_over
    walk_over_ends [] oid s h = absurd (omega arith)
    walk_over_ends (d ∷ ds) oid (s, later_states) h =
        let next = registry_resolve_next-IsNext reg d oid sorted s.tables in
        elim (Option-cases (registry_resolve_next reg d oid)) [
          | inl e ↦ ([], rw (walk_over, e) refl, rw e at next)
          | inr (r, e) ↦
              let (instance_of, later, least) = rw e at next in
              let fewer = count_after_lt oids oid r.oid later (s.within r instance_of) in
              let (rs, ends, follows) = walk_over_ends ds r.oid later_states (omega arith) in
              (r ∷ rs, rw (walk_over, e, ends) refl, (instance_of, later, least, follows))
        ]

    -- If all states serve some of finitely many OIDs, a walk ends within one GetNext more than there
    -- are OIDs, whatever comes and goes on the way; and each of its elements is an instance of the
    -- state that served it, the next after the one before.
    pub walk_over-Follows :
        (ds : List D) (oid : List ℕ)
        → All (Serves oids) ds
        → length oids < length ds
        → (rs : List (Resolved D)) × (walk_over ds oid ≡ some rs) × Follows ds oid rs
    walk_over-Follows ds oid s h =
        walk_over_ends ds oid s (omega (arith, count_after_bound oids oid))
