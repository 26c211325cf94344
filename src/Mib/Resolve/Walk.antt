-- ===== src/Mib/Resolve/Walk.antt =====
-- A walk, GetNext upon GetNext: mib_registry_resolve_next of firmware/components/mib/mib_registry.c.
use Prim.Native.Nat.{Ordering}
use mathlib.Core.Option
use wespe.Prelude.{
  ℕ, zero, suc, ◌+◌, ◌≤◌, ◌<◌, ◌≡◌, ◌⊎◌, inl, inr, refl, arith, Option, Option-cases, none, some,
  Bool, true, false, List, [], ◌∷◌, length, Bool-cases, if◌then◌else◌, All,
}
use wespe.Mib.Types.{Resolved}
use wespe.Mib.Oid.{oid_compare, ◌≺◌, ≺_irrefl, ≺_trans, ≺_cases}
use wespe.Mib.Registry.{Registry}
use wespe.Mib.Registry.Sorted.{In, AllSorted}
use wespe.Mib.Resolve.{registry_resolve_next}
use wespe.Mib.Resolve.Next.{IsTable, IsInstance, registry_resolve_next-IsNext}

-- How many of some OIDs come after `oid`.
abbrev is_after : List ℕ → List ℕ → Bool
is_after oid x = elim (oid_compare x oid) [ Ordering.gt ↦ true | _ ↦ false ]

pub count_after : List (List ℕ) → List ℕ → ℕ
count_after [] oid = 0
count_after (x ∷ xs) oid = (if is_after oid x then 1 else 0) + count_after xs oid

is_after-of : (oid x : List ℕ) → oid ≺ x → is_after oid x ≡ true
is_after-of oid x h = elim (≺_cases x oid) [
  | inl (c, less) ↦ absurd (≺_irrefl oid (≺_trans oid x oid h less))
  | inr (inl (c, same)) ↦ absurd (≺_irrefl oid (rw same at h))
  | inr (inr (c, more)) ↦ rw (c, is_after) refl
]

not_after : (oid x : List ℕ) → ¬ (oid ≺ x) → is_after oid x ≡ false
not_after oid x h = elim (≺_cases x oid) [
  | inl (c, less) ↦ rw (c, is_after) refl
  | inr (inl (c, same)) ↦ rw (c, is_after) refl
  | inr (inr (c, more)) ↦ absurd (h more)
]

after-cases : (oid x : List ℕ) → (oid ≺ x) ⊎ ¬ (oid ≺ x)
after-cases oid x = elim (≺_cases x oid) [
  | inl (c, less) ↦ inr (λ h. ≺_irrefl oid (≺_trans oid x oid h less))
  | inr (inl (c, same)) ↦ inr (λ h. ≺_irrefl oid (rw same at h))
  | inr (inr (c, more)) ↦ inl more
]

after_trans :
    (oid p x : List ℕ)
    → oid ≺ p
    → (if is_after p x then 1 else 0) ≤ (if is_after oid x then 1 else 0)
after_trans oid p x h = elim (after-cases p x) [
  | inl more ↦ rw (is_after-of p x more, is_after-of oid x (≺_trans oid p x h more)) (omega arith)
  | inr not ↦ rw (not_after p x not) (omega arith)
]

count_after_le :
    (xs : List (List ℕ)) (oid p : List ℕ) → oid ≺ p → count_after xs p ≤ count_after xs oid
unfolding count_after
count_after_le [] oid p h = omega arith
count_after_le (x ∷ xs) oid p h = omega (arith, after_trans oid p x h, count_after_le xs oid p h)

pub count_after_lt :
    (xs : List (List ℕ)) (oid p : List ℕ)
    → oid ≺ p
    → In p xs
    → count_after xs p < count_after xs oid
unfolding count_after
count_after_lt [] oid p h m = absurd m
count_after_lt (x ∷ xs) oid p h (inl e) =
    let here = is_after-of oid x (rw e at h) in
    let gone = not_after p x (λ (l : p ≺ x). ≺_irrefl x (rw e at l)) in
    rw (here, gone) (omega (arith, count_after_le xs oid p h))
count_after_lt (x ∷ xs) oid p h (inr m) =
    omega (arith, after_trans oid p x h, count_after_lt xs oid p h m)

pub count_after_bound : (xs : List (List ℕ)) (oid : List ℕ) → count_after xs oid ≤ length xs
unfolding count_after
count_after_bound [] oid = omega arith
count_after_bound (x ∷ xs) oid = elim (Bool-cases (is_after oid x)) [
  | inl e ↦ rw e (omega (arith, count_after_bound xs oid))
  | inr e ↦ rw e (omega (arith, count_after_bound xs oid))
]

module _ {D : Type 0} where
  -- GetNext after `oid`, then after its answer, and so on; `none` means that the rounds ran out.
  unfoldable pub walk : ℕ → Registry D → D → List ℕ → Option (List (Resolved D))
  walk zero reg d oid = none
  walk (suc rounds) reg d oid = elim (registry_resolve_next reg d oid) [
    | none ↦ some []
    | some r ↦ Option.map (λ rs. r ∷ rs) (walk rounds reg d r.oid)
  ]

  -- Instances in ascending order, from `oid` on, with no instance left out anywhere.
  abbrev pub Covers : Registry D → D → List ℕ → List (Resolved D) → Type 0
  Covers reg d oid [] = (a : Resolved D) → IsInstance reg d a → ¬ (oid ≺ a.oid)
  Covers reg d oid (r ∷ rs) =
      IsInstance reg d r
      × (oid ≺ r.oid)
      × ((a : Resolved D) → IsInstance reg d a → oid ≺ a.oid → ¬ (a.oid ≺ r.oid))
      × Covers reg d r.oid rs

  module _ (reg : Registry D) (d : D) (sorted : AllSorted reg.modules)
      (tables : All (λ t. IsTable t d) reg.tables) (oids : List (List ℕ))
      (finite : (a : Resolved D) → IsInstance reg d a → In a.oid oids) where
    walk_ends :
        (rounds : ℕ) (oid : List ℕ)
        → count_after oids oid < rounds
        → (rs : List (Resolved D)) × (walk rounds reg d oid ≡ some rs) × Covers reg d oid rs
    unfolding walk
    walk_ends zero oid h = absurd (omega arith)
    walk_ends (suc rounds) oid h =
        let next = registry_resolve_next-IsNext reg d oid sorted tables in
        elim (Option-cases (registry_resolve_next reg d oid)) [
          | inl e ↦ ([], rw (walk, e) refl, rw e at next)
          | inr (r, e) ↦
              let (instance_of, later, least) = rw e at next in
              let fewer = count_after_lt oids oid r.oid later (finite r instance_of) in
              let (rs, ends, covers) = walk_ends rounds r.oid (omega arith) in
              (r ∷ rs, rw (walk, e, ends) refl, (instance_of, later, least, covers))
        ]

    -- If all instances have one of finitely many OIDs, a walk from any OID ends, within one GetNext
    -- more than there are OIDs; and what it lists are instances, in ascending order, with nothing that
    -- the registry serves left out between the start, its elements and the end.
    pub walk-Covers :
        (rounds : ℕ) (oid : List ℕ)
        → length oids < rounds
        → (rs : List (Resolved D)) × (walk rounds reg d oid ≡ some rs) × Covers reg d oid rs
    walk-Covers rounds oid h = walk_ends rounds oid (omega (arith, count_after_bound oids oid))
