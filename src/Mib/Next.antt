-- ===== src/Mib/Next.antt =====
-- The choice of the nearest candidate in mib_registry_find_next and mib_registry_resolve_next, and
-- what it means to be the next thing after an OID.
use Prim.Native.Nat.{Ordering}
use wespe.Prelude.{ℕ, ◌≡◌, ◌⊎◌, inl, inr, Option, none, some, List}
use wespe.Mib.Oid.{oid_compare, ◌≺◌, ≺_trans, ≺_cases}

module _ {A : Type 0} (key : A → List ℕ) where
  -- `best == NULL || mib_oid_compare(cand->oid, ..., best->oid, ...) < 0`
  unfoldable pub nearer : Option A → A → Option A
  nearer none cand = some cand
  nearer (some best) cand = elim (oid_compare (key cand) (key best)) [
    | Ordering.lt ↦ some cand
    | _ ↦ some best
  ]

  -- `r` is one of `M` with the smallest OID after `oid`, or there is none after it.
  abbrev pub IsNext : (A → Type 0) → List ℕ → Option A → Type 0
  IsNext M oid none = (a : A) → M a → ¬ (oid ≺ key a)
  IsNext M oid (some b) = M b × (oid ≺ key b) × ((a : A) → M a → oid ≺ key a → ¬ (key a ≺ key b))

  no_later :
      (M N : A → Type 0) (oid : List ℕ)
      → ((a : A) → M a → ¬ (oid ≺ key a))
      → ((a : A) → N a → ¬ (oid ≺ key a))
      → (a : A) → M a ⊎ N a
      → ¬ (oid ≺ key a)
  no_later M N oid h k a (inl m) = h a m
  no_later M N oid h k a (inr n) = k a n

  pub IsNext-either :
      (M N : A → Type 0) (oid : List ℕ) (best : Option A)
      → IsNext M oid best
      → ((a : A) → N a → ¬ (oid ≺ key a))
      → IsNext (λ a. M a ⊎ N a) oid best
  IsNext-either M N oid none h k = no_later M N oid h k
  IsNext-either M N oid (some b) (m, less, least) k = (inl m, less, both)
    where
      both : (a : A) → M a ⊎ N a → oid ≺ key a → ¬ (key a ≺ key b)
      both a (inl m') h = least a m' h
      both a (inr n) h = absurd (k a n h)

  nearer_lt :
      (best cand : A)
      → oid_compare (key cand) (key best) ≡ Ordering.lt
      → nearer (some best) cand ≡ some cand
  unfolding nearer
  nearer_lt best cand c = rw (c, nearer)

  nearer_eq :
      (best cand : A)
      → oid_compare (key cand) (key best) ≡ Ordering.eq
      → nearer (some best) cand ≡ some best
  unfolding nearer
  nearer_eq best cand c = rw (c, nearer)

  nearer_gt :
      (best cand : A)
      → oid_compare (key cand) (key best) ≡ Ordering.gt
      → nearer (some best) cand ≡ some best
  unfolding nearer
  nearer_gt best cand c = rw (c, nearer)

  -- Taking the nearer of two candidates joins what they were chosen from.
  pub nearer-IsNext :
      (M N : A → Type 0) (oid : List ℕ) (best : Option A) (cand : A)
      → IsNext M oid best
      → IsNext N oid (some cand)
      → IsNext (λ a. M a ⊎ N a) oid (nearer best cand)
  unfolding nearer
  nearer-IsNext M N oid none cand none_after (n, less, least) = (inr n, less, both)
    where
      both : (a : A) → M a ⊎ N a → oid ≺ key a → ¬ (key a ≺ key cand)
      both a (inl m) h = absurd (none_after a m h)
      both a (inr n') h = least a n' h
  nearer-IsNext M N oid (some best) cand (m, less, least) (n, less', least') =
      elim (≺_cases (key cand) (key best)) [
        | inl (c, closer) ↦ rw (nearer_lt best cand c) (inr n, less', from_cand closer)
        | inr (inl (c, same)) ↦ rw (nearer_eq best cand c) (inl m, less, from_best (inl same))
        | inr (inr (c, farther)) ↦ rw (nearer_gt best cand c) (inl m, less, from_best (inr farther))
      ]
    where
      from_cand : key cand ≺ key best → (a : A) → M a ⊎ N a → oid ≺ key a → ¬ (key a ≺ key cand)
      from_cand closer a (inl m') h k =
          least a m' h (≺_trans (key a) (key cand) (key best) k closer)
      from_cand closer a (inr n') h k = least' a n' h k

      from_best :
          (key cand ≡ key best) ⊎ (key best ≺ key cand)
          → (a : A) → M a ⊎ N a
          → oid ≺ key a
          → ¬ (key a ≺ key best)
      from_best far a (inl m') h k = least a m' h k
      from_best (inl same) a (inr n') h k = least' a n' h (rw (← same) at k)
      from_best (inr farther) a (inr n') h k =
          least' a n' h (≺_trans (key a) (key best) (key cand) k farther)

  -- Only what counts as a member matters.
  pub IsNext-iff :
      (M N : A → Type 0) (oid : List ℕ) (r : Option A)
      → ((a : A) → M a → N a)
      → ((a : A) → N a → M a)
      → IsNext M oid r
      → IsNext N oid r
  IsNext-iff M N oid none to from h = λ a n. h a (from a n)
  IsNext-iff M N oid (some b) to from (m, less, least) = (to b m, less, λ a n. least a (from a n))
