-- ===== src/Mib/Registry/FindNext.antt =====
-- mib_registry_find_next over all modules.
use wespe.Prelude.{
  ℕ, suc, ◌⊎◌, inl, inr, Option, none, List, [], ◌∷◌, length, get_elem?, Option-cases,
}
use wespe.Mib.Types.{Object}
use wespe.Mib.Next.{nearer, IsNext, IsNext-either, nearer-IsNext, IsNext-iff}
use wespe.Mib.Registry.{Registry, upper_bound, find_next_from, registry_find_next}
use wespe.Mib.Registry.Sorted.{In, AllSorted, IsRegistered}
use wespe.Mib.Registry.Search.{candidate-IsNext}

module _ {D : Type 0} where
  regroup :
      (M N P : Object D → Type 0) (oid : List ℕ) (r : Option (Object D))
      → IsNext (λ (o : Object D). o.oid) (λ o. (M o ⊎ N o) ⊎ P o) oid r
      → IsNext (λ (o : Object D). o.oid) (λ o. M o ⊎ (N o ⊎ P o)) oid r
  regroup M N P oid r =
      IsNext-iff (λ (o : Object D). o.oid) (λ o. (M o ⊎ N o) ⊎ P o) (λ o. M o ⊎ (N o ⊎ P o)) oid r
        to from
    where
      to : (o : Object D) → (M o ⊎ N o) ⊎ P o → M o ⊎ (N o ⊎ P o)
      to o (inl (inl m)) = inl m
      to o (inl (inr n)) = inr (inl n)
      to o (inr p) = inr (inr p)

      from : (o : Object D) → M o ⊎ (N o ⊎ P o) → (M o ⊎ N o) ⊎ P o
      from o (inl m) = inl (inl m)
      from o (inr (inl n)) = inl (inr n)
      from o (inr (inr p)) = inr p

  find_next_from-IsNext :
      (M : Object D → Type 0) (modules : List (List (Object D))) (oid : List ℕ)
      (best : Option (Object D))
      → AllSorted modules
      → IsNext (λ (o : Object D). o.oid) M oid best
      → IsNext
          (λ (o : Object D). o.oid)
          (λ o. M o ⊎ IsRegistered modules o)
          oid
          (find_next_from best modules oid)
  unfolding find_next_from
  find_next_from-IsNext M [] oid best sorted h =
      IsNext-either (λ (o : Object D). o.oid) M (λ o. ⊥) oid best h (λ o x. absurd x)
  find_next_from-IsNext M (objs ∷ modules) oid best (here, rest) h =
      let lo = upper_bound objs oid (suc (length objs)) 0 (length objs) in
      let next = candidate-IsNext objs here oid in
      let key = λ (o : Object D). o.oid in
      elim (Option-cases (get_elem? objs lo)) [
        | inl e ↦ rw e (
            regroup M (λ o. In o objs) (IsRegistered modules) oid _
              (find_next_from-IsNext (λ o. M o ⊎ In o objs) modules oid best rest
                (IsNext-either key M (λ o. In o objs) oid best h (rw e at next))))
        | inr (cand, e) ↦ rw e (
            regroup M (λ o. In o objs) (IsRegistered modules) oid _
              (find_next_from-IsNext (λ o. M o ⊎ In o objs) modules oid (nearer key best cand) rest
                (nearer-IsNext key M (λ o. In o objs) oid best cand h (rw e at next))))
      ]

  -- On sorted modules mib_registry_find_next returns, of all registered objects whose OID comes after
  -- the one given, the one with the smallest OID, and NULL exactly if there is none.
  pub registry_find_next-IsNext :
      (reg : Registry D) (oid : List ℕ)
      → AllSorted reg.modules
      → IsNext (λ (o : Object D). o.oid) (IsRegistered reg.modules) oid (registry_find_next reg oid)
  unfolding registry_find_next
  registry_find_next-IsNext reg oid sorted =
      IsNext-iff (λ (o : Object D). o.oid) (λ o. ⊥ ⊎ IsRegistered reg.modules o)
        (IsRegistered reg.modules) oid (find_next_from none reg.modules oid) drop_left
        (λ o m. inr m)
        (find_next_from-IsNext (λ o. ⊥) reg.modules oid none sorted (λ o x. absurd x))
    where
      drop_left : (o : Object D) → ⊥ ⊎ IsRegistered reg.modules o → IsRegistered reg.modules o
      drop_left o (inl x) = absurd x
      drop_left o (inr m) = m
