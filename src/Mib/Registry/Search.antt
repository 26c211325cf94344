-- ===== src/Mib/Registry/Search.antt =====
-- The binary search of mib_registry_find_next on one sorted module.
use wespe.Prelude.{
  ℕ, zero, suc, ◌+◌, ◌-◌, ◌/◌, ◌≤◌, ◌<◌, ◌≡◌, ◌⊎◌, inl, inr, refl, arith, Option, none, some, List,
  ltb, length, get_elem?, Bool-cases,
}
use wespe.Mib.Types.{Object}
use wespe.Mib.Oid.{◌≺◌, ≺_irrefl, ≺_trans, ≺_cases}
use wespe.Mib.Next.{IsNext}
use wespe.Mib.Registry.{upper_bound}
use wespe.Mib.Registry.Sorted.{
  In, In-get_elem?, In→get_elem?, IsSorted, IsSorted_lt, get_elem?-lt, get_elem?-lt_length,
}

module _ {D : Type 0} where
  module _ (objs : List (Object D)) (sorted : IsSorted objs) (oid : List ℕ) where
    -- The objects before `lo` come before the OID or are it, and those from `hi` on come after it.
    abbrev pub Below : ℕ → Type 0
    Below lo = (i : ℕ) (o : Object D) → i < lo → get_elem? objs i ≡ some o → ¬ (oid ≺ o.oid)

    abbrev pub Above : ℕ → Type 0
    Above hi = (i : ℕ) (o : Object D) → hi ≤ i → get_elem? objs i ≡ some o → oid ≺ o.oid

    Below-up :
        (mid : ℕ) (m : Object D) → get_elem? objs mid ≡ some m → ¬ (oid ≺ m.oid) → Below (mid + 1)
    Below-up mid m e h i o lt f less = elim (Bool-cases (ltb i mid)) [
      | inl before ↦
          h (≺_trans oid o.oid m.oid less (IsSorted_lt objs i mid sorted (ground arith) f e))
      | inr at_mid ↦
          let same : i ≡ mid = ground arith in
          let equal : o ≡ m = ground (arith, rw same at f) in h (rw equal at less)
    ]

    pub Above-down :
        (mid : ℕ) (m : Object D) → get_elem? objs mid ≡ some m → oid ≺ m.oid → Above mid
    Above-down mid m e h i o le f = elim (Bool-cases (ltb mid i)) [
      | inl after ↦ ≺_trans oid m.oid o.oid h (IsSorted_lt objs mid i sorted (ground arith) e f)
      | inr at_mid ↦
          let same : i ≡ mid = ground arith in
          let equal : o ≡ m = ground (arith, rw same at f) in rw equal h
    ]

    pub not-after : (m : List ℕ) → (m ≺ oid) ⊎ (m ≡ oid) → ¬ (oid ≺ m)
    not-after m (inl h) k = ≺_irrefl m (≺_trans m oid m h k)
    not-after m (inr e) k = ≺_irrefl oid (rw e at k)

    -- The loop ends at an index that splits the array at the OID.
    upper_bound-splits :
        (fuel lo hi : ℕ)
        → hi < fuel + lo
        → lo ≤ hi
        → hi ≤ length objs
        → Below lo
        → Above hi
        → (upper_bound objs oid fuel lo hi ≤ length objs)
          × Below (upper_bound objs oid fuel lo hi)
          × Above (upper_bound objs oid fuel lo hi)
    unfolding upper_bound
    upper_bound-splits zero lo hi hf hl hh below above = absurd (omega arith)
    upper_bound-splits (suc fuel) lo hi hf hl hh below above = elim (Bool-cases (ltb lo hi)) [
      | inr done ↦
          let same : lo ≡ hi = ground arith in rw done (omega arith, below, rw (← same) at above)
      | inl more ↦
          let mid = lo + (hi - lo) / 2 in
          let lt : lo < hi = ground arith in
          let inside : mid < hi = omega arith in
          let (m, e) = get_elem?-lt objs mid (omega arith) in
          rw (more, e)
            (elim (≺_cases m.oid oid) [
              | inl (c, less) ↦ rw c (
                  upper_bound-splits fuel (mid + 1) hi (omega arith) (omega arith) hh
                    (Below-up mid m e (not-after m.oid (inl less))) above)
              | inr (inl (c, equal)) ↦ rw c (
                  upper_bound-splits fuel (mid + 1) hi (omega arith) (omega arith) hh
                    (Below-up mid m e (not-after m.oid (inr equal))) above)
              | inr (inr (c, greater)) ↦ rw c (
                  upper_bound-splits fuel lo mid (omega arith) (omega arith) (omega arith) below
                    (Above-down mid m e greater))
            ])
    ]

    -- The object at such an index, if there is one, is the next one of the array.
    split-IsNext :
        (n : ℕ) (r : Option (Object D))
        → get_elem? objs n ≡ r
        → Below n
        → Above n
        → IsNext (λ (o : Object D). o.oid) (λ o. In o objs) oid r
    split-IsNext n none e below above = after
      where
        after : (o : Object D) → In o objs → ¬ (oid ≺ o.oid)
        after o m h =
            let (i, f) = In→get_elem? objs o m in
            elim (Bool-cases (ltb i n)) [
              | inl before ↦ below i o (ground arith) f h
              | inr past ↦
                  let (p, g) = get_elem?-lt objs n (ground (arith, get_elem?-lt_length objs i f)) in
                  ground arith
            ]
    split-IsNext n (some b) e below above =
        (In-get_elem? objs n e, above n b (omega arith) e, least)
      where
        least : (o : Object D) → In o objs → oid ≺ o.oid → ¬ (o.oid ≺ b.oid)
        least o m h k =
            let (i, f) = In→get_elem? objs o m in
            elim (Bool-cases (ltb i n)) [
              | inl before ↦ below i o (ground arith) f h
              | inr past ↦ elim (Bool-cases (ltb n i)) [
                | inl after ↦
                    ≺_irrefl o.oid
                      (≺_trans o.oid b.oid o.oid k (IsSorted_lt objs n i sorted (ground arith) e f))
                | inr at_n ↦
                    let same : i ≡ n = ground arith in
                    let equal : o ≡ b = ground (arith, rw same at f) in
                    ≺_irrefl b.oid (rw equal at k)
              ]
            ]

    -- mib_registry_find_next in one module.
    pub candidate-IsNext :
        IsNext
          (λ (o : Object D). o.oid)
          (λ o. In o objs)
          oid
          (get_elem? objs (upper_bound objs oid (suc (length objs)) 0 (length objs)))
    candidate-IsNext =
        let (fits, below, above) =
          upper_bound-splits (suc (length objs)) 0 (length objs) (omega arith) (omega arith)
            (omega arith) (λ i o lt e. absurd (omega arith))
            (λ i o le e. absurd (omega (arith, get_elem?-lt_length objs i e))) in
        split-IsNext _ _ refl below above
