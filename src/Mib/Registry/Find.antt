-- ===== src/Mib/Registry/Find.antt =====
-- The binary search of mib_registry_find.
use wespe.Prelude.{
  ℕ, zero, suc, ◌+◌, ◌-◌, ◌/◌, ◌≤◌, ◌<◌, ◌≡◌, ◌≢◌, ◌⊎◌, inl, inr, arith, Option, none, some, List,
  [], ◌∷◌, ltb, length, get_elem?, Bool-cases, Option-cases,
}
use wespe.Mib.Types.{Object}
use wespe.Mib.Oid.{◌≺◌, ≺_irrefl, ≺_trans, ≺_cases}
use wespe.Mib.Registry.{Registry, find_loop, find_in, registry_find}
use wespe.Mib.Registry.Sorted.{
  In, In-get_elem?, In→get_elem?, IsSorted, IsSorted_lt, get_elem?-lt, get_elem?-lt_length,
  AllSorted, IsRegistered,
}
use wespe.Mib.Registry.Search.{Above, Above-down}

-- What an exact search of `M` may answer.
abbrev pub Locates : {D : Type 0} → (Object D → Type 0) → List ℕ → Option (Object D) → Type 0
Locates {D} M oid none = (o : Object D) → M o → o.oid ≢ oid
Locates M oid (some b) = M b × (b.oid ≡ oid)

module _ {D : Type 0} where
  module _ (objs : List (Object D)) (sorted : IsSorted objs) (oid : List ℕ) where
    -- The objects before `lo` come before the OID.
    abbrev Before : ℕ → Type 0
    Before lo = (i : ℕ) (o : Object D) → i < lo → get_elem? objs i ≡ some o → o.oid ≺ oid

    Before-up :
        (mid : ℕ) (m : Object D) → get_elem? objs mid ≡ some m → m.oid ≺ oid → Before (mid + 1)
    Before-up mid m e h i o lt f = elim (Bool-cases (ltb i mid)) [
      | inl before ↦ ≺_trans o.oid m.oid oid (IsSorted_lt objs i mid sorted (ground arith) f e) h
      | inr at_mid ↦
          let same : i ≡ mid = ground arith in
          let equal : o ≡ m = ground (arith, rw same at f) in rw equal h
    ]

    missing :
        (lo hi : ℕ)
        → hi ≤ lo
        → Before lo
        → Above objs sorted oid hi
        → (o : Object D) → In o objs
        → o.oid ≢ oid
    missing lo hi le before above o m e =
        let (i, f) = In→get_elem? objs o m in
        elim (Bool-cases (ltb i lo)) [
          | inl low ↦ ≺_irrefl oid (rw e at (before i o (ground arith) f))
          | inr high ↦ ≺_irrefl oid (rw e at (above i o (ground arith) f))
        ]

    find_loop-Locates :
        (fuel lo hi : ℕ)
        → hi < fuel + lo
        → lo ≤ hi
        → hi ≤ length objs
        → Before lo
        → Above objs sorted oid hi
        → Locates (λ o. In o objs) oid (find_loop objs oid fuel lo hi)
    unfolding find_loop
    find_loop-Locates zero lo hi hf hl hh before above = absurd (omega arith)
    find_loop-Locates (suc fuel) lo hi hf hl hh before above = elim (Bool-cases (ltb lo hi)) [
      | inr done ↦ rw done (missing lo hi (ground arith) before above)
      | inl more ↦
          let mid = lo + (hi - lo) / 2 in
          let lt : lo < hi = ground arith in
          let inside : mid < hi = omega arith in
          let (m, e) = get_elem?-lt objs mid (omega arith) in
          rw (more, e)
            (elim (≺_cases m.oid oid) [
              | inl (c, less) ↦ rw c (
                  find_loop-Locates fuel (mid + 1) hi (omega arith) (omega arith) hh
                    (Before-up mid m e less) above)
              | inr (inl (c, equal)) ↦ rw c (In-get_elem? objs mid e, equal)
              | inr (inr (c, greater)) ↦ rw c (
                  find_loop-Locates fuel lo mid (omega arith) (omega arith) (omega arith) before
                    (Above-down objs sorted oid mid m e greater))
            ])
    ]

  module _ (objs : List (Object D)) (modules : List (List (Object D))) (oid : List ℕ) where
    find_in_hit :
        {b : Object D}
        → find_loop objs oid (suc (length objs)) 0 (length objs) ≡ some b
        → find_in (objs ∷ modules) oid ≡ some b
    unfolding find_in
    find_in_hit e = rw (e, find_in)

    find_in_miss :
        find_loop objs oid (suc (length objs)) 0 (length objs) ≡ none
        → find_in (objs ∷ modules) oid ≡ find_in modules oid
    unfolding find_in
    find_in_miss e = rw (e, find_in)

  find_in-Locates :
      (modules : List (List (Object D))) (oid : List ℕ)
      → AllSorted modules
      → Locates (IsRegistered modules) oid (find_in modules oid)
  find_in-Locates [] oid h = unfold find_in in λ o x. absurd x
  find_in-Locates (objs ∷ modules) oid (here, rest) =
      let found = find_loop objs oid (suc (length objs)) 0 (length objs) in
      let one : Locates (λ o. In o objs) oid found =
        find_loop-Locates objs here oid (suc (length objs)) 0 (length objs) (omega arith)
          (omega arith) (omega arith) (λ i o lt e. absurd (omega arith))
          (λ i o le e. absurd (omega (arith, get_elem?-lt_length objs i e))) in
      elim (Option-cases found) [
        | inr (b, e) ↦
            let hit = rw e at one in rw (find_in_hit objs modules oid e) (inl hit.0, hit.1)
        | inl e ↦ rw (find_in_miss objs modules oid e) (
            either objs modules oid (find_in modules oid) (rw e at one)
              (find_in-Locates modules oid rest))
      ]
    where
      either :
          (objs : List (Object D)) (modules : List (List (Object D))) (oid : List ℕ)
          (r : Option (Object D))
          → ((o : Object D) → In o objs → o.oid ≢ oid)
          → Locates (IsRegistered modules) oid r
          → Locates (IsRegistered (objs ∷ modules)) oid r
      either objs modules oid none h k = both
        where
          both : (o : Object D) → In o objs ⊎ IsRegistered modules o → o.oid ≢ oid
          both o (inl m) = h o m
          both o (inr m) = k o m
      either objs modules oid (some b) h (m, e) = (inr m, e)

  -- On sorted modules mib_registry_find returns a registered object with exactly the OID asked for,
  -- and NULL only if no registered object has it.
  pub registry_find-Locates :
      (reg : Registry D) (oid : List ℕ)
      → AllSorted reg.modules
      → Locates (IsRegistered reg.modules) oid (registry_find reg oid)
  unfolding registry_find
  registry_find-Locates reg oid sorted = find_in-Locates reg.modules oid sorted
