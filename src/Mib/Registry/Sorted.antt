-- ===== src/Mib/Registry/Sorted.antt =====
-- Modules that are sorted by OID, as mib_tree.h asks of them, and membership.
use wespe.Prelude.{
  ℕ, zero, suc, ◌<◌, ◌≡◌, ◌⊎◌, inl, inr, refl, sym, ap, arith, some, List, [], ◌∷◌, length,
  get_elem?, All,
}
use wespe.Mib.Types.{Object}
use wespe.Mib.Oid.{◌≺◌, ≺_trans}

-- `x` is one of the elements.
abbrev pub In : {A : Type 0} → A → List A → Type 0
In x [] = ⊥
In x (y ∷ ys) = (x ≡ y) ⊎ In x ys

pub In-get_elem? : {A : Type 0} (xs : List A) (i : ℕ) {x : A} → get_elem? xs i ≡ some x → In x xs
In-get_elem? [] i e = cc
In-get_elem? (y ∷ ys) zero e = inl (ground arith)
In-get_elem? (y ∷ ys) (suc i) e = inr (In-get_elem? ys i e)

pub In→get_elem? :
    {A : Type 0} (xs : List A) (x : A) → In x xs → (i : ℕ) × (get_elem? xs i ≡ some x)
In→get_elem? [] x h = absurd h
In→get_elem? (y ∷ ys) x (inl e) = (0, ap some (sym e))
In→get_elem? (y ∷ ys) x (inr h) = let (i, e) = In→get_elem? ys x h in (suc i, e)

module _ {D : Type 0} where
  -- Each object's OID comes before the next one's.
  abbrev pub IsSorted : List (Object D) → Type 0
  IsSorted [] = Unit
  IsSorted (a ∷ []) = Unit
  IsSorted (a ∷ b ∷ objs) = (a.oid ≺ b.oid) × IsSorted (b ∷ objs)

  IsSorted-tail : (a : Object D) (objs : List (Object D)) → IsSorted (a ∷ objs) → IsSorted objs
  IsSorted-tail a [] h = tt
  IsSorted-tail a (b ∷ objs) h = h.1

  IsSorted-head :
      (a : Object D) (objs : List (Object D)) (j : ℕ) {b : Object D}
      → IsSorted (a ∷ objs)
      → get_elem? objs j ≡ some b
      → a.oid ≺ b.oid
  IsSorted-head a [] j h e = cc
  IsSorted-head a (c ∷ objs) zero {b} h e = let same : c ≡ b = ground arith in rw (← same) h.0
  IsSorted-head a (c ∷ objs) (suc j) {b} h e =
      ≺_trans a.oid c.oid b.oid h.0 (IsSorted-head c objs j h.1 e)

  pub IsSorted_lt :
      (objs : List (Object D)) (i j : ℕ) {a b : Object D}
      → IsSorted objs
      → i < j
      → get_elem? objs i ≡ some a
      → get_elem? objs j ≡ some b
      → a.oid ≺ b.oid
  IsSorted_lt [] i j h lt e f = cc
  IsSorted_lt (c ∷ objs) zero zero h lt e f = absurd (omega arith)
  IsSorted_lt (c ∷ objs) (suc i) zero h lt e f = absurd (omega arith)
  IsSorted_lt (c ∷ objs) zero (suc j) {a} h lt e f =
      let same : c ≡ a = ground arith in rw (← same) (IsSorted-head c objs j h f)
  IsSorted_lt (c ∷ objs) (suc i) (suc j) h lt e f =
      IsSorted_lt objs i j (IsSorted-tail c objs h) (omega arith) e f

  pub get_elem?-lt :
      (objs : List (Object D)) (i : ℕ)
      → i < length objs
      → (o : Object D) × (get_elem? objs i ≡ some o)
  get_elem?-lt [] i h = absurd (omega arith)
  get_elem?-lt (o ∷ objs) zero h = (o, refl)
  get_elem?-lt (o ∷ objs) (suc i) h = get_elem?-lt objs i (omega arith)

  pub get_elem?-lt_length :
      (objs : List (Object D)) (i : ℕ) {o : Object D} → get_elem? objs i ≡ some o → i < length objs
  get_elem?-lt_length [] i h = cc
  get_elem?-lt_length (o ∷ objs) zero h = omega arith
  get_elem?-lt_length (o ∷ objs) (suc i) h = omega (arith, get_elem?-lt_length objs i h)

  -- Every module is sorted; `o` is an object of one of them.
  abbrev pub AllSorted : List (List (Object D)) → Type 0
  AllSorted = All IsSorted

  abbrev pub IsRegistered : List (List (Object D)) → Object D → Type 0
  IsRegistered [] o = ⊥
  IsRegistered (objs ∷ modules) o = In o objs ⊎ IsRegistered modules o
