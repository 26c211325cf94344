-- ===== src/Mib/Oid.antt =====
-- mib_oid_compare of firmware/components/mib/mib_registry.c, and the order that it decides.
use Prim.Native.Nat.{Ordering}
use wespe.Prelude.{
  ℕ, ◌<◌, ◌≡◌, ◌⊎◌, inl, inr, refl, sym, ap₂, arith, List, [], ◌∷◌, ◌++◌, ltb, if◌then◌else◌,
  Bool-cases,
}

-- -1, 0 and 1 are `lt`, `eq` and `gt`. An array and its length are a list.
unfoldable pub oid_compare : List ℕ → List ℕ → Ordering
oid_compare [] [] = Ordering.eq
oid_compare [] (b ∷ ys) = Ordering.lt
oid_compare (a ∷ xs) [] = Ordering.gt
oid_compare (a ∷ xs) (b ∷ ys) =
    let rest = oid_compare xs ys in
    if ltb a b then Ordering.lt else if ltb b a then Ordering.gt else rest

-- The lexicographic order of OIDs: arc by arc, and a prefix comes first.
infix 50 ◌≺◌
abbrev pub ◌≺◌ : List ℕ → List ℕ → Type 0
[] ≺ [] = ⊥
[] ≺ (b ∷ ys) = Unit
(a ∷ xs) ≺ [] = ⊥
(a ∷ xs) ≺ (b ∷ ys) = (a < b) ⊎ ((a ≡ b) × (xs ≺ ys))

pub ≺_irrefl : (a : List ℕ) → ¬ (a ≺ a)
≺_irrefl [] h = h
≺_irrefl (a ∷ xs) (inl h) = omega arith
≺_irrefl (a ∷ xs) (inr (e, h)) = ≺_irrefl xs h

pub ≺_trans : (a b c : List ℕ) → a ≺ b → b ≺ c → a ≺ c
≺_trans [] [] c h k = absurd h
≺_trans [] (b ∷ ys) [] h k = absurd k
≺_trans [] (b ∷ ys) (c ∷ zs) h k = tt
≺_trans (a ∷ xs) [] c h k = absurd h
≺_trans (a ∷ xs) (b ∷ ys) [] h k = absurd k
≺_trans (a ∷ xs) (b ∷ ys) (c ∷ zs) (inl h) (inl k) = inl (omega arith)
≺_trans (a ∷ xs) (b ∷ ys) (c ∷ zs) (inl h) (inr (e, k)) = inl (omega arith)
≺_trans (a ∷ xs) (b ∷ ys) (c ∷ zs) (inr (e, h)) (inl k) = inl (omega arith)
≺_trans (a ∷ xs) (b ∷ ys) (c ∷ zs) (inr (e, h)) (inr (f, k)) =
    inr (omega arith, ≺_trans xs ys zs h k)

-- What each outcome says.
abbrev pub Compares : Ordering → List ℕ → List ℕ → Type 0
Compares Ordering.lt a b = a ≺ b
Compares Ordering.eq a b = a ≡ b
Compares Ordering.gt a b = b ≺ a

cons-Compares :
    (o : Ordering) (a b : ℕ) (xs ys : List ℕ)
    → a ≡ b
    → Compares o xs ys
    → Compares o (a ∷ xs) (b ∷ ys)
cons-Compares Ordering.lt a b xs ys e h = inr (e, h)
cons-Compares Ordering.eq a b xs ys e h = ap₂ (λ x l. x ∷ l) e h
cons-Compares Ordering.gt a b xs ys e h = inr (sym e, h)

-- mib_oid_compare decides the lexicographic order of any two OIDs: it answers -1, 0 or 1 as the first
-- comes before the second, is equal to it, or comes after it.
pub oid_compare-Compares : (a b : List ℕ) → Compares (oid_compare a b) a b
unfolding oid_compare
oid_compare-Compares [] [] = refl
oid_compare-Compares [] (b ∷ ys) = tt
oid_compare-Compares (a ∷ xs) [] = tt
oid_compare-Compares (a ∷ xs) (b ∷ ys) = elim (Bool-cases (ltb a b)) [
  | inl less ↦ rw less (inl (ground arith))
  | inr more ↦ elim (Bool-cases (ltb b a)) [
    | inl greater ↦ rw (more, greater) (inl (ground arith))
    | inr same ↦
        let e : a ≡ b = ground arith in
        rw (more, same) (cons-Compares (oid_compare xs ys) a b xs ys e (oid_compare-Compares xs ys))
  ]
]

Ordering-cases : (o : Ordering) → (o ≡ Ordering.lt) ⊎ ((o ≡ Ordering.eq) ⊎ (o ≡ Ordering.gt))
Ordering-cases Ordering.lt = inl refl
Ordering-cases Ordering.eq = inr (inl refl)
Ordering-cases Ordering.gt = inr (inr refl)

-- The comparison in the two forms that the searches use.
pub ≺_cases :
    (a b : List ℕ)
    → ((oid_compare a b ≡ Ordering.lt) × (a ≺ b))
      ⊎ (((oid_compare a b ≡ Ordering.eq) × (a ≡ b)) ⊎ ((oid_compare a b ≡ Ordering.gt) × (b ≺ a)))
≺_cases a b = elim (Ordering-cases (oid_compare a b)) [
  | inl e ↦ inl (e, rw e at (oid_compare-Compares a b))
  | inr (inl e) ↦ inr (inl (e, rw e at (oid_compare-Compares a b)))
  | inr (inr e) ↦ inr (inr (e, rw e at (oid_compare-Compares a b)))
]

-- A common prefix does not count.
pub ≺-append : (p a b : List ℕ) → a ≺ b → (p ++ a) ≺ (p ++ b)
≺-append [] a b h = h
≺-append (x ∷ p) a b h = inr (refl, ≺-append p a b h)
