-- ===== src/Mib/Resolve/Rows.antt =====
-- The rows of a table, and the two loops of mib_registry.c over them.
use wespe.Prelude.{
  ℕ, zero, suc, ◌+◌, ◌^◌, ◌≤◌, ◌<◌, ◌≡◌, ◌↔◌, inl, inr, refl, ap, arith, Option, none, some, true,
  List, ltb, ◌==◌, Bool-cases, Option-cases, IsU32, ltb→lt,
}
use wespe.Mib.Oid.{◌≺◌, ≺_irrefl, ≺_trans, ≺_cases}
use wespe.Mib.Tables.{row_exists, scan_rows}

-- The indices that an enumeration reaches from the answer `r` of a callback on.
pub data From (next : ℕ → Option ℕ) (i : ℕ) : Option ℕ → Type 0 where
  here : {r : Option ℕ} → r ≡ some i → From next i r
  there : {r : Option ℕ} (j : ℕ) → r ≡ some j → From next i (next j) → From next i r

pub From-all :
    (P : ℕ → Type 0) (next : ℕ → Option ℕ) (i : ℕ) (r : Option ℕ)
    → ((j k : ℕ) → next j ≡ some k → P k)
    → ((j : ℕ) → r ≡ some j → P j)
    → From next i r
    → P i
From-all P next i r later first (here e) = first i e
From-all P next i r later first (there j e f) = From-all P next i (next j) later (later j) f

-- What mib_table.h asks of next_index: indices are uint32_t and strictly ascending.
abbrev pub IsAscending : (ℕ → Option ℕ) → Type 0
IsAscending next = (i j : ℕ) → IsU32 i → next i ≡ some j → (i < j) × IsU32 j

-- From `r` on, the fuel is more than the uint32_t that are left.
abbrev pub Enough : ℕ → Option ℕ → Type 0
Enough fuel none = Unit
Enough fuel (some i) = (2 ^ 32 ≤ fuel + i) × IsU32 i

module _ (next : ℕ → Option ℕ) (ascending : IsAscending next) where
  Enough-next :
      (fuel i : ℕ) (r : Option ℕ) → Enough (suc fuel) (some i) → next i ≡ r → Enough fuel r
  Enough-next fuel i none h e = tt
  Enough-next fuel i (some j) h e = omega (arith, ascending i j h.1 e)

  no_rows : (i : ℕ) (r : Option ℕ) → r ≡ none → ¬ (From next i r)
  no_rows i r e (here f) = cc
  no_rows i r e (there j f g) = cc

  From-le : (i j : ℕ) (r : Option ℕ) → IsU32 j → r ≡ some j → From next i r → j ≤ i
  From-le i j r u e (here f) = ground arith
  From-le i j r u e (there k f g) =
      let same : j ≡ k = same_row r e f in
      elim (Option-cases (next k)) [
        | inl end ↦ absurd (no_rows i (next k) end g)
        | inr (m, n) ↦
            let (more, word) = ascending k m (rw same at u) n in
            omega (arith, From-le i m (next k) word n g)
      ]
    where
      same_row : (r : Option ℕ) → {a b : ℕ} → r ≡ some a → r ≡ some b → a ≡ b
      same_row r e f = ground arith

  tail_of :
      (i j : ℕ) → ¬ (j ≡ i) → (r : Option ℕ) → r ≡ some j → From next i r → From next i (next j)
  tail_of i j h r e (here f) = absurd (h (ground arith))
  tail_of i j h r e (there k f g) = let same : k ≡ j = ground arith in rw same at g

  -- The row loop of table_find_exact finds an index exactly if the enumeration of the table
  -- reaches it, for a next_index that answers strictly ascending uint32_t, as mib_table.h has it,
  -- and with fuel for the uint32_t that are left.
  pub row_exists-From :
      (fuel idx : ℕ) (r : Option ℕ)
      → Enough fuel r
      → (row_exists fuel next idx r ≡ true) ↔ From next idx r
  unfolding row_exists
  row_exists-From zero idx none h = ((λ e. cc), λ f. absurd (no_rows idx none refl f))
  row_exists-From zero idx (some cur) h = absurd (omega arith)
  row_exists-From (suc fuel) idx none h = ((λ e. cc), λ f. absurd (no_rows idx none refl f))
  row_exists-From (suc fuel) idx (some cur) h =
      let later = row_exists-From fuel idx (next cur) (Enough-next fuel cur (next cur) h refl) in
      elim (Bool-cases (cur == idx)) [
        | inl hit ↦
            let same : cur ≡ idx = ground arith in rw hit ((λ e. here (ap some same)), λ f. refl)
        | inr other ↦ elim (Bool-cases (ltb idx cur)) [
          | inl past ↦
              rw (other, past)
                (
                  (λ e. cc),
                  λ f.
                      absurd
                        (omega (arith, From-le idx cur (some cur) h.1 refl f, ltb→lt idx cur past)),
                )
          | inr before ↦
              rw (other, before)
                (
                  (λ e. there cur refl (later.0 e)),
                  λ f. later.1 (tail_of idx cur (ground arith) (some cur) refl f),
                )
        ]
      ]

  module _ (cand : ℕ → List ℕ) (oid : List ℕ) where
    -- The first row whose OID is greater.
    abbrev pub IsFirstRow : Option ℕ → Option ℕ → Type 0
    IsFirstRow r none = (i : ℕ) → From next i r → ¬ (oid ≺ cand i)
    IsFirstRow r (some b) =
        From next b r × (oid ≺ cand b) × ((i : ℕ) → From next i r → oid ≺ cand i → b ≤ i)

    after_skip :
        (i idx : ℕ)
        → ¬ (oid ≺ cand idx)
        → oid ≺ cand i
        → From next i (some idx)
        → From next i (next idx)
    after_skip i idx h less f = tail_of i idx other (some idx) refl f
      where
        other : ¬ (idx ≡ i)
        other e = h (rw e less)

    skip :
        (idx : ℕ) (s : Option ℕ)
        → ¬ (oid ≺ cand idx)
        → IsFirstRow (next idx) s
        → IsFirstRow (some idx) s
    skip idx none h k = λ i f less. k i (after_skip i idx h less f) less
    skip idx (some b) h (f, less, least) =
        (there idx refl f, less, λ i g l. least i (after_skip i idx h l g) l)

    pub scan_rows-IsFirstRow :
        (fuel : ℕ) (r : Option ℕ) → Enough fuel r → IsFirstRow r (scan_rows fuel next cand oid r)
    unfolding scan_rows
    scan_rows-IsFirstRow zero none h = λ i f. absurd (no_rows i none refl f)
    scan_rows-IsFirstRow zero (some idx) h = absurd (omega arith)
    scan_rows-IsFirstRow (suc fuel) none h = λ i f. absurd (no_rows i none refl f)
    scan_rows-IsFirstRow (suc fuel) (some idx) h =
        let later = scan_rows-IsFirstRow fuel (next idx) (Enough-next fuel idx (next idx) h refl) in
        elim (≺_cases (cand idx) oid) [
          | inl (c, less) ↦
              rw (c, scan_rows)
                (skip idx (scan_rows fuel next cand oid (next idx))
                  (λ k. ≺_irrefl oid (≺_trans oid (cand idx) oid k less)) later)
          | inr (inl (c, same)) ↦
              rw (c, scan_rows)
                (skip idx (scan_rows fuel next cand oid (next idx))
                  (λ k. ≺_irrefl oid (rw same at k)) later)
          | inr (inr (c, greater)) ↦
              rw (c, scan_rows)
                (here refl, greater, λ i f less. From-le i idx (some idx) h.1 refl f)
        ]
