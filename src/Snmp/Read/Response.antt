-- ===== src/Snmp/Read/Response.antt =====
-- The shape of a response to Get and GetNext: firmware/components/snmp_core/snmp_pdu_get.c.
use wespe.Prelude.{
  ℕ, suc, ◌+◌, ◌≤◌, ◌<◌, ◌≡◌, ◌≢◌, ◌⊎◌, inl, inr, refl, ap, arith, Bool, true, false, Bool-cases,
  List, [], ◌∷◌, if◌then◌else◌, length,
}
use wespe.Ber.Types.{pdu_get_response}
use wespe.Mib.Types.{MibResult, Varbind, zeroed}
use wespe.Mib.Registry.{Registry}
use wespe.Snmp.Types.{Version, is_v1, Ctx}
use wespe.Snmp.Errors.{error_translate, translate_v1, translate_v2c, no_error}
use wespe.Snmp.Read.{
  LookupMode, lookup_and_fetch, Verdict, proceed, abort, probe_v1, commit_v1, read_v2c, respond,
  after_probe, process_read_pdu,
}

-- The verdict on `n` varbinds from index `i` on.
abbrev Names : ℕ → ℕ → Verdict → Type 0
Names i n proceed = Unit {0}
Names i n (abort status index) = (status ≢ no_error) × (i < index) × (index ≤ i + n)

aborts_with :
    (version : Version) (res : MibResult)
    → (error_translate version res).pdu_level_abort ≡ true
    → (error_translate version res).v1_error_status ≢ no_error
unfolding error_translate translate_v1 translate_v2c
aborts_with Version.v1 MibResult.ok h = absurd (ground arith)
aborts_with Version.v1 MibResult.no_such_object h = ground arith
aborts_with Version.v1 MibResult.no_such_instance h = ground arith
aborts_with Version.v1 MibResult.end_of_view h = ground arith
aborts_with Version.v1 MibResult.wrong_type h = ground arith
aborts_with Version.v1 MibResult.wrong_value h = ground arith
aborts_with Version.v1 MibResult.not_writable h = ground arith
aborts_with Version.v1 MibResult.gen_err h = ground arith
aborts_with Version.v2c MibResult.ok h = absurd (ground arith)
aborts_with Version.v2c MibResult.no_such_object h = absurd (ground arith)
aborts_with Version.v2c MibResult.no_such_instance h = absurd (ground arith)
aborts_with Version.v2c MibResult.end_of_view h = absurd (ground arith)
aborts_with Version.v2c MibResult.wrong_type h = ground arith
aborts_with Version.v2c MibResult.wrong_value h = ground arith
aborts_with Version.v2c MibResult.not_writable h = ground arith
aborts_with Version.v2c MibResult.gen_err h = ground arith
aborts_with Version.v3 MibResult.ok h = absurd (ground arith)
aborts_with Version.v3 MibResult.no_such_object h = absurd (ground arith)
aborts_with Version.v3 MibResult.no_such_instance h = absurd (ground arith)
aborts_with Version.v3 MibResult.end_of_view h = absurd (ground arith)
aborts_with Version.v3 MibResult.wrong_type h = ground arith
aborts_with Version.v3 MibResult.wrong_value h = ground arith
aborts_with Version.v3 MibResult.not_writable h = ground arith
aborts_with Version.v3 MibResult.gen_err h = ground arith

Names-later : (i n : ℕ) (v : Verdict) → Names (i + 1) n v → Names i (suc n) v
Names-later i n proceed h = tt
Names-later i n (abort status index) (a, b, c) = (a, omega arith, omega arith)

-- A response to a Get or GetNext request.
abbrev pub IsReadResponse : Ctx → Ctx → Type 0
IsReadResponse ctx ctx' =
    (ctx'.pdu_tag ≡ pdu_get_response)
    × (ctx'.request_id ≡ ctx.request_id)
    × (length ctx'.varbinds ≡ length ctx.varbinds)
    × (((ctx'.error_status ≡ no_error) × (ctx'.error_index ≡ 0))
        ⊎ ((ctx'.error_status ≢ no_error)
            × (0 < ctx'.error_index)
            × (ctx'.error_index ≤ length ctx.varbinds)
            × ((is_v1 ctx.version ≡ false) ⊎ (ctx'.varbinds ≡ ctx.varbinds))))

module _ {D : Type 0} (reg : Registry D) where
  probe_v1-Names :
      (mode : LookupMode) (i : ℕ) (vbs : List Varbind) (d : D)
      → Names i (length vbs) (probe_v1 reg mode i vbs d).0
  unfolding probe_v1
  probe_v1-Names mode i [] d = tt
  probe_v1-Names mode i (vb ∷ vbs) d =
      let (res, scratch, d') = lookup_and_fetch reg Version.v1 mode vb zeroed d in
      elim (Bool-cases (error_translate Version.v1 res).pdu_level_abort) [
        | inl stop ↦ rw stop (aborts_with Version.v1 res stop, omega arith, omega arith)
        | inr go ↦ rw go (
            Names-later i (length vbs) (probe_v1 reg mode (i + 1) vbs d').0
              (probe_v1-Names mode (i + 1) vbs d'))
      ]

  length-commit_v1 :
      (mode : LookupMode) (vbs : List Varbind) (d : D)
      → length (commit_v1 reg mode vbs d).0 ≡ length vbs
  unfolding commit_v1
  length-commit_v1 mode [] d = refl
  length-commit_v1 mode (vb ∷ vbs) d = ap suc (length-commit_v1 mode vbs _)

  read_v2c-Names :
      (version : Version) (mode : LookupMode) (i : ℕ) (vbs : List Varbind) (d : D)
      → Names i (length vbs) (read_v2c reg version mode i vbs d).0
        × (length (read_v2c reg version mode i vbs d).1 ≡ length vbs)
  unfolding read_v2c
  read_v2c-Names version mode i [] d = (tt, refl)
  read_v2c-Names version mode i (vb ∷ vbs) d =
      let (res, scratch, d') = lookup_and_fetch reg version mode vb zeroed d in
      let (names, count) = read_v2c-Names version mode (i + 1) vbs d' in
      elim (Bool-cases (error_translate version res).pdu_level_abort) [
        | inl stop ↦ rw stop ((aborts_with version res stop, omega arith, omega arith), refl)
        | inr go ↦ rw go (
          Names-later i (length vbs) (read_v2c reg version mode (i + 1) vbs d').0 names,
          ap suc count,
        )
      ]

  respond-IsReadResponse :
      (ctx : Ctx) (verdict : Verdict) (vbs : List Varbind)
      → Names 0 (length ctx.varbinds) verdict
      → length vbs ≡ length ctx.varbinds
      → (is_v1 ctx.version ≡ false) ⊎ ((verdict ≡ proceed) ⊎ (vbs ≡ ctx.varbinds))
      → IsReadResponse ctx (respond ctx verdict vbs)
  respond-IsReadResponse ctx proceed vbs names count kept = (refl, refl, count, inl (refl, refl))
  respond-IsReadResponse ctx (abort status index) vbs (a, b, c) count kept =
      (refl, refl, count, inr (a, b, omega arith, kept_varbinds kept))
    where
      kept_varbinds :
          (is_v1 ctx.version ≡ false) ⊎ ((abort status index ≡ proceed) ⊎ (vbs ≡ ctx.varbinds))
          → (is_v1 ctx.version ≡ false) ⊎ (vbs ≡ ctx.varbinds)
      kept_varbinds (inl later) = inl later
      kept_varbinds (inr (inl e)) = absurd (ground arith)
      kept_varbinds (inr (inr e)) = inr e

  after_probe-IsReadResponse :
      (mode : LookupMode) (ctx : Ctx) (verdict : Verdict) (d : D)
      → Names 0 (length ctx.varbinds) verdict
      → IsReadResponse ctx (after_probe reg mode ctx verdict d).0
  unfolding after_probe
  after_probe-IsReadResponse mode ctx (abort status index) d names =
      respond-IsReadResponse ctx (abort status index) ctx.varbinds names refl (inr (inr refl))
  after_probe-IsReadResponse mode ctx proceed d names =
      respond-IsReadResponse ctx proceed (commit_v1 reg mode ctx.varbinds d).0 names
        (length-commit_v1 mode ctx.varbinds d) (inr (inl refl))

  -- Get and GetNext are always answered: a Response with the request's request-id and as many varbinds
  -- as the request. Either error-status and error-index are zero, or error-status is an error and
  -- error-index is the place of a varbind of the request; in SNMPv1 an error response has the request's
  -- varbinds unchanged.
  pub process_read_pdu-IsReadResponse :
      (mode : LookupMode) (ctx : Ctx) (d : D)
      → IsReadResponse ctx (process_read_pdu reg mode ctx d).0
  unfolding process_read_pdu
  process_read_pdu-IsReadResponse mode ctx d =
      let (verdict, d') = probe_v1 reg mode 0 ctx.varbinds d in
      let (verdict2, vbs, d2) = read_v2c reg ctx.version mode 0 ctx.varbinds d in
      let (names, count) = read_v2c-Names ctx.version mode 0 ctx.varbinds d in
      either (is_v1 ctx.version) _ _
        (λ _. after_probe-IsReadResponse mode ctx verdict d' (probe_v1-Names mode 0 ctx.varbinds d))
        (λ later. respond-IsReadResponse ctx verdict2 vbs names count (inl later))
    where
      either :
          (b : Bool) (x y : Ctx × D)
          → (b ≡ true → IsReadResponse ctx x.0)
          → (b ≡ false → IsReadResponse ctx y.0)
          → IsReadResponse ctx (if b then x else y).0
      either true x y h k = h refl
      either false x y h k = k refl
