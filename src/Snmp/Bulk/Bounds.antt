-- ===== src/Snmp/Bulk/Bounds.antt =====
-- The size of a GetBulk response: firmware/components/snmp_core/snmp_pdu_getbulk.c.
use wespe.Prelude.{
  ℕ, zero, suc, ◌+◌, ◌-◌, ◌*◌, ◌≤◌, ◌<◌, ◌≡◌, ◌⊎◌, inl, inr, refl, ap, ◌∙◌, arith, Bool, true,
  false, ◌&&◌, Bool-cases, none, some, List, [], ◌∷◌, ◌++◌, ◌==◌, ltb, leb, if◌then◌else◌, length,
  length-append, length-take, length-drop, take, drop,
}
use wespe.Ber.Types.{Result, ok, err, bad_tag, pdu_get_response, tag_end_of_mib_view}
use wespe.Mib.Types.{MibResult, Varbind, zeroed}
use wespe.Mib.Registry.{Registry}
use wespe.Snmp.Types.{Version, is_v2c, Ctx, max_varbinds}
use wespe.Snmp.Errors.{error_translate}
use wespe.Snmp.Bulk.{
  max_repeating_columns, append_result, Repeater, repeaters_of, Bulk, getnext_into, appended,
  non_repeating, advance, round, rounds, non_negative, handle_getbulk,
}

-- `n` varbinds more at most, and no more than fit.
abbrev Grows : ℕ → List Varbind → List Varbind → Type 0
Grows n before after =
    (length after ≤ length before + n)
    × (length before ≤ max_varbinds → length after ≤ max_varbinds)

append_result-cases :
    (resp : List Varbind) (current fetched : Varbind) (res : MibResult)
    → (append_result resp current res fetched ≡ none)
      ⊎ ((x : Varbind) × (append_result resp current res fetched ≡ some (resp ++ (x ∷ [])))
          × (length resp < max_varbinds))
unfolding append_result
append_result-cases resp current fetched res =
    let tr = error_translate Version.v2c res in
    elim (Bool-cases (leb max_varbinds (length resp))) [
      | inl full ↦ inl (rw full refl)
      | inr free ↦
          let room : length resp < max_varbinds = ground arith in
          elim (Bool-cases tr.pdu_level_abort) [
            | inl aborts ↦ inr (
              record current { value_tag = tag_end_of_mib_view; octets = [] },
              rw (free, aborts) refl,
              room,
            )
            | inr goes ↦ elim (Bool-cases (tr.v2c_exception_tag == 0)) [
              | inl value ↦ inr (fetched, rw (free, goes, value) refl, room)
              | inr exception ↦ inr (
                record current { value_tag = tr.v2c_exception_tag; octets = [] },
                rw (free, goes, exception) refl,
                room,
              )
            ]
          ]
    ]

append_result-Grows :
    {D : Type 0} (resp : List Varbind) (current fetched : Varbind) (res : MibResult) (d : D)
    → Grows 1 resp (appended (append_result resp current res fetched) resp d).resp
append_result-Grows resp current fetched res d =
    elim (append_result-cases resp current fetched res) [
      | inl e ↦ rw e (omega arith, λ h. h)
      | inr (x, e, room) ↦
          let more = length-append resp (x ∷ []) in
          rw e (omega (arith, more), λ h. omega (arith, more, room))
    ]

Grows-then :
    (m n : ℕ) (xs ys zs : List Varbind) → Grows m xs ys → Grows n ys zs → Grows (m + n) xs zs
Grows-then m n xs ys zs (a, b) (c, e) = (omega (arith, a, c), λ h. e (b h))

Grows-more : (m n : ℕ) (xs ys : List Varbind) → m ≤ n → Grows m xs ys → Grows n xs ys
Grows-more m n xs ys h (a, b) = (omega (arith, a, h), b)

length-repeaters_of : (vbs : List Varbind) → length (repeaters_of vbs) ≡ length vbs
unfolding repeaters_of
length-repeaters_of [] = refl
length-repeaters_of (vb ∷ vbs) = ap suc (length-repeaters_of vbs)

abbrev minimum : ℕ → ℕ → ℕ
minimum m n = if ltb n m then n else m

-- N, M and R of RFC 3416, 4.2.3, R within the columns that the handler has room for.
abbrev pub non_repeaters_of : Ctx → ℕ
non_repeaters_of ctx = minimum (non_negative ctx.error_status) (length ctx.varbinds)

abbrev pub repetitions_of : Ctx → ℕ
repetitions_of ctx = non_negative ctx.error_index

abbrev pub columns_of : Ctx → ℕ
columns_of ctx = minimum (length ctx.varbinds - non_repeaters_of ctx) max_repeating_columns

minimum_le : (m n : ℕ) → (minimum m n ≤ m) × (minimum m n ≤ n)
minimum_le m n = ground arith

from_nothing : (n : ℕ) (xs : List Varbind) → length xs ≤ length {A = Varbind} [] + n → length xs ≤ n
from_nothing n xs h = omega arith

-- A response to the GetBulk request `ctx`, or its refusal.
abbrev pub IsBulkAnswer : Ctx → Ctx → Type 0
IsBulkAnswer ctx ctx' =
    (ctx'.pdu_tag ≡ pdu_get_response)
    × (ctx'.request_id ≡ ctx.request_id)
    × (ctx'.error_status ≡ 0)
    × (ctx'.error_index ≡ 0)
    × (length ctx'.varbinds ≤ max_varbinds)
    × (length ctx'.varbinds ≤ non_repeaters_of ctx + repetitions_of ctx * columns_of ctx)

abbrev pub IsBulkResponse {ℓ} : {D : Type ℓ} → Ctx → Result (Ctx × D) → Type 0
IsBulkResponse ctx (err e) = (is_v2c ctx.version ≡ false) × (e ≡ bad_tag)
IsBulkResponse ctx (ok (ctx', d')) = (is_v2c ctx.version ≡ true) × IsBulkAnswer ctx ctx'

-- The ways to `done`.
chosen :
    {D : Type 0} (full repeat : Bool) (n : ℕ) (b b' : Bulk D)
    → Grows n [] b.resp
    → Grows n [] b'.resp
    → Grows n [] (if full then b else if repeat then b' else b).resp
chosen true repeat n b b' h h' = h
chosen false true n b b' h h' = h'
chosen false false n b b' h h' = h

module _ {D : Type 0} (reg : Registry D) where
  non_repeating-Grows :
      (vbs : List Varbind) (b : Bulk D) → Grows (length vbs) b.resp (non_repeating reg vbs b).resp
  unfolding non_repeating
  non_repeating-Grows [] b = (omega arith, λ h. h)
  non_repeating-Grows (vb ∷ vbs) b =
      let (res, fetched, d) = getnext_into reg vb zeroed b.device in
      let b' = appended (append_result b.resp vb res fetched) b.resp d in
      let once = append_result-Grows b.resp vb fetched res d in
      elim (Bool-cases b'.full) [
        | inl full ↦ rw full (Grows-more 1 (suc (length vbs)) b.resp b'.resp (omega arith) once)
        | inr free ↦ rw free (
            Grows-more (1 + length vbs) (suc (length vbs)) b.resp (non_repeating reg vbs b').resp
              (omega arith)
              (Grows-then 1 (length vbs) b.resp b'.resp (non_repeating reg vbs b').resp once
                (non_repeating-Grows vbs b')))
      ]

  round-Grows :
      (rs : List Repeater) (any : Bool) (b : Bulk D)
      → Grows (length rs) b.resp (round reg rs any b).2.resp
  unfolding round
  round-Grows [] any b = (omega arith, λ h. h)
  round-Grows (r ∷ rs) any b =
      let (res, fetched, r', active, d) = advance reg r b.device in
      let b' = appended (append_result b.resp r'.cursor res fetched) b.resp d in
      let any' = if active then true else any in
      let once = append_result-Grows b.resp r'.cursor fetched res d in
      elim (Bool-cases b'.full) [
        | inl full ↦ rw full (Grows-more 1 (suc (length rs)) b.resp b'.resp (omega arith) once)
        | inr free ↦ rw free (
            Grows-more (1 + length rs) (suc (length rs)) b.resp (round reg rs any' b').2.resp
              (omega arith)
              (Grows-then 1 (length rs) b.resp b'.resp (round reg rs any' b').2.resp once
                (round-Grows rs any' b')))
      ]

  length-round :
      (rs : List Repeater) (any : Bool) (b : Bulk D) → length (round reg rs any b).0 ≡ length rs
  unfolding round
  length-round [] any b = refl
  length-round (r ∷ rs) any b =
      let (res, fetched, r', active, d) = advance reg r b.device in
      let b' = appended (append_result b.resp r'.cursor res fetched) b.resp d in
      let any' = if active then true else any in
      elim (Bool-cases b'.full) [
        | inl full ↦ rw full refl
        | inr free ↦ rw free (omega (arith, length-round rs any' b'))
      ]

  rounds-Grows :
      (n : ℕ) (rs : List Repeater) (b : Bulk D)
      → Grows (n * length rs) b.resp (rounds reg n rs b).resp
  unfolding rounds
  rounds-Grows zero rs b = (omega arith, λ h. h)
  rounds-Grows (suc n) rs b =
      let (rs', any, b') = round reg rs false b in
      let once = round-Grows rs false b in
      let same : length rs' ≡ length rs = length-round rs false b in
      let stop = Grows-more (length rs) (suc n * length rs) b.resp b'.resp (omega arith) once in
      elim (Bool-cases b'.full) [
        | inl full ↦ rw full stop
        | inr free ↦ elim (Bool-cases any) [
          | inl more ↦
              rw (free, more)
                (Grows-more (length rs + n * length rs') (suc n * length rs) b.resp
                  (rounds reg n rs' b').resp (rw same (omega arith))
                  (Grows-then (length rs) (n * length rs') b.resp b'.resp (rounds reg n rs' b').resp
                    once (rounds-Grows n rs' b')))
          | inr over ↦ rw (free, over) stop
        ]
      ]

  -- A GetBulk is refused with BER_ERR_BAD_TAG unless it came as SNMPv2c. Otherwise it is always
  -- answered: a Response with the same request-id and no error, of at most SNMP_MAX_VARBINDS varbinds,
  -- and of at most N + M * R of them as RFC 3416 counts, negative counts taken as 0 and R cut to 16.
  pub handle_getbulk-IsBulkResponse :
      (ctx : Ctx) (d : D) → IsBulkResponse ctx (handle_getbulk reg ctx d)
  unfolding handle_getbulk
  handle_getbulk-IsBulkResponse ctx d =
      let n = non_repeaters_of ctx in
      let m = repetitions_of ctx in
      let r = columns_of ctx in
      let vbs = ctx.varbinds in
      let start : Bulk D = record { resp = []; device = d; full = false } in
      let b = non_repeating reg (take n vbs) start in
      let rs = repeaters_of (take r (drop n vbs)) in
      let names : length (take n vbs) ≡ n =
        length-take n vbs (minimum_le (non_negative ctx.error_status) (length vbs)).1 in
      let columns : length rs ≡ r =
        length-repeaters_of (take r (drop n vbs))
        ∙ length-take r (drop n vbs)
            (rw (length-drop n vbs) (minimum_le (length vbs - n) max_repeating_columns).0) in
      let first : Grows n [] b.resp = rw names at (non_repeating-Grows (take n vbs) start) in
      let again : Grows (m * r) b.resp (rounds reg m rs b).resp =
        rw columns at (rounds-Grows m rs b) in
      let one_pass = Grows-more n (n + m * r) [] b.resp (omega arith) first in
      let both = Grows-then n (m * r) [] b.resp (rounds reg m rs b).resp first again in
      elim (Bool-cases (is_v2c ctx.version)) [
        | inr old ↦ rw (handle_getbulk, old) (old, refl)
        | inl v2 ↦
            let b' = rounds reg m rs b in
            rw (handle_getbulk, v2)
              (response _ (chosen b.full (ltb 0 r && ltb 0 m) (n + m * r) b b' one_pass both) v2)
      ]
    where
      response :
          (resp : List Varbind)
          → Grows (non_repeaters_of ctx + repetitions_of ctx * columns_of ctx) [] resp
          → is_v2c ctx.version ≡ true
          → (is_v2c ctx.version ≡ true)
            × IsBulkAnswer ctx (record ctx {
              varbinds = resp;
              pdu_tag = pdu_get_response;
              error_status = 0;
              error_index = 0;
            })
      response resp (total, fits) v2 =
          (v2, (refl, refl, refl, refl, fits (omega arith), from_nothing _ resp total))
