-- ===== src/Snmp/Bulk/Embed.antt =====
-- A step of the response that is written over the request, against one that is built apart:
-- append_result of firmware/components/snmp_core/snmp_pdu_getbulk.c.
use wespe.Prelude.{
  ◌+◌, ◌≡◌, refl, ap, inl, inr, arith, true, false, Bool-cases, some, List, [], ◌∷◌, ◌++◌, ◌==◌,
  leb, length, length-append, set, get_or,
}
use wespe.Ber.Types.{tag_end_of_mib_view}
use wespe.Mib.Types.{MibResult, Varbind}
use wespe.Snmp.Types.{Version, max_varbinds}
use wespe.Snmp.Errors.{error_translate}
use wespe.Snmp.Bulk.{append_result, Bulk, appended}
use wespe.Snmp.Bulk.InPlace.{append_in_place, InPlace, written}

module _ {A : Type 0} where
  set-append :
      (xs ys : List A) (x y : A) → set (xs ++ (y ∷ ys)) (length xs) x ≡ (xs ++ (x ∷ [])) ++ ys
  set-append [] ys x y = refl
  set-append (z ∷ xs) ys x y = ap (λ l. z ∷ l) (set-append xs ys x y)

  pub get_or-append : (xs ys : List A) (y w : A) → get_or (xs ++ (y ∷ ys)) (length xs) w ≡ y
  get_or-append [] ys y w = refl
  get_or-append (z ∷ xs) ys y w = get_or-append xs ys y w

-- Both write the same varbind, if there is room.
append-same :
    (resp array : List Varbind) (current fetched : Varbind) (res : MibResult)
    → leb max_varbinds (length resp) ≡ false
    → (x : Varbind) × (append_result resp current res fetched ≡ some (resp ++ (x ∷ [])))
      × (append_in_place array (length resp) current res fetched
          ≡ some (set array (length resp) x, length resp + 1))
unfolding append_result append_in_place
append-same resp array current fetched res free =
    let tr = error_translate Version.v2c res in
    elim (Bool-cases tr.pdu_level_abort) [
      | inl aborts ↦ (
        record current { value_tag = tag_end_of_mib_view; octets = [] },
        rw (free, aborts) refl,
        rw (free, aborts) refl,
      )
      | inr goes ↦ elim (Bool-cases (tr.v2c_exception_tag == 0)) [
        | inl value ↦ (fetched, rw (free, goes, value) refl, rw (free, goes, value) refl)
        | inr exception ↦ (
          record current { value_tag = tr.v2c_exception_tag; octets = [] },
          rw (free, goes, exception) refl,
          rw (free, goes, exception) refl,
        )
      ]
    ]

-- The array when the response has been written to its front.
abbrev pub embed : {D : Type 0} → List Varbind → Bulk D → InPlace D
embed rest b = record {
  array = b.resp ++ rest;
  count = length b.resp;
  device = b.device;
  full = b.full;
}

abbrev pub Fills : {D : Type 0} → List Varbind → Bulk D → Type 0
Fills rest b = length (b.resp ++ rest) ≡ max_varbinds

module _ {D : Type 0} (current fetched : Varbind) (res : MibResult) (d : D) (b : Bulk D) where
  abbrev pub after : Bulk D
  after = appended (append_result b.resp current res fetched) b.resp d

  abbrev pub after_in_place : List Varbind → InPlace D
  after_in_place rest =
      written (append_in_place (b.resp ++ rest) (length b.resp) current res fetched) (embed rest b)
        d

  pub append-room :
      (y : Varbind) (rest : List Varbind)
      → Fills (y ∷ rest) b
      → (after_in_place (y ∷ rest) ≡ embed rest after)
        × (after.full ≡ false)
        × (length after.resp ≡ length b.resp + 1)
        × Fills rest after
  append-room y rest fills =
      let size = length-append b.resp (y ∷ rest) in
      let free : leb max_varbinds (length b.resp) ≡ false = ground (arith, size) in
      let (x, e, e') = append-same b.resp (b.resp ++ (y ∷ rest)) current fetched res free in
      let one = length-append b.resp (x ∷ []) in
      let all = length-append (b.resp ++ (x ∷ [])) rest in
      rw (e, e', set-append b.resp rest x y, one) (refl, refl, refl, omega (arith, one, all, size))

  append-full :
      Fills [] b → (after_in_place [] ≡ embed [] after) × (after.full ≡ true) × Fills [] after
  unfolding append_result append_in_place
  append-full fills =
      let size = length-append b.resp [] in
      let full : leb max_varbinds (length b.resp) ≡ true = ground (arith, size) in
      rw full (refl, refl, fills)

  pub append-any :
      (rest : List Varbind)
      → Fills rest b
      → (rest' : List Varbind) × (after_in_place rest ≡ embed rest' after) × Fills rest' after
  append-any [] fills = let (e, full, fills') = append-full fills in ([], e, fills')
  append-any (y ∷ rest) fills =
      let (e, free, more, fills') = append-room y rest fills in (rest, e, fills')
