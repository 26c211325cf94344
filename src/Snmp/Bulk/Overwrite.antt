-- ===== src/Snmp/Bulk/Overwrite.antt =====
-- Why the response may be written over the request: firmware/components/snmp_core/snmp_pdu_getbulk.c.
use wespe.Prelude.{
  ℕ, zero, suc, ◌+◌, ◌≤◌, ◌≡◌, refl, ap, arith, Bool, true, false, ◌&&◌, List, [], ◌∷◌, ◌++◌, ltb,
  if◌then◌else◌, length, take, drop, take-append, drop-append, length-take, length-drop,
}
use wespe.Mib.Types.{Varbind, zeroed}
use wespe.Mib.Registry.{Registry}
use wespe.Snmp.Types.{Ctx, max_varbinds}
use wespe.Snmp.Bulk.{
  append_result, Repeater, repeaters_of, Bulk, appended, getnext_into, non_repeating, advance,
  round, rounds, handle_getbulk,
}
use wespe.Snmp.Bulk.Bounds.{non_repeaters_of, repetitions_of, columns_of}
use wespe.Snmp.Bulk.InPlace.{
  InPlace, non_repeating_in_place, round_in_place, rounds_in_place, handle_getbulk_in_place,
}
use wespe.Snmp.Bulk.Embed.{embed, Fills, get_or-append, append-room, append-any}

module _ {A : Type 0} where
  take-append_le : (n : ℕ) (xs ys : List A) → n ≤ length xs → take n (xs ++ ys) ≡ take n xs
  take-append_le zero xs ys h = refl
  take-append_le (suc n) [] ys h = absurd (omega arith)
  take-append_le (suc n) (x ∷ xs) ys h = ap (λ l. x ∷ l) (take-append_le n xs ys (omega arith))

  split-append : (n : ℕ) (xs ys : List A) → xs ++ ys ≡ take n xs ++ (drop n xs ++ ys)
  split-append zero xs ys = refl
  split-append (suc n) [] ys = refl
  split-append (suc n) (x ∷ xs) ys = ap (λ l. x ∷ l) (split-append n xs ys)

module _ {D : Type 0} (reg : Registry D) where
  -- Each entry is read before it is written, or never again.
  non_repeating-embed :
      (vbs rest : List Varbind) (b : Bulk D) (i : ℕ)
      → i ≡ length b.resp
      → b.full ≡ false
      → Fills (vbs ++ rest) b
      → (non_repeating_in_place reg (length vbs) i (embed (vbs ++ rest) b)
          ≡ embed rest (non_repeating reg vbs b))
        × ((non_repeating reg vbs b).full ≡ false)
        × Fills rest (non_repeating reg vbs b)
        × (length (non_repeating reg vbs b).resp ≡ length b.resp + length vbs)
  unfolding non_repeating non_repeating_in_place
  non_repeating-embed [] rest b i at_end free fills = (refl, free, fills, omega arith)
  non_repeating-embed (vb ∷ vbs) rest b i at_end free fills =
      let (res, fetched, d) = getnext_into reg vb zeroed b.device in
      let b' = appended (append_result b.resp vb res fetched) b.resp d in
      let read = get_or-append b.resp (vbs ++ rest) vb zeroed in
      let (e, free', more, fills') = append-room vb fetched res d b vb (vbs ++ rest) fills in
      let (ih, ih_free, ih_fills, ih_size) =
        non_repeating-embed vbs rest b' (i + 1) (rw (at_end, more) refl) free' fills' in
      rw (at_end, read, e, free')
        (rw (at_end, free') at ih, ih_free, ih_fills, omega (arith, ih_size, more))

  -- Whichever way an outcome is chosen, it is embedded.
  either-embed :
      {S T : Type 0} (emb : List Varbind → T → S) (P : List Varbind → T → Type 0) (first : Bool)
      (out out' : T) (other : S) (rest rest' : List Varbind)
      → other ≡ emb rest' out'
      → P rest out
      → P rest' out'
      → (rest'' : List Varbind) × ((if first then emb rest out else other)
          ≡ emb rest'' (if first then out else out'))
        × P rest'' (if first then out else out')
  either-embed emb P true out out' other rest rest' e p q = (rest, refl, p)
  either-embed emb P false out out' other rest rest' e p q = (rest', e, q)

  abbrev embed_round :
      List Varbind → List Repeater × Bool × Bulk D → List Repeater × Bool × InPlace D
  embed_round rest out = (out.0, out.1, embed rest out.2)

  abbrev FillsRound : List Varbind → List Repeater × Bool × Bulk D → Type 0
  FillsRound rest out = Fills rest out.2

  round-embed :
      (rs : List Repeater) (any : Bool) (rest : List Varbind) (b : Bulk D)
      → Fills rest b
      → (rest' : List Varbind) × (round_in_place reg rs any (embed rest b)
          ≡ embed_round rest' (round reg rs any b))
        × FillsRound rest' (round reg rs any b)
  unfolding round round_in_place
  round-embed [] any rest b fills = (rest, refl, fills)
  round-embed (r ∷ rs) any rest b fills =
      let (res, fetched, r', active, d) = advance reg r b.device in
      let b' = appended (append_result b.resp r'.cursor res fetched) b.resp d in
      let any' = if active then true else any in
      let (rest1, e, fills') = append-any r'.cursor fetched res d b rest fills in
      let (rest2, ih, ih_fills) = round-embed rs any' rest1 b' fills' in
      let (rs', any'', b'') = round reg rs any' b' in
      let (rs0, any0, s0) = round_in_place reg rs any' (embed rest1 b') in
      rw e (
        either-embed embed_round FillsRound b'.full (r' ∷ rs, any', b') (r' ∷ rs', any'', b'')
          (r' ∷ rs0, any0, s0) rest1 rest2 (rw ih refl) fills' ih_fills)

  rounds-embed :
      (n : ℕ) (rs : List Repeater) (rest : List Varbind) (b : Bulk D)
      → Fills rest b
      → (rest' : List Varbind) × (rounds_in_place reg n rs (embed rest b)
          ≡ embed rest' (rounds reg n rs b))
        × Fills rest' (rounds reg n rs b)
  unfolding rounds rounds_in_place
  rounds-embed zero rs rest b fills = (rest, refl, fills)
  rounds-embed (suc n) rs rest b fills =
      let (rs', any, b') = round reg rs false b in
      let (rest1, e, fills') = round-embed rs false rest b fills in
      let (rest2, ih, ih_fills) = rounds-embed n rs' rest1 b' fills' in
      let others = rounds reg n rs' b' in
      let others_in_place = rounds_in_place reg n rs' (embed rest1 b') in
      let (rest3, inner, inner_fills) =
        either-embed embed Fills any others b' (embed rest1 b') rest2 rest1 refl ih_fills fills' in
      rw (e, ih)
        (either-embed embed Fills b'.full b' (if any then others else b')
          (if any then embed rest2 others else embed rest1 b') rest1 rest3 inner fills' inner_fills)

  -- The two phases of the handler, with R repeaters and at most M rounds.
  abbrev outcome : List Varbind → List Varbind → ℕ → ℕ → D → Bulk D
  outcome vbs rest repeaters max_repetitions d =
      let b = non_repeating reg vbs (record { resp = []; device = d; full = false }) in
      let repeated = rounds reg max_repetitions (repeaters_of (take repeaters rest)) b in
      if b.full then b else if ltb 0 repeaters && ltb 0 max_repetitions then repeated else b

  abbrev outcome_in_place : ℕ → List Varbind → ℕ → ℕ → D → InPlace D
  outcome_in_place non_repeaters array repeaters max_repetitions d =
      let s =
        non_repeating_in_place reg non_repeaters 0
          (record { array = array; count = 0; device = d; full = false }) in
      let repeated =
        rounds_in_place reg max_repetitions
          (repeaters_of (take repeaters (drop non_repeaters s.array))) s in
      if s.full then s else if ltb 0 repeaters && ltb 0 max_repetitions then repeated else s

  outcome-embed :
      (vbs rest behind : List Varbind) (repeaters max_repetitions : ℕ) (d : D)
      → length (vbs ++ (rest ++ behind)) ≡ max_varbinds
      → repeaters ≤ length rest
      → (rest' : List Varbind) × (outcome_in_place
            (length vbs)
            (vbs ++ (rest ++ behind))
            repeaters
            max_repetitions
            d
          ≡ embed rest' (outcome vbs rest repeaters max_repetitions d))
        × Fills rest' (outcome vbs rest repeaters max_repetitions d)
  outcome-embed vbs rest behind repeaters max_repetitions d fills h =
      let start : Bulk D = record { resp = []; device = d; full = false } in
      let (e, free, b_fills, size) =
        non_repeating-embed vbs (rest ++ behind) start 0 refl refl fills in
      let b = non_repeating reg vbs start in
      let same_size : length b.resp ≡ length vbs = omega (arith, size) in
      let unread : drop (length vbs) (b.resp ++ (rest ++ behind)) ≡ rest ++ behind =
        rw (← same_size) (drop-append b.resp (rest ++ behind)) in
      let rs = repeaters_of (take repeaters rest) in
      let (rest', rounds_e, rounds_fills) =
        rounds-embed max_repetitions rs (rest ++ behind) b b_fills in
      let (rest'', chosen, chosen_fills) =
        either-embed embed Fills (ltb 0 repeaters && ltb 0 max_repetitions)
          (rounds reg max_repetitions rs b) b (embed (rest ++ behind) b) rest' (rest ++ behind) refl
          rounds_fills b_fills in
      let again = ltb 0 repeaters && ltb 0 max_repetitions in
      rw (e, unread, take-append_le repeaters rest behind h, rounds_e)
        (either-embed embed Fills b.full b (if again then rounds reg max_repetitions rs b else b)
          (if again
            then embed rest' (rounds reg max_repetitions rs b)
            else embed (rest ++ behind) b)
          (rest ++ behind) rest'' chosen b_fills chosen_fills)

  -- For whatever the entries hold that are not of the request, the response that is written over the
  -- request's varbinds, with the cursors copied on the way, is the response that is built apart: no
  -- entry is written before it is read for the last time.
  pub handle_getbulk-InPlace :
      (behind : List Varbind) (ctx : Ctx) (d : D)
      → length (ctx.varbinds ++ behind) ≡ max_varbinds
      → handle_getbulk_in_place reg behind ctx d ≡ handle_getbulk reg ctx d
  unfolding handle_getbulk handle_getbulk_in_place
  handle_getbulk-InPlace behind ctx d fills =
      let n = non_repeaters_of ctx in
      let r = columns_of ctx in
      let vbs = take n ctx.varbinds in
      let rest = drop n ctx.varbinds in
      let count : length vbs ≡ n = length-take n ctx.varbinds (ground arith) in
      let few : r ≤ length rest = rw (length-drop n ctx.varbinds) (ground arith) in
      let split : ctx.varbinds ++ behind ≡ vbs ++ (rest ++ behind) =
        split-append n ctx.varbinds behind in
      let (rest', e, fills') =
        outcome-embed vbs rest behind r (repetitions_of ctx) d (rw split at fills) few in
      let b = outcome vbs rest r (repetitions_of ctx) d in
      rw (split, rw count at e, take-append b.resp rest') refl
