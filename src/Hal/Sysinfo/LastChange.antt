-- ===== src/Hal/Sysinfo/LastChange.antt =====
-- What ifLastChange reports: sysinfo_wifi_last_change_ticks of
-- firmware/components/device_hal/sysinfo_esp32.c.
use wespe.Prelude.{
  ℕ, ◌/◌, ◌%◌, ◌^◌, ◌≡◌, ◌≢◌, refl, sym, ap, Bool, true, false, Option, none, some, List, [], ◌∷◌,
  ◌++◌, All,
}
use wespe.Hal.Board.{Board}
use wespe.Hal.Sysinfo.{same_state, sysinfo_wifi_last_change_ticks}

-- The station at the moment of a call.
pub record Link : Type 0 where
  pub ap_rssi : Option ℕ
  pub uptime_us : ℕ

abbrev pub at_link : Board → Link → Board
at_link b link = record b { ap_rssi = link.ap_rssi; uptime_us = link.uptime_us }

abbrev pub is_up : Link → Bool
is_up link = elim link.ap_rssi [ none ↦ false | some rssi ↦ true ]

-- What the calls answer, one after the other.
unfoldable pub answers : Board → List Link → List ℕ
answers b [] = []
answers b (link ∷ links) =
    let (ticks, b') = sysinfo_wifi_last_change_ticks (at_link b link) in ticks ∷ answers b' links

-- One answer for each call.
abbrev pub always : ℕ → List Link → List ℕ
always n [] = []
always n (link ∷ links) = n ∷ always n links

-- The time of a call in hundredths of a second, as a uint32_t.
abbrev pub ticks_at : Link → ℕ
ticks_at link = link.uptime_us / 1000 / 10 % 2 ^ 32

same_state-true : (a b : Bool) → a ≡ b → same_state a b ≡ true
same_state-true true b e = sym e
same_state-true false true e = cc
same_state-true false false e = refl

same_state-false : (a b : Bool) → a ≢ b → same_state a b ≡ false
same_state-false true true h = absurd (h refl)
same_state-false true false h = refl
same_state-false false true h = refl
same_state-false false false h = absurd (h refl)

quiet :
    (b : Board) (link : Link)
    → b.last_change_initialized ≡ true
    → is_up link ≡ b.last_oper_up
    → sysinfo_wifi_last_change_ticks (at_link b link) ≡ (b.last_change_ticks, at_link b link)
unfolding sysinfo_wifi_last_change_ticks
quiet b link i same =
    let kept = same_state-true (is_up link) b.last_oper_up same in rw (i, kept) refl

changed :
    (b : Board) (link : Link)
    → b.last_change_initialized ≡ true
    → is_up link ≢ b.last_oper_up
    → sysinfo_wifi_last_change_ticks (at_link b link) ≡ (
      ticks_at link,
      record b {
        ap_rssi = link.ap_rssi;
        uptime_us = link.uptime_us;
        last_oper_up = is_up link;
        last_change_ticks = ticks_at link;
      },
    )
unfolding sysinfo_wifi_last_change_ticks
changed b link i other =
    let moved = same_state-false (is_up link) b.last_oper_up other in rw (i, moved) refl

stays :
    (b : Board) (links : List Link)
    → b.last_change_initialized ≡ true
    → All (λ link. is_up link ≡ b.last_oper_up) links
    → answers b links ≡ always b.last_change_ticks links
unfolding answers
stays b [] i h = refl
stays b (link ∷ links) i (same, h) =
    rw (quiet b link i same) (ap (λ l. b.last_change_ticks ∷ l) (stays (at_link b link) links i h))

-- Once it has been called, sysinfo_wifi_last_change_ticks answers what it answered before for as long
-- as the station stays as it was; from the first call on that finds it otherwise, it answers the time
-- of that call, for as long as the station then stays so.
pub answers_after_change :
    (b : Board) (before : List Link) (link : Link) (after : List Link)
    → b.last_change_initialized ≡ true
    → All (λ l. is_up l ≡ b.last_oper_up) before
    → is_up link ≢ b.last_oper_up
    → All (λ l. is_up l ≡ is_up link) after
    → answers b (before ++ link ∷ after)
      ≡ always b.last_change_ticks before ++ always (ticks_at link) (link ∷ after)
unfolding answers
answers_after_change b [] link after i h other later =
    let b' : Board = record b {
      ap_rssi = link.ap_rssi;
      uptime_us = link.uptime_us;
      last_oper_up = is_up link;
      last_change_ticks = ticks_at link;
    } in
    rw (changed b link i other) (ap (λ l. ticks_at link ∷ l) (stays b' after i later))
answers_after_change b (l ∷ before) link after i (same, h) other later = rw (quiet b l i same) (
    ap (λ k. b.last_change_ticks ∷ k)
      (answers_after_change (at_link b l) before link after i h other later))
