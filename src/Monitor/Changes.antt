-- ===== src/Monitor/Changes.antt =====
-- The notifications of the relay: firmware/main/trap_monitor.c.
use wespe.Prelude.{
  ℕ, ◌≡◌, inl, inr, refl, sym, ap, ◌∙◌, arith, Bool, true, false, Bool-cases, Option, none, some,
  List, [], ◌∷◌, ◌++◌, append-nil, if◌then◌else◌,
}
use wespe.Monitor.{
  Config, Monitor, Reading, Notification, relay_change, temp_threshold, differs, poll_relay,
  poll_temperature, poll, monitor,
}

-- The states of the relay that were read, and the ones among notifications.
abbrev pub then_observed : Option Bool → List Bool → List Bool
then_observed none states = states
then_observed (some on) states = on ∷ states

abbrev pub observed : List Reading → List Bool
observed [] = []
observed (reading ∷ readings) = then_observed reading.relay (observed readings)

abbrev pub relay_changes : List Notification → List Bool
relay_changes [] = []
relay_changes (relay_change on ∷ ns) = on ∷ relay_changes ns
relay_changes (temp_threshold t ∷ ns) = relay_changes ns

-- The elements that differ from the one before, `last` standing before the first.
abbrev pub changes : Bool → List Bool → List Bool
changes last [] = []
changes last (on ∷ states) =
    let rest = changes on states in if differs on last then on ∷ rest else rest

relay_changes-append :
    (xs ys : List Notification) → relay_changes (xs ++ ys) ≡ relay_changes xs ++ relay_changes ys
relay_changes-append [] ys = refl
relay_changes-append (relay_change on ∷ xs) ys = ap (λ l. on ∷ l) (relay_changes-append xs ys)
relay_changes-append (temp_threshold t ∷ xs) ys = relay_changes-append xs ys

poll_temperature-relay :
    (cfg : Config) (m : Monitor) (t : Option ℕ)
    → ((poll_temperature cfg m t).0.have_relay_baseline ≡ m.have_relay_baseline)
      × ((poll_temperature cfg m t).0.last_relay_on ≡ m.last_relay_on)
      × (relay_changes (poll_temperature cfg m t).1 ≡ [])
unfolding poll_temperature
poll_temperature-relay cfg m none = (refl, refl, refl)
poll_temperature-relay cfg m (some t) = (ground arith, ground arith, ground arith)

same_state : (on last : Bool) → differs on last ≡ false → on ≡ last
same_state true true h = refl
same_state true false h = absurd (ground arith)
same_state false true h = absurd (ground arith)
same_state false false h = refl

poll_relay-changes :
    (m : Monitor) (relay : Option Bool) (states : List Bool)
    → m.have_relay_baseline ≡ true
    → ((poll_relay m relay).0.have_relay_baseline ≡ true)
      × (relay_changes (poll_relay m relay).1 ++ changes (poll_relay m relay).0.last_relay_on states
          ≡ changes m.last_relay_on (then_observed relay states))
unfolding poll_relay
poll_relay-changes m none states base = (base, refl)
poll_relay-changes m (some on) states base = elim (Bool-cases (differs on m.last_relay_on)) [
  | inl d ↦ (rw (base, d) refl, rw (base, d) refl)
  | inr d ↦ (
    rw (base, d) refl,
    rw (base, d) (ap (λ l. changes l states) (sym (same_state on m.last_relay_on d))),
  )
]

poll-changes :
    (cfg : Config) (m : Monitor) (reading : Reading) (states : List Bool)
    → m.have_relay_baseline ≡ true
    → ((poll cfg m reading).0.have_relay_baseline ≡ true)
      × (relay_changes (poll cfg m reading).1 ++ changes (poll cfg m reading).0.last_relay_on states
          ≡ changes m.last_relay_on (then_observed reading.relay states))
unfolding poll
poll-changes cfg m reading states base =
    let p = poll_relay m reading.relay in
    let q = poll_temperature cfg p.0 reading.temperature in
    let (b, l, n) = poll_temperature-relay cfg p.0 reading.temperature in
    let (kept, step) = poll_relay-changes m reading.relay states base in
    (b ∙ kept, rw (relay_changes-append p.1 q.1, n, l, append-nil (relay_changes p.1)) step)

-- Once the relay has been read, the relay changes that the task reports are exactly the states
-- read that differ from the state read before.
pub monitor-relay_changes :
    (cfg : Config) (m : Monitor) (readings : List Reading)
    → m.have_relay_baseline ≡ true
    → relay_changes (monitor cfg m readings).1 ≡ changes m.last_relay_on (observed readings)
unfolding monitor
monitor-relay_changes cfg m [] base = refl
monitor-relay_changes cfg m (reading ∷ readings) base =
    let (kept, step) = poll-changes cfg m reading (observed readings) base in
    relay_changes-append (poll cfg m reading).1 (monitor cfg (poll cfg m reading).0 readings).1
    ∙ ap (λ l. relay_changes (poll cfg m reading).1 ++ l)
        (monitor-relay_changes cfg (poll cfg m reading).0 readings kept)
    ∙ step
