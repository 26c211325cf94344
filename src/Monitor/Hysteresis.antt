-- ===== src/Monitor/Hysteresis.antt =====
-- The notifications of the temperature: firmware/main/trap_monitor.c.
use wespe.Prelude.{
  ℕ, ◌≡◌, refl, ap, ◌∙◌, arith, Bool, true, false, Option, none, some, List, [], ◌∷◌, ◌++◌,
}
use wespe.Monitor.{
  Config, Monitor, Reading, Notification, relay_change, temp_threshold, signed_lt, clear_level,
  poll_relay, poll_temperature, poll, monitor,
}

-- The temperatures among notifications.
abbrev pub crossings : List Notification → List ℕ
crossings [] = []
crossings (relay_change on ∷ ns) = crossings ns
crossings (temp_threshold t ∷ ns) = t ∷ crossings ns

-- The temperature read, if any, does not reach the threshold.
abbrev pub IsUnder : Config → Option ℕ → Type 0
IsUnder cfg none = Unit
IsUnder cfg (some t) = signed_lt t cfg.threshold ≡ true

-- The temperature read, if any, is not below the level that clears the alarm.
abbrev pub IsOver : Config → Option ℕ → Type 0
IsOver cfg none = Unit
IsOver cfg (some t) = signed_lt t (clear_level cfg) ≡ false

abbrev pub StaysUnder : Config → List Reading → Type 0
StaysUnder cfg [] = Unit
StaysUnder cfg (reading ∷ readings) = IsUnder cfg reading.temperature × StaysUnder cfg readings

abbrev pub StaysOver : Config → List Reading → Type 0
StaysOver cfg [] = Unit
StaysOver cfg (reading ∷ readings) = IsOver cfg reading.temperature × StaysOver cfg readings

crossings-append : (xs ys : List Notification) → crossings (xs ++ ys) ≡ crossings xs ++ crossings ys
crossings-append [] ys = refl
crossings-append (relay_change on ∷ xs) ys = crossings-append xs ys
crossings-append (temp_threshold t ∷ xs) ys = ap (λ l. t ∷ l) (crossings-append xs ys)

-- The states of the alarm.
abbrev pub IsAlarm : Bool → Monitor → Type 0
IsAlarm over m = (m.have_temp_baseline ≡ true) × (m.over_threshold ≡ over)

poll_relay-temperature :
    (m : Monitor) (relay : Option Bool) (over : Bool)
    → IsAlarm over m
    → IsAlarm over (poll_relay m relay).0 × (crossings (poll_relay m relay).1 ≡ [])
unfolding poll_relay
poll_relay-temperature m none over a = (a, refl)
poll_relay-temperature m (some on) over (b, o) =
    ((ground (arith, b), ground (arith, o)), ground arith)

poll_temperature-under :
    (cfg : Config) (m : Monitor) (temperature : Option ℕ)
    → IsAlarm false m
    → IsUnder cfg temperature
    → IsAlarm false (poll_temperature cfg m temperature).0
      × (crossings (poll_temperature cfg m temperature).1 ≡ [])
unfolding poll_temperature
poll_temperature-under cfg m none a h = (a, refl)
poll_temperature-under cfg m (some t) (b, o) under =
    ((rw (b, o, under) refl, rw (b, o, under) refl), rw (b, o, under) refl)

poll_temperature-over :
    (cfg : Config) (m : Monitor) (temperature : Option ℕ)
    → IsAlarm true m
    → IsOver cfg temperature
    → IsAlarm true (poll_temperature cfg m temperature).0
      × (crossings (poll_temperature cfg m temperature).1 ≡ [])
unfolding poll_temperature
poll_temperature-over cfg m none a h = (a, refl)
poll_temperature-over cfg m (some t) (b, o) over =
    ((rw (b, o, over) refl, rw (b, o, over) refl), rw (b, o, over) refl)

poll_temperature-crossing :
    (cfg : Config) (m : Monitor) (t : ℕ)
    → IsAlarm false m
    → signed_lt t cfg.threshold ≡ false
    → IsAlarm true (poll_temperature cfg m (some t)).0
      × (crossings (poll_temperature cfg m (some t)).1 ≡ t ∷ [])
unfolding poll_temperature
poll_temperature-crossing cfg m t (b, o) reached =
    ((rw (b, o, reached) refl, rw (b, o, reached) refl), rw (b, o, reached) refl)

poll-under :
    (cfg : Config) (m : Monitor) (reading : Reading)
    → IsAlarm false m
    → IsUnder cfg reading.temperature
    → IsAlarm false (poll cfg m reading).0 × (crossings (poll cfg m reading).1 ≡ [])
unfolding poll
poll-under cfg m reading a h =
    let p = poll_relay m reading.relay in
    let (a', n) = poll_relay-temperature m reading.relay false a in
    let (a'', n') = poll_temperature-under cfg p.0 reading.temperature a' h in
    (a'', rw (crossings-append p.1 (poll_temperature cfg p.0 reading.temperature).1, n, n') refl)

poll-over :
    (cfg : Config) (m : Monitor) (reading : Reading)
    → IsAlarm true m
    → IsOver cfg reading.temperature
    → IsAlarm true (poll cfg m reading).0 × (crossings (poll cfg m reading).1 ≡ [])
unfolding poll
poll-over cfg m reading a h =
    let p = poll_relay m reading.relay in
    let (a', n) = poll_relay-temperature m reading.relay true a in
    let (a'', n') = poll_temperature-over cfg p.0 reading.temperature a' h in
    (a'', rw (crossings-append p.1 (poll_temperature cfg p.0 reading.temperature).1, n, n') refl)

poll-crossing :
    (cfg : Config) (m : Monitor) (relay : Option Bool) (t : ℕ)
    → IsAlarm false m
    → signed_lt t cfg.threshold ≡ false
    → IsAlarm true (poll cfg m (record { relay = relay; temperature = some t })).0
      × (crossings (poll cfg m (record { relay = relay; temperature = some t })).1 ≡ t ∷ [])
unfolding poll
poll-crossing cfg m relay t a reached =
    let p = poll_relay m relay in
    let (a', n) = poll_relay-temperature m relay false a in
    let (a'', n') = poll_temperature-crossing cfg p.0 t a' reached in
    (a'', rw (crossings-append p.1 (poll_temperature cfg p.0 (some t)).1, n, n') refl)

monitor-over :
    (cfg : Config) (m : Monitor) (readings : List Reading)
    → IsAlarm true m
    → StaysOver cfg readings
    → crossings (monitor cfg m readings).1 ≡ []
unfolding monitor
monitor-over cfg m [] a h = refl
monitor-over cfg m (reading ∷ readings) a (h, hs) =
    let (a', n) = poll-over cfg m reading a h in
    let p = poll cfg m reading in
    crossings-append p.1 (monitor cfg p.0 readings).1 ∙ rw n (monitor-over cfg p.0 readings a' hs)

-- From a state that has read a temperature and is not over the threshold: where no temperature
-- reaches the threshold, then one does, and none after it is below the threshold less the
-- hysteresis, the task reports exactly one temperature, the one that reached the threshold,
-- whatever the relay and failed readings do in between.
pub monitor-reports_once :
    (cfg : Config) (m : Monitor) (before : List Reading) (relay : Option Bool) (t : ℕ)
    (after : List Reading)
    → IsAlarm false m
    → StaysUnder cfg before
    → signed_lt t cfg.threshold ≡ false
    → StaysOver cfg after
    → crossings (monitor cfg m (before ++ record { relay = relay; temperature = some t } ∷ after)).1
      ≡ t ∷ []
unfolding monitor
monitor-reports_once cfg m [] relay t after a under reached over =
    let reading : Reading = record { relay = relay; temperature = some t } in
    let p = poll cfg m reading in
    let (a', n) = poll-crossing cfg m relay t a reached in
    crossings-append p.1 (monitor cfg p.0 after).1
    ∙ rw n (ap (λ l. t ∷ l) (monitor-over cfg p.0 after a' over))
monitor-reports_once cfg m (reading ∷ before) relay t after a (under, unders) reached over =
    let rest = before ++ record { relay = relay; temperature = some t } ∷ after in
    let p = poll cfg m reading in
    let (a', n) = poll-under cfg m reading a under in
    crossings-append p.1 (monitor cfg p.0 rest).1
    ∙ rw n (monitor-reports_once cfg p.0 before relay t after a' unders reached over)
