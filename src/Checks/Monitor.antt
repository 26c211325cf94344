-- ===== src/Checks/Monitor.antt =====
-- The trap monitor of firmware/main/trap_monitor.c on small inputs.
use wespe.Prelude.{
  ℕ, ◌≡◌, ◌-◌, ◌^◌, refl, Bool, true, false, Option, none, some, List, [], ◌∷◌, ◌++◌,
}
use wespe.Monitor.{
  Config, Monitor, Reading, relay_change, temp_threshold, start, poll_relay, poll_temperature, poll,
  monitor,
}
use wespe.Monitor.Changes.{relay_changes, monitor-relay_changes}
use wespe.Monitor.Hysteresis.{crossings, monitor-reports_once}

-- 30.0 degrees, and 2.0 below it.
abbrev cfg : Config
cfg = record { threshold = 300; hysteresis = 20 }

abbrev watching : Monitor
watching = record {
  have_relay_baseline = true;
  last_relay_on = false;
  have_temp_baseline = true;
  over_threshold = false;
}

abbrev read : Option Bool → Option ℕ → Reading
read relay temperature = record { relay = relay; temperature = temperature }

abbrev switched : List Reading
switched =
    read (some true) none
    ∷ read none (some 310)
    ∷ read (some true) (some 250)
    ∷ read (some false) (some (2 ^ 32 - 5))
    ∷ []

monitor-relay_changes_example : relay_changes (monitor cfg watching switched).1 ≡ true ∷ false ∷ []
monitor-relay_changes_example = monitor-relay_changes cfg watching switched refl

monitor-reports_once_example :
    crossings
      (monitor cfg watching (
        (read (some true) (some 299) ∷ read none (some (2 ^ 32 - 5)) ∷ [])
        ++ read (some false) (some 305) ∷ read none (some 285) ∷ read (some true) none ∷ [])).1
    ≡ 305 ∷ []
monitor-reports_once_example =
    monitor-reports_once cfg watching
      (read (some true) (some 299) ∷ read none (some (2 ^ 32 - 5)) ∷ []) (some false) 305
      (read none (some 285) ∷ read (some true) none ∷ []) (refl, refl) (refl, (refl, tt)) refl
      (refl, (tt, tt))

-- The first round only takes the baselines, and a reading 2.1 degrees below re-arms the alarm.
rearmed :
    (monitor cfg start (
      read (some true) (some 310)
      ∷ read (some true) (some 280)
      ∷ read none (some 279)
      ∷ read (some false) (some 301)
      ∷ [])).1
    ≡ relay_change false ∷ temp_threshold 301 ∷ []
unfolding monitor poll poll_relay poll_temperature
rearmed = refl
