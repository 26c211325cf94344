-- ===== src/Checks/Main.antt =====
-- The boot of firmware/main on small inputs.
use wespe.Prelude.{◌≡◌, refl, arith, List, [], ◌∷◌, some, true}
use wespe.Main.Provisioning.{
  Event, sta_start, sta_disconnected, sta_got_ip, cold_wifi, connect_blocking,
}
use wespe.Main.Provisioning.Verdict.{Verdict, connect_blocking-Verdict}

abbrev joining : List Event
joining = sta_start ∷ sta_disconnected ∷ sta_disconnected ∷ sta_got_ip ∷ []

connect_blocking-Verdict_example : Verdict 0 joining (connect_blocking joining cold_wifi)
connect_blocking-Verdict_example =
    connect_blocking-Verdict joining cold_wifi
      (record { not_connected = refl; not_failed = refl; retries = omega arith })

joined : connect_blocking joining cold_wifi ≡ some true
unfolding connect_blocking
joined = refl
