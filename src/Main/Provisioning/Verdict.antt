-- ===== src/Main/Provisioning/Verdict.antt =====
-- The verdict of wifi_provisioning_connect_blocking: firmware/main/wifi_provisioning.c.
use wespe.Prelude.{
  ℕ, suc, ◌+◌, ◌≤◌, ◌<◌, ◌≡◌, inl, inr, refl, arith, Bool, true, false, ◌||◌, Bool-cases, Option,
  none, some, List, [], ◌∷◌, ltb, if◌then◌else◌,
}
use wespe.Main.Provisioning.{
  Event, sta_start, sta_disconnected, sta_got_ip, other, Wifi, connect_blocking, max_retry,
}

abbrev pub disconnects : List Event → ℕ
disconnects [] = 0
disconnects (sta_start ∷ events) = disconnects events
disconnects (sta_disconnected ∷ events) = suc (disconnects events)
disconnects (sta_got_ip ∷ events) = disconnects events
disconnects (other ∷ events) = disconnects events

-- One of the events brings an address.
abbrev pub GotIp : List Event → Type 0
GotIp [] = ⊥
GotIp (sta_start ∷ events) = GotIp events
GotIp (sta_disconnected ∷ events) = GotIp events
GotIp (sta_got_ip ∷ events) = Unit
GotIp (other ∷ events) = GotIp events

-- Neither bit is set, and no more retries are counted than there may be.
pub record IsWaiting (w : Wifi) : Type 0 where
  pub not_connected : w.connected_bit ≡ false
  pub not_failed : w.fail_bit ≡ false
  pub retries : w.retry_count ≤ max_retry

-- What the verdict says of the events; `n` is the number of retries before them.
abbrev pub Verdict : ℕ → List Event → Option Bool → Type 0
Verdict n events none = (n + disconnects events ≤ max_retry) × ¬ (GotIp events)
Verdict n events (some true) = GotIp events
Verdict n events (some false) = max_retry < n + disconnects events

-- An event of another kind in front says nothing new.
start-Verdict :
    (n : ℕ) (events : List Event) (o : Option Bool)
    → Verdict n events o
    → Verdict n (sta_start ∷ events) o
start-Verdict n events none v = v
start-Verdict n events (some true) v = v
start-Verdict n events (some false) v = v

other-Verdict :
    (n : ℕ) (events : List Event) (o : Option Bool)
    → Verdict n events o
    → Verdict n (other ∷ events) o
other-Verdict n events none v = v
other-Verdict n events (some true) v = v
other-Verdict n events (some false) v = v

disconnected-Verdict :
    (n : ℕ) (events : List Event) (o : Option Bool)
    → Verdict (n + 1) events o
    → Verdict n (sta_disconnected ∷ events) o
disconnected-Verdict n events none (few, no_ip) = (omega arith, no_ip)
disconnected-Verdict n events (some true) v = v
disconnected-Verdict n events (some false) v = omega arith

waits :
    (b c : Bool) (later : Option Bool)
    → b ≡ false
    → c ≡ false
    → (if b || c then some b else later) ≡ later
waits b c later h k = rw (h, k) refl

-- The wait ends as soon as an address is there or more than MAX_RETRY disconnections have come, and
-- not before: it still waits only while there is no address and no more than MAX_RETRY of them, it
-- returns 0 only with an address, and -1 only after more than MAX_RETRY.
pub connect_blocking-Verdict :
    (events : List Event) (w : Wifi)
    → IsWaiting w
    → Verdict w.retry_count events (connect_blocking events w)
unfolding connect_blocking
connect_blocking-Verdict [] w h = (omega (arith, h.retries), λ x. x)
connect_blocking-Verdict (sta_start ∷ events) w h =
    let w' : Wifi = record w { connects = w.connects + 1 } in
    let later = connect_blocking-Verdict events w' (ground arith) in
    rw (waits w.connected_bit w.fail_bit (connect_blocking events w') h.not_connected h.not_failed)
      (start-Verdict w.retry_count events (connect_blocking events w') later)
connect_blocking-Verdict (sta_disconnected ∷ events) w h =
    elim (Bool-cases (ltb w.retry_count max_retry)) [
      | inl again ↦
          let w' : Wifi = record w { connects = w.connects + 1; retry_count = w.retry_count + 1 } in
          let later = connect_blocking-Verdict events w' (ground arith) in
          rw
            (
              again,
              waits w.connected_bit w.fail_bit (connect_blocking events w') h.not_connected
                  h.not_failed,
            )
            (disconnected-Verdict w.retry_count events (connect_blocking events w') later)
      | inr spent ↦ rw (spent, h.not_connected) (ground arith)
    ]
connect_blocking-Verdict (sta_got_ip ∷ events) w h = tt
connect_blocking-Verdict (other ∷ events) w h =
    rw (waits w.connected_bit w.fail_bit (connect_blocking events w) h.not_connected h.not_failed) (
      other-Verdict w.retry_count events (connect_blocking events w)
        (connect_blocking-Verdict events w h))
