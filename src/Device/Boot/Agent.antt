-- ===== src/Device/Boot/Agent.antt =====
-- The agent from boot on: firmware/main/app_main.c and the loop of
-- firmware/components/transport/snmp_udp.c, with the drivers changing in between.
use wespe.Prelude.{
  ℕ, ◌≤◌, arith, ◌==◌, Bool-cases, inl, inr, List, [], ◌++◌, length, take, All, All-append,
}
use wespe.Mib.Resolve.Instances.{resolved_get-Gets, resolved_set-Sets}
use wespe.Snmp.Security.{
  Security, Slot, usm_stub_init, community_init, security_register, overwrite,
}
use wespe.Snmp.Message.Bounds.{
  IsBounded, message_process_bounds, community_model-IsBounded, usm_stub_model-IsBounded,
}
use wespe.Snmp.Keeps.{IsKept}
use wespe.Snmp.Keeps.Message.{message_process-keeps}
use wespe.Transport.Replies.{reply-FitsIn}
use wespe.Transport.{Received, failed, datagram, snmp_max_packet_len, process_datagram, udp_round}
use wespe.Hal.Interfaces.{Hal, sensor_max_count}
use wespe.Device.Types.{Device}
use wespe.Device.Boot.{register_all}
use wespe.Device.Boot.Registered.{
  firmware, firmware-AllSorted, firmware-IsTable, register_all-firmware,
}
use wespe.Device.Boot.Slots.{IsValid}
use wespe.Device.Boot.Valid.{AllGet-IsValid, AllSet-IsValid, register_all-IsValid}

-- The security models that app_main sets up, over what the static variables held before.
unfoldable pub boot_security : List ℕ → List ℕ → Security
boot_security ro_text rw_text = usm_stub_init (
    community_init ro_text rw_text
      (record { slots = []; communities = record { ro = []; rw = [] } }))

boot_security-IsBounded :
    (ro_text rw_text : List ℕ)
    → All (λ (slot : Slot). IsBounded slot.model) (boot_security ro_text rw_text).slots
unfolding boot_security security_register overwrite usm_stub_init community_init
boot_security-IsBounded ro_text rw_text =
    (community_model-IsBounded, (community_model-IsBounded, (usm_stub_model-IsBounded, tt)))

module _ {H : Type 0} (hal : Hal H)
    (bounded : (h : H) → hal.sensor_count h ≤ sensor_max_count) where
  firmware-IsKept : IsKept (firmware hal) IsValid
  firmware-IsKept = record {
    sorted = firmware-AllSorted hal;
    tables = λ d v. firmware-IsTable hal d;
    gets = λ d r vb v m.
        resolved_get-Gets (λ d vb out. IsValid d → IsValid out.2) (firmware hal)
          (AllGet-IsValid hal bounded) d r m d vb v;
    sets = λ d r vb v m.
        resolved_set-Sets (λ d vb out. IsValid d → IsValid out.1) (firmware hal)
          (AllSet-IsValid hal bounded) d r m d vb v;
  }

module _ {H Peer : Type 0} (hal : Hal H) (hardware : H) (ro_text rw_text : List ℕ) where
  -- The runs of the agent: the device that is reached, and what was sent. Between the rounds of the
  -- loop, drivers and clocks may do anything.
  pub data Runs : Device H → List (Peer × List ℕ) → Type 0 where
    boot : Runs (register_all hal hardware).1 []
    elapse :
        {d : Device H} {sent : List (Peer × List ℕ)} (h : H)
        → Runs d sent
        → Runs (record d { hardware = h }) sent
    serve :
        {d : Device H} {sent : List (Peer × List ℕ)} (event : Received Peer)
        → Runs d sent
        → Runs (udp_round (register_all hal hardware).0 (boot_security ro_text rw_text) event d).1 (
            sent
            ++ (udp_round (register_all hal hardware).0 (boot_security ro_text rw_text) event d).0)

  -- A datagram that is sent has at least one byte, and fits the buffer.
  abbrev pub Fits : Peer × List ℕ → Type 0
  Fits p = (1 ≤ length p.1) × (length p.1 ≤ snmp_max_packet_len)

  module _ (bounded : (h : H) → hal.sensor_count h ≤ sensor_max_count) where
    round-keeps :
        (event : Received Peer) (d : Device H)
        → IsValid d
        → IsValid (udp_round (firmware hal) (boot_security ro_text rw_text) event d).1
          × All Fits (udp_round (firmware hal) (boot_security ro_text rw_text) event d).0
    unfolding udp_round process_datagram
    round-keeps failed d v = (v, tt)
    round-keeps (datagram from bytes) d v =
        let msg = take snmp_max_packet_len bytes in
        let kept =
          message_process-keeps (firmware hal) IsValid (firmware-IsKept hal bounded)
            (boot_security ro_text rw_text) msg snmp_max_packet_len d v in
        let fits =
          message_process_bounds (firmware hal) (boot_security ro_text rw_text) msg
            snmp_max_packet_len d (boot_security-IsBounded ro_text rw_text) in
        elim (Bool-cases (length msg == 0)) [
          | inl nothing ↦ rw nothing (v, tt)
          | inr some ↦ rw some (kept, reply-FitsIn snmp_max_packet_len from _ fits)
        ]

    -- With drivers that keep to sensor.h, so that there are never more than SENSOR_MAX_COUNT sensors, in
    -- every state that a run from boot reaches, whatever is received and whatever else the drivers do in
    -- between: each text leaves room for its NUL, there is a label and a uint64_t counter for each sensor
    -- that there can be, no access to either was outside of its array, and every datagram that was sent
    -- has at least one byte and no more than SNMP_MAX_PACKET_LEN.
    pub Runs-IsValid :
        {d : Device H} {sent : List (Peer × List ℕ)} → Runs d sent → IsValid d × All Fits sent
    Runs-IsValid boot = (register_all-IsValid hal hardware, tt)
    Runs-IsValid (elapse h runs) = let (v, fits) = Runs-IsValid runs in (ground arith, fits)
    Runs-IsValid (serve {d} {sent} event runs) =
        let (v, fits) = Runs-IsValid runs in
        let (v', fits') = round-keeps event d v in
        rw (register_all-firmware hal hardware) (
          v',
          All-append Fits sent (udp_round (firmware hal) (boot_security ro_text rw_text) event d).0
              fits fits',
        )
