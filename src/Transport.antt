-- ===== src/Transport.antt =====
-- firmware/components/transport/snmp_udp.c. Sockets are lwIP's: what recvfrom brings comes as an
-- event, and what sendto is given is a result.
pub mod Replies
use wespe.Prelude.{
  ℕ, Bool, true, false, Option, none, some, List, [], ◌∷◌, ◌==◌, if◌then◌else◌, length, take,
}
use wespe.Mib.Registry.{Registry}
use wespe.Snmp.Security.{Security}
use wespe.Snmp.Message.{message_process}

abbrev pub snmp_max_packet_len : ℕ
snmp_max_packet_len = 1472

-- A return of recvfrom: an error, or a datagram and where it came from.
pub data Received (Peer : Type 0) : Type 0 where
  failed : Received Peer
  datagram : Peer → List ℕ → Received Peer

-- What a round sends, if anything.
abbrev pub reply : {Peer : Type 0} → Peer → List ℕ → List (Peer × List ℕ)
reply from out = if length out == 0 then [] else (from, out) ∷ []

module _ {D Peer : Type 0} (reg : Registry D) (sec : Security) where
  -- The buffer holds the first SNMP_MAX_PACKET_LEN bytes of a datagram.
  unfoldable pub process_datagram : Peer → List ℕ → D → List (Peer × List ℕ) × D
  process_datagram from bytes d =
      let (out, d') = message_process reg sec bytes snmp_max_packet_len d in
      if length bytes == 0 then ([], d) else (reply from out, d')

  -- One round of the loop of snmp_udp_task.
  unfoldable pub udp_round : Received Peer → D → List (Peer × List ℕ) × D
  unfolding process_datagram
  udp_round failed d = ([], d)
  udp_round (datagram from bytes) d = process_datagram from (take snmp_max_packet_len bytes) d

-- s_trap_socket and s_trap_dest, each `none` where it is not valid.
pub record TrapSender (Socket Address : Type 0) : Type 0 where
  pub trap_socket : Option Socket
  pub trap_dest : Option Address

module _ {Socket Address : Type 0} where
  abbrev pub no_traps : TrapSender Socket Address
  no_traps = record { trap_socket = none; trap_dest = none }

  -- `parsed` is what inet_pton makes of the text; 0 is `true`.
  unfoldable pub set_trap_destination :
      Option Address → TrapSender Socket Address → Bool × TrapSender Socket Address
  set_trap_destination none t = (false, record t { trap_dest = none })
  set_trap_destination (some address) t = (true, record t { trap_dest = some address })

  -- The sendto of snmp_transport_send_trap, which returns the number of bytes, or fails.
  abbrev pub sent_whole : (Socket → Address → List ℕ → Option ℕ) → Socket → Address → List ℕ → Bool
  sent_whole sendto socket dest packet = elim (sendto socket dest packet) [
    | none ↦ false
    | some n ↦ n == length packet
  ]

  -- `opened` is what socket() returns, if it is called. The result comes with the sender's state and
  -- with what sendto is given.
  unfoldable pub send_trap :
      (Socket → Address → List ℕ → Option ℕ)
      → Option Socket
      → List ℕ
      → TrapSender Socket Address
      → Bool × TrapSender Socket Address × List (Address × List ℕ)
  send_trap sendto opened packet t = elim t.trap_dest [
    | none ↦ (false, t, [])
    | some dest ↦ elim t.trap_socket [
      | some socket ↦ (sent_whole sendto socket dest packet, t, (dest, packet) ∷ [])
      | none ↦ elim opened [
        | none ↦ (false, t, [])
        | some socket ↦ (
          sent_whole sendto socket dest packet,
          record t { trap_socket = some socket },
          (dest, packet) ∷ [],
        )
      ]
    ]
  ]
