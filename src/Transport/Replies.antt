-- ===== src/Transport/Replies.antt =====
-- What a round of the loop sends: firmware/components/transport/snmp_udp.c.
use wespe.Prelude.{ℕ, suc, false, ◌≤◌, ◌≡◌, arith, ◌==◌, List, [], ◌∷◌, length, All}
use wespe.Transport.{reply}

module _ {Peer : Type 0} (cap : ℕ) where
  -- A datagram that has at least one byte, and fits the buffer.
  abbrev pub FitsIn : Peer × List ℕ → Type 0
  FitsIn p = (1 ≤ length p.1) × (length p.1 ≤ cap)

  pub reply-FitsIn : (from : Peer) (out : List ℕ) → length out ≤ cap → All FitsIn (reply from out)
  reply-FitsIn from [] h = tt
  reply-FitsIn from (b ∷ out) h = rw nonzero ((omega arith, h), tt)
    where
      nonzero : (suc (length out) == 0) ≡ false
      nonzero = ground arith
