-- ===== src/Snmp/Security/Bounds.antt =====
-- A response of firmware/components/snmp_core/snmp_security_community.c fits the buffer.
use wespe.Prelude.{ℕ, ◌-◌, ◌≤◌, ◌≡◌, arith, List, length}
use wespe.Ber.Types.{ok, Ensures, >>=-Ensures, tag_sequence}
use wespe.Ber.Encode.{fresh, container_header, encode_integer, encode_octet_string}
use wespe.Snmp.Types.{Ctx, version_number}
use wespe.Snmp.Codec.Room.{
  Fits, fresh-Fits, encode_integer-Fits, encode_octet_string-Fits, container_header-Fits,
  encode_response_shaped_pdu-Fits,
}
use wespe.Snmp.Security.{community_outgoing}

abbrev Within : ℕ → List ℕ → Type 0
Within room bytes = length bytes ≤ room

outgoing-Within : (ctx : Ctx) (room : ℕ) → Ensures (Within room) (community_outgoing ctx room)
unfolding community_outgoing
outgoing-Within ctx room =
    let fits = Fits room in
    >>=-Ensures fits (Within room) _ _
      (encode_response_shaped_pdu-Fits room ctx.pdu_tag ctx.request_id ctx.error_status
        ctx.error_index ctx.varbinds (fresh room) (fresh-Fits room))
      (λ s h.
        >>=-Ensures fits (Within room) (encode_octet_string ctx.principal s) _
          (encode_octet_string-Fits room s h ctx.principal)
          (λ s h.
            >>=-Ensures fits (Within room) (encode_integer (version_number ctx.version) s) _
              (encode_integer-Fits room s h (version_number ctx.version))
              (λ s h.
                >>=-Ensures fits (Within room) (container_header tag_sequence (room - s.cursor) s) _
                  (container_header-Fits room s h tag_sequence (room - s.cursor))
                  (λ s h. omega (arith, h)))))

-- A datagram that prepare_outgoing returns is no longer than the buffer it was given, for any
-- context.
pub community_outgoing_bounds :
    (ctx : Ctx) (room : ℕ) (bytes : List ℕ)
    → community_outgoing ctx room ≡ ok bytes
    → length bytes ≤ room
community_outgoing_bounds ctx room bytes e = rw e at (outgoing-Within ctx room)
