-- ===== src/Snmp/Message/Exchange.antt =====
-- A whole exchange: firmware/components/snmp_core/snmp_message.c, with snmp_security_community.c and
-- snmp_dispatch.c.
use wespe.Prelude.{
  ℕ, ◌≤◌, ◌≡◌, refl, sym, arith, false, ◌||◌, ◌==◌, some, List, [], ◌++◌, append-nil, length,
}
use wespe.Ber.Types.{ok, tag_sequence, tag_octet_string}
use wespe.Ber.Wire.{tlv_bytes}
use wespe.Ber.Integers.{decode_tlv-tlv_bytes}
use wespe.Ber.ReadsBack.{decode_integer_field-content}
use wespe.Mib.Registry.{Registry}
use wespe.Snmp.Types.{Ctx, version_number, zeroed_ctx}
use wespe.Snmp.Dispatch.{dispatch_pdu}
use wespe.Snmp.Security.{Security, security_lookup, community_model, community_outgoing, access_of}
use wespe.Snmp.Security.Community.{
  WireRequest, MayRead, body, body_pdu, length-body, number_small, outgoing-body, received,
  community_outgoing-ReadsBack,
}
use wespe.Snmp.Codec.Varbinds.{length-tlv_bytes-pos}
use wespe.Snmp.Message.{sniff_version, accept, receive, send, answer, message_process}

module _ (ctx : Ctx) (w : WireRequest ctx) where
  sniff_version-body :
      sniff_version (tlv_bytes tag_sequence (body ctx w)) ≡ ok (version_number ctx.version)
  unfolding sniff_version
  sniff_version-body =
      let size = length-body ctx w in
      let principal = tlv_bytes tag_octet_string ctx.principal in
      rw
        (
          sym (append-nil (tlv_bytes tag_sequence (body ctx w))),
          decode_tlv-tlv_bytes 0 tag_sequence (body ctx w) [] (omega arith) (omega arith),
          decode_integer_field-content 1 (version_number ctx.version) (principal ++ body_pdu ctx w)
              (omega arith) (number_small ctx.version w.version_known),
        )
        refl

  -- A request that prepare_outgoing writes is handled by snmp_message_process exactly as the
  -- dispatcher handles the request that was written, with the access of its community and each
  -- varbind with the value its tag selects; what goes back is what prepare_outgoing writes for
  -- the response, and the device is left as the dispatcher leaves it. The request is of SNMPv1 or
  -- v2c, whose registered model is the community model, has one of the four request tags and
  -- three int32_t fields, at most SNMP_MAX_VARBINDS varbinds, all such as the wire can hold (an
  -- OID of two to BER_MAX_OID_LEN uint32_t arcs, the first at most 2 and the second below 40; a
  -- tag of snmp_varbind_t or an exception, with an integer of the width of its type, a string of
  -- at most SNMP_MAX_OCTETS_LEN bytes, or an OID within the same limits), and a community of at
  -- most 31 characters, without NUL, that is known; out_cap is not 0.
  pub message_process-exchange :
      {D : Type 0} (reg : Registry D) (sec : Security) (cap out_cap : ℕ) (bytes : List ℕ) (d : D)
      → security_lookup sec (version_number ctx.version) ≡ some community_model
      → MayRead (access_of sec.communities ctx.principal)
      → 1 ≤ out_cap
      → community_outgoing ctx cap ≡ ok bytes
      → message_process reg sec bytes out_cap d
        ≡ send community_model out_cap d (dispatch_pdu reg (received ctx w sec.communities) d)
  unfolding message_process answer receive accept
  message_process-exchange reg sec cap out_cap bytes d known may room e =
      let split = outgoing-body ctx w cap bytes e in
      let sniffed : sniff_version bytes ≡ ok (version_number ctx.version) =
        rw split sniff_version-body in
      let some_bytes : 1 ≤ length bytes =
        rw split (length-tlv_bytes-pos tag_sequence (body ctx w)) in
      let goes : (length bytes == 0 || out_cap == 0) ≡ false = ground arith in
      let read =
        community_outgoing-ReadsBack ctx w sec.communities cap 0 zeroed_ctx bytes (omega arith) may
          e in
      rw (goes, sniffed, known, read) refl
