-- ===== src/Checks/Wire.antt =====
-- Requests on the wire, written and read back: firmware/components/snmp_core, on small inputs.
use wespe.Prelude.{c_string, ℕ, ◌≡◌, inl, inr, refl, arith, some, List, [], ◌∷◌}
use wespe.Ber.Types.{ok, pdu_set_request}
use wespe.Ber.Encode.{
  Scratch, fresh, encode_octet_string, encode_oid, encode_integer, trim_signed, prepend_arcs,
  arc_groups, more_groups, prepend_each, prepend_tlv_header, prepend_length, prepend_byte,
  prepend_bytes, container_header,
}
use wespe.Snmp.Types.{max_varbinds, Version, AccessMode, Ctx, zeroed_ctx}
use wespe.Snmp.Codec.{
  encode_varbinds, encode_varbind, encode_value, encode_varbind_list, encode_response_shaped_pdu,
  decode_varbind_list, decode_request_pdu,
}
use wespe.Snmp.Security.{
  same_text, access_of, usm_stub_init, community_init, overwrite, lookup_slot, security_lookup,
  security_register, community_model, community_incoming, community_outgoing,
}
use wespe.Snmp.Message.{send, message_process}
use wespe.Snmp.Dispatch.{dispatch_pdu}
use wespe.Snmp.Codec.Values.{WireOid, WireValue, wire_oid}
use wespe.Snmp.Codec.Varbinds.{WireVarbinds, no_more, more, encode_varbind_list-ReadsBack}
use wespe.Snmp.Codec.Pdus.{encode_pdu-ReadsBack}
use wespe.Snmp.Security.Community.{WireRequest, received, community_outgoing-ReadsBack}
use wespe.Checks.Fixtures.{relay_oid, relay_vb, agent, public_text, models}
use wespe.Snmp.Message.Exchange.{message_process-exchange}

-- A SetRequest of SNMPv2c that switches the relay on.
abbrev pub set_request : Ctx
set_request = record zeroed_ctx {
  version = Version.v2c;
  pdu_tag = pdu_set_request;
  request_id = 7;
  varbinds = relay_vb ∷ [];
  access_mode = AccessMode.readwrite;
  principal = public_text;
}

pub relay_WireOid : WireOid relay_oid
relay_WireOid =
    wire_oid 1 3 (6 ∷ 1 ∷ 4 ∷ 1 ∷ 9 ∷ 1 ∷ 0 ∷ []) refl (omega arith) (omega arith) (omega arith)
      (omega arith)

abbrev pub relay_wire : WireVarbinds (relay_vb ∷ [])
relay_wire =
    more (record { name = relay_WireOid; value = WireValue.integer refl (omega arith) }) no_more

abbrev list_written : Scratch
list_written = record {
  cursor = 47;
  written = 48 ∷ 15 ∷ 48 ∷ 13 ∷ 6 ∷ 8 ∷ 43 ∷ 6 ∷ 1 ∷ 4 ∷ 1 ∷ 9 ∷ 1 ∷ 0 ∷ 2 ∷ 1 ∷ 1 ∷ [];
}

list_run :
    encode_varbind_list (relay_vb ∷ []) (record { cursor = 64; written = [] }) ≡ ok list_written
unfolding encode_varbind_list encode_varbinds encode_varbind encode_value encode_oid encode_integer
    trim_signed prepend_arcs arc_groups more_groups prepend_each prepend_tlv_header prepend_length
    prepend_byte prepend_bytes container_header
list_run = refl

encode_varbind_list-ReadsBack_example :
    decode_varbind_list 2 max_varbinds list_written.written ≡ ok (relay_vb ∷ [])
encode_varbind_list-ReadsBack_example =
    encode_varbind_list-ReadsBack 2 (relay_vb ∷ []) relay_wire
      (record { cursor = 64; written = [] }) list_written (omega arith) (omega arith) list_run

abbrev pdu_written : Scratch
pdu_written = record {
  cursor = 36;
  written =
      163 ∷ 26 ∷ 2 ∷ 1 ∷ 7 ∷ 2 ∷ 1 ∷ 0 ∷ 2 ∷ 1 ∷ 0 ∷ 48 ∷ 15 ∷ 48 ∷ 13 ∷ 6 ∷ 8 ∷ 43 ∷ 6 ∷ 1 ∷ 4 ∷ 1
      ∷ 9 ∷ 1 ∷ 0 ∷ 2 ∷ 1 ∷ 1 ∷ [];
}

pdu_run :
    encode_response_shaped_pdu pdu_set_request 7 0 0
      (relay_vb ∷ [])
      (record { cursor = 64; written = [] })
    ≡ ok pdu_written
unfolding encode_response_shaped_pdu encode_varbind_list encode_varbinds encode_varbind encode_value
    encode_oid encode_integer trim_signed prepend_arcs arc_groups more_groups prepend_each
    prepend_tlv_header prepend_length prepend_byte prepend_bytes container_header
pdu_run = refl

encode_pdu-ReadsBack_example :
    decode_request_pdu 1 pdu_written.written zeroed_ctx
    ≡ ok (record zeroed_ctx { pdu_tag = pdu_set_request; request_id = 7; varbinds = relay_vb ∷ [] })
encode_pdu-ReadsBack_example =
    encode_pdu-ReadsBack 1 pdu_set_request 7 0 0 (relay_vb ∷ []) relay_wire
      (record { cursor = 64; written = [] }) pdu_written zeroed_ctx (omega arith) refl (omega arith)
      (omega arith) (omega arith) (omega arith) pdu_run

abbrev pub message : List ℕ
message =
    48 ∷ 39 ∷ 2 ∷ 1 ∷ 1 ∷ 4 ∷ 6 ∷ 112 ∷ 117 ∷ 98 ∷ 108 ∷ 105 ∷ 99 ∷ 163 ∷ 26 ∷ 2 ∷ 1 ∷ 7 ∷ 2 ∷ 1 ∷ 0
    ∷ 2 ∷ 1 ∷ 0 ∷ 48 ∷ 15 ∷ 48 ∷ 13 ∷ 6 ∷ 8 ∷ 43 ∷ 6 ∷ 1 ∷ 4 ∷ 1 ∷ 9 ∷ 1 ∷ 0 ∷ 2 ∷ 1 ∷ 1 ∷ []

pub message_run : community_outgoing set_request 64 ≡ ok message
unfolding community_outgoing fresh encode_octet_string encode_response_shaped_pdu
    encode_varbind_list encode_varbinds encode_varbind encode_value encode_oid encode_integer
    trim_signed prepend_arcs arc_groups more_groups prepend_each prepend_tlv_header prepend_length
    prepend_byte prepend_bytes container_header
message_run = refl

pub c_string-public_text : c_string public_text ≡ public_text
unfolding c_string
c_string-public_text = refl

abbrev pub wire_request : WireRequest set_request
wire_request = record {
  version_known = inr refl;
  tag_known = refl;
  id_fits = omega arith;
  status_fits = omega arith;
  index_fits = omega arith;
  varbinds_few = omega arith;
  varbinds_wire = relay_wire;
  principal_fits = omega arith;
  principal_text = c_string-public_text;
}

pub public_access : access_of models.communities public_text ≡ AccessMode.read
unfolding access_of same_text usm_stub_init community_init security_register overwrite c_string
public_access = refl

community_outgoing-ReadsBack_example :
    community_incoming models.communities message 0 zeroed_ctx
    ≡ ok (received set_request wire_request models.communities)
community_outgoing-ReadsBack_example =
    community_outgoing-ReadsBack set_request wire_request models.communities 64 0 zeroed_ctx message
      (omega arith) (inl public_access) message_run

community_of_v2c : security_lookup models 1 ≡ some community_model
unfolding security_lookup lookup_slot usm_stub_init community_init security_register overwrite
community_of_v2c = refl

message_process-exchange_example :
    message_process agent models message 64 0
    ≡ send community_model 64 0
        (dispatch_pdu agent (received set_request wire_request models.communities) 0)
message_process-exchange_example =
    message_process-exchange set_request wire_request agent models 64 64 message 0 community_of_v2c
      (inl public_access) (omega arith) message_run
