-- ===== src/Checks/Snmp.antt =====
-- firmware/components/snmp_core on a small agent.
use wespe.Snmp.Trap.{trap_build, build_v1_trap, encode_envelope, sent, specific_trap}
use wespe.Snmp.Trap.Bounds.{BuiltWithin, trap_build_bounds}
use wespe.Snmp.Codec.{
  encode_v1_trap_pdu, encode_varbinds, encode_varbind, encode_value, decode_varbinds,
  decode_varbind, decode_value, encode_varbind_list, encode_response_shaped_pdu,
  decode_varbind_list, decode_request_pdu,
}
use wespe.Ber.Encode.{
  encode_unsigned_tagged, trim_unsigned, fresh, encode_octet_string, encode_oid, encode_integer,
  trim_signed, prepend_arcs, arc_groups, more_groups, prepend_each, prepend_tlv_header,
  prepend_length, prepend_byte, prepend_bytes, container_header,
}
use wespe.Prelude.{c_string, ℕ, ◌≡◌, inl, inr, refl, arith, some, List, [], ◌∷◌, ◌++◌, zero, suc}
use wespe.Ber.Types.{pdu_get_bulk_request, tag_integer}
use wespe.Ber.Decode.{
  decode_tlv, decode_element, decode_length, decode_integer_field, expect_tag, decode_integer,
  fold_bytes, sign_fill, shift_in, decode_null, decode_oid, decode_oid_content, decode_arcs,
  decode_octet_string,
}
use wespe.Mib.Registry.{
  registry_find_next, find_next_from, upper_bound, registry_find, find_in, find_loop,
}
use wespe.Mib.Next.{nearer}
use wespe.Mib.Oid.{oid_compare}
use wespe.Mib.Tables.{
  table_find_next, scan_columns, scan_rows, cell_oid, populate_cell, populate_scalar, row_fuel,
}
use wespe.Mib.Resolve.{
  registry_resolve_next, resolve_next_from, target_get, registry_resolve, resolved_get,
}
use wespe.Snmp.Read.{
  lookup_loop, resolve, handle_get, read_v2c, LookupMode, process_read_pdu, lookup_and_fetch,
}
use wespe.Snmp.Security.{
  same_text, access_of, usm_stub_init, community_init, overwrite, lookup_slot, authorize,
  security_lookup, security_register, community_incoming, community_outgoing,
}
use wespe.Checks.Fixtures.{
  entry, descr, relay, interfaces, index_column, type_column, relay_oid, relay_vb, agent,
  agent-AllSorted, interfaces-IsTable, public_text, models,
}
use wespe.Snmp.Message.{answer, send, receive, accept, sniff_version, message_process}
use wespe.Snmp.Dispatch.{dispatch_pdu}
use wespe.Snmp.Errors.{error_translate, translate_v2c, translate_v1}
use wespe.Mib.Types.{MibResult, Varbind, zeroed, Column}
use wespe.Snmp.Types.{Version, Ctx}
use wespe.Snmp.Read.Response.{IsReadResponse, process_read_pdu-IsReadResponse}
use wespe.Snmp.Read.Walk.{KeepsOid, Follows, lookup_and_fetch-Follows}
use wespe.Snmp.Bulk.{handle_getbulk}
use wespe.Snmp.Bulk.InPlace.{handle_getbulk_in_place}
use wespe.Snmp.Bulk.Overwrite.{handle_getbulk-InPlace}
use wespe.Snmp.Bulk.Bounds.{IsBulkResponse, handle_getbulk-IsBulkResponse}
use wespe.Snmp.Write.{handle_set}
use wespe.Snmp.Write.Set.{SetOutcome, handle_set-SetOutcome}
use wespe.Checks.Wire.{set_request}

-- The handlers on the request.
handle_set-SetOutcome_example : SetOutcome agent set_request 0 (handle_set agent set_request 0)
handle_set-SetOutcome_example = handle_set-SetOutcome agent set_request 0

-- One non-repeater, and one repeater.
abbrev bulk_request : Ctx
bulk_request = record set_request {
  pdu_tag = pdu_get_bulk_request;
  error_status = 1;
  error_index = 10;
  varbinds = relay_vb ∷ relay_vb ∷ [];
}

-- What stands in the entries that are not of the request.
abbrev stale : ℕ → List Varbind
stale zero = []
stale (suc n) = record zeroed { value_tag = 77 } ∷ stale n

handle_getbulk-InPlace_example :
    handle_getbulk_in_place agent (stale 48) bulk_request 0 ≡ handle_getbulk agent bulk_request 0
handle_getbulk-InPlace_example = handle_getbulk-InPlace agent (stale 48) bulk_request 0 refl

handle_getbulk-IsBulkResponse_example :
    IsBulkResponse
      (record set_request { pdu_tag = pdu_get_bulk_request; error_index = 10 })
      (handle_getbulk agent
        (record set_request { pdu_tag = pdu_get_bulk_request; error_index = 10 })
        0)
handle_getbulk-IsBulkResponse_example =
    handle_getbulk-IsBulkResponse agent
      (record set_request { pdu_tag = pdu_get_bulk_request; error_index = 10 }) 0

process_read_pdu-IsReadResponse_example :
    IsReadResponse set_request (process_read_pdu agent LookupMode.exact set_request 0).0
process_read_pdu-IsReadResponse_example =
    process_read_pdu-IsReadResponse agent LookupMode.exact set_request 0

cell_keeps :
    (d d' i : ℕ) (col : Column) (vb vb' : Varbind)
    → resolved_get (populate_cell interfaces col i) d vb ≡ (MibResult.ok, vb', d')
    → vb'.oid ≡ vb.oid
unfolding resolved_get target_get populate_cell
cell_keeps d d' i col vb vb' e = ground arith

agent-KeepsOid : KeepsOid agent
unfolding resolved_get target_get populate_scalar populate_cell
agent-KeepsOid d d' r vb vb' (inl (o, inl (inl first), same)) e =
    let got : resolved_get (populate_scalar descr) d vb ≡ (MibResult.ok, vb', d') =
      rw (same, first) at e in
    ground (arith, got)
agent-KeepsOid d d' r vb vb' (inl (o, inr (inl (inl second)), same)) e =
    let got : resolved_get (populate_scalar relay) d vb ≡ (MibResult.ok, vb', d') =
      rw (same, second) at e in
    ground (arith, got)
agent-KeepsOid d d' r vb vb' (inl (o, inl (inr x), same)) e = absurd x
agent-KeepsOid d d' r vb vb' (inl (o, inr (inl (inr x)), same)) e = absurd x
agent-KeepsOid d d' r vb vb' (inl (o, inr (inr x), same)) e = absurd x
agent-KeepsOid d d' r vb vb' (inr (inl (inl (i, row, same)))) e =
    cell_keeps d d' i index_column vb vb' (rw same at e)
agent-KeepsOid d d' r vb vb' (inr (inl (inr (inl (i, row, same))))) e =
    cell_keeps d d' i type_column vb vb' (rw same at e)
agent-KeepsOid d d' r vb vb' (inr (inl (inr (inr x)))) e = absurd x
agent-KeepsOid d d' r vb vb' (inr (inr x)) e = absurd x

abbrev asked : Varbind
asked = record zeroed { oid = entry ++ (3 ∷ 2 ∷ []) }

abbrev fetched : Varbind
fetched = record zeroed { oid = relay_oid; value_tag = tag_integer; int_value = 1 }

fetched_run :
    lookup_and_fetch agent Version.v2c LookupMode.next asked zeroed 1 ≡ (MibResult.ok, fetched, 1)
unfolding lookup_and_fetch lookup_loop resolve resolved_get target_get registry_resolve_next
    resolve_next_from registry_find_next find_next_from upper_bound nearer oid_compare
    table_find_next scan_columns scan_rows cell_oid populate_cell populate_scalar row_fuel
fetched_run = refl

lookup_and_fetch-Follows_example : Follows agent 1 Version.v2c asked.oid fetched
lookup_and_fetch-Follows_example =
    lookup_and_fetch-Follows agent agent-KeepsOid 1 agent-AllSorted (interfaces-IsTable 1, tt)
      Version.v2c asked zeroed fetched 1 fetched_run

-- A GetRequest for the relay, which is on, from the datagram to its answer.
get_relay :
    message_process agent models
      (48 ∷ 38 ∷ 2 ∷ 1 ∷ 1 ∷ 4 ∷ 6 ∷ 112 ∷ 117 ∷ 98 ∷ 108 ∷ 105 ∷ 99 ∷ 160 ∷ 25 ∷ 2 ∷ 1 ∷ 7 ∷ 2 ∷ 1
        ∷ 0 ∷ 2 ∷ 1 ∷ 0 ∷ 48 ∷ 14 ∷ 48 ∷ 12 ∷ 6 ∷ 8 ∷ 43 ∷ 6 ∷ 1 ∷ 4 ∷ 1 ∷ 9 ∷ 1 ∷ 0 ∷ 5 ∷ 0 ∷ [])
      128
      1
    ≡ (
      48 ∷ 39 ∷ 2 ∷ 1 ∷ 1 ∷ 4 ∷ 6 ∷ 112 ∷ 117 ∷ 98 ∷ 108 ∷ 105 ∷ 99 ∷ 162 ∷ 26 ∷ 2 ∷ 1 ∷ 7 ∷ 2 ∷ 1
          ∷ 0 ∷ 2 ∷ 1 ∷ 0 ∷ 48 ∷ 15 ∷ 48 ∷ 13 ∷ 6 ∷ 8 ∷ 43 ∷ 6 ∷ 1 ∷ 4 ∷ 1 ∷ 9 ∷ 1 ∷ 0 ∷ 2 ∷ 1 ∷ 1
          ∷ [],
      1,
    )
unfolding message_process answer send receive accept sniff_version security_lookup lookup_slot
    usm_stub_init community_init security_register overwrite community_incoming authorize access_of
    same_text c_string decode_request_pdu decode_varbind_list decode_varbinds decode_varbind
    decode_value decode_null decode_oid decode_oid_content decode_arcs decode_octet_string
    decode_tlv decode_element decode_length decode_integer_field expect_tag decode_integer
    fold_bytes sign_fill shift_in dispatch_pdu handle_get process_read_pdu read_v2c lookup_and_fetch
    lookup_loop resolve registry_resolve registry_find find_in find_loop oid_compare resolved_get
    target_get populate_scalar error_translate translate_v2c translate_v1 community_outgoing fresh
    encode_octet_string encode_response_shaped_pdu encode_varbind_list encode_varbinds
    encode_varbind encode_value encode_oid encode_integer trim_signed prepend_arcs arc_groups
    more_groups prepend_each prepend_tlv_header prepend_length prepend_byte prepend_bytes
    container_header
get_relay = refl

trap_build_bounds_example :
    BuiltWithin 64 (trap_build Version.v2c public_text 100 relay_oid (10 ∷ 0 ∷ 0 ∷ 1 ∷ []) [] 64)
trap_build_bounds_example =
    trap_build_bounds Version.v2c public_text 100 relay_oid (10 ∷ 0 ∷ 0 ∷ 1 ∷ []) [] 64
      (omega arith)

-- The trap of SNMPv1 for the relay.
trap_run :
    trap_build Version.v1 public_text 100 relay_oid (10 ∷ 0 ∷ 0 ∷ 1 ∷ []) [] 64
    ≡ some (
        48 ∷ 40 ∷ 2 ∷ 1 ∷ 0 ∷ 4 ∷ 6 ∷ 112 ∷ 117 ∷ 98 ∷ 108 ∷ 105 ∷ 99 ∷ 164 ∷ 27 ∷ 6 ∷ 8 ∷ 43 ∷ 6
        ∷ 1 ∷ 4 ∷ 1 ∷ 9 ∷ 1 ∷ 0 ∷ 64 ∷ 4 ∷ 10 ∷ 0 ∷ 0 ∷ 1 ∷ 2 ∷ 1 ∷ 6 ∷ 2 ∷ 1 ∷ 0 ∷ 67 ∷ 1 ∷ 100
        ∷ 48 ∷ 0 ∷ [])
unfolding trap_build build_v1_trap encode_envelope sent specific_trap encode_v1_trap_pdu
    encode_unsigned_tagged trim_unsigned fresh encode_octet_string encode_varbind_list
    encode_varbinds encode_oid encode_integer trim_signed prepend_arcs arc_groups more_groups
    prepend_each prepend_tlv_header prepend_length prepend_byte prepend_bytes container_header
trap_run = refl
