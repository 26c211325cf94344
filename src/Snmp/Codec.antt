-- ===== src/Snmp/Codec.antt =====
-- firmware/components/snmp_core/snmp_codec.c.
pub mod Values
pub mod Varbinds
pub mod Pdus
pub mod Room
pub mod Rounds
use wespe.Prelude.{
  ℕ, zero, suc, ◌+◌, ◌-◌, ◌%◌, ◌^◌, Bool, true, false, ◌||◌, not, List, [], ◌∷◌, ltb, ◌==◌,
  if◌then◌else◌, length,
}
use wespe.Ber.Types.{
  Result, ok, err, ◌>>=◌, ◌>>◌, truncated, bad_tag, bad_length, overflow, Tlv, tag_integer,
  tag_octet_string, tag_null, tag_oid, tag_sequence, tag_ip_address, tag_counter32, tag_gauge32,
  tag_timeticks, tag_opaque, tag_counter64, tag_no_such_object, tag_no_such_instance,
  tag_end_of_mib_view, pdu_get_request, pdu_get_next_request, pdu_set_request, pdu_trap_v1,
  pdu_get_bulk_request, max_oid_len,
}
use wespe.Ber.Decode.{
  decode_tlv, expect_tag, decode_integer, decode_integer_field, decode_unsigned, decode_unsigned64,
  decode_octet_string, decode_null, decode_oid,
}
use wespe.Ber.Encode.{
  Scratch, prepend_bytes, prepend_tlv_header, container_header, content_since, encode_integer,
  encode_unsigned_tagged, encode_unsigned64_tagged, encode_octet_string, encode_null,
  encode_null_tagged, encode_oid,
}
use wespe.Mib.Types.{Varbind, zeroed, max_octets_len}
use wespe.Snmp.Types.{Ctx, max_varbinds}

-- The groups of cases that share a branch.
abbrev pub is_unsigned_tag : ℕ → Bool
is_unsigned_tag tag = tag == tag_counter32 || tag == tag_gauge32 || tag == tag_timeticks

abbrev pub is_raw_tag : ℕ → Bool
is_raw_tag tag = tag == tag_ip_address || tag == tag_opaque

abbrev pub is_exception_tag : ℕ → Bool
is_exception_tag tag =
    tag == tag_no_such_object || tag == tag_no_such_instance || tag == tag_end_of_mib_view

unfoldable pub decode_value : Tlv → Varbind → Result Varbind
decode_value tlv old =
    let vb = record old { value_tag = tlv.tag } in
    if tlv.tag == tag_integer
    then (decode_integer tlv >>= λ v. ok (record vb { int_value = v }))
    else if tlv.tag == tag_octet_string
    then (decode_octet_string max_octets_len tlv >>= λ bytes. ok (record vb { octets = bytes }))
    else if tlv.tag == tag_null
    then (decode_null tlv >>= λ _. ok vb)
    else if tlv.tag == tag_oid
    then (decode_oid max_oid_len tlv >>= λ oid. ok (record vb { oid_value = oid }))
    else if is_unsigned_tag tlv.tag
    then (decode_unsigned tlv >>= λ v. ok (record vb { int_value = v }))
    else if tlv.tag == tag_counter64
    then (decode_unsigned64 tlv >>= λ v. ok (record vb { counter64_value = v }))
    else if is_raw_tag tlv.tag
    then if ltb max_octets_len (length tlv.value)
      then err overflow
      else ok (record vb { octets = tlv.value })
    else if is_exception_tag tlv.tag
    then if not (length tlv.value == 0) then err bad_length else ok vb
    else err bad_tag

unfoldable pub encode_value : Varbind → Scratch → Result Scratch
encode_value vb s =
    if vb.value_tag == tag_integer
    then encode_integer vb.int_value s
    else if vb.value_tag == tag_octet_string
    then encode_octet_string vb.octets s
    else if vb.value_tag == tag_null
    then encode_null s
    else if vb.value_tag == tag_oid
    then encode_oid vb.oid_value s
    else if is_unsigned_tag vb.value_tag
    then encode_unsigned_tagged vb.value_tag vb.int_value s
    else if vb.value_tag == tag_counter64
    then encode_unsigned64_tagged vb.value_tag vb.counter64_value s
    else if is_exception_tag vb.value_tag
    then encode_null_tagged vb.value_tag s
    else if is_raw_tag vb.value_tag
    then prepend_bytes vb.octets s >>= prepend_tlv_header vb.value_tag (length vb.octets)
    else err bad_tag

unfoldable pub encode_varbind : Varbind → Scratch → Result Scratch
encode_varbind vb start = do
  s ← encode_value vb start
  s' ← encode_oid vb.oid s
  container_header tag_sequence (content_since start s') s'

-- The loop of snmp_encode_varbind_list, the last varbind first.
unfoldable pub encode_varbinds : List Varbind → Scratch → Result Scratch
encode_varbinds [] s = ok s
encode_varbinds (vb ∷ vbs) s = encode_varbinds vbs s >>= encode_varbind vb

unfoldable pub encode_varbind_list : List Varbind → Scratch → Result Scratch
encode_varbind_list varbinds start = do
  s ← encode_varbinds varbinds start
  container_header tag_sequence (content_since start s) s

-- decode_varbind_from_seq_tlv, into a varbind of zeros. What follows the value in the SEQUENCE is
-- not looked at.
unfoldable pub decode_varbind : ℕ → Tlv → Result Varbind
decode_varbind level seq = do
  name ← expect_tag level tag_oid seq.value
  oid ← decode_oid max_oid_len name
  value ← decode_tlv level name.next
  decode_value value (record zeroed { oid = oid })

-- The loop of snmp_decode_varbind_list. Each round takes two bytes at least, so the number of bytes
-- is fuel enough; `room` is `out_cap - n`.
unfoldable pub decode_varbinds : ℕ → ℕ → ℕ → List ℕ → Result (List Varbind)
decode_varbinds fuel level room [] = ok []
decode_varbinds zero level room (b ∷ bs) = err truncated
decode_varbinds (suc fuel) level room (b ∷ bs) = do
  vb_seq ← expect_tag (level + 1) tag_sequence (b ∷ bs)
  if room == 0 then err overflow else do
    vb ← decode_varbind (level + 2) vb_seq
    rest ← decode_varbinds fuel level (room - 1) vb_seq.next
    ok (vb ∷ rest)

unfoldable pub decode_varbind_list : ℕ → ℕ → List ℕ → Result (List Varbind)
decode_varbind_list level out_cap buf = do
  list_seq ← expect_tag level tag_sequence buf
  decode_varbinds (length list_seq.value) level out_cap list_seq.value

unfoldable pub encode_response_shaped_pdu : ℕ → ℕ → ℕ → ℕ → List Varbind → Scratch → Result Scratch
encode_response_shaped_pdu pdu_tag request_id error_status error_index varbinds start = do
  s ← encode_varbind_list varbinds start
  s ← encode_integer error_index s
  s ← encode_integer error_status s
  s ← encode_integer request_id s
  container_header pdu_tag (content_since start s) s

abbrev pub is_request_tag : ℕ → Bool
is_request_tag tag =
    tag == pdu_get_request
    || tag == pdu_get_next_request
    || tag == pdu_set_request
    || tag == pdu_get_bulk_request

unfoldable pub decode_request_pdu : ℕ → List ℕ → Ctx → Result Ctx
decode_request_pdu level buf ctx = do
  pdu ← decode_tlv level buf
  if not (is_request_tag pdu.tag) then err bad_tag else do
    (request_id, p) ← decode_integer_field (level + 1) pdu.value
    (error_status, p) ← decode_integer_field (level + 1) p
    (error_index, p) ← decode_integer_field (level + 1) p
    varbinds ← decode_varbind_list (level + 1) max_varbinds p
    ok (record ctx {
      pdu_tag = pdu.tag;
      request_id = request_id;
      error_status = error_status;
      error_index = error_index;
      varbinds = varbinds;
    })

unfoldable pub encode_v1_trap_pdu :
    List ℕ → List ℕ → ℕ → ℕ → ℕ → List Varbind → Scratch → Result Scratch
encode_v1_trap_pdu enterprise_oid agent_addr generic_trap specific_trap time_stamp varbinds start =
    do
      s ← encode_varbind_list varbinds start
      s ← encode_unsigned_tagged tag_timeticks time_stamp s
      s ← encode_integer specific_trap s
      s ← encode_integer generic_trap s
      s ← prepend_bytes agent_addr s
      s ← prepend_tlv_header tag_ip_address 4 s
      s ← encode_oid enterprise_oid s
      container_header pdu_trap_v1 (content_since start s) s
