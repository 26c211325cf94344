-- ===== src/Checks/Access.antt =====
-- Who may do what in firmware/components/snmp_core, on a SetRequest of a small agent.
use wespe.Prelude.{
  c_string, ℕ, ◌≤◌, ◌≡◌, ◌≢◌, drop, inl, inr, refl, arith, false, some, List, [], ◌∷◌, length, All,
  if◌then◌else◌, ◌==◌,
}
use wespe.Ber.Types.{Tlv, tag_sequence, tag_octet_string, pdu_set_request, ok}
use wespe.Ber.Decode.{
  decode_tlv, decode_element, decode_length, decode_integer_field, expect_tag, decode_integer,
  fold_bytes, sign_fill, shift_in, decode_octet_string,
}
use wespe.Snmp.Security.{
  same_text, usm_stub_init, community_init, overwrite, lookup_slot, security_lookup,
  security_register, community_model, usm_stub_model, community_incoming,
}
use wespe.Snmp.Message.Bounds.{
  community_model-IsBounded, usm_stub_model-IsBounded, IsBounded, message_process_bounds,
}
use wespe.Checks.Fixtures.{agent, public_text, models}
use wespe.Snmp.Message.{sniff_version, message_process}
use wespe.Snmp.Types.{Ctx, zeroed_ctx}
use wespe.Snmp.Security.Community.{received, community_outgoing-ReadsBack}
use wespe.Snmp.Security.Models.{security_register-lookup}
use wespe.Snmp.Message.Credentials.{Credentials, same_text-other}
use wespe.Snmp.Message.Access.{
  IsAuthorized, community_incoming-IsAuthorized, message_process-dropped, message_process-read_only,
}
use wespe.Checks.Wire.{
  set_request, c_string-public_text, message, wire_request, message_run, public_access,
}

abbrev accepted : Ctx
accepted = received set_request wire_request models.communities

accepted_run : community_incoming models.communities message 0 zeroed_ctx ≡ ok accepted
accepted_run =
    community_outgoing-ReadsBack set_request wire_request models.communities 64 0 zeroed_ctx message
      (omega arith) (inl public_access) message_run

community_incoming-IsAuthorized_example : IsAuthorized models.communities 0 message accepted
community_incoming-IsAuthorized_example =
    community_incoming-IsAuthorized models.communities message 0 zeroed_ctx accepted accepted_run

community_of_v2c : security_lookup models 1 ≡ some community_model
unfolding security_lookup lookup_slot usm_stub_init community_init security_register overwrite
community_of_v2c = refl

not_same : same_text public_text models.communities.rw ≡ false
unfolding same_text usm_stub_init community_init security_register overwrite c_string
not_same = refl

not_private : c_string public_text ≢ models.communities.rw
not_private = rw c_string-public_text (same_text-other public_text models.communities.rw not_same)

abbrev request_pdu : Tlv
request_pdu = record {
  tag = pdu_set_request;
  value =
      2 ∷ 1 ∷ 7 ∷ 2 ∷ 1 ∷ 0 ∷ 2 ∷ 1 ∷ 0 ∷ 48 ∷ 15 ∷ 48 ∷ 13 ∷ 6 ∷ 8 ∷ 43 ∷ 6 ∷ 1 ∷ 4 ∷ 1 ∷ 9 ∷ 1 ∷ 0
      ∷ 2 ∷ 1 ∷ 1 ∷ [];
  next = [];
}

abbrev whole : Tlv
whole = record { tag = 48; value = drop 2 message; next = [] }

abbrev community_field : Tlv
community_field = record { tag = 4; value = public_text; next = drop 13 message }

whole_read : expect_tag 0 tag_sequence message ≡ ok whole
unfolding decode_tlv decode_element decode_length expect_tag
whole_read = refl

version_read : decode_integer_field 1 whole.value ≡ ok (1, drop 5 message)
unfolding decode_tlv decode_element decode_length decode_integer_field expect_tag decode_integer
    fold_bytes sign_fill shift_in
version_read = refl

field_read : expect_tag 1 tag_octet_string (drop 5 message) ≡ ok community_field
unfolding decode_tlv decode_element decode_length expect_tag
field_read = refl

community_read : decode_octet_string 31 community_field ≡ ok public_text
unfolding decode_octet_string
community_read = refl

abbrev request_head : Credentials 0 message
request_head = record {
  top = whole;
  version = 1;
  after = drop 5 message;
  field = community_field;
  community = public_text;
  is_sequence = whole_read;
  has_version = version_read;
  has_field = field_read;
  has_community = community_read;
}

pdu_read : decode_tlv 1 community_field.next ≡ ok request_pdu
unfolding decode_tlv decode_element decode_length
pdu_read = refl

message_process-read_only_example : message_process agent models message 64 0 ≡ ([], 0)
message_process-read_only_example =
    message_process-read_only agent models message 64 0 request_head request_pdu community_of_v2c
      pdu_read refl not_private

-- A message of SNMPv3, as far as it is looked at.
abbrev v3_message : List ℕ
v3_message = 48 ∷ 3 ∷ 2 ∷ 1 ∷ 3 ∷ []

v3_sniffed : sniff_version v3_message ≡ ok 3
unfolding sniff_version decode_tlv decode_element decode_length decode_integer_field expect_tag
    decode_integer fold_bytes sign_fill shift_in
v3_sniffed = refl

usm_of_v3 : security_lookup models 3 ≡ some usm_stub_model
unfolding security_lookup lookup_slot usm_stub_init community_init security_register overwrite
usm_of_v3 = refl

message_process-dropped_example : message_process agent models v3_message 64 0 ≡ ([], 0)
message_process-dropped_example =
    message_process-dropped agent models v3_message 64 3 0 v3_sniffed (inr usm_of_v3)

models-IsBounded : All (λ slot. IsBounded slot.model) models.slots
unfolding usm_stub_init community_init security_register overwrite
models-IsBounded =
    (community_model-IsBounded, (community_model-IsBounded, (usm_stub_model-IsBounded, tt)))

message_process_bounds_example : length (message_process agent models message 64 0).0 ≤ 64
message_process_bounds_example = message_process_bounds agent models message 64 0 models-IsBounded

registered :
    security_register 3 community_model models
    ≡ ((security_register 3 community_model models).0, ok tt)
unfolding security_register overwrite usm_stub_init community_init
registered = refl

security_register-lookup_example :
    security_lookup (security_register 3 community_model models).0 1
    ≡ (if 1 == 3 then some community_model else security_lookup models 1)
security_register-lookup_example =
    security_register-lookup 3 community_model models (security_register 3 community_model models).0
      1 registered
