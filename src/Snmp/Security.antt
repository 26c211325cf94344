-- ===== src/Snmp/Security.antt =====
-- The security models of firmware/components/snmp_core: the registration table (snmp_security.c), the
-- communities of v1 and v2c (snmp_security_community.c) and the stand-in for v3
-- (snmp_security_usm_stub.c).
pub mod Community
pub mod Models
pub mod Bounds
use wespe.Prelude.{
  c_string, ℕ, zero, suc, ◌+◌, ◌-◌, Bool, true, false, Option, none, some, List, [], ◌∷◌, ◌++◌, ltb,
  leb, ◌==◌, if◌then◌else◌, length, take,
}
use wespe.Ber.Types.{
  Result, ok, err, ◌>>=◌, ◌>>◌, overflow, bad_args, tag_octet_string, tag_sequence, tag_integer,
}
use wespe.Ber.Decode.{expect_tag, decode_integer_field, decode_octet_string}
use wespe.Ber.Encode.{Scratch, fresh, encode_octet_string, encode_integer, container_header}
use wespe.Snmp.Types.{Version, version_number, AccessMode, Ctx, max_principal_len}
use wespe.Snmp.Codec.{encode_response_shaped_pdu, decode_request_pdu}

-- `strcmp(a, b) == 0`, on texts.
unfoldable pub same_text : List ℕ → List ℕ → Bool
same_text [] [] = true
same_text [] (b ∷ bs) = false
same_text (a ∷ xs) [] = false
same_text (a ∷ xs) (b ∷ bs) = let rest = same_text xs bs in if a == b then rest else false

-- s_ro_community and s_rw_community, as texts.
pub record Communities : Type 0 where
  pub ro : List ℕ
  pub rw : List ℕ

-- snmp_security_model_t. The functions read the communities, which are static variables.
pub record Model : Type 0 where
  pub process_incoming : Communities → List ℕ → ℕ → Ctx → Result Ctx
  pub prepare_outgoing : Ctx → ℕ → Result (List ℕ)

-- security_slot_t; a msgVersion is the bit pattern of an int32_t.
pub record Slot : Type 0 where
  pub version : ℕ
  pub model : Model

pub record Security : Type 0 where
  pub slots : List Slot
  pub communities : Communities

abbrev pub security_max_models : ℕ
security_max_models = 4

-- snmp_security_reset; the communities stay.
unfoldable pub security_reset : Security → Security
security_reset sec = record sec { slots = [] }

-- The loop that overwrites a slot of the version; `none` if there is none.
unfoldable pub overwrite : ℕ → Model → List Slot → Option (List Slot)
overwrite version model [] = none
overwrite version model (slot ∷ slots) =
    let others : Option (List Slot) = elim (overwrite version model slots) [
      | none ↦ none
      | some rest ↦ some (slot ∷ rest)
    ] in
    if slot.version == version then some (record slot { model = model } ∷ slots) else others

unfoldable pub security_register : ℕ → Model → Security → Security × Result (Unit {0})
security_register version model sec = elim (overwrite version model sec.slots) [
  | some slots ↦ (record sec { slots = slots }, ok tt)
  | none ↦ if leb security_max_models (length sec.slots) then (sec, err overflow) else (
    record sec { slots = sec.slots ++ (record { version = version; model = model } ∷ []) },
    ok tt,
  )
]

unfoldable pub lookup_slot : List Slot → ℕ → Option Model
lookup_slot [] version = none
lookup_slot (slot ∷ slots) version =
    let others = lookup_slot slots version in
    if slot.version == version then some slot.model else others

unfoldable pub security_lookup : Security → ℕ → Option Model
unfolding lookup_slot
security_lookup sec version = lookup_slot sec.slots version

-- What a community is allowed to do.
unfoldable pub access_of : Communities → List ℕ → AccessMode
access_of comms text =
    if same_text text comms.rw
    then AccessMode.readwrite
    else if same_text text comms.ro
    then AccessMode.read
    else AccessMode.none

-- The end of process_incoming, once the community is read: `p` is what follows it.
unfoldable pub authorize : Communities → ℕ → ℕ → List ℕ → List ℕ → Ctx → Result Ctx
authorize comms level version_raw community p ctx =
    let text = c_string community in
    let version = if version_raw == version_number Version.v2c then Version.v2c else Version.v1 in
    elim (access_of comms text) [
      | AccessMode.none ↦ err bad_args
      | AccessMode.read ↦
          decode_request_pdu (level + 1) p
            (record ctx { version = version; principal = text; access_mode = AccessMode.read })
      | AccessMode.readwrite ↦
          decode_request_pdu (level + 1) p
            (record ctx { version = version; principal = text; access_mode = AccessMode.readwrite })
    ]

-- process_incoming of snmp_security_community.c.
unfoldable pub community_incoming : Communities → List ℕ → ℕ → Ctx → Result Ctx
community_incoming comms msg level ctx = do
  top ← expect_tag level tag_sequence msg
  (version_raw, p) ← decode_integer_field (level + 1) top.value
  community_tlv ← expect_tag (level + 1) tag_octet_string p
  community ← decode_octet_string (max_principal_len - 1) community_tlv
  authorize comms level version_raw community community_tlv.next ctx

-- prepare_outgoing of snmp_security_community.c: the datagram, moved to the front of `out`.
unfoldable pub community_outgoing : Ctx → ℕ → Result (List ℕ)
community_outgoing ctx cap = do
  s ←
      encode_response_shaped_pdu ctx.pdu_tag ctx.request_id ctx.error_status ctx.error_index
        ctx.varbinds (fresh cap)
  s ← encode_octet_string ctx.principal s
  s ← encode_integer (version_number ctx.version) s
  s ← container_header tag_sequence (cap - s.cursor) s
  ok s.written

abbrev pub community_model : Model
community_model = record {
  process_incoming = community_incoming;
  prepare_outgoing = community_outgoing;
}

-- snmp_security_community_init.
unfoldable pub community_init : List ℕ → List ℕ → Security → Security
community_init ro rw sec =
    let copy = λ (text : List ℕ). take (max_principal_len - 1) (c_string text) in
    let sec' = record sec { communities = record { ro = copy ro; rw = copy rw } } in
    let first = (security_register (version_number Version.v1) community_model sec').0 in
    (security_register (version_number Version.v2c) community_model first).0

-- process_incoming of snmp_security_usm_stub.c: whatever the message is, it is declined.
unfoldable pub usm_incoming : Communities → List ℕ → ℕ → Ctx → Result Ctx
usm_incoming comms msg level ctx = do
  top ← expect_tag level tag_sequence msg
  version_tlv ← expect_tag (level + 1) tag_integer top.value
  global_data ← expect_tag (level + 1) tag_sequence version_tlv.next
  err bad_args

unfoldable pub usm_outgoing : Ctx → ℕ → Result (List ℕ)
usm_outgoing ctx cap = err bad_args

abbrev pub usm_stub_model : Model
usm_stub_model = record { process_incoming = usm_incoming; prepare_outgoing = usm_outgoing }

unfoldable pub usm_stub_init : Security → Security
usm_stub_init sec = (security_register (version_number Version.v3) usm_stub_model sec).0
