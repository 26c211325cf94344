-- ===== src/Snmp/Trap.antt =====
-- firmware/components/snmp_core/snmp_pdu_trap.c. An empty list is the result 0.
pub mod Bounds
use wespe.Prelude.{Option, none, some, ℕ, ◌+◌, ◌-◌, List, [], ◌∷◌, ◌++◌, ltb, if◌then◌else◌, length}
use wespe.Ber.Types.{
  Result, ok, err, ◌>>=◌, tag_oid, tag_timeticks, tag_sequence, pdu_trap_v2, max_oid_len,
}
use wespe.Ber.Encode.{Scratch, fresh, encode_octet_string, encode_integer, container_header}
use wespe.Mib.Types.{Varbind, zeroed}
use wespe.Snmp.Types.{Version, version_number, is_v2c, max_varbinds}
use wespe.Snmp.Codec.{encode_response_shaped_pdu, encode_v1_trap_pdu}

-- snmpTrapOID.0 and sysUpTime.0
abbrev pub oid_snmp_trap_oid : List ℕ
oid_snmp_trap_oid = 1 ∷ 3 ∷ 6 ∷ 1 ∷ 6 ∷ 3 ∷ 1 ∷ 1 ∷ 4 ∷ 1 ∷ 0 ∷ []

abbrev pub oid_sys_uptime : List ℕ
oid_sys_uptime = 1 ∷ 3 ∷ 6 ∷ 1 ∷ 2 ∷ 1 ∷ 1 ∷ 3 ∷ 0 ∷ []

-- encode_envelope_and_finish, with the community as a text.
unfoldable pub encode_envelope : Version → List ℕ → ℕ → Scratch → Result (List ℕ)
encode_envelope version community room s = do
  s ← encode_octet_string community s
  s ← encode_integer (version_number version) s
  s ← container_header tag_sequence (room - s.cursor) s
  ok s.written

-- The datagram, or nothing on an error.
unfoldable pub sent : Result (List ℕ) → List ℕ
sent (ok bytes) = bytes
sent (err e) = []

abbrev uptime_vb : ℕ → Varbind
uptime_vb uptime = record zeroed {
  oid = oid_sys_uptime;
  value_tag = tag_timeticks;
  int_value = uptime;
}

abbrev trap_oid_vb : List ℕ → Varbind
trap_oid_vb trap_oid = record zeroed {
  oid = oid_snmp_trap_oid;
  value_tag = tag_oid;
  oid_value = trap_oid;
}

-- `none` is where the trap's OID is copied past the end of `oid_value`, which has BER_MAX_OID_LEN
-- entries: the code does not look at its length.
unfoldable pub build_v2c_trap : List ℕ → ℕ → List ℕ → List Varbind → ℕ → Option (List ℕ)
build_v2c_trap community uptime trap_oid extra room =
    if ltb max_varbinds (length extra + 2)
    then some []
    else if ltb max_oid_len (length trap_oid)
    then none
    else some (
        sent (
          encode_response_shaped_pdu pdu_trap_v2 0 0 0
            (uptime_vb uptime ∷ trap_oid_vb trap_oid ∷ extra) (fresh room)
          >>= encode_envelope Version.v2c community room))

-- The last arc, as the bit pattern of an int32_t; 0 for an empty OID.
unfoldable pub specific_trap : List ℕ → ℕ
specific_trap [] = 0
specific_trap (arc ∷ []) = arc
specific_trap (arc ∷ next ∷ arcs) = specific_trap (next ∷ arcs)

unfoldable pub build_v1_trap : List ℕ → ℕ → List ℕ → List ℕ → List Varbind → ℕ → List ℕ
build_v1_trap community uptime trap_oid agent_addr extra room =
    if ltb max_varbinds (length extra)
    then []
    else sent (
        encode_v1_trap_pdu trap_oid agent_addr 6 (specific_trap trap_oid) uptime extra (fresh room)
        >>= encode_envelope Version.v1 community room)

-- snmp_trap_build; `none` as in build_v2c_trap.
unfoldable pub trap_build :
    Version → List ℕ → ℕ → List ℕ → List ℕ → List Varbind → ℕ → Option (List ℕ)
trap_build version community uptime trap_oid agent_addr extra room =
    if is_v2c version
    then build_v2c_trap community uptime trap_oid extra room
    else some (build_v1_trap community uptime trap_oid agent_addr extra room)
