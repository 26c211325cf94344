-- ===== src/Snmp/Trap/Bounds.antt =====
-- The size of a trap: firmware/components/snmp_core/snmp_pdu_trap.c.
use wespe.Prelude.{
  Option, none, ℕ, ◌+◌, ◌-◌, ◌≤◌, ◌≡◌, false, some, inl, inr, arith, Bool-cases, List, ltb, length,
}
use wespe.Ber.Types.{
  Result, ok, err, ◌>>=◌, Ensures, >>=-Ensures, tag_sequence, tag_ip_address, tag_timeticks,
  pdu_trap_v1, pdu_trap_v2, max_oid_len,
}
use wespe.Ber.Encode.{
  Scratch, fresh, prepend_bytes, prepend_tlv_header, container_header, encode_integer,
  encode_octet_string, encode_oid, encode_unsigned_tagged,
}
use wespe.Mib.Types.{Varbind}
use wespe.Snmp.Types.{Version, version_number, is_v2c, max_varbinds}
use wespe.Snmp.Codec.{encode_varbind_list, encode_v1_trap_pdu}
use wespe.Snmp.Codec.Room.{
  Fits, fresh-Fits, >>=-Fits, prepend_bytes-Fits, encode_integer-Fits, encode_octet_string-Fits,
  container_header-Fits, encode_oid-Fits, encode_unsigned_tagged-Fits, encode_varbind_list-Fits,
  encode_response_shaped_pdu-Fits,
}
use wespe.Snmp.Trap.{
  encode_envelope, sent, build_v2c_trap, specific_trap, build_v1_trap, trap_build,
}

abbrev Within : ℕ → List ℕ → Type 0
Within room bytes = length bytes ≤ room

envelope-Within :
    (version : Version) (community : List ℕ) (room : ℕ) (s : Scratch)
    → Fits room s
    → Ensures (Within room) (encode_envelope version community room s)
unfolding encode_envelope
envelope-Within version community room s h =
    let fits = Fits room in
    >>=-Ensures fits (Within room) (encode_octet_string community s) _
      (encode_octet_string-Fits room s h community)
      (λ s h.
        >>=-Ensures fits (Within room) (encode_integer (version_number version) s) _
          (encode_integer-Fits room s h (version_number version))
          (λ s h.
            >>=-Ensures fits (Within room) (container_header tag_sequence (room - s.cursor) s) _
              (container_header-Fits room s h tag_sequence (room - s.cursor))
              (λ s h. omega (arith, h))))

encode_v1_trap_pdu-Fits :
    (room : ℕ) (enterprise_oid agent_addr : List ℕ) (generic_trap specific time_stamp : ℕ)
    (vbs : List Varbind) (s : Scratch)
    → Fits room s
    → Ensures
        (Fits room)
        (encode_v1_trap_pdu enterprise_oid agent_addr generic_trap specific time_stamp vbs s)
unfolding encode_v1_trap_pdu container_header
encode_v1_trap_pdu-Fits room enterprise agent generic specific stamp vbs s h =
    >>=-Fits room (encode_varbind_list vbs s) _ (encode_varbind_list-Fits room vbs s h) (λ t h.
      >>=-Fits room (encode_unsigned_tagged tag_timeticks stamp t) _
        (encode_unsigned_tagged-Fits room t h tag_timeticks stamp)
        (λ t h.
          >>=-Fits room (encode_integer specific t) _ (encode_integer-Fits room t h specific)
            (λ t h.
              >>=-Fits room (encode_integer generic t) _ (encode_integer-Fits room t h generic)
                (λ t h.
                  >>=-Fits room (prepend_bytes agent t) _ (prepend_bytes-Fits room agent t h)
                    (λ t h.
                      >>=-Fits room (prepend_tlv_header tag_ip_address 4 t) _
                        (container_header-Fits room t h tag_ip_address 4)
                        (λ t h.
                          >>=-Fits room (encode_oid enterprise t) _
                            (encode_oid-Fits room enterprise t h)
                            (λ t h.
                              container_header-Fits room t h pdu_trap_v1
                                (s.cursor - t.cursor))))))))

sent-Within : (room : ℕ) (r : Result (List ℕ)) → Ensures (Within room) r → length (sent r) ≤ room
unfolding sent
sent-Within room (ok bytes) h = h
sent-Within room (err e) h = omega arith

enveloped :
    (version : Version) (community : List ℕ) (room : ℕ) (r : Result Scratch)
    → Ensures (Fits room) r
    → length (sent (r >>= encode_envelope version community room)) ≤ room
enveloped version community room r h =
    sent-Within room (r >>= encode_envelope version community room) (
      >>=-Ensures (Fits room) (Within room) r (encode_envelope version community room) h
        (envelope-Within version community room))

-- Built without running past an array, and within the buffer.
abbrev pub BuiltWithin : ℕ → Option (List ℕ) → Type 0
BuiltWithin room none = ⊥
BuiltWithin room (some packet) = length packet ≤ room

-- For a trap OID of at most BER_MAX_OID_LEN arcs, snmp_trap_build does not copy past oid_value,
-- and the trap it returns is no longer than its buffer, whatever its version, community, address,
-- varbinds and uptime are.
pub trap_build_bounds :
    (version : Version) (community : List ℕ) (uptime : ℕ) (trap_oid agent_addr : List ℕ)
    (extra : List Varbind) (room : ℕ)
    → length trap_oid ≤ max_oid_len
    → BuiltWithin room (trap_build version community uptime trap_oid agent_addr extra room)
unfolding trap_build build_v2c_trap build_v1_trap
trap_build_bounds version community uptime trap_oid agent_addr extra room h =
    let inside : ltb max_oid_len (length trap_oid) ≡ false = ground arith in
    elim (Bool-cases (is_v2c version)) [
      | inl v2c ↦ elim (Bool-cases (ltb max_varbinds (length extra + 2))) [
        | inl many ↦ rw (v2c, many) (omega arith)
        | inr few ↦
            rw (v2c, few, inside)
              (enveloped Version.v2c community room _ (
                encode_response_shaped_pdu-Fits room pdu_trap_v2 0 0 0 _ (fresh room)
                  (fresh-Fits room)))
      ]
      | inr v1 ↦ elim (Bool-cases (ltb max_varbinds (length extra))) [
        | inl many ↦ rw (v1, many) (omega arith)
        | inr few ↦
            rw (v1, few)
              (enveloped Version.v1 community room _ (
                encode_v1_trap_pdu-Fits room trap_oid agent_addr 6 (specific_trap trap_oid) uptime
                  extra (fresh room) (fresh-Fits room)))
      ]
    ]
