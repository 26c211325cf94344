-- ===== src/Snmp/Codec/Values.antt =====
-- Values that fit the wire: what snmp_encode_value writes, and what snmp_decode_value makes of it.
use wespe.Prelude.{ℕ, ◌+◌, ◌≤◌, ◌<◌, ◌≡◌, ◌⊎◌, arith, List, [], ◌∷◌, length, All, IsU32, IsU64}
use wespe.Ber.Types.{
  ok, tag_integer, tag_octet_string, tag_null, tag_oid, tag_ip_address, tag_opaque, tag_counter64,
  tag_no_such_object, tag_no_such_instance, tag_end_of_mib_view, max_oid_len,
}
use wespe.Ber.Decode.{decode_octet_string, decode_null, decode_oid}
use wespe.Ber.Encode.{
  Scratch, prepend_bytes, raw32, raw64, trim_signed, trim_unsigned, encode_null, encode_oid,
  encode_null_tagged,
}
use wespe.Ber.Wire.{
  tlv_bytes, oid_content, encode_integer-bytes, encode_unsigned_tagged-bytes,
  encode_unsigned64_tagged-bytes, encode_octet_string-bytes, encode_null_tagged-bytes,
  encode_oid-bytes, prepend-tlv_bytes,
}
use wespe.Ber.Integers.{content_width, unsigned_width, unsigned64_width}
use wespe.Ber.ReadsBack.{
  IsUnsignedTag, decode_integer-content, decode_unsigned-content, decode_unsigned64-content,
}
use wespe.Ber.Oids.{decode_oid-content, length-arcs_bytes}
use wespe.Mib.Types.{Varbind, zeroed, max_octets_len}
use wespe.Snmp.Codec.{encode_value, decode_value}

-- An OID that survives the wire: two to BER_MAX_OID_LEN arcs, and first arcs that fit one byte.
pub data WireOid (oid : List ℕ) : Type 0 where
  wire_oid :
      (a b : ℕ) (arcs : List ℕ)
      → oid ≡ a ∷ b ∷ arcs
      → a ≤ 2
      → b < 40
      → All IsU32 arcs
      → 2 + length arcs ≤ max_oid_len
      → WireOid oid

abbrev pub oid_bytes : {oid : List ℕ} → WireOid oid → List ℕ
oid_bytes (wire_oid a b arcs e ha hb hs hl) = oid_content a b arcs

abbrev pub IsException : ℕ → Type 0
IsException tag =
    (tag ≡ tag_no_such_object) ⊎ ((tag ≡ tag_no_such_instance) ⊎ (tag ≡ tag_end_of_mib_view))

abbrev pub IsRaw : ℕ → Type 0
IsRaw tag = (tag ≡ tag_ip_address) ⊎ (tag ≡ tag_opaque)

-- The values that snmp_varbind_t can hold, by tag.
pub data WireValue (vb : Varbind) : Type 0 where
  integer : vb.value_tag ≡ tag_integer → IsU32 vb.int_value → WireValue vb
  octet_string : vb.value_tag ≡ tag_octet_string → length vb.octets ≤ max_octets_len → WireValue vb
  null : vb.value_tag ≡ tag_null → WireValue vb
  object_id : vb.value_tag ≡ tag_oid → WireOid vb.oid_value → WireValue vb
  unsigned : IsUnsignedTag vb.value_tag → IsU32 vb.int_value → WireValue vb
  counter64 : vb.value_tag ≡ tag_counter64 → IsU64 vb.counter64_value → WireValue vb
  raw : IsRaw vb.value_tag → length vb.octets ≤ max_octets_len → WireValue vb
  exception : IsException vb.value_tag → WireValue vb

abbrev pub value_content : (vb : Varbind) → WireValue vb → List ℕ
value_content vb (integer e h) = trim_signed (raw32 vb.int_value)
value_content vb (octet_string e h) = vb.octets
value_content vb (null e) = []
value_content vb (object_id e h) = oid_bytes h
value_content vb (unsigned e h) = trim_unsigned 0 (raw32 vb.int_value)
value_content vb (counter64 e h) = trim_unsigned 0 (raw64 vb.counter64_value)
value_content vb (raw e h) = vb.octets
value_content vb (exception e) = []

-- What is left of a varbind on the wire: its name, its tag, and the member that the tag selects.
abbrev pub on_wire : (vb : Varbind) → WireValue vb → Varbind
on_wire vb (integer e h) = record zeroed {
  oid = vb.oid;
  value_tag = vb.value_tag;
  int_value = vb.int_value;
}
on_wire vb (octet_string e h) = record zeroed {
  oid = vb.oid;
  value_tag = vb.value_tag;
  octets = vb.octets;
}
on_wire vb (null e) = record zeroed { oid = vb.oid; value_tag = vb.value_tag }
on_wire vb (object_id e h) = record zeroed {
  oid = vb.oid;
  value_tag = vb.value_tag;
  oid_value = vb.oid_value;
}
on_wire vb (unsigned e h) = record zeroed {
  oid = vb.oid;
  value_tag = vb.value_tag;
  int_value = vb.int_value;
}
on_wire vb (counter64 e h) = record zeroed {
  oid = vb.oid;
  value_tag = vb.value_tag;
  counter64_value = vb.counter64_value;
}
on_wire vb (raw e h) = record zeroed { oid = vb.oid; value_tag = vb.value_tag; octets = vb.octets }
on_wire vb (exception e) = record zeroed { oid = vb.oid; value_tag = vb.value_tag }

pub encode_oid-WireOid :
    (oid : List ℕ) (w : WireOid oid) (s : Scratch)
    → encode_oid oid s ≡ prepend_bytes (tlv_bytes tag_oid (oid_bytes w)) s
encode_oid-WireOid oid (wire_oid a b arcs e ha hb hs hl) s =
    rw e (encode_oid-bytes a b arcs s ha (λ _. hb))

pub decode_oid-WireOid :
    (oid : List ℕ) (w : WireOid oid) (rest : List ℕ)
    → decode_oid max_oid_len (record { tag = tag_oid; value = oid_bytes w; next = rest }) ≡ ok oid
decode_oid-WireOid oid (wire_oid a b arcs e ha hb hs hl) rest =
    rw e (decode_oid-content a b arcs ha hl rest hb hs)

pub length-oid_bytes : (oid : List ℕ) (w : WireOid oid) → length (oid_bytes w) ≤ 109
length-oid_bytes oid (wire_oid a b arcs e ha hb hs hl) =
    unfold oid_content in omega (arith, length-arcs_bytes arcs)

pub length-value_content : (vb : Varbind) (w : WireValue vb) → length (value_content vb w) ≤ 128
length-value_content vb (integer e h) = omega (arith, (content_width vb.int_value).1)
length-value_content vb (octet_string e h) = h
length-value_content vb (null e) = omega arith
length-value_content vb (object_id e h) = omega (arith, length-oid_bytes vb.oid_value h)
length-value_content vb (unsigned e h) = omega (arith, (unsigned_width vb.int_value).1)
length-value_content vb (counter64 e h) = omega (arith, (unsigned64_width vb.counter64_value).1)
length-value_content vb (raw e h) = h
length-value_content vb (exception e) = omega arith

-- Every such value is written as one element under its tag.
pub encode_value-bytes :
    (vb : Varbind) (w : WireValue vb) (s : Scratch)
    → encode_value vb s ≡ prepend_bytes (tlv_bytes vb.value_tag (value_content vb w)) s
unfolding encode_value encode_null encode_null_tagged
encode_value-bytes vb (integer e h) s = ground (arith, encode_integer-bytes vb.int_value s)
encode_value-bytes vb (octet_string e h) s = ground (arith, encode_octet_string-bytes vb.octets s)
encode_value-bytes vb (null e) s = ground (arith, encode_null_tagged-bytes tag_null s)
encode_value-bytes vb (object_id e h) s = ground (arith, encode_oid-WireOid vb.oid_value h s)
encode_value-bytes vb (unsigned e h) s =
    ground (arith, encode_unsigned_tagged-bytes vb.value_tag vb.int_value s)
encode_value-bytes vb (counter64 e h) s =
    ground (arith, encode_unsigned64_tagged-bytes vb.value_tag vb.counter64_value s)
encode_value-bytes vb (raw e h) s = ground (arith, prepend-tlv_bytes vb.value_tag vb.octets s)
encode_value-bytes vb (exception e) s = ground (arith, encode_null_tagged-bytes vb.value_tag s)

-- A content that was written is read back, into a varbind of zeros that has its OID.
pub decode_value-content :
    (vb : Varbind) (w : WireValue vb) (rest : List ℕ)
    → decode_value
        (record { tag = vb.value_tag; value = value_content vb w; next = rest })
        (record zeroed { oid = vb.oid })
      ≡ ok (on_wire vb w)
unfolding decode_value decode_octet_string decode_null
decode_value-content vb (integer e h) rest = rw (e, decode_integer-content vb.int_value rest h)
decode_value-content vb (octet_string e h) rest = ground arith
decode_value-content vb (null e) rest = rw e
decode_value-content vb (object_id e h) rest = rw (e, decode_oid-WireOid vb.oid_value h rest)
decode_value-content vb (unsigned e h) rest =
    ground (arith, decode_unsigned-content vb.value_tag vb.int_value rest e h)
decode_value-content vb (counter64 e h) rest =
    rw (e, decode_unsigned64-content vb.counter64_value rest h)
decode_value-content vb (raw e h) rest = ground arith
decode_value-content vb (exception e) rest = ground arith
