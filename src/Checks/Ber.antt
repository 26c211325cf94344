-- ===== src/Checks/Ber.antt =====
-- The codec of firmware/components/ber on small inputs.
use wespe.Prelude.{ℕ, ◌≤◌, ◌≡◌, ◌≢◌, inr, refl, arith, List, [], ◌∷◌, ◌++◌, length, All, IsU32}
use wespe.Ber.Types.{ok, Tlv, tag_timeticks, tag_counter64, tag_oid, max_oid_len, max_nest_depth}
use wespe.Ber.Decode.{
  decode_tlv, decode_length, decode_element, decode_integer, decode_unsigned, decode_unsigned64,
  decode_oid_content, decode_oid, decode_arcs,
}
use wespe.Ber.Encode.{
  trim_signed, trim_unsigned, prepend_tlv_header, prepend_length, prepend_byte, prepend_bytes,
  prepend_each, prepend_arcs, arc_groups, more_groups, Scratch, encode_integer,
  encode_unsigned_tagged, encode_unsigned64_tagged, encode_oid,
}
use wespe.Ber.ReadsBack.{
  ReadsBack, encode_integer-ReadsBack, encode_unsigned_tagged-ReadsBack,
  encode_unsigned64_tagged-ReadsBack,
}
use wespe.Ber.Bounds.{decode_tlv_bounds, decode_oid_content_bounds}
use wespe.Ber.Oids.{encode_oid-ReadsBack, encode_oid_lossy}

abbrev empty : Scratch
empty = record { cursor = 16; written = [] }

-- -129 as an int32_t.
abbrev minus_129 : ℕ
minus_129 = 0xffffff7f

abbrev minus_129_written : Scratch
minus_129_written = record { cursor = 12; written = 2 ∷ 2 ∷ 255 ∷ 127 ∷ [] }

minus_129_run : encode_integer minus_129 empty ≡ ok minus_129_written
unfolding encode_integer trim_signed prepend_tlv_header prepend_length prepend_byte prepend_bytes
minus_129_run = refl

encode_integer-ReadsBack_example : ReadsBack decode_integer 3 (2 ∷ 2 ∷ 255 ∷ 127 ∷ []) 0xffffff7f []
encode_integer-ReadsBack_example =
    encode_integer-ReadsBack 3 minus_129 empty minus_129_written (omega arith) (omega arith)
      minus_129_run

-- 2^31, which takes a leading zero byte.
abbrev ticks_written : Scratch
ticks_written = record { cursor = 9; written = 0x43 ∷ 5 ∷ 0 ∷ 128 ∷ 0 ∷ 0 ∷ 0 ∷ [] }

ticks_run : encode_unsigned_tagged tag_timeticks 0x80000000 empty ≡ ok ticks_written
unfolding encode_unsigned_tagged trim_unsigned prepend_tlv_header prepend_length prepend_byte
    prepend_bytes
ticks_run = refl

encode_unsigned_tagged-ReadsBack_example :
    ReadsBack decode_unsigned 3 (0x43 ∷ 5 ∷ 0 ∷ 128 ∷ 0 ∷ 0 ∷ 0 ∷ []) 0x80000000 []
encode_unsigned_tagged-ReadsBack_example =
    encode_unsigned_tagged-ReadsBack 3 tag_timeticks 0x80000000 empty ticks_written (omega arith)
      (inr (inr refl)) (omega arith) ticks_run

abbrev octets_written : Scratch
octets_written = record { cursor = 11; written = 0x46 ∷ 3 ∷ 1 ∷ 0 ∷ 0 ∷ [] }

octets_run : encode_unsigned64_tagged tag_counter64 65536 empty ≡ ok octets_written
unfolding encode_unsigned64_tagged trim_unsigned prepend_tlv_header prepend_length prepend_byte
    prepend_bytes
octets_run = refl

encode_unsigned64_tagged-ReadsBack_example :
    ReadsBack decode_unsigned64 3 (0x46 ∷ 3 ∷ 1 ∷ 0 ∷ 0 ∷ []) 65536 []
encode_unsigned64_tagged-ReadsBack_example =
    encode_unsigned64_tagged-ReadsBack 3 65536 empty octets_written (omega arith) (omega arith)
      octets_run

-- 1.3.6.1.4.1.8072
abbrev net_snmp : List ℕ
net_snmp = 6 ∷ 1 ∷ 4 ∷ 1 ∷ 8072 ∷ []

abbrev net_snmp_bytes : List ℕ
net_snmp_bytes = 6 ∷ 7 ∷ 43 ∷ 6 ∷ 1 ∷ 4 ∷ 1 ∷ 191 ∷ 8 ∷ []

abbrev net_snmp_written : Scratch
net_snmp_written = record { cursor = 7; written = net_snmp_bytes }

net_snmp_run : encode_oid (1 ∷ 3 ∷ net_snmp) empty ≡ ok net_snmp_written
unfolding encode_oid prepend_arcs arc_groups more_groups prepend_each prepend_tlv_header
    prepend_length prepend_byte
net_snmp_run = refl

encode_oid-ReadsBack_example :
    ReadsBack (decode_oid max_oid_len) 4 net_snmp_bytes (1 ∷ 3 ∷ net_snmp) []
encode_oid-ReadsBack_example =
    encode_oid-ReadsBack 1 3 net_snmp (omega arith) (omega arith) 4 empty net_snmp_written
      (omega arith) (omega arith) (omega arith) net_snmp_run

-- 2.999, the OID that X.690 takes as its example: the first byte wraps to 55, which reads as 1.15.
abbrev example_written : Scratch
example_written = record { cursor = 13; written = 6 ∷ 1 ∷ 55 ∷ [] }

abbrev example_tlv : Tlv
example_tlv = record { tag = tag_oid; value = 55 ∷ []; next = [] }

example_run : encode_oid (2 ∷ 999 ∷ []) empty ≡ ok example_written
unfolding encode_oid prepend_arcs prepend_tlv_header prepend_length prepend_byte
example_run = refl

example_read : decode_tlv 4 example_written.written ≡ ok example_tlv
unfolding decode_tlv decode_element decode_length
example_read = refl

encode_oid_lossy_example : decode_oid max_oid_len example_tlv ≢ ok (2 ∷ 999 ∷ [])
encode_oid_lossy_example =
    encode_oid_lossy 999 [] empty example_written 4 example_tlv (omega arith) (omega arith)
      (omega arith) example_run example_read

-- A NULL with two bytes after it.
abbrev null_tlv : Tlv
null_tlv = record { tag = 5; value = []; next = 2 ∷ 1 ∷ [] }

null_run : decode_tlv 0 (5 ∷ 0 ∷ 2 ∷ 1 ∷ []) ≡ ok null_tlv
unfolding decode_tlv decode_element decode_length
null_run = refl

decode_tlv_bounds_example :
    (header : List ℕ) × ((5 ∷ 0 ∷ 2 ∷ 1 ∷ []) ≡ header ++ ([] ++ (2 ∷ 1 ∷ [])))
    × (2 ≤ length header)
    × (length header ≤ 6)
    × (0 ≤ max_nest_depth)
decode_tlv_bounds_example = decode_tlv_bounds 0 (5 ∷ 0 ∷ 2 ∷ 1 ∷ []) null_tlv null_run

abbrev enterprise : List ℕ
enterprise = 1 ∷ 3 ∷ 6 ∷ 8072 ∷ []

oid_run : decode_oid_content 20 (43 ∷ 6 ∷ 191 ∷ 8 ∷ []) ≡ ok enterprise
unfolding decode_oid_content decode_arcs
oid_run = refl

decode_oid_content_bounds_example :
    (2 ≤ length enterprise) × (length enterprise ≤ 20) × All IsU32 enterprise
decode_oid_content_bounds_example =
    decode_oid_content_bounds 20 (43 ∷ 6 ∷ 191 ∷ 8 ∷ []) enterprise (omega arith) oid_run
