-- ===== src/Snmp/Codec/Varbinds.antt =====
-- Lists of varbinds on the wire: snmp_encode_varbind_list against snmp_decode_varbind_list.
use wespe.Prelude.{
  false, ◌==◌, fun_ext, ℕ, zero, suc, ◌+◌, ◌-◌, ◌*◌, ◌≤◌, ◌≡◌, refl, sym, ◌∙◌, arith, List, [], ◌∷◌,
  ◌++◌, append-nil, length, length-append, IsU32,
}
use wespe.Ber.Types.{ok, ◌>>=◌, >>=_assoc, tag_sequence, tag_oid, max_nest_depth}
use wespe.Ber.Encode.{Scratch, prepend_bytes, container_header}
use wespe.Ber.Wire.{
  tlv_bytes, container-tlv_bytes, prepend_bytes-append, prepend_bytes-moves, prepend_nothing,
}
use wespe.Ber.RoundTrip.{length-tlv_bytes}
use wespe.Ber.Integers.{expect_tag-tlv_bytes, decode_tlv-tlv_bytes}
use wespe.Mib.Types.{Varbind}
use wespe.Snmp.Types.{max_varbinds}
use wespe.Snmp.Codec.{
  encode_varbind, encode_varbinds, encode_varbind_list, decode_varbind, decode_varbinds,
  decode_varbind_list,
}
use wespe.Snmp.Codec.Values.{
  WireOid, WireValue, oid_bytes, value_content, on_wire, encode_oid-WireOid, decode_oid-WireOid,
  encode_value-bytes, decode_value-content, length-oid_bytes, length-value_content,
}

-- A varbind whose name and value the wire can hold.
pub record WireVarbind (vb : Varbind) : Type 0 where
  pub name : WireOid vb.oid
  pub value : WireValue vb

pub data WireVarbinds : List Varbind → Type 0 where
  no_more : WireVarbinds []
  more :
      {vb : Varbind} {vbs : List Varbind}
      → WireVarbind vb
      → WireVarbinds vbs
      → WireVarbinds (vb ∷ vbs)

abbrev pair_bytes : (vb : Varbind) → WireVarbind vb → List ℕ
pair_bytes vb w =
    tlv_bytes tag_oid (oid_bytes w.name) ++ tlv_bytes vb.value_tag (value_content vb w.value)

abbrev varbind_bytes : (vb : Varbind) → WireVarbind vb → List ℕ
varbind_bytes vb w = tlv_bytes tag_sequence (pair_bytes vb w)

abbrev pub list_bytes : (vbs : List Varbind) → WireVarbinds vbs → List ℕ
list_bytes [] no_more = []
list_bytes (vb ∷ vbs) (more w ws) = varbind_bytes vb w ++ list_bytes vbs ws

-- The varbinds as the receiver holds them.
abbrev pub on_wires : (vbs : List Varbind) → WireVarbinds vbs → List Varbind
on_wires [] no_more = []
on_wires (vb ∷ vbs) (more w ws) = on_wire vb w.value ∷ on_wires vbs ws

length-pair_bytes : (vb : Varbind) (w : WireVarbind vb) → length (pair_bytes vb w) ≤ 249
length-pair_bytes vb w =
    let name = length-oid_bytes vb.oid w.name in
    let value = length-value_content vb w.value in
    omega (
      arith,
      name,
      value,
      length-append (tlv_bytes tag_oid (oid_bytes w.name))
          (tlv_bytes vb.value_tag (value_content vb w.value)),
      length-tlv_bytes tag_oid (oid_bytes w.name) (omega arith),
      length-tlv_bytes vb.value_tag (value_content vb w.value) (omega arith),
    )

pub length-list_bytes :
    (vbs : List Varbind) (ws : WireVarbinds vbs) → length (list_bytes vbs ws) ≤ 255 * length vbs
length-list_bytes [] no_more = omega arith
length-list_bytes (vb ∷ vbs) (more w ws) =
    let pair = length-pair_bytes vb w in
    omega (
      arith,
      pair,
      length-append (varbind_bytes vb w) (list_bytes vbs ws),
      length-tlv_bytes tag_sequence (pair_bytes vb w) (omega arith),
      length-list_bytes vbs ws,
    )

encode_varbind-bytes :
    (vb : Varbind) (w : WireVarbind vb) (s : Scratch)
    → encode_varbind vb s ≡ prepend_bytes (varbind_bytes vb w) s
unfolding encode_varbind container_header
encode_varbind-bytes vb w s =
    let name = tlv_bytes tag_oid (oid_bytes w.name) in
    let value = tlv_bytes vb.value_tag (value_content vb w.value) in
    let close = λ (t : Scratch). container_header tag_sequence (s.cursor - t.cursor) t in
    rw
      (
        encode_value-bytes vb w.value s,
        fun_ext (encode_oid-WireOid vb.oid w.name),
        >>=_assoc (prepend_bytes value s) (prepend_bytes name) close,
        prepend_bytes-append name value s,
      )
      (container-tlv_bytes tag_sequence (name ++ value) s)

encode_varbinds-bytes :
    (vbs : List Varbind) (ws : WireVarbinds vbs) (s : Scratch)
    → encode_varbinds vbs s ≡ prepend_bytes (list_bytes vbs ws) s
unfolding encode_varbinds
encode_varbinds-bytes [] no_more s = prepend_nothing s
encode_varbinds-bytes (vb ∷ vbs) (more w ws) s =
    rw (encode_varbinds-bytes vbs ws s, fun_ext (encode_varbind-bytes vb w))
      (prepend_bytes-append (varbind_bytes vb w) (list_bytes vbs ws) s)

pub encode_varbind_list-bytes :
    (vbs : List Varbind) (ws : WireVarbinds vbs) (s : Scratch)
    → encode_varbind_list vbs s ≡ prepend_bytes (tlv_bytes tag_sequence (list_bytes vbs ws)) s
unfolding encode_varbind_list container_header
encode_varbind_list-bytes vbs ws s =
    rw (encode_varbinds-bytes vbs ws s) (container-tlv_bytes tag_sequence (list_bytes vbs ws) s)

decode_varbind-bytes :
    (level : ℕ) (vb : Varbind) (w : WireVarbind vb) (rest : List ℕ)
    → level ≤ max_nest_depth
    → decode_varbind level (record { tag = tag_sequence; value = pair_bytes vb w; next = rest })
      ≡ ok (on_wire vb w.value)
unfolding decode_varbind
decode_varbind-bytes level vb w rest hl =
    let name = length-oid_bytes vb.oid w.name in
    let value = length-value_content vb w.value in
    let content = tlv_bytes vb.value_tag (value_content vb w.value) in
    rw
      (
        expect_tag-tlv_bytes level tag_oid (oid_bytes w.name) content hl (omega arith),
        decode_oid-WireOid vb.oid w.name content,
        sym (append-nil content),
        decode_tlv-tlv_bytes level vb.value_tag (value_content vb w.value) [] hl (omega arith),
      )
      (decode_value-content vb w.value [])

decode_varbinds_step :
    (fuel level room : ℕ) (content rest : List ℕ)
    → level + 1 ≤ max_nest_depth
    → IsU32 (length content)
    → 1 ≤ room
    → decode_varbinds (suc fuel) level room (tlv_bytes tag_sequence content ++ rest) ≡ (
        decode_varbind (level + 2) (record { tag = tag_sequence; value = content; next = rest })
        >>= λ vb. decode_varbinds fuel level (room - 1) rest >>= λ others. ok (vb ∷ others))
unfolding decode_varbinds tlv_bytes
decode_varbinds_step fuel level room content rest hl hn hr =
    let has_room : (room == 0) ≡ false = ground arith in
    rw (expect_tag-tlv_bytes (level + 1) tag_sequence content rest hl hn, has_room) refl

decode_varbinds-list_bytes :
    (fuel level room : ℕ) (vbs : List Varbind) (ws : WireVarbinds vbs)
    → level + 2 ≤ max_nest_depth
    → length vbs ≤ fuel
    → length vbs ≤ room
    → decode_varbinds fuel level room (list_bytes vbs ws) ≡ ok (on_wires vbs ws)
unfolding decode_varbinds
decode_varbinds-list_bytes fuel level room [] no_more hl hf hr = refl
decode_varbinds-list_bytes zero level room (vb ∷ vbs) (more w ws) hl hf hr = absurd (omega arith)
decode_varbinds-list_bytes (suc fuel) level room (vb ∷ vbs) (more w ws) hl hf hr =
    let content = length-pair_bytes vb w in
    rw
      (
        decode_varbinds_step fuel level room (pair_bytes vb w) (list_bytes vbs ws) (omega arith)
            (omega arith) (omega arith),
        decode_varbind-bytes (level + 2) vb w (list_bytes vbs ws) hl,
        decode_varbinds-list_bytes fuel level (room - 1) vbs ws hl (omega arith) (omega arith),
      )
      refl

pub length-tlv_bytes-pos : (tag : ℕ) (content : List ℕ) → 1 ≤ length (tlv_bytes tag content)
unfolding tlv_bytes
length-tlv_bytes-pos tag content = omega arith

count-list_bytes :
    (vbs : List Varbind) (ws : WireVarbinds vbs) → length vbs ≤ length (list_bytes vbs ws)
count-list_bytes [] no_more = omega arith
count-list_bytes (vb ∷ vbs) (more w ws) = omega (
  arith,
  length-append (varbind_bytes vb w) (list_bytes vbs ws),
  length-tlv_bytes-pos tag_sequence (pair_bytes vb w),
  count-list_bytes vbs ws,
)

-- A list of varbinds is read back wherever it stands, if there is room for it and for its nesting.
pub decode_varbind_list-bytes :
    (level out_cap : ℕ) (vbs : List Varbind) (ws : WireVarbinds vbs) (rest : List ℕ)
    → level + 2 ≤ max_nest_depth
    → length vbs ≤ out_cap
    → length vbs ≤ max_varbinds
    → decode_varbind_list level out_cap (tlv_bytes tag_sequence (list_bytes vbs ws) ++ rest)
      ≡ ok (on_wires vbs ws)
unfolding decode_varbind_list
decode_varbind_list-bytes level out_cap vbs ws rest hl hr hm =
    let size = length-list_bytes vbs ws in
    rw
      (expect_tag-tlv_bytes level tag_sequence (list_bytes vbs ws) rest (omega arith) (omega arith))
      (decode_varbinds-list_bytes _ level out_cap vbs ws hl (count-list_bytes vbs ws) hr)

-- A varbind list written by snmp_encode_varbind_list is read back by snmp_decode_varbind_list, in
-- order, each varbind with its OID and the value its tag selects. There are at most
-- SNMP_MAX_VARBINDS varbinds, all such as the wire can hold (an OID of two to BER_MAX_OID_LEN
-- uint32_t arcs, the first at most 2 and the second below 40; a tag of snmp_varbind_t or an
-- exception, with an integer of the width of its type, a string of at most SNMP_MAX_OCTETS_LEN
-- bytes, or an OID within the same limits), and the nesting level is at most BER_MAX_NEST_DEPTH -
-- 2.
pub encode_varbind_list-ReadsBack :
    (level : ℕ) (vbs : List Varbind) (ws : WireVarbinds vbs) (s t : Scratch)
    → level + 2 ≤ max_nest_depth
    → length vbs ≤ max_varbinds
    → encode_varbind_list vbs s ≡ ok t
    → decode_varbind_list level max_varbinds t.written ≡ ok (on_wires vbs ws)
encode_varbind_list-ReadsBack level vbs ws s t hl hm e =
    rw
      (prepend_bytes-moves (tlv_bytes tag_sequence (list_bytes vbs ws)) s t
        (sym (encode_varbind_list-bytes vbs ws s) ∙ e)).1
      (decode_varbind_list-bytes level max_varbinds vbs ws s.written hl hm hm)
