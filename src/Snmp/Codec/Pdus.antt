-- ===== src/Snmp/Codec/Pdus.antt =====
-- PDUs on the wire: snmp_encode_response_shaped_pdu against snmp_decode_request_pdu.
use wespe.Prelude.{
  fun_ext, true, ℕ, ◌+◌, ◌-◌, ◌≤◌, ◌≡◌, refl, sym, ◌∙◌, arith, List, [], ◌++◌, append-nil, length,
  length-append, IsU32,
}
use wespe.Ber.Types.{Result, ok, ◌>>=◌, >>=_assoc, tag_integer, tag_sequence, max_nest_depth}
use wespe.Ber.Encode.{Scratch, prepend_bytes, container_header, raw32, trim_signed}
use wespe.Ber.Wire.{
  tlv_bytes, container-tlv_bytes, prepend_bytes-append, prepend_bytes-moves, encode_integer-bytes,
}
use wespe.Ber.RoundTrip.{length-tlv_bytes}
use wespe.Ber.Integers.{decode_tlv-tlv_bytes, content_width}
use wespe.Ber.ReadsBack.{decode_integer_field-content}
use wespe.Mib.Types.{Varbind}
use wespe.Snmp.Types.{Ctx, max_varbinds}
use wespe.Snmp.Codec.{is_request_tag, encode_response_shaped_pdu, decode_request_pdu}
use wespe.Snmp.Codec.Varbinds.{
  WireVarbinds, list_bytes, on_wires, length-list_bytes, encode_varbind_list-bytes,
  decode_varbind_list-bytes,
}

abbrev pub integer_bytes : ℕ → List ℕ
integer_bytes v = tlv_bytes tag_integer (trim_signed (raw32 v))

pub length-integer_bytes : (v : ℕ) → length (integer_bytes v) ≤ 10
length-integer_bytes v =
    let (lo, hi) = content_width v in
    omega (arith, length-tlv_bytes tag_integer (trim_signed (raw32 v)) (omega arith))

abbrev field_bytes : ℕ → ℕ → ℕ → (vbs : List Varbind) → WireVarbinds vbs → List ℕ
field_bytes request_id error_status error_index vbs ws =
    integer_bytes request_id
    ++ (integer_bytes error_status
        ++ (integer_bytes error_index ++ tlv_bytes tag_sequence (list_bytes vbs ws)))

abbrev pub pdu_bytes : ℕ → ℕ → ℕ → ℕ → (vbs : List Varbind) → WireVarbinds vbs → List ℕ
pdu_bytes pdu_tag request_id error_status error_index vbs ws =
    tlv_bytes pdu_tag (field_bytes request_id error_status error_index vbs ws)

length-field_bytes :
    (request_id error_status error_index : ℕ) (vbs : List Varbind) (ws : WireVarbinds vbs)
    → length vbs ≤ max_varbinds
    → length (field_bytes request_id error_status error_index vbs ws) ≤ 12786
length-field_bytes request_id error_status error_index vbs ws hm =
    let size = length-list_bytes vbs ws in
    let list = tlv_bytes tag_sequence (list_bytes vbs ws) in
    omega (
      arith,
      length-append (integer_bytes request_id)
          (integer_bytes error_status ++ (integer_bytes error_index ++ list)),
      length-append (integer_bytes error_status) (integer_bytes error_index ++ list),
      length-append (integer_bytes error_index) list,
      length-integer_bytes request_id,
      length-integer_bytes error_status,
      length-integer_bytes error_index,
      length-tlv_bytes tag_sequence (list_bytes vbs ws) (omega arith),
    )

pub length-pdu_bytes :
    (pdu_tag request_id error_status error_index : ℕ) (vbs : List Varbind) (ws : WireVarbinds vbs)
    → length vbs ≤ max_varbinds
    → length (pdu_bytes pdu_tag request_id error_status error_index vbs ws) ≤ 12792
length-pdu_bytes pdu_tag request_id error_status error_index vbs ws hm =
    let fields = length-field_bytes request_id error_status error_index vbs ws hm in
    omega (
      arith,
      length-tlv_bytes pdu_tag (field_bytes request_id error_status error_index vbs ws)
          (omega arith),
    )

-- Two writes in a row, under what follows them.
pub write_twice {ℓ} :
    {A : Type ℓ} (xs ys : List ℕ) (s : Scratch) (f : Scratch → Result A)
    → (prepend_bytes ys s >>= λ t. prepend_bytes xs t >>= f) ≡ (prepend_bytes (xs ++ ys) s >>= f)
write_twice xs ys s f =
    >>=_assoc (prepend_bytes ys s) (prepend_bytes xs) f ∙ rw (prepend_bytes-append xs ys s)

pub encode_response_shaped_pdu-bytes :
    (pdu_tag request_id error_status error_index : ℕ) (vbs : List Varbind) (ws : WireVarbinds vbs)
    (s : Scratch)
    → encode_response_shaped_pdu pdu_tag request_id error_status error_index vbs s
      ≡ prepend_bytes (pdu_bytes pdu_tag request_id error_status error_index vbs ws) s
unfolding encode_response_shaped_pdu container_header
encode_response_shaped_pdu-bytes pdu_tag request_id error_status error_index vbs ws s =
    let list = tlv_bytes tag_sequence (list_bytes vbs ws) in
    let close = λ (t : Scratch). container_header pdu_tag (s.cursor - t.cursor) t in
    let integer = λ (v : ℕ). fun_ext (encode_integer-bytes v) in
    rw
      (
        encode_varbind_list-bytes vbs ws s,
        integer error_index,
        integer error_status,
        integer request_id,
      )
      (write_twice (integer_bytes error_index) list s (λ t.
          prepend_bytes (integer_bytes error_status) t >>= λ t.
          prepend_bytes (integer_bytes request_id) t >>= close)
        ∙ write_twice (integer_bytes error_status) (integer_bytes error_index ++ list) s
            (λ t. prepend_bytes (integer_bytes request_id) t >>= close)
        ∙ write_twice (integer_bytes request_id)
            (integer_bytes error_status ++ (integer_bytes error_index ++ list)) s close
        ∙ container-tlv_bytes pdu_tag (field_bytes request_id error_status error_index vbs ws) s)

pub decode_request_pdu-bytes :
    (level pdu_tag request_id error_status error_index : ℕ) (vbs : List Varbind)
    (ws : WireVarbinds vbs) (rest : List ℕ) (ctx : Ctx)
    → level + 3 ≤ max_nest_depth
    → is_request_tag pdu_tag ≡ true
    → IsU32 request_id
    → IsU32 error_status
    → IsU32 error_index
    → length vbs ≤ max_varbinds
    → decode_request_pdu level
        (pdu_bytes pdu_tag request_id error_status error_index vbs ws ++ rest)
        ctx
      ≡ ok (record ctx {
        pdu_tag = pdu_tag;
        request_id = request_id;
        error_status = error_status;
        error_index = error_index;
        varbinds = on_wires vbs ws;
      })
unfolding decode_request_pdu
decode_request_pdu-bytes level tag id es ei vbs ws rest ctx hl known hid hes hei hm =
    let list = tlv_bytes tag_sequence (list_bytes vbs ws) in
    let fields = length-field_bytes id es ei vbs ws hm in
    let read = λ (v : ℕ). decode_integer_field-content (level + 1) v in
    rw
      (
        decode_tlv-tlv_bytes level tag (field_bytes id es ei vbs ws) rest (omega arith)
            (omega arith),
        known,
        read id (integer_bytes es ++ (integer_bytes ei ++ list)) (omega arith) hid,
        read es (integer_bytes ei ++ list) (omega arith) hes,
        read ei list (omega arith) hei,
        sym (append-nil list),
        decode_varbind_list-bytes (level + 1) max_varbinds vbs ws [] (omega arith) hm hm,
      )
      refl

-- A request PDU written by snmp_encode_response_shaped_pdu is read back by
-- snmp_decode_request_pdu with its tag, its three integers and its varbinds in order, each with
-- the value its tag selects, and the rest of the context is left alone. The tag is one of the
-- four requests, the integers are int32_t, there are at most SNMP_MAX_VARBINDS varbinds, all such
-- as the wire can hold (an OID of two to BER_MAX_OID_LEN uint32_t arcs, the first at most 2 and
-- the second below 40; a tag of snmp_varbind_t or an exception, with an integer of the width of
-- its type, a string of at most SNMP_MAX_OCTETS_LEN bytes, or an OID within the same limits), and
-- the nesting level is at most BER_MAX_NEST_DEPTH - 3.
pub encode_pdu-ReadsBack :
    (level pdu_tag request_id error_status error_index : ℕ) (vbs : List Varbind)
    (ws : WireVarbinds vbs) (s t : Scratch) (ctx : Ctx)
    → level + 3 ≤ max_nest_depth
    → is_request_tag pdu_tag ≡ true
    → IsU32 request_id
    → IsU32 error_status
    → IsU32 error_index
    → length vbs ≤ max_varbinds
    → encode_response_shaped_pdu pdu_tag request_id error_status error_index vbs s ≡ ok t
    → decode_request_pdu level t.written ctx
      ≡ ok (record ctx {
        pdu_tag = pdu_tag;
        request_id = request_id;
        error_status = error_status;
        error_index = error_index;
        varbinds = on_wires vbs ws;
      })
encode_pdu-ReadsBack level tag id es ei vbs ws s t ctx hl known hid hes hei hm e =
    rw
      (prepend_bytes-moves (pdu_bytes tag id es ei vbs ws) s t
        (sym (encode_response_shaped_pdu-bytes tag id es ei vbs ws s) ∙ e)).1
      (decode_request_pdu-bytes level tag id es ei vbs ws s.written ctx hl known hid hes hei hm)
