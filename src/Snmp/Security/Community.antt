-- ===== src/Snmp/Security/Community.antt =====
-- Messages of SNMPv1 and SNMPv2c on the wire: prepare_outgoing against process_incoming, both of
-- firmware/components/snmp_core/snmp_security_community.c.
use wespe.Prelude.{
  c_string, fun_ext, false, true, ℕ, ◌+◌, ◌-◌, ◌≤◌, ◌<◌, ◌≡◌, ◌⊎◌, inl, inr, refl, sym, ◌∙◌, arith,
  List, [], ◌++◌, ◌==◌, if◌then◌else◌, append-nil, length, length-append, IsU32, ltb,
}
use wespe.Ber.Types.{ok, ◌>>=◌, >>=_assoc, tag_sequence, tag_octet_string, max_nest_depth}
use wespe.Ber.Decode.{decode_octet_string}
use wespe.Ber.Encode.{Scratch, fresh, prepend_bytes, container_header}
use wespe.Ber.Wire.{tlv_bytes, container-tlv_bytes, encode_integer-bytes, encode_octet_string-bytes}
use wespe.Ber.RoundTrip.{length-tlv_bytes}
use wespe.Ber.Integers.{expect_tag-tlv_bytes}
use wespe.Ber.ReadsBack.{decode_integer_field-content}
use wespe.Snmp.Types.{Version, version_number, AccessMode, Ctx, max_varbinds, max_principal_len}
use wespe.Snmp.Codec.{is_request_tag}
use wespe.Snmp.Codec.Varbinds.{WireVarbinds, on_wires}
use wespe.Snmp.Codec.Pdus.{
  integer_bytes, length-integer_bytes, pdu_bytes, length-pdu_bytes, write_twice,
  encode_response_shaped_pdu-bytes, decode_request_pdu-bytes,
}
use wespe.Snmp.Security.{Communities, access_of, authorize, community_incoming, community_outgoing}

-- The versions that carry a community.
abbrev pub IsCommunityVersion : Version → Type 0
IsCommunityVersion version = (version ≡ Version.v1) ⊎ (version ≡ Version.v2c)

abbrev pub MayRead : AccessMode → Type 0
MayRead mode = (mode ≡ AccessMode.read) ⊎ (mode ≡ AccessMode.readwrite)

-- A request that the wire can hold.
pub record WireRequest (ctx : Ctx) : Type 0 where
  pub version_known : IsCommunityVersion ctx.version
  pub tag_known : is_request_tag ctx.pdu_tag ≡ true
  pub id_fits : IsU32 ctx.request_id
  pub status_fits : IsU32 ctx.error_status
  pub index_fits : IsU32 ctx.error_index
  pub varbinds_few : length ctx.varbinds ≤ max_varbinds
  pub varbinds_wire : WireVarbinds ctx.varbinds
  pub principal_fits : length ctx.principal < max_principal_len
  pub principal_text : c_string ctx.principal ≡ ctx.principal

known_version :
    (v : Version)
    → IsCommunityVersion v
    → (if version_number v == version_number Version.v2c then Version.v2c else Version.v1) ≡ v
known_version v (inl e) = rw e refl
known_version v (inr e) = rw e refl

pub number_small : (v : Version) → IsCommunityVersion v → IsU32 (version_number v)
number_small v (inl e) = rw e (omega arith)
number_small v (inr e) = rw e (omega arith)

written_bytes :
    (xs bytes : List ℕ) (cap : ℕ)
    → (prepend_bytes xs (fresh cap) >>= λ s. ok s.written) ≡ ok bytes
    → bytes ≡ xs
unfolding prepend_bytes fresh
written_bytes xs bytes cap e = ground (arith, append-nil xs)

module _ (ctx : Ctx) (w : WireRequest ctx) where
  abbrev pub body_pdu : List ℕ
  body_pdu =
      pdu_bytes ctx.pdu_tag ctx.request_id ctx.error_status ctx.error_index ctx.varbinds
        w.varbinds_wire

  abbrev pub body : List ℕ
  body =
      integer_bytes (version_number ctx.version)
      ++ (tlv_bytes tag_octet_string ctx.principal ++ body_pdu)

  pub length-body : length body ≤ 13000
  length-body =
      let size =
        length-pdu_bytes ctx.pdu_tag ctx.request_id ctx.error_status ctx.error_index ctx.varbinds
          w.varbinds_wire w.varbinds_few in
      let principal = tlv_bytes tag_octet_string ctx.principal in
      let short = w.principal_fits in
      omega (
        arith,
        size,
        length-append (integer_bytes (version_number ctx.version)) (principal ++ body_pdu),
        length-append principal body_pdu,
        length-integer_bytes (version_number ctx.version),
        length-tlv_bytes tag_octet_string ctx.principal (omega arith),
      )

  outgoing_bytes :
      (cap : ℕ)
      → community_outgoing ctx cap
        ≡ (prepend_bytes (tlv_bytes tag_sequence body) (fresh cap) >>= λ s. ok s.written)
  unfolding community_outgoing container_header fresh
  outgoing_bytes cap =
      let principal = tlv_bytes tag_octet_string ctx.principal in
      let number = version_number ctx.version in
      let finish = λ (s : Scratch). ok s.written in
      let close = λ (s : Scratch). container_header tag_sequence (cap - s.cursor) s in
      rw
        (
          encode_response_shaped_pdu-bytes ctx.pdu_tag ctx.request_id ctx.error_status
              ctx.error_index ctx.varbinds w.varbinds_wire (fresh cap),
          fun_ext (encode_octet_string-bytes ctx.principal),
          fun_ext (encode_integer-bytes number),
        )
        (write_twice principal body_pdu (fresh cap)
            (λ s. prepend_bytes (integer_bytes number) s >>= λ s. close s >>= finish)
          ∙ write_twice (integer_bytes number) (principal ++ body_pdu) (fresh cap)
              (λ s. close s >>= finish)
          ∙ >>=_assoc (prepend_bytes body (fresh cap)) close finish
          ∙ rw (container-tlv_bytes tag_sequence body (fresh cap)) refl)

  pub outgoing-body :
      (cap : ℕ) (bytes : List ℕ)
      → community_outgoing ctx cap ≡ ok bytes
      → bytes ≡ tlv_bytes tag_sequence body
  outgoing-body cap bytes e =
      written_bytes (tlv_bytes tag_sequence body) bytes cap (sym (outgoing_bytes cap) ∙ e)

  -- The context that the receiver makes of it.
  abbrev pub received : Communities → Ctx
  received comms = record ctx {
    varbinds = on_wires ctx.varbinds w.varbinds_wire;
    access_mode = access_of comms ctx.principal;
  }

  authorize-mode :
      (comms : Communities) (level : ℕ) (from : Ctx) (mode : AccessMode)
      → level + 4 ≤ max_nest_depth
      → access_of comms ctx.principal ≡ mode
      → MayRead mode
      → authorize comms level (version_number ctx.version) ctx.principal body_pdu from
        ≡ ok (record ctx { varbinds = on_wires ctx.varbinds w.varbinds_wire; access_mode = mode })
  unfolding authorize
  authorize-mode comms level from mode hl e may =
      let known = known_version ctx.version w.version_known in
      let read = λ (from : Ctx).
        decode_request_pdu-bytes (level + 1) ctx.pdu_tag ctx.request_id ctx.error_status
          ctx.error_index ctx.varbinds w.varbinds_wire [] from (omega arith) w.tag_known w.id_fits
          w.status_fits w.index_fits w.varbinds_few in
      elim may [
        | inl read_only ↦
            rw
              (
                w.principal_text,
                e,
                read_only,
                authorize,
                known,
                w.principal_text,
                sym (append-nil body_pdu),
                read _,
              )
              refl
        | inr read_write ↦
            rw
              (
                w.principal_text,
                e,
                read_write,
                authorize,
                known,
                w.principal_text,
                sym (append-nil body_pdu),
                read _,
              )
              refl
      ]

  authorize-bytes :
      (comms : Communities) (level : ℕ) (from : Ctx)
      → level + 4 ≤ max_nest_depth
      → MayRead (access_of comms ctx.principal)
      → authorize comms level (version_number ctx.version) ctx.principal body_pdu from
        ≡ ok (received comms)
  authorize-bytes comms level from hl may = authorize-mode comms level from _ hl refl may

  incoming_bytes :
      (comms : Communities) (level : ℕ) (from : Ctx)
      → level + 4 ≤ max_nest_depth
      → MayRead (access_of comms ctx.principal)
      → community_incoming comms (tlv_bytes tag_sequence body) level from ≡ ok (received comms)
  unfolding community_incoming decode_octet_string
  incoming_bytes comms level from hl may =
      let size = length-body in
      let short = w.principal_fits in
      let number = version_number ctx.version in
      let principal = tlv_bytes tag_octet_string ctx.principal in
      let fits : ltb (max_principal_len - 1) (length ctx.principal) ≡ false = ground arith in
      let small : IsU32 number = number_small ctx.version w.version_known in
      rw
        (
          sym (append-nil (tlv_bytes tag_sequence body)),
          expect_tag-tlv_bytes level tag_sequence body [] (omega arith) (omega arith),
          decode_integer_field-content (level + 1) number (principal ++ body_pdu) (omega arith)
              small,
          expect_tag-tlv_bytes (level + 1) tag_octet_string ctx.principal body_pdu (omega arith)
              (omega arith),
          fits,
        )
        (authorize-bytes comms level from hl may)

  -- A message that prepare_outgoing writes for a request is accepted by process_incoming, with
  -- the version, the PDU tag, the three integers and the community that it was written from, its
  -- varbinds in order, each with the value its tag selects, and the access of that community. The
  -- request is of SNMPv1 or v2c, has one of the four request tags and three int32_t fields, at
  -- most SNMP_MAX_VARBINDS varbinds, all such as the wire can hold (an OID of two to
  -- BER_MAX_OID_LEN uint32_t arcs, the first at most 2 and the second below 40; a tag of
  -- snmp_varbind_t or an exception, with an integer of the width of its type, a string of at most
  -- SNMP_MAX_OCTETS_LEN bytes, or an OID within the same limits), and a community of at most 31
  -- characters, without NUL, that is known; the nesting level is at most BER_MAX_NEST_DEPTH - 4.
  pub community_outgoing-ReadsBack :
      (comms : Communities) (cap level : ℕ) (from : Ctx) (bytes : List ℕ)
      → level + 4 ≤ max_nest_depth
      → MayRead (access_of comms ctx.principal)
      → community_outgoing ctx cap ≡ ok bytes
      → community_incoming comms bytes level from ≡ ok (received comms)
  community_outgoing-ReadsBack comms cap level from bytes hl may e =
      rw (outgoing-body cap bytes e) (incoming_bytes comms level from hl may)
