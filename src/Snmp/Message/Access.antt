-- ===== src/Snmp/Message/Access.antt =====
-- Who may do what: firmware/components/snmp_core/snmp_security_community.c, snmp_security_usm_stub.c
-- and snmp_pdu_set.c, seen from snmp_message.c.
use wespe.Prelude.{
  c_string, ℕ, ◌+◌, ◌-◌, ◌≡◌, ◌≢◌, ◌⊎◌, inl, inr, refl, arith, false, ◌||◌, Bool-cases, none, some,
  List, [], ◌==◌, length,
}
use wespe.Ber.Types.{
  Result, Status, Result-cases, ok, err, Ensures, Tlv, bad_args, tag_sequence, tag_integer,
  tag_octet_string, pdu_set_request,
}
use wespe.Ber.Decode.{decode_tlv, expect_tag, decode_integer_field, decode_octet_string}
use wespe.Mib.Registry.{Registry}
use wespe.Snmp.Types.{AccessMode, Ctx, zeroed_ctx, max_principal_len}
use wespe.Snmp.Write.{is_readwrite, handle_set}
use wespe.Snmp.Dispatch.{dispatch_pdu}
use wespe.Snmp.Security.{
  Communities, Model, Security, security_lookup, authorize, community_incoming, community_model,
  usm_incoming, usm_stub_model,
}
use wespe.Snmp.Message.Credentials.{
  then-Ensures, Credentials, HasAccess, HasEarned, authorize-HasEarned,
  community_incoming_credentials, sniff_version_credentials,
}
use wespe.Snmp.Message.{sniff_version, accept, receive, send, answer, message_process}

-- An accepted context: the message has credentials, the principal is their community, the access is
-- what that community may have, and the PDU after it is a request.
abbrev pub IsAuthorized : Communities → ℕ → List ℕ → Ctx → Type 0
IsAuthorized comms level msg ctx =
    (c : Credentials level msg) × HasEarned comms (level + 1) c.community c.field.next ctx

with_credentials :
    (comms : Communities) (msg : List ℕ) (level : ℕ) (c : Credentials level msg) (r : Result Ctx)
    → Ensures (HasEarned comms (level + 1) c.community c.field.next) r
    → Ensures (IsAuthorized comms level msg) r
with_credentials comms msg level c (err e) h = tt
with_credentials comms msg level c (ok ctx) h = (c, h)

incoming :
    (comms : Communities) (msg : List ℕ) (level : ℕ) (from : Ctx)
    → Ensures (IsAuthorized comms level msg) (community_incoming comms msg level from)
unfolding community_incoming
incoming comms msg level from =
    let post = IsAuthorized comms level msg in
    then-Ensures post (expect_tag level tag_sequence msg) _ (λ top e1.
      then-Ensures post (decode_integer_field (level + 1) top.value) _ (λ v e2.
        then-Ensures post (expect_tag (level + 1) tag_octet_string v.1) _ (λ tlv e3.
          then-Ensures post (decode_octet_string (max_principal_len - 1) tlv) _ (λ community e4.
            with_credentials comms msg level
              (record {
                top = top;
                version = v.0;
                after = v.1;
                field = tlv;
                community = community;
                is_sequence = e1;
                has_version = e2;
                has_field = e3;
                has_community = e4;
              })
              _ (authorize-HasEarned comms level v.0 community tlv.next from)))))

-- A message that process_incoming accepts is a SEQUENCE of a version, a community of at most 31
-- bytes and one of the four request PDUs, whose tag the context has. The principal is the
-- community up to its first NUL. It is the read-write community and may write, or it is the
-- read-only one, and not the read-write one, and may read.
pub community_incoming-IsAuthorized :
    (comms : Communities) (msg : List ℕ) (level : ℕ) (from ctx : Ctx)
    → community_incoming comms msg level from ≡ ok ctx
    → IsAuthorized comms level msg ctx
community_incoming-IsAuthorized comms msg level from ctx e = rw e at (incoming comms msg level from)

-- A refused request, without access to write.
handle_set-denied :
    {D : Type 0} (reg : Registry D) (ctx : Ctx) (d : D)
    → is_readwrite ctx.access_mode ≡ false
    → handle_set reg ctx d ≡ err bad_args
unfolding handle_set
handle_set-denied reg ctx d h = rw (handle_set, h) refl

usm_declines :
    (comms : Communities) (msg : List ℕ) (from : Ctx)
    → (e : Status) × (usm_incoming comms msg 0 from ≡ err e)
unfolding usm_incoming
usm_declines comms msg from = elim (Result-cases (expect_tag 0 tag_sequence msg)) [
  | inr (e, f) ↦ (e, rw f refl)
  | inl (top, f) ↦ elim (Result-cases (expect_tag 1 tag_integer top.value)) [
    | inr (e, g) ↦ (e, rw (f, g) refl)
    | inl (version, g) ↦ elim (Result-cases (expect_tag 1 tag_sequence version.next)) [
      | inr (e, h) ↦ (e, rw (f, g, h) refl)
      | inl (data_, h) ↦ (bad_args, rw (f, g, h) refl)
    ]
  ]
]

-- Without the read-write community there is no access to write.
read_only_access :
    (comms : Communities) (text : List ℕ) (mode : AccessMode)
    → HasAccess comms text mode
    → text ≢ comms.rw
    → is_readwrite mode ≡ false
read_only_access comms text mode (inl (same, e)) other = absurd (other same)
read_only_access comms text mode (inr (o, same, e)) other = rw e refl

module _ {D : Type 0} (reg : Registry D) (sec : Security) where
  -- A request that no model accepts is dropped.
  dropped :
      (msg : List ℕ) (out_cap : ℕ) (d : D) (e : Status)
      → receive sec msg ≡ err e
      → message_process reg sec msg out_cap d ≡ ([], d)
  unfolding message_process answer
  dropped msg out_cap d e h = elim (Bool-cases (length msg == 0 || out_cap == 0)) [
    | inl empty ↦ rw (message_process, empty) refl
    | inr some_room ↦ rw (message_process, some_room, h) refl
  ]

  -- A request that is accepted and then refused is dropped as well.
  refused :
      (msg : List ℕ) (out_cap : ℕ) (d : D) (model : Model) (ctx : Ctx) (e : Status)
      → receive sec msg ≡ ok (model, ctx)
      → dispatch_pdu reg ctx d ≡ err e
      → message_process reg sec msg out_cap d ≡ ([], d)
  unfolding message_process answer send
  refused msg out_cap d model ctx e h k = elim (Bool-cases (length msg == 0 || out_cap == 0)) [
    | inl empty ↦ rw (message_process, empty) refl
    | inr some_room ↦ rw (message_process, some_room, h, k) refl
  ]

  -- A datagram is dropped, with nothing sent and the device as it was, if its version has no model, or
  -- has the stand-in for SNMPv3.
  pub message_process-dropped :
      (msg : List ℕ) (out_cap version : ℕ) (d : D)
      → sniff_version msg ≡ ok version
      → (security_lookup sec version ≡ none) ⊎ (security_lookup sec version ≡ some usm_stub_model)
      → message_process reg sec msg out_cap d ≡ ([], d)
  message_process-dropped msg out_cap version d v (inl h) =
      dropped msg out_cap d bad_args (unfold receive accept in rw (v, h) refl)
  message_process-dropped msg out_cap version d v (inr h) =
      let (e, f) = usm_declines sec.communities msg zeroed_ctx in
      dropped msg out_cap d e (unfold receive accept in rw (v, h, f) refl)

  -- What is read for a SetRequest of another community cannot write.
  refuses_set :
      (community p : List ℕ) (pdu : Tlv) (d : D) (ctx : Ctx)
      → decode_tlv 1 p ≡ ok pdu
      → pdu.tag ≡ pdu_set_request
      → c_string community ≢ sec.communities.rw
      → HasEarned sec.communities 1 community p ctx
      → dispatch_pdu reg ctx d ≡ err bad_args
  unfolding dispatch_pdu handle_set
  refuses_set community p pdu d ctx is_pdu set other (text, may, (pdu', found, tag, known)) =
      let same : pdu' ≡ pdu = ground arith in
      let is_set : ctx.pdu_tag ≡ pdu_set_request = rw (tag, same, set) refl in
      let denied =
        read_only_access sec.communities (c_string community) ctx.access_mode may other in
      rw is_set (handle_set-denied reg ctx d denied)

  -- A SetRequest whose community, up to its first NUL, is not the read-write one is dropped, also
  -- if the community is not known: nothing is sent, and the device state is unchanged. The
  -- message is a SEQUENCE of a version that has the community model, a community of at most 31
  -- bytes, and a PDU with the tag of a SetRequest.
  pub message_process-read_only :
      (msg : List ℕ) (out_cap : ℕ) (d : D) (c : Credentials 0 msg) (pdu : Tlv)
      → security_lookup sec c.version ≡ some community_model
      → decode_tlv 1 c.field.next ≡ ok pdu
      → pdu.tag ≡ pdu_set_request
      → c_string c.community ≢ sec.communities.rw
      → message_process reg sec msg out_cap d ≡ ([], d)
  message_process-read_only msg out_cap d c pdu h is_pdu set other =
      let r = authorize sec.communities 0 c.version c.community c.field.next zeroed_ctx in
      let run = community_incoming_credentials sec.communities 0 msg zeroed_ctx c in
      let v = sniff_version_credentials msg c in
      let post =
        authorize-HasEarned sec.communities 0 c.version c.community c.field.next zeroed_ctx in
      elim (Result-cases r) [
        | inr (e, f) ↦ dropped msg out_cap d e (unfold receive accept in rw (v, h, run, f) refl)
        | inl (ctx, f) ↦
            refused msg out_cap d community_model ctx bad_args
              (unfold receive accept in rw (v, h, run, f) refl)
              (refuses_set c.community c.field.next pdu d ctx is_pdu set other (rw f at post))
      ]
