-- ===== src/Snmp/Message/Credentials.antt =====
-- What a message says of its sender, as its bytes have it, and what a community may do:
-- process_incoming of firmware/components/snmp_core/snmp_security_community.c.
use wespe.Prelude.{
  c_string, ℕ, ◌+◌, ◌-◌, ◌≡◌, ◌≢◌, ◌⊎◌, inl, inr, refl, ◌∙◌, arith, true, false, Bool-cases, List,
  [], ◌∷◌, ◌==◌, if◌then◌else◌,
}
use wespe.Ber.Types.{
  Result, Result-cases, ok, err, ◌>>=◌, Ensures, Tlv, tag_sequence, tag_octet_string,
}
use wespe.Ber.Decode.{decode_tlv, expect_tag, decode_integer_field, decode_octet_string}
use wespe.Snmp.Types.{Version, version_number, AccessMode, Ctx, max_varbinds, max_principal_len}
use wespe.Snmp.Codec.{is_request_tag, decode_request_pdu, decode_varbind_list}
use wespe.Snmp.Security.{same_text, Communities, access_of, authorize, community_incoming}
use wespe.Snmp.Message.{sniff_version}

-- A step that needs the equation of the value it goes on with.
pub then-Ensures {ℓ κ} :
    {A : Type ℓ} {B : Type κ} (Q : B → Type 0) (r : Result A) (f : A → Result B)
    → ((a : A) → r ≡ ok a → Ensures Q (f a))
    → Ensures Q (r >>= f)
then-Ensures Q (ok a) f h = h a refl
then-Ensures Q (err e) f h = tt

-- The head of a message that is an SNMPv1 or SNMPv2c one by its form: SEQUENCE { version, community,
-- and the PDU, from `field.next` on }.
pub record Credentials (level : ℕ) (msg : List ℕ) : Type 0 where
  pub top : Tlv
  pub version : ℕ
  pub after : List ℕ
  pub field : Tlv
  pub community : List ℕ
  pub is_sequence : expect_tag level tag_sequence msg ≡ ok top
  pub has_version : decode_integer_field (level + 1) top.value ≡ ok (version, after)
  pub has_field : expect_tag (level + 1) tag_octet_string after ≡ ok field
  pub has_community : decode_octet_string (max_principal_len - 1) field ≡ ok community

-- What a community may do: the read-write one writes, another one that is the read-only one reads,
-- and no other has access.
abbrev pub HasAccess : Communities → List ℕ → AccessMode → Type 0
HasAccess comms text mode =
    ((text ≡ comms.rw) × (mode ≡ AccessMode.readwrite))
    ⊎ ((text ≢ comms.rw) × (text ≡ comms.ro) × (mode ≡ AccessMode.read))

-- The PDU that follows the community is one of the four requests, and its tag is the context's.
abbrev pub IsRequest : ℕ → List ℕ → Ctx → Type 0
IsRequest level buf ctx =
    (pdu : Tlv) × (decode_tlv level buf ≡ ok pdu)
    × (ctx.pdu_tag ≡ pdu.tag)
    × (is_request_tag pdu.tag ≡ true)

-- A context that a community has earned, the PDU being what follows it.
abbrev pub HasEarned : Communities → ℕ → List ℕ → List ℕ → Ctx → Type 0
HasEarned comms level community buf ctx =
    (ctx.principal ≡ c_string community)
    × HasAccess comms (c_string community) ctx.access_mode
    × IsRequest level buf ctx

same_text_self : (xs : List ℕ) → same_text xs xs ≡ true
unfolding same_text
same_text_self [] = refl
same_text_self (a ∷ xs) = rw (same_text_self xs) (ground arith)

same_text-equal : (xs ys : List ℕ) → same_text xs ys ≡ true → xs ≡ ys
unfolding same_text
same_text-equal [] [] h = refl
same_text-equal [] (b ∷ bs) h = ground arith
same_text-equal (a ∷ xs) [] h = ground arith
same_text-equal (a ∷ xs) (b ∷ bs) h =
    let same : (a ≡ b) × (same_text xs bs ≡ true) = ground arith in
    rw (same.0, same_text-equal xs bs same.1) refl

pub same_text-other : (xs ys : List ℕ) → same_text xs ys ≡ false → xs ≢ ys
same_text-other xs ys h e =
    let self : same_text ys ys ≡ false = rw e at h in let yes = same_text_self ys in ground arith

access_cases :
    (comms : Communities) (text : List ℕ)
    → (access_of comms text ≡ AccessMode.none) ⊎ HasAccess comms text (access_of comms text)
unfolding access_of
access_cases comms text = elim (Bool-cases (same_text text comms.rw)) [
  | inl writes ↦ inr (inl (same_text-equal text comms.rw writes, rw writes refl))
  | inr other ↦ elim (Bool-cases (same_text text comms.ro)) [
    | inl reads ↦ inr (
        inr (
          same_text-other text comms.rw other,
          same_text-equal text comms.ro reads,
          rw (other, reads) refl,
        ))
    | inr unknown ↦ inl (rw (other, unknown) refl)
  ]
]

-- What decoding the PDU leaves of the context, and what it settles.
abbrev Decoded : ℕ → List ℕ → Ctx → Ctx → Type 0
Decoded level buf ctx ctx' =
    (ctx'.access_mode ≡ ctx.access_mode)
    × (ctx'.principal ≡ ctx.principal)
    × IsRequest level buf ctx'

decode_request_pdu-Decoded :
    (level : ℕ) (buf : List ℕ) (ctx : Ctx)
    → Ensures (Decoded level buf ctx) (decode_request_pdu level buf ctx)
unfolding decode_request_pdu
decode_request_pdu-Decoded level buf ctx =
    let post = Decoded level buf ctx in
    then-Ensures post (decode_tlv level buf) _ (λ pdu e.
      elim (Bool-cases (is_request_tag pdu.tag)) [
        | inr other ↦ rw other tt
        | inl known ↦ rw known (
            then-Ensures post (decode_integer_field (level + 1) pdu.value) _ (λ p e1.
              then-Ensures post (decode_integer_field (level + 1) p.1) _ (λ p e2.
                then-Ensures post (decode_integer_field (level + 1) p.1) _ (λ p e3.
                  then-Ensures post (decode_varbind_list (level + 1) max_varbinds p.1) _
                    (λ vbs e4. (refl, refl, (pdu, e, refl, known)))))))
      ])

earned :
    (comms : Communities) (level : ℕ) (community buf : List ℕ) (before : Ctx) (r : Result Ctx)
    → before.principal ≡ c_string community
    → HasAccess comms (c_string community) before.access_mode
    → Ensures (Decoded level buf before) r
    → Ensures (HasEarned comms level community buf) r
earned comms level community buf before (err e) text may d = tt
earned comms level community buf before (ok ctx) text may (mode, principal, request) =
    (principal ∙ text, rw mode may, request)

pub authorize-HasEarned :
    (comms : Communities) (level version_raw : ℕ) (community p : List ℕ) (from : Ctx)
    → Ensures
        (HasEarned comms (level + 1) community p)
        (authorize comms level version_raw community p from)
unfolding authorize
authorize-HasEarned comms level version_raw community p from =
    elim (access_cases comms (c_string community)) [
      | inl unknown ↦ rw (authorize, unknown) tt
      | inr (inl (same, e)) ↦ rw (authorize, e) (by_mode AccessMode.readwrite (inl (same, refl)))
      | inr (inr (other, same, e)) ↦
          rw (authorize, e) (by_mode AccessMode.read (inr (other, same, refl)))
    ]
  where
    before : AccessMode → Ctx
    before mode = record from {
      version = if version_raw == version_number Version.v2c then Version.v2c else Version.v1;
      principal = c_string community;
      access_mode = mode;
    }

    by_mode :
        (mode : AccessMode)
        → HasAccess comms (c_string community) mode
        → Ensures
            (HasEarned comms (level + 1) community p)
            (decode_request_pdu (level + 1) p (before mode))
    by_mode mode may =
        earned comms (level + 1) community p (before mode) _ refl may
          (decode_request_pdu-Decoded (level + 1) p (before mode))

-- A message with credentials goes on to its community.
pub community_incoming_credentials :
    (comms : Communities) (level : ℕ) (msg : List ℕ) (from : Ctx) (c : Credentials level msg)
    → community_incoming comms msg level from
      ≡ authorize comms level c.version c.community c.field.next from
unfolding community_incoming
community_incoming_credentials comms level msg from c =
    rw (c.is_sequence, c.has_version, c.has_field, c.has_community) refl

expect_tag_found :
    (level tag : ℕ) (buf : List ℕ) (tlv : Tlv)
    → expect_tag level tag buf ≡ ok tlv
    → (decode_tlv level buf ≡ ok tlv) × ((tlv.tag == tag) ≡ true)
unfolding expect_tag
expect_tag_found level tag buf tlv h = elim (Result-cases (decode_tlv level buf)) [
  | inr (e, f) ↦ ground arith
  | inl (t, f) ↦ elim (Bool-cases (t.tag == tag)) [
    | inr other ↦ ground arith
    | inl same ↦ ground arith
  ]
]

pub sniff_version_credentials :
    (msg : List ℕ) (c : Credentials 0 msg) → sniff_version msg ≡ ok c.version
unfolding sniff_version
sniff_version_credentials msg c =
    let (found, same) = expect_tag_found 0 tag_sequence msg c.top c.is_sequence in
    rw (found, same, c.has_version) refl
