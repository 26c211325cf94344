-- ===== src/Ber/Types.antt =====
-- firmware/components/ber/include/ber_types.h: tags, status codes, limits; and ber_tlv_t.
use wespe.Prelude.{ℕ, List, ◌≡◌, refl, ◌⊎◌, inl, inr}

-- `BER_OK` is the constructor `ok` of `Result`, which carries what the call writes through its
-- out-parameters.
pub data Status : Type 0 where
  truncated bad_tag bad_length overflow depth bad_args : Status

pub data Result {ℓ} (A : Type ℓ) : Type ℓ where
  ok : A → Result A
  err : Status → Result A

-- `if (st != BER_OK) return st;`
infixl 5 ◌>>=◌ ◌>>◌
abbrev pub ◌>>=◌ {ℓ κ} : {A : Type ℓ} {B : Type κ} → Result A → (A → Result B) → Result B
ok a >>= f = f a
err e >>= f = err e

abbrev pub ◌>>◌ {ℓ κ} : {A : Type ℓ} {B : Type κ} → Result A → Result B → Result B
m >> k = m >>= λ _. k

pub >>=_assoc {ℓ κ μ} :
    {A : Type ℓ} {B : Type κ} {C : Type μ} (m : Result A) (f : A → Result B) (g : B → Result C)
    → (m >>= λ a. f a >>= g) ≡ ((m >>= f) >>= g)
>>=_assoc (ok a) f g = refl
>>=_assoc (err e) f g = refl

-- Success, whatever the value.
abbrev pub IsOk {ℓ} : {A : Type ℓ} → Result A → Type 0
IsOk (ok a) = Unit {0}
IsOk (err e) = ⊥

-- Where the call succeeds its value satisfies `P`.
abbrev pub Ensures {ℓ κ} : {A : Type ℓ} → (A → Type κ) → Result A → Type κ
Ensures P (ok a) = P a
Ensures P (err e) = Unit

pub >>=-Ensures {ℓ κ μ ν} :
    {A : Type ℓ} {B : Type κ} (P : A → Type μ) (Q : B → Type ν) (r : Result A) (f : A → Result B)
    → Ensures P r
    → ((a : A) → P a → Ensures Q (f a))
    → Ensures Q (r >>= f)
>>=-Ensures P Q (ok a) f h k = k a h
>>=-Ensures P Q (err e) f h k = tt

pub Result-cases {ℓ} :
    {A : Type ℓ} (r : Result A) → ((a : A) × (r ≡ ok a)) ⊎ ((e : Status) × (r ≡ err e))
Result-cases (ok a) = inl (a, refl)
Result-cases (err e) = inr (e, refl)

-- Universal tags.
abbrev pub tag_integer : ℕ
tag_integer = 0x02

abbrev pub tag_octet_string : ℕ
tag_octet_string = 0x04

abbrev pub tag_null : ℕ
tag_null = 0x05

abbrev pub tag_oid : ℕ
tag_oid = 0x06

abbrev pub tag_sequence : ℕ
tag_sequence = 0x30

-- Application tags.
abbrev pub tag_ip_address : ℕ
tag_ip_address = 0x40

abbrev pub tag_counter32 : ℕ
tag_counter32 = 0x41

abbrev pub tag_gauge32 : ℕ
tag_gauge32 = 0x42

abbrev pub tag_timeticks : ℕ
tag_timeticks = 0x43

abbrev pub tag_opaque : ℕ
tag_opaque = 0x44

abbrev pub tag_counter64 : ℕ
tag_counter64 = 0x46

-- SNMPv2c exception values.
abbrev pub tag_no_such_object : ℕ
tag_no_such_object = 0x80

abbrev pub tag_no_such_instance : ℕ
tag_no_such_instance = 0x81

abbrev pub tag_end_of_mib_view : ℕ
tag_end_of_mib_view = 0x82

-- PDU tags.
abbrev pub pdu_get_request : ℕ
pdu_get_request = 0xa0

abbrev pub pdu_get_next_request : ℕ
pdu_get_next_request = 0xa1

abbrev pub pdu_get_response : ℕ
pdu_get_response = 0xa2

abbrev pub pdu_set_request : ℕ
pdu_set_request = 0xa3

abbrev pub pdu_trap_v1 : ℕ
pdu_trap_v1 = 0xa4

abbrev pub pdu_get_bulk_request : ℕ
pdu_get_bulk_request = 0xa5

abbrev pub pdu_trap_v2 : ℕ
pdu_trap_v2 = 0xa7

abbrev pub max_nest_depth : ℕ
max_nest_depth = 6

abbrev pub max_oid_len : ℕ
max_oid_len = 20

-- ber_tlv_t. `value` is the content itself, the `length` bytes that the C pointer starts; `next`
-- is what follows the element in the buffer that was decoded.
pub record Tlv : Type 0 where
  pub tag : ℕ
  pub value : List ℕ
  pub next : List ℕ
