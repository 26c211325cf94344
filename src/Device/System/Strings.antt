-- ===== src/Device/System/Strings.antt =====
-- The writable strings of the `system` group: firmware/components/mib/mib_ii.c.
use wespe.Prelude.{
  ℕ, ◌<◌, ◌≤◌, ◌≢◌, ◌≡◌, ◌⊎◌, inl, inr, refl, arith, Bool-cases, leb, ◌==◌, length, List, c_string,
}
use wespe.Ber.Types.{tag_octet_string}
use wespe.Mib.Types.{MibResult, Varbind, Getter, Setter}
use wespe.Device.Types.{Device, with_octets}
use wespe.Device.System.{
  wespe_str_max, set_string_field, get_sys_contact, set_sys_contact, get_sys_name, set_sys_name,
  get_sys_location, set_sys_location,
}

module _ {H : Type 0} where
  -- A set either stores an OCTET STRING of fewer than WESPE_STR_MAX bytes, which is read back up to its
  -- first NUL; or it is refused for its type or its length, and changes nothing.
  abbrev pub IsStringField : Getter (Device H) → Setter (Device H) → Type 0
  IsStringField getter setter =
      (d : Device H) (vb out : Varbind)
      → (((setter d vb).0 ≡ MibResult.ok)
          × (vb.value_tag ≡ tag_octet_string)
          × (length vb.octets < wespe_str_max)
          × (getter (setter d vb).1 out
              ≡ (MibResult.ok, with_octets (c_string vb.octets) out, (setter d vb).1)))
        ⊎ (((setter d vb ≡ (MibResult.wrong_type, d)) × (vb.value_tag ≢ tag_octet_string))
            ⊎ ((setter d vb ≡ (MibResult.wrong_value, d)) × (wespe_str_max ≤ length vb.octets)))

  -- A field is read and written as a part of the device.
  is_string_field :
      (read : Device H → List ℕ) (write : Device H → List ℕ → Device H)
      → ((d : Device H) (s : List ℕ) → read (write d s) ≡ s)
      → ((d : Device H) → write d (read d) ≡ d)
      → IsStringField
          (λ d vb. (MibResult.ok, with_octets (c_string (read d)) vb, d))
          (λ d vb.
            let (res, field) = set_string_field wespe_str_max vb (read d) in (res, write d field))
  unfolding set_string_field
  is_string_field read write read_write write_read d vb out =
      elim (Bool-cases (vb.value_tag == tag_octet_string)) [
        | inr other ↦ inr (inl (rw (other, write_read d) refl, ground arith))
        | inl text ↦ elim (Bool-cases (leb wespe_str_max (length vb.octets))) [
          | inl long ↦ inr (inr (rw (text, long, write_read d) refl, ground arith))
          | inr fits ↦ inl (
            rw (text, fits) refl,
            ground arith,
            ground arith,
            rw (text, fits, read_write d vb.octets) refl,
          )
        ]
      ]

-- sysContact, sysName and sysLocation: a set stores an OCTET STRING of fewer than WESPE_STR_MAX bytes,
-- which is then read back up to its first NUL; any other value is refused with MIB_WRONG_TYPE or, if it
-- is too long, with MIB_WRONG_VALUE, and nothing is changed.
pub strings-IsStringField :
    (H : Type 0)
    → IsStringField {H = H} get_sys_contact set_sys_contact
      × IsStringField {H = H} get_sys_name set_sys_name
      × IsStringField {H = H} get_sys_location set_sys_location
unfolding get_sys_contact set_sys_contact get_sys_name set_sys_name get_sys_location
    set_sys_location
strings-IsStringField H = (
  is_string_field (λ d. d.sys_contact) (λ d s. record d { sys_contact = s }) (λ d s. refl)
      (λ d. refl),
  is_string_field (λ d. d.sys_name) (λ d s. record d { sys_name = s }) (λ d s. refl) (λ d. refl),
  is_string_field (λ d. d.sys_location) (λ d s. record d { sys_location = s }) (λ d s. refl)
      (λ d. refl),
)
