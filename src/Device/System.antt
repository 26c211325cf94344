-- ===== src/Device/System.antt =====
-- The `system` group: firmware/components/mib/mib_ii.c.
pub mod Strings
use wespe.Prelude.{
  ℕ, ◌/◌, ◌%◌, ◌^◌, Option, none, some, not, List, [], ◌∷◌, leb, ◌==◌, if◌then◌else◌, length,
  c_string,
}
use wespe.Ber.Types.{tag_integer, tag_octet_string, tag_oid, tag_timeticks}
use wespe.Mib.Types.{MibResult, Varbind, Access, Getter, Setter, Object}
use wespe.Mib.Registry.{Registry, register_module}
use wespe.Hal.Interfaces.{Hal}
use wespe.Device.Types.{Device, with_integer, with_octets}

abbrev pub wespe_str_max : ℕ
wespe_str_max = 64

abbrev pub oid_sys_descr : List ℕ
oid_sys_descr = 1 ∷ 3 ∷ 6 ∷ 1 ∷ 2 ∷ 1 ∷ 1 ∷ 1 ∷ 0 ∷ []

abbrev pub oid_sys_object_id : List ℕ
oid_sys_object_id = 1 ∷ 3 ∷ 6 ∷ 1 ∷ 2 ∷ 1 ∷ 1 ∷ 2 ∷ 0 ∷ []

abbrev pub oid_sys_uptime : List ℕ
oid_sys_uptime = 1 ∷ 3 ∷ 6 ∷ 1 ∷ 2 ∷ 1 ∷ 1 ∷ 3 ∷ 0 ∷ []

abbrev pub oid_sys_contact : List ℕ
oid_sys_contact = 1 ∷ 3 ∷ 6 ∷ 1 ∷ 2 ∷ 1 ∷ 1 ∷ 4 ∷ 0 ∷ []

abbrev pub oid_sys_name : List ℕ
oid_sys_name = 1 ∷ 3 ∷ 6 ∷ 1 ∷ 2 ∷ 1 ∷ 1 ∷ 5 ∷ 0 ∷ []

abbrev pub oid_sys_location : List ℕ
oid_sys_location = 1 ∷ 3 ∷ 6 ∷ 1 ∷ 2 ∷ 1 ∷ 1 ∷ 6 ∷ 0 ∷ []

abbrev pub oid_sys_services : List ℕ
oid_sys_services = 1 ∷ 3 ∷ 6 ∷ 1 ∷ 2 ∷ 1 ∷ 1 ∷ 7 ∷ 0 ∷ []

abbrev pub wespe_sys_object_id : List ℕ
wespe_sys_object_id = 1 ∷ 3 ∷ 6 ∷ 1 ∷ 4 ∷ 1 ∷ 99999 ∷ 1 ∷ 1 ∷ []

-- "Wespe ESP32-S3 SNMP Agent"
abbrev pub descr_text : List ℕ
descr_text =
    87 ∷ 101 ∷ 115 ∷ 112 ∷ 101 ∷ 32 ∷ 69 ∷ 83 ∷ 80 ∷ 51 ∷ 50 ∷ 45 ∷ 83 ∷ 51 ∷ 32 ∷ 83 ∷ 78 ∷ 77 ∷ 80
    ∷ 32 ∷ 65 ∷ 103 ∷ 101 ∷ 110 ∷ 116 ∷ []

-- "wespe-esp32s3"
abbrev pub initial_name : List ℕ
initial_name = 119 ∷ 101 ∷ 115 ∷ 112 ∷ 101 ∷ 45 ∷ 101 ∷ 115 ∷ 112 ∷ 51 ∷ 50 ∷ 115 ∷ 51 ∷ []

-- set_string_field: the result, and what is in the field after it.
unfoldable pub set_string_field : ℕ → Varbind → List ℕ → MibResult × List ℕ
set_string_field field_cap vb field =
    if not (vb.value_tag == tag_octet_string)
    then (MibResult.wrong_type, field)
    else if leb field_cap (length vb.octets)
    then (MibResult.wrong_value, field)
    else (MibResult.ok, vb.octets)

module _ {H : Type 0} where
  unfoldable pub get_sys_descr : Getter (Device H)
  get_sys_descr d vb = (MibResult.ok, with_octets descr_text vb, d)

  unfoldable pub get_sys_object_id : Getter (Device H)
  get_sys_object_id d vb =
      (MibResult.ok, record vb { value_tag = tag_oid; oid_value = wespe_sys_object_id }, d)

  unfoldable pub get_sys_contact : Getter (Device H)
  get_sys_contact d vb = (MibResult.ok, with_octets (c_string d.sys_contact) vb, d)

  unfoldable pub set_sys_contact : Setter (Device H)
  unfolding set_string_field
  set_sys_contact d vb =
      let (res, field) = set_string_field wespe_str_max vb d.sys_contact in
      (res, record d { sys_contact = field })

  unfoldable pub get_sys_name : Getter (Device H)
  get_sys_name d vb = (MibResult.ok, with_octets (c_string d.sys_name) vb, d)

  unfoldable pub set_sys_name : Setter (Device H)
  unfolding set_string_field
  set_sys_name d vb =
      let (res, field) = set_string_field wespe_str_max vb d.sys_name in
      (res, record d { sys_name = field })

  unfoldable pub get_sys_location : Getter (Device H)
  get_sys_location d vb = (MibResult.ok, with_octets (c_string d.sys_location) vb, d)

  unfoldable pub set_sys_location : Setter (Device H)
  unfolding set_string_field
  set_sys_location d vb =
      let (res, field) = set_string_field wespe_str_max vb d.sys_location in
      (res, record d { sys_location = field })

  unfoldable pub get_sys_services : Getter (Device H)
  get_sys_services d vb = (MibResult.ok, with_integer 64 vb, d)

module _ {H : Type 0} (hal : Hal H) where
  unfoldable pub get_sys_uptime : Getter (Device H)
  get_sys_uptime d vb =
      let hundredths = hal.uptime_ms d.hardware / 10 in
      (MibResult.ok, record vb { value_tag = tag_timeticks; int_value = hundredths % 2 ^ 32 }, d)

  abbrev pub mib_ii_objects : List (Object (Device H))
  mib_ii_objects =
      record {
        oid = oid_sys_descr;
        value_tag = tag_octet_string;
        access = Access.ro;
        getter = get_sys_descr;
        setter = none;
      }
      ∷ record {
        oid = oid_sys_object_id;
        value_tag = tag_oid;
        access = Access.ro;
        getter = get_sys_object_id;
        setter = none;
      }
      ∷ record {
        oid = oid_sys_uptime;
        value_tag = tag_timeticks;
        access = Access.ro;
        getter = get_sys_uptime;
        setter = none;
      }
      ∷ record {
        oid = oid_sys_contact;
        value_tag = tag_octet_string;
        access = Access.rw;
        getter = get_sys_contact;
        setter = some set_sys_contact;
      }
      ∷ record {
        oid = oid_sys_name;
        value_tag = tag_octet_string;
        access = Access.rw;
        getter = get_sys_name;
        setter = some set_sys_name;
      }
      ∷ record {
        oid = oid_sys_location;
        value_tag = tag_octet_string;
        access = Access.rw;
        getter = get_sys_location;
        setter = some set_sys_location;
      }
      ∷ record {
        oid = oid_sys_services;
        value_tag = tag_integer;
        access = Access.ro;
        getter = get_sys_services;
        setter = none;
      }
      ∷ []

  unfoldable pub mib_ii_register : Registry (Device H) → Registry (Device H)
  mib_ii_register reg = (register_module mib_ii_objects reg).0
