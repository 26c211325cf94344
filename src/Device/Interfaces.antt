-- ===== src/Device/Interfaces.antt =====
-- ifNumber, ifTable and ifXTable: firmware/components/mib/mib_iftable.c.
use wespe.Prelude.{ℕ, ◌||◌, Option, none, some, List, [], ◌∷◌, ◌==◌, if◌then◌else◌}
use wespe.Ber.Types.{
  tag_integer, tag_octet_string, tag_gauge32, tag_timeticks, tag_counter32, tag_counter64,
}
use wespe.Mib.Types.{MibResult, Access, Getter, Object, Column, Table}
use wespe.Mib.Registry.{Registry, register_module, register_table}
use wespe.Hal.Interfaces.{Hal}
use wespe.Device.Types.{Device, with_integer, with_octets}

abbrev pub if_index_sta : ℕ
if_index_sta = 1

abbrev pub oid_if_number : List ℕ
oid_if_number = 1 ∷ 3 ∷ 6 ∷ 1 ∷ 2 ∷ 1 ∷ 2 ∷ 1 ∷ 0 ∷ []

abbrev pub if_table_entry_oid : List ℕ
if_table_entry_oid = 1 ∷ 3 ∷ 6 ∷ 1 ∷ 2 ∷ 1 ∷ 2 ∷ 2 ∷ 1 ∷ []

abbrev pub ifx_table_entry_oid : List ℕ
ifx_table_entry_oid = 1 ∷ 3 ∷ 6 ∷ 1 ∷ 2 ∷ 1 ∷ 31 ∷ 1 ∷ 1 ∷ 1 ∷ []

-- "wifi0 (ESP32-S3 WiFi Station)"
abbrev pub if_descr_text : List ℕ
if_descr_text =
    119 ∷ 105 ∷ 102 ∷ 105 ∷ 48 ∷ 32 ∷ 40 ∷ 69 ∷ 83 ∷ 80 ∷ 51 ∷ 50 ∷ 45 ∷ 83 ∷ 51 ∷ 32 ∷ 87 ∷ 105
    ∷ 70 ∷ 105 ∷ 32 ∷ 83 ∷ 116 ∷ 97 ∷ 116 ∷ 105 ∷ 111 ∷ 110 ∷ 41 ∷ []

-- "wifi0"
abbrev pub if_name_text : List ℕ
if_name_text = 119 ∷ 105 ∷ 102 ∷ 105 ∷ 48 ∷ []

abbrev ro_column : ℕ → ℕ → Column
ro_column number tag = record { number = number; value_tag = tag; access = Access.ro }

abbrev pub iftable_columns : List Column
iftable_columns =
    ro_column 1 tag_integer
    ∷ ro_column 2 tag_octet_string
    ∷ ro_column 3 tag_integer
    ∷ ro_column 4 tag_integer
    ∷ ro_column 5 tag_gauge32
    ∷ ro_column 6 tag_octet_string
    ∷ ro_column 7 tag_integer
    ∷ ro_column 8 tag_integer
    ∷ ro_column 9 tag_timeticks
    ∷ ro_column 10 tag_counter32
    ∷ ro_column 16 tag_counter32
    ∷ []

abbrev pub ifxtable_columns : List Column
ifxtable_columns =
    ro_column 1 tag_octet_string ∷ ro_column 6 tag_counter64 ∷ ro_column 10 tag_counter64 ∷ []

module _ {H : Type 0} where
  unfoldable pub get_if_number : Getter (Device H)
  get_if_number d vb = (MibResult.ok, with_integer 1 vb, d)

  -- Exactly one row.
  abbrev pub if_first_index : Device H → Option ℕ
  if_first_index d = some if_index_sta

  abbrev pub if_next_index : Device H → ℕ → Option ℕ
  if_next_index d current_index = none

  unfoldable pub ifxtable_get_cell : ℕ → ℕ → Getter (Device H)
  ifxtable_get_cell column index d vb =
      if column == 1
      then (MibResult.ok, with_octets if_name_text vb, d)
      else if column == 6 || column == 10
      then (MibResult.ok, record vb { value_tag = tag_counter64; counter64_value = 0 }, d)
      else (MibResult.gen_err, vb, d)

  abbrev pub iftable_scalars : List (Object (Device H))
  iftable_scalars =
      record {
        oid = oid_if_number;
        value_tag = tag_integer;
        access = Access.ro;
        getter = get_if_number;
        setter = none;
      }
      ∷ []

  abbrev pub ifxtable : Table (Device H)
  ifxtable = record {
    entry_oid = ifx_table_entry_oid;
    columns = ifxtable_columns;
    first_index = if_first_index;
    next_index = if_next_index;
    get_cell = ifxtable_get_cell;
    set_cell = none;
  }

module _ {H : Type 0} (hal : Hal H) where
  -- The cells that ask a driver.
  unfoldable pub get_phys_address : Getter (Device H)
  get_phys_address d vb = elim (hal.wifi_mac d.hardware) [
    | none ↦ (MibResult.gen_err, vb, d)
    | some mac ↦ (MibResult.ok, with_octets mac vb, d)
  ]

  unfoldable pub get_last_change : Getter (Device H)
  get_last_change d vb =
      let (ticks, hardware) = hal.wifi_last_change_ticks d.hardware in
      (
        MibResult.ok,
        record vb { value_tag = tag_timeticks; int_value = ticks },
        record d { hardware = hardware },
      )

  unfoldable pub iftable_get_cell : ℕ → ℕ → Getter (Device H)
  unfolding get_phys_address get_last_change
  iftable_get_cell column index d vb =
      if column == 1
      then (MibResult.ok, with_integer if_index_sta vb, d)
      else if column == 2
      then (MibResult.ok, with_octets if_descr_text vb, d)
      else if column == 3
      then (MibResult.ok, with_integer 71 vb, d)
      else if column == 4
      then (MibResult.ok, with_integer 1500 vb, d)
      else if column == 5
      then (MibResult.ok, record vb { value_tag = tag_gauge32; int_value = 72200000 }, d)
      else if column == 6
      then get_phys_address d vb
      else if column == 7
      then (MibResult.ok, with_integer 1 vb, d)
      else if column == 8
      then (MibResult.ok, with_integer (if hal.wifi_oper_up d.hardware then 1 else 2) vb, d)
      else if column == 9
      then get_last_change d vb
      else if column == 10 || column == 16
      then (MibResult.ok, record vb { value_tag = tag_counter32; int_value = 0 }, d)
      else (MibResult.gen_err, vb, d)

  abbrev pub iftable : Table (Device H)
  iftable = record {
    entry_oid = if_table_entry_oid;
    columns = iftable_columns;
    first_index = if_first_index;
    next_index = if_next_index;
    get_cell = iftable_get_cell;
    set_cell = none;
  }

  unfoldable pub mib_iftable_register : Registry (Device H) → Registry (Device H)
  mib_iftable_register reg =
      let with_scalars = (register_module iftable_scalars reg).0 in
      let with_iftable = (register_table iftable with_scalars).0 in
      (register_table ifxtable with_iftable).0
