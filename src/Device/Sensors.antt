-- ===== src/Device/Sensors.antt =====
-- wespeSensorTable: firmware/components/mib/mib_sensor_table.c.
pub mod Rows
pub mod Labels
use wespe.Prelude.{
  ℕ, ◌+◌, ◌-◌, ◌%◌, ◌^◌, Bool, true, false, ◌&&◌, not, Option, none, some, List, [], ◌∷◌, ◌++◌, ltb,
  leb, ◌==◌, if◌then◌else◌, length, take, get_or, set, c_string, decimal,
}
use wespe.Ber.Types.{tag_integer, tag_octet_string, tag_counter64}
use wespe.Mib.Types.{MibResult, Varbind, Access, Getter, Setter, Column, Table}
use wespe.Mib.Registry.{Registry, register_table}
use wespe.Hal.Interfaces.{Hal, sensor_max_count}
use wespe.Device.Types.{Device, access_slot, with_integer, with_octets, get_integer}

abbrev pub wespe_sensor_label_max : ℕ
wespe_sensor_label_max = 32

abbrev pub sensor_table_entry_oid : List ℕ
sensor_table_entry_oid = 1 ∷ 3 ∷ 6 ∷ 1 ∷ 4 ∷ 1 ∷ 99999 ∷ 2 ∷ 6 ∷ 1 ∷ []

abbrev pub col_label : ℕ
col_label = 2

abbrev pub sensor_table_columns : List Column
sensor_table_columns =
    record { number = 1; value_tag = tag_integer; access = Access.ro }
    ∷ record { number = col_label; value_tag = tag_octet_string; access = Access.rw }
    ∷ record { number = 3; value_tag = tag_integer; access = Access.ro }
    ∷ record { number = 4; value_tag = tag_counter64; access = Access.ro }
    ∷ record { number = 5; value_tag = tag_integer; access = Access.ro }
    ∷ []

-- `slot[0] == '\0'`
abbrev pub is_blank : List ℕ → Bool
is_blank [] = true
is_blank (b ∷ bs) = b == 0

-- snprintf(slot, WESPE_SENSOR_LABEL_MAX, "sensor%u", index)
unfoldable pub default_label : ℕ → List ℕ
default_label index =
    take (wespe_sensor_label_max - 1) ((115 ∷ 101 ∷ 110 ∷ 115 ∷ 111 ∷ 114 ∷ []) ++ decimal index)

module _ {H : Type 0} where
  -- What is in the slot, which is filled in on the way if it is blank.
  unfoldable pub label_for : ℕ → Device H → List ℕ × Device H
  label_for index d =
      let slot = get_or d.labels (index - 1) [] in
      let d' = access_slot d.labels index d in
      if is_blank slot
      then (
        default_label index,
        record d' { labels = set d.labels (index - 1) (default_label index) },
      )
      else (slot, d')

  unfoldable pub get_label : ℕ → Getter (Device H)
  unfolding label_for
  get_label index d vb =
      let (label, d') = label_for index d in (MibResult.ok, with_octets (c_string label) vb, d')

  unfoldable pub get_read_count : ℕ → Getter (Device H)
  get_read_count index d vb = (
    MibResult.ok,
    record vb { value_tag = tag_counter64; counter64_value = get_or d.read_count (index - 1) 0 },
    access_slot d.read_count index d,
  )

module _ {H : Type 0} (hal : Hal H) where
  abbrev pub sensor_row_exists : Device H → ℕ → Bool
  sensor_row_exists d index = leb 1 index && leb index (hal.sensor_count d.hardware)

  abbrev pub sensor_first_index : Device H → Option ℕ
  sensor_first_index d = if ltb (hal.sensor_count d.hardware) 1 then none else some 1

  abbrev pub sensor_next_index : Device H → ℕ → Option ℕ
  sensor_next_index d current_index =
      let next = (current_index + 1) % 2 ^ 32 in
      if not (sensor_row_exists d next) then none else some next

  -- COL_TEMP: a successful reading is counted.
  unfoldable pub get_sensor_temperature : ℕ → Getter (Device H)
  get_sensor_temperature index d vb =
      let count = get_or d.read_count (index - 1) 0 in
      elim (hal.sensor_read_indexed index d.hardware) [
        | none ↦ (MibResult.gen_err, vb, d)
        | some decidegrees ↦ (
          MibResult.ok,
          with_integer decidegrees vb,
          record (access_slot d.read_count index d) {
            read_count = set d.read_count (index - 1) ((count + 1) % 2 ^ 64);
          },
        )
      ]

  -- COL_STATUS: ok(1) or readError(2).
  unfoldable pub get_sensor_status : ℕ → Getter (Device H)
  get_sensor_status index d vb = elim (hal.sensor_read_indexed index d.hardware) [
    | none ↦ (MibResult.ok, with_integer 2 vb, d)
    | some decidegrees ↦ (MibResult.ok, with_integer 1 vb, d)
  ]

  unfoldable pub sensor_get_cell : ℕ → ℕ → Getter (Device H)
  unfolding get_label get_read_count get_sensor_temperature get_sensor_status
  sensor_get_cell column index d vb =
      if not (sensor_row_exists d index)
      then (MibResult.no_such_instance, vb, d)
      else if column == 1
      then (MibResult.ok, with_integer index vb, d)
      else if column == col_label
      then get_label index d vb
      else if column == 3
      then get_sensor_temperature index d vb
      else if column == 4
      then get_read_count index d vb
      else if column == 5
      then get_sensor_status index d vb
      else (MibResult.gen_err, vb, d)

  unfoldable pub sensor_set_cell : ℕ → ℕ → Setter (Device H)
  sensor_set_cell column index d vb =
      if not (sensor_row_exists d index)
      then (MibResult.no_such_instance, d)
      else if not (column == col_label)
      then (MibResult.not_writable, d)
      else if not (vb.value_tag == tag_octet_string)
      then (MibResult.wrong_type, d)
      else if leb wespe_sensor_label_max (length vb.octets)
      then (MibResult.wrong_value, d)
      else (
        MibResult.ok,
        record (access_slot d.labels index d) { labels = set d.labels (index - 1) vb.octets },
      )

  abbrev pub sensor_table : Table (Device H)
  sensor_table = record {
    entry_oid = sensor_table_entry_oid;
    columns = sensor_table_columns;
    first_index = sensor_first_index;
    next_index = sensor_next_index;
    get_cell = sensor_get_cell;
    set_cell = some sensor_set_cell;
  }

  -- mib_sensor_table_register, which also clears the labels and the counters.
  unfoldable pub mib_sensor_table_register :
      Registry (Device H) → Device H → Registry (Device H) × Device H
  mib_sensor_table_register reg d = (
    (register_table sensor_table reg).0,
    record d { labels = [] ∷ [] ∷ [] ∷ [] ∷ []; read_count = 0 ∷ 0 ∷ 0 ∷ 0 ∷ [] },
  )
