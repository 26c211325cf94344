-- ===== src/DevAgent/Sensors.antt =====
-- wespeSensorTable of tools/dev_agent/dev_agent.c, whose second row comes and goes.
use wespe.Prelude.{
  ℕ, ◌+◌, ◌/◌, ◌%◌, ◌^◌, ◌||◌, not, Option, none, some, List, [], ◌∷◌, ltb, leb, ◌==◌,
  if◌then◌else◌, length, c_string,
}
use wespe.Ber.Types.{tag_integer, tag_octet_string, tag_counter64}
use wespe.Mib.Types.{MibResult, Access, Getter, Setter, Column, Table}
use wespe.Device.Types.{with_integer, with_octets}
use wespe.DevAgent.Types.{MockSensorRow, DevAgent, find_row, store_row}
use wespe.DevAgent.Interfaces.{ro_column}

abbrev pub wsensor_label_max : ℕ
wsensor_label_max = 32

abbrev pub wsensor_max_rows : ℕ
wsensor_max_rows = 2

-- One row for the first 4 s of every 8 s, and two for the other 4 s.
unfoldable pub wsensor_row_count : DevAgent → ℕ
wsensor_row_count d = if (d.elapsed / 4) % 2 == 0 then 1 else 2

-- s_sensor_rows at the start: "sensor1" and "sensor2"
abbrev pub initial_sensor_rows : List MockSensorRow
initial_sensor_rows =
    record {
      index = 1;
      label = 115 ∷ 101 ∷ 110 ∷ 115 ∷ 111 ∷ 114 ∷ 49 ∷ [];
      decidegrees = 235;
      read_count = 0;
    }
    ∷ record {
      index = 2;
      label = 115 ∷ 101 ∷ 110 ∷ 115 ∷ 111 ∷ 114 ∷ 50 ∷ [];
      decidegrees = 198;
      read_count = 0;
    }
    ∷ []

abbrev pub sensor_index : MockSensorRow → ℕ
sensor_index row = row.index

unfoldable pub find_sensor_row : ℕ → DevAgent → Option MockSensorRow
unfolding wsensor_row_count
find_sensor_row index d =
    if ltb index 1 || ltb (wsensor_row_count d) index
    then none
    else find_row sensor_index index d.sensor_rows

abbrev pub wsensor_first_index : DevAgent → Option ℕ
wsensor_first_index d = some 1

unfoldable pub wsensor_next_index : DevAgent → ℕ → Option ℕ
unfolding wsensor_row_count
wsensor_next_index d current_index =
    if ltb current_index (wsensor_row_count d) then some ((current_index + 1) % 2 ^ 32) else none

-- The write of a row through the pointer that was found.
abbrev pub with_sensor_row : MockSensorRow → DevAgent → DevAgent
with_sensor_row row d = record d { sensor_rows = store_row sensor_index row d.sensor_rows }

-- The switch of wsensor_get_cell; a reading of the temperature is counted.
unfoldable pub wsensor_cell : ℕ → MockSensorRow → Getter DevAgent
wsensor_cell column row d vb =
    if column == 1
    then (MibResult.ok, with_integer row.index vb, d)
    else if column == 2
    then (MibResult.ok, with_octets (c_string row.label) vb, d)
    else if column == 3
    then (
      MibResult.ok,
      with_integer row.decidegrees vb,
      with_sensor_row (record row { read_count = (row.read_count + 1) % 2 ^ 64 }) d,
    )
    else if column == 4
    then (
      MibResult.ok,
      record vb { value_tag = tag_counter64; counter64_value = row.read_count },
      d,
    )
    else if column == 5
    then (MibResult.ok, with_integer 1 vb, d)
    else (MibResult.gen_err, vb, d)

unfoldable pub wsensor_get_cell : ℕ → ℕ → Getter DevAgent
unfolding find_sensor_row
wsensor_get_cell column index d vb = elim (find_sensor_row index d) [
  | none ↦ (MibResult.no_such_instance, vb, d)
  | some row ↦ wsensor_cell column row d vb
]

-- The checks of wsensor_set_cell, and its write.
unfoldable pub set_label : ℕ → MockSensorRow → Setter DevAgent
set_label column row d vb =
    if not (column == 2)
    then (MibResult.not_writable, d)
    else if not (vb.value_tag == tag_octet_string) || leb wsensor_label_max (length vb.octets)
    then (MibResult.wrong_value, d)
    else (MibResult.ok, with_sensor_row (record row { label = vb.octets }) d)

unfoldable pub wsensor_set_cell : ℕ → ℕ → Setter DevAgent
unfolding find_sensor_row
wsensor_set_cell column index d vb = elim (find_sensor_row index d) [
  | none ↦ (MibResult.no_such_instance, d)
  | some row ↦ set_label column row d vb
]

abbrev pub wsensor_table_entry_oid : List ℕ
wsensor_table_entry_oid = 1 ∷ 3 ∷ 6 ∷ 1 ∷ 4 ∷ 1 ∷ 99999 ∷ 2 ∷ 6 ∷ 1 ∷ []

abbrev pub wsensor_columns : List Column
wsensor_columns =
    ro_column 1 tag_integer
    ∷ record { number = 2; value_tag = tag_octet_string; access = Access.rw }
    ∷ ro_column 3 tag_integer
    ∷ ro_column 4 tag_counter64
    ∷ ro_column 5 tag_integer
    ∷ []

abbrev pub wsensor_table : Table DevAgent
wsensor_table = record {
  entry_oid = wsensor_table_entry_oid;
  columns = wsensor_columns;
  first_index = wsensor_first_index;
  next_index = wsensor_next_index;
  get_cell = wsensor_get_cell;
  set_cell = some wsensor_set_cell;
}
