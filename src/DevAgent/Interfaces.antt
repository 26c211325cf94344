-- ===== src/DevAgent/Interfaces.antt =====
-- ifNumber, ifTable and ifXTable of tools/dev_agent/dev_agent.c.
use wespe.Prelude.{
  ℕ, ◌+◌, ◌*◌, ◌%◌, ◌^◌, ◌||◌, not, Option, none, some, List, [], ◌∷◌, ltb, ◌==◌, if◌then◌else◌,
}
use wespe.Ber.Types.{
  tag_integer, tag_octet_string, tag_gauge32, tag_timeticks, tag_counter32, tag_counter64,
}
use wespe.Mib.Types.{MibResult, Access, Getter, Object, Column, Table}
use wespe.Device.Types.{with_integer, with_octets}
use wespe.DevAgent.Types.{MockIfRow, DevAgent, find_row, store_row}
use wespe.DevAgent.Scalars.{ro_object}

-- "wlan0"
abbrev wlan0 : List ℕ
wlan0 = 119 ∷ 108 ∷ 97 ∷ 110 ∷ 48 ∷ []

-- "lo0"
abbrev lo0 : List ℕ
lo0 = 108 ∷ 111 ∷ 48 ∷ []

-- s_if_rows at the start
abbrev pub initial_if_rows : List MockIfRow
initial_if_rows =
    record {
      index = 1;
      descr = wlan0;
      name = wlan0;
      if_type = 71;
      mac = 170 ∷ 187 ∷ 204 ∷ 221 ∷ 238 ∷ 1 ∷ [];
      in_octets = 0;
      out_octets = 0;
    }
    ∷ record {
      index = 2;
      descr = lo0;
      name = lo0;
      if_type = 24;
      mac = 0 ∷ 0 ∷ 0 ∷ 0 ∷ 0 ∷ 0 ∷ [];
      in_octets = 100;
      out_octets = 100;
    }
    ∷ []

abbrev pub if_row_count : ℕ
if_row_count = 2

unfoldable pub get_if_number : Getter DevAgent
get_if_number d vb = (MibResult.ok, with_integer if_row_count vb, d)

abbrev pub oid_if_number : List ℕ
oid_if_number = 1 ∷ 3 ∷ 6 ∷ 1 ∷ 2 ∷ 1 ∷ 2 ∷ 1 ∷ 0 ∷ []

abbrev pub iftable_scalars : List (Object DevAgent)
iftable_scalars = ro_object oid_if_number tag_integer get_if_number ∷ []

abbrev pub find_if_row : ℕ → DevAgent → Option MockIfRow
find_if_row index d = find_row (λ (r : MockIfRow). r.index) index d.if_rows

-- s_if_rows[0].index; the array is never empty.
unfoldable pub index_of_first : List MockIfRow → Option ℕ
index_of_first [] = none
index_of_first (row ∷ rows) = some row.index

abbrev pub if_first_index : DevAgent → Option ℕ
if_first_index d = index_of_first d.if_rows

-- The loop of if_next_index.
unfoldable pub index_above : ℕ → List MockIfRow → Option ℕ
index_above current_index [] = none
index_above current_index (row ∷ rows) =
    if ltb current_index row.index then some row.index else index_above current_index rows

abbrev pub if_next_index : DevAgent → ℕ → Option ℕ
if_next_index d current_index = index_above current_index d.if_rows

-- The row with its counters refreshed, and the agent that it is written to.
unfoldable pub refresh_climbing_counters : MockIfRow → DevAgent → MockIfRow × DevAgent
refresh_climbing_counters row d =
    let t = d.elapsed % 2 ^ 32 in
    let climbed = record row {
      in_octets = (t * 1500 + 2000) % 2 ^ 32;
      out_octets = (t * 900 + 500) % 2 ^ 32;
    } in
    if not (row.index == 1)
    then (row, d)
    else (climbed, record d { if_rows = store_row (λ (r : MockIfRow). r.index) climbed d.if_rows })

-- The switch of iftable_get_cell.
unfoldable pub if_cell : ℕ → MockIfRow → Getter DevAgent
if_cell column row d vb =
    if column == 1
    then (MibResult.ok, with_integer row.index vb, d)
    else if column == 2
    then (MibResult.ok, with_octets row.descr vb, d)
    else if column == 3
    then (MibResult.ok, with_integer row.if_type vb, d)
    else if column == 4
    then (MibResult.ok, with_integer (if row.index == 2 then 65536 else 1500) vb, d)
    else if column == 5
    then (
      MibResult.ok,
      record vb {
        value_tag = tag_gauge32;
        int_value = if row.index == 2 then 10000000 else 72200000;
      },
      d,
    )
    else if column == 6
    then (MibResult.ok, with_octets row.mac vb, d)
    else if column == 7 || column == 8
    then (MibResult.ok, with_integer 1 vb, d)
    else if column == 9
    then (MibResult.ok, record vb { value_tag = tag_timeticks; int_value = 0 }, d)
    else if column == 10
    then (MibResult.ok, record vb { value_tag = tag_counter32; int_value = row.in_octets }, d)
    else if column == 16
    then (MibResult.ok, record vb { value_tag = tag_counter32; int_value = row.out_octets }, d)
    else (MibResult.gen_err, vb, d)

-- The switch of ifxtable_get_cell.
unfoldable pub ifx_cell : ℕ → MockIfRow → Getter DevAgent
ifx_cell column row d vb =
    if column == 1
    then (MibResult.ok, with_octets row.name vb, d)
    else if column == 6
    then (MibResult.ok, record vb { value_tag = tag_counter64; counter64_value = row.in_octets }, d)
    else if column == 10
    then (
      MibResult.ok,
      record vb { value_tag = tag_counter64; counter64_value = row.out_octets },
      d,
    )
    else (MibResult.gen_err, vb, d)

-- What the two functions share: the row is found and refreshed.
unfoldable pub with_if_row : (MockIfRow → Getter DevAgent) → ℕ → Getter DevAgent
unfolding refresh_climbing_counters
with_if_row cell index d vb = elim (find_if_row index d) [
  | none ↦ (MibResult.no_such_instance, vb, d)
  | some row ↦ let (fresh, d') = refresh_climbing_counters row d in cell fresh d' vb
]

abbrev pub iftable_get_cell : ℕ → ℕ → Getter DevAgent
iftable_get_cell column = with_if_row (if_cell column)

abbrev pub ifxtable_get_cell : ℕ → ℕ → Getter DevAgent
ifxtable_get_cell column = with_if_row (ifx_cell column)

abbrev pub ro_column : ℕ → ℕ → Column
ro_column number tag = record { number = number; value_tag = tag; access = Access.ro }

abbrev pub if_table_entry_oid : List ℕ
if_table_entry_oid = 1 ∷ 3 ∷ 6 ∷ 1 ∷ 2 ∷ 1 ∷ 2 ∷ 2 ∷ 1 ∷ []

abbrev pub iftable_columns : List Column
iftable_columns =
    ro_column 1 tag_integer
    ∷ ro_column 2 tag_octet_string
    ∷ ro_column 3 tag_integer
    ∷ ro_column 4 tag_integer
    ∷ ro_column 5 tag_gauge32
    ∷ ro_column 6 tag_octet_string
    ∷ ro_column 7 tag_integer
    ∷ ro_column 8 tag_integer
    ∷ ro_column 9 tag_timeticks
    ∷ ro_column 10 tag_counter32
    ∷ ro_column 16 tag_counter32
    ∷ []

abbrev pub iftable : Table DevAgent
iftable = record {
  entry_oid = if_table_entry_oid;
  columns = iftable_columns;
  first_index = if_first_index;
  next_index = if_next_index;
  get_cell = iftable_get_cell;
  set_cell = none;
}

abbrev pub ifx_table_entry_oid : List ℕ
ifx_table_entry_oid = 1 ∷ 3 ∷ 6 ∷ 1 ∷ 2 ∷ 1 ∷ 31 ∷ 1 ∷ 1 ∷ 1 ∷ []

abbrev pub ifxtable_columns : List Column
ifxtable_columns =
    ro_column 1 tag_octet_string ∷ ro_column 6 tag_counter64 ∷ ro_column 10 tag_counter64 ∷ []

abbrev pub ifxtable : Table DevAgent
ifxtable = record {
  entry_oid = ifx_table_entry_oid;
  columns = ifxtable_columns;
  first_index = if_first_index;
  next_index = if_next_index;
  get_cell = ifxtable_get_cell;
  set_cell = none;
}
