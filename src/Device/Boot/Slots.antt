-- ===== src/Device/Boot/Slots.antt =====
-- The slots of wespeSensorTable stay inside their arrays: mib_sensor_table.c of firmware/components/mib.
use wespe.Prelude.{
  ℕ, true, ◌&&◌, ◌≤◌, refl, ◌+◌, ◌-◌, ◌%◌, ◌^◌, ◌<◌, ◌≡◌, ◌∙◌, arith, inl, inr, Bool-cases,
  Option-cases, List, [], ◌∷◌, ◌++◌, leb, length, length-set, length-take_le, get_or, set, All,
  All-set, IsU64, decimal,
}
use wespe.Mib.Types.{Varbind}
use wespe.Hal.Interfaces.{Hal, sensor_max_count}
use wespe.Device.Types.{Device, access_slot}
use wespe.Device.System.{wespe_str_max}
use wespe.Device.Sensors.{
  wespe_sensor_label_max, default_label, get_label, get_read_count, sensor_row_exists,
  get_sensor_temperature, get_sensor_status, sensor_get_cell, sensor_set_cell, is_blank,
}

-- Every text leaves room for its NUL, there is a slot for each sensor that there can be, a counter is a
-- uint64_t, and no slot was accessed that is not there.
pub record IsValid {H : Type 0} (d : Device H) : Type 0 where
  pub contact_fits : length d.sys_contact < wespe_str_max
  pub name_fits : length d.sys_name < wespe_str_max
  pub location_fits : length d.sys_location < wespe_str_max
  pub labels_count : length d.labels ≡ sensor_max_count
  pub labels_fit : All (λ s. length s < wespe_sensor_label_max) d.labels
  pub counters_count : length d.read_count ≡ sensor_max_count
  pub counters_fit : All IsU64 d.read_count
  pub inside : d.in_bounds ≡ true

-- A row that there can be has its slot in an array of SENSOR_MAX_COUNT entries.
abbrev IsSlot : ℕ → Type 0
IsSlot index = (1 ≤ index) × (index ≤ sensor_max_count)

default_label_fits : (index : ℕ) → length (default_label index) < wespe_sensor_label_max
unfolding default_label
default_label_fits index =
    omega (arith, length-take_le {0} 31 ((115 ∷ 101 ∷ 110 ∷ 115 ∷ 111 ∷ 114 ∷ []) ++ decimal index))

module _ {H : Type 0} where
  with_labels :
      (d : Device H) (i : ℕ) (s : List ℕ)
      → length s < wespe_sensor_label_max
      → IsValid d
      → IsValid (record d { labels = set d.labels i s })
  with_labels d i s h v = record {
    contact_fits = v.contact_fits;
    name_fits = v.name_fits;
    location_fits = v.location_fits;
    labels_count = length-set d.labels i s ∙ v.labels_count;
    labels_fit = All-set (λ s. length s < wespe_sensor_label_max) d.labels i s v.labels_fit h;
    counters_count = v.counters_count;
    counters_fit = v.counters_fit;
    inside = v.inside;
  }

  with_read_count :
      (d : Device H) (i n : ℕ)
      → IsU64 n
      → IsValid d
      → IsValid (record d { read_count = set d.read_count i n })
  with_read_count d i n h v = record {
    contact_fits = v.contact_fits;
    name_fits = v.name_fits;
    location_fits = v.location_fits;
    labels_count = v.labels_count;
    labels_fit = v.labels_fit;
    counters_count = length-set d.read_count i n ∙ v.counters_count;
    counters_fit = All-set IsU64 d.read_count i n v.counters_fit h;
    inside = v.inside;
  }

  access_slot-IsValid :
      {A : Type 0} (slots : List A) (index : ℕ) (d : Device H)
      → length slots ≡ sensor_max_count
      → IsSlot index
      → IsValid d
      → IsValid (access_slot slots index d)
  access_slot-IsValid slots index d size (low, high) v =
      let there : (leb 1 index && leb index (length slots)) ≡ true = ground arith in
      rw there (
        rw v.inside (record {
          contact_fits = v.contact_fits;
          name_fits = v.name_fits;
          location_fits = v.location_fits;
          labels_count = v.labels_count;
          labels_fit = v.labels_fit;
          counters_count = v.counters_count;
          counters_fit = v.counters_fit;
          inside = refl;
        }))

  get_label-IsValid :
      (index : ℕ) (d : Device H) (vb : Varbind)
      → IsSlot index
      → IsValid d
      → IsValid (get_label index d vb).2
  unfolding get_label
  get_label-IsValid index d vb slot v =
      let d' = access_slot d.labels index d in
      let v' = access_slot-IsValid d.labels index d v.labels_count slot v in
      elim (Bool-cases (is_blank (get_or d.labels (index - 1) []))) [
        | inl blank ↦
            rw blank
              (with_labels d' (index - 1) (default_label index) (default_label_fits index) v')
        | inr named ↦ rw named v'
      ]

  get_read_count-IsValid :
      (index : ℕ) (d : Device H) (vb : Varbind)
      → IsSlot index
      → IsValid d
      → IsValid (get_read_count index d vb).2
  unfolding get_read_count
  get_read_count-IsValid index d vb slot v =
      access_slot-IsValid d.read_count index d v.counters_count slot v

module _ {H : Type 0} (hal : Hal H) where
  sensor_temperature-IsValid :
      (index : ℕ) (d : Device H) (vb : Varbind)
      → IsSlot index
      → IsValid d
      → IsValid (get_sensor_temperature hal index d vb).2
  unfolding get_sensor_temperature
  sensor_temperature-IsValid index d vb slot v =
      elim (Option-cases (hal.sensor_read_indexed index d.hardware)) [
        | inl e ↦ rw (get_sensor_temperature, e) v
        | inr (n, e) ↦
            let count = get_or d.read_count (index - 1) 0 in
            rw (get_sensor_temperature, e)
              (with_read_count (access_slot d.read_count index d) (index - 1) ((count + 1) % 2 ^ 64)
                (omega arith) (access_slot-IsValid d.read_count index d v.counters_count slot v))
      ]

  sensor_status-IsValid :
      (index : ℕ) (d : Device H) (vb : Varbind)
      → IsValid d
      → IsValid (get_sensor_status hal index d vb).2
  unfolding get_sensor_status
  sensor_status-IsValid index d vb v =
      elim (Option-cases (hal.sensor_read_indexed index d.hardware)) [
        | inl e ↦ rw (get_sensor_status, e) v
        | inr (n, e) ↦ rw (get_sensor_status, e) v
      ]

  module _ (bounded : (h : H) → hal.sensor_count h ≤ sensor_max_count) where
    row-IsSlot : (d : Device H) (index : ℕ) → sensor_row_exists hal d index ≡ true → IsSlot index
    row-IsSlot d index row = (ground arith, ground (arith, bounded d.hardware))

    pub sensor_get-IsValid :
        (column index : ℕ) (d : Device H) (vb : Varbind)
        → IsValid d
        → IsValid (sensor_get_cell hal column index d vb).2
    unfolding sensor_get_cell
    sensor_get-IsValid column index d vb v = elim (Bool-cases (sensor_row_exists hal d index)) [
      | inr gone ↦ rw (sensor_get_cell, gone) v
      | inl row ↦
          let slot = row-IsSlot d index row in
          rw (sensor_get_cell, row)
            (ground (
              arith,
              get_label-IsValid index d vb slot v,
              get_read_count-IsValid index d vb slot v,
              sensor_temperature-IsValid index d vb slot v,
              sensor_status-IsValid index d vb v,
            ))
    ]

    pub sensor_set-IsValid :
        (column index : ℕ) (d : Device H) (vb : Varbind)
        → IsValid d
        → IsValid (sensor_set_cell hal column index d vb).1
    unfolding sensor_set_cell
    sensor_set-IsValid column index d vb v = elim (Bool-cases (sensor_row_exists hal d index)) [
      | inr gone ↦ rw (sensor_set_cell, gone) v
      | inl row ↦
          let slot = row-IsSlot d index row in
          let d' = access_slot d.labels index d in
          let v' = access_slot-IsValid d.labels index d v.labels_count slot v in
          elim (Bool-cases (leb wespe_sensor_label_max (length vb.octets))) [
            | inl long ↦ rw (sensor_set_cell, row, long) (ground arith)
            | inr fits ↦
                rw (sensor_set_cell, row, fits)
                  (ground (arith, with_labels d' (index - 1) vb.octets (ground arith) v'))
          ]
    ]
