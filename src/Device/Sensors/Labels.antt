-- ===== src/Device/Sensors/Labels.antt =====
-- The labels and the counters of wespeSensorTable: firmware/components/mib/mib_sensor_table.c.
use wespe.Prelude.{
  ℕ, suc, ◌-◌, ◌≤◌, ◌≡◌, ◌≢◌, refl, arith, Bool-cases, inl, inr, true, ◌==◌, List, [], length,
  get_or, set, get_or-set_self, get_or-set_ne, if◌then◌else◌, c_string,
}
use wespe.Mib.Types.{MibResult, Varbind}
use wespe.Hal.Interfaces.{Hal, sensor_max_count}
use wespe.Device.Types.{Device, access_slot, with_octets}
use wespe.Device.Sensors.{
  col_label, is_blank, default_label, label_for, get_label, sensor_get_cell, sensor_set_cell,
  sensor_row_exists,
}

module _ {H : Type 0} (hal : Hal H) where
  get_cell_label :
      (i : ℕ) (d : Device H) (out : Varbind)
      → sensor_row_exists hal d i ≡ true
      → sensor_get_cell hal col_label i d out ≡ get_label i d out
  unfolding sensor_get_cell
  get_cell_label i d out h = rw (sensor_get_cell, h) refl

  set_label :
      (i : ℕ) (d : Device H) (vb : Varbind)
      → (sensor_set_cell hal col_label i d vb).0 ≡ MibResult.ok
      → (sensor_row_exists hal d i ≡ true)
        × (sensor_set_cell hal col_label i d vb ≡ (
          MibResult.ok,
          record (access_slot d.labels i d) { labels = set d.labels (i - 1) vb.octets },
        ))
  unfolding sensor_set_cell
  set_label i d vb e = (ground arith, ground arith)

  -- What a label reads as.
  abbrev pub label_text : ℕ → List ℕ → List ℕ
  label_text i slot = c_string (if is_blank slot then default_label i else slot)

  get_label-text :
      (i : ℕ) (d : Device H) (out : Varbind)
      → (get_label i d out).0 ≡ MibResult.ok
        × ((get_label i d out).1 ≡ with_octets (label_text i (get_or d.labels (i - 1) [])) out)
  unfolding get_label label_for
  get_label-text i d out = elim (Bool-cases (is_blank (get_or d.labels (i - 1) []))) [
    | inl blank ↦ (refl, rw blank refl)
    | inr named ↦ (refl, rw named refl)
  ]

  stored :
      (i j : ℕ) (d : Device H) (s : List ℕ)
      → length d.labels ≡ sensor_max_count
      → hal.sensor_count d.hardware ≤ sensor_max_count
      → sensor_row_exists hal d i ≡ true
      → sensor_row_exists hal d j ≡ true
      → get_or (set d.labels (i - 1) s) (j - 1) []
        ≡ (if j == i then s else get_or d.labels (j - 1) [])
  stored i j d s h count row row' = elim (Bool-cases (j == i)) [
    | inl same ↦
        let e : j ≡ i = ground arith in
        let inside : suc (i - 1) ≤ length d.labels = ground arith in
        rw (same, e) (get_or-set_self d.labels (i - 1) s [] inside)
    | inr other ↦
        let apart : i - 1 ≢ j - 1 = ground arith in
        rw other (get_or-set_ne d.labels (i - 1) (j - 1) s [] apart)
  ]

  -- A label of wespeSensorTable that was set reads back up to its first NUL, as the default if it
  -- was blank, and the other rows keep theirs; with as many labels as SENSOR_MAX_COUNT, and with
  -- drivers that keep to sensor.h, so that there are at most that many sensors.
  pub set_label-ReadsBack :
      (i j : ℕ) (d : Device H) (vb out : Varbind)
      → length d.labels ≡ sensor_max_count
      → hal.sensor_count d.hardware ≤ sensor_max_count
      → sensor_row_exists hal d j ≡ true
      → (sensor_set_cell hal col_label i d vb).0 ≡ MibResult.ok
      → ((sensor_get_cell hal col_label j (sensor_set_cell hal col_label i d vb).1 out).0
          ≡ MibResult.ok)
        × ((sensor_get_cell hal col_label j (sensor_set_cell hal col_label i d vb).1 out).1
            ≡ with_octets
                (label_text j (if j == i then vb.octets else get_or d.labels (j - 1) []))
                out)
  set_label-ReadsBack i j d vb out h count row' e =
      let (row, after) = set_label i d vb e in
      let d' = record (access_slot d.labels i d) { labels = set d.labels (i - 1) vb.octets } in
      rw (after, get_cell_label j d' out row', ← stored i j d vb.octets h count row row')
        (get_label-text j d' out)
