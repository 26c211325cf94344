-- ===== src/DevAgent/Valid.antt =====
-- The static variables of tools/dev_agent/dev_agent.c stay inside their arrays.
use wespe.Prelude.{
  ℕ, ◌+◌, ◌%◌, ◌^◌, ◌≤◌, ◌<◌, ◌≡◌, ◌∙◌, refl, arith, inl, inr, Bool-cases, Option-cases, some, [],
  ◌∷◌, leb, ◌==◌, length, All, IsU64, map,
}
use wespe.Mib.Types.{Varbind, Getter}
use wespe.Mib.Registry.{Registry, registry_reset, register_module, register_table}
use wespe.Mib.Resolve.Instances.{AllGet, AllSet}
use wespe.DevAgent.Types.{MockIfRow, MockSensorRow, DevAgent}
use wespe.DevAgent.Scalars.{
  mib_ii, mib_wespe, get_sys_descr, get_sys_object_id, get_sys_uptime, get_sys_name,
  get_temperature, get_relay_state, set_relay_state, get_wespe_uptime,
}
use wespe.DevAgent.Interfaces.{
  iftable_scalars, iftable, ifxtable, find_if_row, get_if_number, refresh_climbing_counters,
  if_cell, ifx_cell, with_if_row,
}
use wespe.DevAgent.Sensors.{
  wsensor_label_max, wsensor_table, sensor_index, find_sensor_row, wsensor_cell, wsensor_get_cell,
  set_label, wsensor_set_cell, with_sensor_row,
}
use wespe.DevAgent.Agent.{initial_agent, dev_registry}
use wespe.DevAgent.Rows.{if_index, map-store_row, All-store_row, All-find_row, HasInterfaces}

-- What main registers.
abbrev pub registered : Registry DevAgent
registered = record {
  modules = mib_ii ∷ mib_wespe ∷ iftable_scalars ∷ [];
  tables = iftable ∷ ifxtable ∷ wsensor_table ∷ [];
}

pub dev_registry-registered : dev_registry ≡ registered
unfolding dev_registry register_module register_table registry_reset
dev_registry-registered = refl

-- A label leaves room for its NUL, and a counter is a uint64_t.
pub record IsSensorRow (row : MockSensorRow) : Type 0 where
  pub label_fits : length row.label < wsensor_label_max
  pub count_fits : IsU64 row.read_count

-- The tables have their two rows, and what is in them fits; the relay is on or off.
pub record IsValid (d : DevAgent) : Type 0 where
  pub interfaces : HasInterfaces d
  pub sensors : map sensor_index d.sensor_rows ≡ 1 ∷ 2 ∷ []
  pub sensors_fit : All IsSensorRow d.sensor_rows
  pub relay : d.relay_on ≤ 1

pub initial_agent-IsValid : IsValid initial_agent
initial_agent-IsValid = record {
  interfaces = refl;
  sensors = refl;
  sensors_fit = (
    record { label_fits = omega arith; count_fits = omega arith },
    (record { label_fits = omega arith; count_fits = omega arith }, tt),
  );
  relay = omega arith;
}

with_sensor_row-IsValid :
    (row : MockSensorRow) (d : DevAgent)
    → IsSensorRow row
    → IsValid d
    → IsValid (with_sensor_row row d)
with_sensor_row-IsValid row d fits v = record {
  interfaces = v.interfaces;
  sensors = map-store_row sensor_index row d.sensor_rows ∙ v.sensors;
  sensors_fit = All-store_row sensor_index IsSensorRow row d.sensor_rows fits v.sensors_fit;
  relay = v.relay;
}

set_relay-IsValid : (d : DevAgent) (vb : Varbind) → IsValid d → IsValid (set_relay_state d vb).1
unfolding set_relay_state
set_relay-IsValid d vb v = ground arith

refresh-IsValid :
    (row : MockIfRow) (d : DevAgent) → IsValid d → IsValid (refresh_climbing_counters row d).1
unfolding refresh_climbing_counters
refresh-IsValid row d v = elim (Bool-cases (row.index == 1)) [
  | inl e ↦
      rw (refresh_climbing_counters, e)
        (record {
          interfaces = map-store_row if_index _ d.if_rows ∙ v.interfaces;
          sensors = v.sensors;
          sensors_fit = v.sensors_fit;
          relay = v.relay;
        })
  | inr e ↦ rw (refresh_climbing_counters, e) v
]

-- A cell that leaves the agent alone.
abbrev Leaves : (MockIfRow → Getter DevAgent) → Type 0
Leaves cell = (row : MockIfRow) (d : DevAgent) (vb : Varbind) → (cell row d vb).2 ≡ d

if_cell-Leaves : (column : ℕ) → Leaves (if_cell column)
unfolding if_cell
if_cell-Leaves column row d vb = ground arith

ifx_cell-Leaves : (column : ℕ) → Leaves (ifx_cell column)
unfolding ifx_cell
ifx_cell-Leaves column row d vb = ground arith

with_if_row-IsValid :
    (cell : MockIfRow → Getter DevAgent)
    → Leaves cell
    → (index : ℕ) (d : DevAgent) (vb : Varbind) → IsValid d
    → IsValid (with_if_row cell index d vb).2
unfolding with_if_row
with_if_row-IsValid cell leaves index d vb v = elim (Option-cases (find_if_row index d)) [
  | inl e ↦ rw (with_if_row, e) v
  | inr (row, e) ↦
      let (fresh, d') = refresh_climbing_counters row d in
      rw (with_if_row, e, leaves fresh d' vb) (refresh-IsValid row d v)
]

found-IsSensorRow :
    (index : ℕ) (row : MockSensorRow) (d : DevAgent)
    → IsValid d
    → find_sensor_row index d ≡ some row
    → IsSensorRow row
unfolding find_sensor_row
found-IsSensorRow index row d v e =
    All-find_row sensor_index IsSensorRow index row d.sensor_rows v.sensors_fit (ground arith)

wsensor_cell-IsValid :
    (column : ℕ) (row : MockSensorRow) (d : DevAgent) (vb : Varbind)
    → IsSensorRow row
    → IsValid d
    → IsValid (wsensor_cell column row d vb).2
unfolding wsensor_cell
wsensor_cell-IsValid column row d vb fits v =
    let counted : MockSensorRow = record row { read_count = (row.read_count + 1) % 2 ^ 64 } in
    let counted_fits : IsSensorRow counted = record {
      label_fits = fits.label_fits;
      count_fits = omega arith;
    } in
    ground (arith, with_sensor_row-IsValid counted d counted_fits v)

wsensor_get-IsValid :
    (column index : ℕ) (d : DevAgent) (vb : Varbind)
    → IsValid d
    → IsValid (wsensor_get_cell column index d vb).2
unfolding wsensor_get_cell
wsensor_get-IsValid column index d vb v = elim (Option-cases (find_sensor_row index d)) [
  | inl e ↦ rw (wsensor_get_cell, e) v
  | inr (row, e) ↦
      rw (wsensor_get_cell, e)
        (wsensor_cell-IsValid column row d vb (found-IsSensorRow index row d v e) v)
]

set_label-IsValid :
    (column : ℕ) (row : MockSensorRow) (d : DevAgent) (vb : Varbind)
    → IsSensorRow row
    → IsValid d
    → IsValid (set_label column row d vb).1
unfolding set_label
set_label-IsValid column row d vb fits v =
    elim (Bool-cases (leb wsensor_label_max (length vb.octets))) [
      | inl long ↦ ground arith
      | inr short ↦
          let labelled : MockSensorRow = record row { label = vb.octets } in
          let labelled_fits : IsSensorRow labelled = record {
            label_fits = ground arith;
            count_fits = fits.count_fits;
          } in
          ground (arith, with_sensor_row-IsValid labelled d labelled_fits v)
    ]

wsensor_set-IsValid :
    (column index : ℕ) (d : DevAgent) (vb : Varbind)
    → IsValid d
    → IsValid (wsensor_set_cell column index d vb).1
unfolding wsensor_set_cell
wsensor_set-IsValid column index d vb v = elim (Option-cases (find_sensor_row index d)) [
  | inl e ↦ rw (wsensor_set_cell, e) v
  | inr (row, e) ↦
      rw (wsensor_set_cell, e)
        (set_label-IsValid column row d vb (found-IsSensorRow index row d v e) v)
]

pub AllGet-IsValid : AllGet (λ d vb out. IsValid d → IsValid out.2) registered
unfolding get_sys_descr get_sys_object_id get_sys_uptime get_sys_name get_temperature
    get_relay_state get_wespe_uptime get_if_number
AllGet-IsValid = (
  (
    (λ d vb v. v, (λ d vb v. v, (λ d vb v. v, (λ d vb v. v, tt)))),
    ((λ d vb v. v, (λ d vb v. v, (λ d vb v. v, tt))), ((λ d vb v. v, tt), tt)),
  ),
  (
    λ column. with_if_row-IsValid (if_cell column) (if_cell-Leaves column),
    (
      λ column. with_if_row-IsValid (ifx_cell column) (ifx_cell-Leaves column),
      (wsensor_get-IsValid, tt),
    ),
  ),
)

pub AllSet-IsValid : AllSet (λ d vb out. IsValid d → IsValid out.1) registered
AllSet-IsValid = (
  (
    (λ d vb v. v, (λ d vb v. v, (λ d vb v. v, (λ d vb v. v, tt)))),
    ((λ d vb v. v, (set_relay-IsValid, (λ d vb v. v, tt))), ((λ d vb v. v, tt), tt)),
  ),
  (λ d vb v. v, (λ d vb v. v, (wsensor_set-IsValid, tt))),
)
