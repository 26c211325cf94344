-- ===== src/DevAgent/Scalars.antt =====
-- The scalars of tools/dev_agent/dev_agent.c.
use wespe.Prelude.{ℕ, ◌*◌, ◌%◌, ◌^◌, ◌&&◌, not, none, some, List, [], ◌∷◌, ◌==◌, if◌then◌else◌}
use wespe.Ber.Types.{tag_integer, tag_octet_string, tag_oid, tag_timeticks, tag_gauge32}
use wespe.Mib.Types.{MibResult, Access, Getter, Setter, Object}
use wespe.Device.Types.{with_integer, with_octets}
use wespe.DevAgent.Types.{DevAgent}

-- s_temperature_decidegrees, which nothing writes
abbrev pub temperature_decidegrees : ℕ
temperature_decidegrees = 235

abbrev pub oid_sys_descr : List ℕ
oid_sys_descr = 1 ∷ 3 ∷ 6 ∷ 1 ∷ 2 ∷ 1 ∷ 1 ∷ 1 ∷ 0 ∷ []

abbrev pub oid_sys_object_id : List ℕ
oid_sys_object_id = 1 ∷ 3 ∷ 6 ∷ 1 ∷ 2 ∷ 1 ∷ 1 ∷ 2 ∷ 0 ∷ []

abbrev pub oid_sys_uptime : List ℕ
oid_sys_uptime = 1 ∷ 3 ∷ 6 ∷ 1 ∷ 2 ∷ 1 ∷ 1 ∷ 3 ∷ 0 ∷ []

abbrev pub oid_sys_name : List ℕ
oid_sys_name = 1 ∷ 3 ∷ 6 ∷ 1 ∷ 2 ∷ 1 ∷ 1 ∷ 5 ∷ 0 ∷ []

abbrev pub oid_wespe_temperature : List ℕ
oid_wespe_temperature = 1 ∷ 3 ∷ 6 ∷ 1 ∷ 4 ∷ 1 ∷ 99999 ∷ 2 ∷ 1 ∷ 0 ∷ []

abbrev pub oid_wespe_relay_state : List ℕ
oid_wespe_relay_state = 1 ∷ 3 ∷ 6 ∷ 1 ∷ 4 ∷ 1 ∷ 99999 ∷ 2 ∷ 2 ∷ 0 ∷ []

abbrev pub oid_wespe_uptime_seconds : List ℕ
oid_wespe_uptime_seconds = 1 ∷ 3 ∷ 6 ∷ 1 ∷ 4 ∷ 1 ∷ 99999 ∷ 2 ∷ 3 ∷ 0 ∷ []

-- "Wespe dev-agent (host build -- not real ESP32-S3 hardware)"
abbrev pub descr_text : List ℕ
descr_text =
    87 ∷ 101 ∷ 115 ∷ 112 ∷ 101 ∷ 32 ∷ 100 ∷ 101 ∷ 118 ∷ 45 ∷ 97 ∷ 103 ∷ 101 ∷ 110 ∷ 116 ∷ 32 ∷ 40
    ∷ 104 ∷ 111 ∷ 115 ∷ 116 ∷ 32 ∷ 98 ∷ 117 ∷ 105 ∷ 108 ∷ 100 ∷ 32 ∷ 45 ∷ 45 ∷ 32 ∷ 110 ∷ 111 ∷ 116
    ∷ 32 ∷ 114 ∷ 101 ∷ 97 ∷ 108 ∷ 32 ∷ 69 ∷ 83 ∷ 80 ∷ 51 ∷ 50 ∷ 45 ∷ 83 ∷ 51 ∷ 32 ∷ 104 ∷ 97 ∷ 114
    ∷ 100 ∷ 119 ∷ 97 ∷ 114 ∷ 101 ∷ 41 ∷ []

-- "wespe-dev-agent"
abbrev pub name_text : List ℕ
name_text =
    119 ∷ 101 ∷ 115 ∷ 112 ∷ 101 ∷ 45 ∷ 100 ∷ 101 ∷ 118 ∷ 45 ∷ 97 ∷ 103 ∷ 101 ∷ 110 ∷ 116 ∷ []

abbrev pub object_id : List ℕ
object_id = 1 ∷ 3 ∷ 6 ∷ 1 ∷ 4 ∷ 1 ∷ 99999 ∷ 1 ∷ 1 ∷ []

unfoldable pub get_sys_descr : Getter DevAgent
get_sys_descr d vb = (MibResult.ok, with_octets descr_text vb, d)

unfoldable pub get_sys_object_id : Getter DevAgent
get_sys_object_id d vb = (MibResult.ok, record vb { value_tag = tag_oid; oid_value = object_id }, d)

unfoldable pub get_sys_uptime : Getter DevAgent
get_sys_uptime d vb = (
  MibResult.ok,
  record vb { value_tag = tag_timeticks; int_value = (d.elapsed * 100) % 2 ^ 32 },
  d,
)

unfoldable pub get_sys_name : Getter DevAgent
get_sys_name d vb = (MibResult.ok, with_octets name_text vb, d)

unfoldable pub get_temperature : Getter DevAgent
get_temperature d vb = (MibResult.ok, with_integer temperature_decidegrees vb, d)

unfoldable pub get_relay_state : Getter DevAgent
get_relay_state d vb = (MibResult.ok, with_integer d.relay_on vb, d)

unfoldable pub set_relay_state : Setter DevAgent
set_relay_state d vb =
    if not (vb.value_tag == tag_integer)
    then (MibResult.wrong_type, d)
    else if not (vb.int_value == 0) && not (vb.int_value == 1)
    then (MibResult.wrong_value, d)
    else (MibResult.ok, record d { relay_on = vb.int_value })

unfoldable pub get_wespe_uptime : Getter DevAgent
get_wespe_uptime d vb =
    (MibResult.ok, record vb { value_tag = tag_gauge32; int_value = d.elapsed % 2 ^ 32 }, d)

abbrev pub ro_object : List ℕ → ℕ → Getter DevAgent → Object DevAgent
ro_object oid tag getter = record {
  oid = oid;
  value_tag = tag;
  access = Access.ro;
  getter = getter;
  setter = none;
}

abbrev pub mib_ii : List (Object DevAgent)
mib_ii =
    ro_object oid_sys_descr tag_octet_string get_sys_descr
    ∷ ro_object oid_sys_object_id tag_oid get_sys_object_id
    ∷ ro_object oid_sys_uptime tag_timeticks get_sys_uptime
    ∷ ro_object oid_sys_name tag_octet_string get_sys_name
    ∷ []

abbrev pub mib_wespe : List (Object DevAgent)
mib_wespe =
    ro_object oid_wespe_temperature tag_integer get_temperature
    ∷ record {
      oid = oid_wespe_relay_state;
      value_tag = tag_integer;
      access = Access.rw;
      getter = get_relay_state;
      setter = some set_relay_state;
    }
    ∷ ro_object oid_wespe_uptime_seconds tag_gauge32 get_wespe_uptime
    ∷ []
