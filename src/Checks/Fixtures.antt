-- ===== src/Checks/Fixtures.antt =====
-- A small agent: two scalars, one of them writable, and a table of two columns and two rows, over a
-- device that is one number.
use wespe.Prelude.{
  ℕ, inl, inr, arith, Option, none, some, List, [], ◌∷◌, ◌==◌, if◌then◌else◌, Bool-cases,
}
use wespe.Ber.Types.{tag_integer, tag_octet_string}
use wespe.Mib.Types.{MibResult, Varbind, zeroed, Access, Getter, Setter, Object, Column, Table}
use wespe.Mib.Registry.{Registry}
use wespe.Mib.Registry.Sorted.{AllSorted}
use wespe.Mib.Resolve.Rows.{IsAscending}
use wespe.Mib.Resolve.Next.{IsTable}
use wespe.Snmp.Security.{Security, community_init, usm_stub_init}

abbrev pub descr_oid : List ℕ
descr_oid = 1 ∷ 3 ∷ 6 ∷ 1 ∷ 2 ∷ 1 ∷ 1 ∷ 1 ∷ 0 ∷ []

abbrev pub relay_oid : List ℕ
relay_oid = 1 ∷ 3 ∷ 6 ∷ 1 ∷ 4 ∷ 1 ∷ 9 ∷ 1 ∷ 0 ∷ []

abbrev pub entry : List ℕ
entry = 1 ∷ 3 ∷ 6 ∷ 1 ∷ 2 ∷ 1 ∷ 2 ∷ 2 ∷ 1 ∷ []

abbrev descr_get : Getter ℕ
descr_get d vb =
    (MibResult.ok, record vb { value_tag = tag_octet_string; octets = 104 ∷ 105 ∷ [] }, d)

abbrev relay_get : Getter ℕ
relay_get d vb = (MibResult.ok, record vb { value_tag = tag_integer; int_value = d }, d)

abbrev relay_set : Setter ℕ
relay_set d vb =
    if vb.int_value == 0
    then (MibResult.ok, 0)
    else if vb.int_value == 1
    then (MibResult.ok, 1)
    else (MibResult.wrong_value, d)

abbrev pub descr : Object ℕ
descr = record {
  oid = descr_oid;
  value_tag = tag_octet_string;
  access = Access.ro;
  getter = descr_get;
  setter = none;
}

abbrev pub relay : Object ℕ
relay = record {
  oid = relay_oid;
  value_tag = tag_integer;
  access = Access.rw;
  getter = relay_get;
  setter = some relay_set;
}

abbrev pub next_row : ℕ → Option ℕ
next_row i = if i == 1 then some 2 else none

abbrev cell_get : ℕ → ℕ → Getter ℕ
cell_get column index d vb =
    (MibResult.ok, record vb { value_tag = tag_integer; int_value = index }, d)

abbrev pub index_column : Column
index_column = record { number = 1; value_tag = tag_integer; access = Access.ro }

abbrev pub type_column : Column
type_column = record { number = 3; value_tag = tag_integer; access = Access.ro }

abbrev pub interfaces : Table ℕ
interfaces = record {
  entry_oid = entry;
  columns = index_column ∷ type_column ∷ [];
  first_index = λ d. some 1;
  next_index = λ d. next_row;
  get_cell = cell_get;
  set_cell = none;
}

abbrev pub agent : Registry ℕ
agent = record { modules = (descr ∷ []) ∷ (relay ∷ []) ∷ []; tables = interfaces ∷ [] }

pub agent-AllSorted : AllSorted agent.modules
agent-AllSorted = (tt, (tt, tt))

pub next_row-IsAscending : IsAscending next_row
next_row-IsAscending i j u e = elim (Bool-cases (i == 1)) [
  | inl one ↦ ground arith
  | inr other ↦ absurd (ground arith)
]

pub interfaces-IsTable : (d : ℕ) → IsTable interfaces d
interfaces-IsTable d = record {
  sorted = ((omega arith, tt), (tt, tt));
  first_u32 = λ i e. ground arith;
  ascending = next_row-IsAscending;
}

-- "public" and "private".
abbrev pub public_text : List ℕ
public_text = 112 ∷ 117 ∷ 98 ∷ 108 ∷ 105 ∷ 99 ∷ []

abbrev pub private_text : List ℕ
private_text = 112 ∷ 114 ∷ 105 ∷ 118 ∷ 97 ∷ 116 ∷ 101 ∷ []

-- The models as app_main sets them up.
abbrev pub models : Security
models = usm_stub_init (
    community_init public_text private_text
      (record { slots = []; communities = record { ro = []; rw = [] } }))

-- A request for the value of the relay.
abbrev pub relay_vb : Varbind
relay_vb = record zeroed { oid = relay_oid; value_tag = tag_integer; int_value = 1 }
