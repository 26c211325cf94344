-- ===== src/Mib/Types.antt =====
-- firmware/components/mib/include: mib_types.h, mib_object.h, mib_table.h and mib_tree.h.
use wespe.Prelude.{ℕ, List, [], Option}

pub data MibResult : Type 0 where
  ok no_such_object no_such_instance end_of_view wrong_type wrong_value : MibResult
  not_writable gen_err : MibResult

abbrev pub max_octets_len : ℕ
max_octets_len = 128

-- snmp_varbind_t. The members of its union are fields of their own, since `value_tag` says which of
-- them is read; a counted array is a list. `int_value` is the bit pattern of the int32_t.
pub record Varbind : Type 0 where
  pub oid : List ℕ
  pub value_tag : ℕ
  pub int_value : ℕ
  pub counter64_value : ℕ
  pub octets : List ℕ
  pub oid_value : List ℕ

-- `memset(&vb, 0, sizeof(vb))`
abbrev pub zeroed : Varbind
zeroed = record {
  oid = [];
  value_tag = 0;
  int_value = 0;
  counter64_value = 0;
  octets = [];
  oid_value = [];
}

pub data Access : Type 0 where
  ro rw : Access

-- mib_get_fn and mib_set_fn read and write the state `D` of the device (static variables, drivers).
-- A getter returns what it leaves in the varbind, which the caller looks at only after `ok`.
abbrev pub Getter : Type 0 → Type 0
Getter D = D → Varbind → MibResult × Varbind × D

abbrev pub Setter : Type 0 → Type 0
Setter D = D → Varbind → MibResult × D

-- mib_object_t; `setter` is `none` for NULL.
pub record Object (D : Type 0) : Type 0 where
  pub oid : List ℕ
  pub value_tag : ℕ
  pub access : Access
  pub getter : Getter D
  pub setter : Option (Setter D)

-- mib_column_t
pub record Column : Type 0 where
  pub number : ℕ
  pub value_tag : ℕ
  pub access : Access

-- mib_table_t. The index callbacks return MIB_OK with an index, or MIB_END_OF_VIEW (`none`).
pub record Table (D : Type 0) : Type 0 where
  pub entry_oid : List ℕ
  pub columns : List Column
  pub first_index : D → Option ℕ
  pub next_index : D → ℕ → Option ℕ
  pub get_cell : ℕ → ℕ → Getter D
  pub set_cell : Option (ℕ → ℕ → Setter D)

-- The union of mib_resolved_t, with its kind.
pub data Target (D : Type 0) : Type 0 where
  scalar : Object D → Target D
  cell : Table D → ℕ → ℕ → Target D

-- mib_resolved_t
pub record Resolved (D : Type 0) : Type 0 where
  pub oid : List ℕ
  pub value_tag : ℕ
  pub access : Access
  pub target : Target D

-- A mib_result_t with the mib_resolved_t that is filled in on MIB_OK.
pub data Lookup (D : Type 0) : Type 0 where
  found : Resolved D → Lookup D
  miss : MibResult → Lookup D
