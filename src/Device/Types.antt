-- ===== src/Device/Types.antt =====
-- The static variables of the modules in firmware/components/mib, and the ways to fill in a varbind.
use wespe.Prelude.{ℕ, Bool, ◌&&◌, List, Option, none, some, leb, length}
use wespe.Ber.Types.{tag_integer, tag_octet_string}
use wespe.Mib.Types.{MibResult, Varbind, Getter}

-- Char arrays are the bytes before the NUL that ends them, and `hardware` is what the drivers keep.
-- `in_bounds` is false from the first access on that lies outside of s_labels or s_read_count, where C
-- leaves everything undefined.
pub record Device (H : Type 0) : Type 0 where
  pub sys_contact : List ℕ
  pub sys_name : List ℕ
  pub sys_location : List ℕ
  pub labels : List (List ℕ)
  pub read_count : List ℕ
  pub in_bounds : Bool
  pub hardware : H

abbrev pub with_integer : ℕ → Varbind → Varbind
with_integer n vb = record vb { value_tag = tag_integer; int_value = n }

abbrev pub with_octets : List ℕ → Varbind → Varbind
with_octets s vb = record vb { value_tag = tag_octet_string; octets = s }

module _ {H : Type 0} where
  -- The access to entry `index - 1` of an array, before it is read or written.
  abbrev pub access_slot : {A : Type 0} → List A → ℕ → Device H → Device H
  access_slot slots index d = record d {
    in_bounds = d.in_bounds && (leb 1 index && leb index (length slots));
  }

  -- A getter that reads a driver: MIB_GEN_ERR where the driver fails.
  abbrev pub get_integer : (H → Option ℕ) → Getter (Device H)
  get_integer driver d vb = elim (driver d.hardware) [
    | none ↦ (MibResult.gen_err, vb, d)
    | some n ↦ (MibResult.ok, with_integer n vb, d)
  ]
