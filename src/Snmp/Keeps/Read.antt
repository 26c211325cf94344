-- ===== src/Snmp/Keeps/Read.antt =====
-- Get and GetNext: firmware/components/snmp_core/snmp_pdu_get.c.
use wespe.Prelude.{ℕ, ◌+◌, inl, inr, Bool-cases, List, [], ◌∷◌}
use wespe.Mib.Types.{Varbind, zeroed}
use wespe.Mib.Registry.{Registry}
use wespe.Snmp.Types.{Version, is_v1, Ctx}
use wespe.Snmp.Errors.{error_translate}
use wespe.Snmp.Read.{
  LookupMode, lookup_and_fetch, probe_v1, commit_v1, read_v2c, after_probe, process_read_pdu,
  Verdict, proceed, abort,
}
use wespe.Snmp.Keeps.{IsKept, lookup-keeps}

module _ {D : Type 0} (reg : Registry D) (P : D → Type 0) (k : IsKept reg P) where
  probe_v1-keeps :
      (mode : LookupMode) (i : ℕ) (vbs : List Varbind) (d : D)
      → P d
      → P (probe_v1 reg mode i vbs d).1
  unfolding probe_v1
  probe_v1-keeps mode i [] d p = p
  probe_v1-keeps mode i (vb ∷ vbs) d p =
      let looked = lookup_and_fetch reg Version.v1 mode vb zeroed d in
      let kept = lookup-keeps reg P k Version.v1 mode vb zeroed d p in
      elim (Bool-cases (error_translate Version.v1 looked.0).pdu_level_abort) [
        | inl stop ↦ rw stop kept
        | inr on ↦ rw on (probe_v1-keeps mode (i + 1) vbs looked.2 kept)
      ]

  commit_v1-keeps :
      (mode : LookupMode) (vbs : List Varbind) (d : D) → P d → P (commit_v1 reg mode vbs d).1
  unfolding commit_v1
  commit_v1-keeps mode [] d p = p
  commit_v1-keeps mode (vb ∷ vbs) d p =
      commit_v1-keeps mode vbs (lookup_and_fetch reg Version.v1 mode vb vb d).2
        (lookup-keeps reg P k Version.v1 mode vb vb d p)

  read_v2c-keeps :
      (version : Version) (mode : LookupMode) (i : ℕ) (vbs : List Varbind) (d : D)
      → P d
      → P (read_v2c reg version mode i vbs d).2
  unfolding read_v2c
  read_v2c-keeps version mode i [] d p = p
  read_v2c-keeps version mode i (vb ∷ vbs) d p =
      let looked = lookup_and_fetch reg version mode vb zeroed d in
      let kept = lookup-keeps reg P k version mode vb zeroed d p in
      elim (Bool-cases (error_translate version looked.0).pdu_level_abort) [
        | inl stop ↦ rw stop kept
        | inr on ↦ rw on (read_v2c-keeps version mode (i + 1) vbs looked.2 kept)
      ]

  after_probe-keeps :
      (mode : LookupMode) (ctx : Ctx) (verdict : Verdict) (d : D)
      → P d
      → P (after_probe reg mode ctx verdict d).1
  unfolding after_probe
  after_probe-keeps mode ctx (abort status index) d p = p
  after_probe-keeps mode ctx proceed d p = commit_v1-keeps mode ctx.varbinds d p

  pub read_pdu-keeps :
      (mode : LookupMode) (ctx : Ctx) (d : D) → P d → P (process_read_pdu reg mode ctx d).1
  unfolding process_read_pdu
  read_pdu-keeps mode ctx d p =
      let probed = probe_v1 reg mode 0 ctx.varbinds d in
      elim (Bool-cases (is_v1 ctx.version)) [
        | inl one ↦
            rw one (
              after_probe-keeps mode ctx probed.0 probed.1 (probe_v1-keeps mode 0 ctx.varbinds d p))
        | inr two ↦ rw two (read_v2c-keeps ctx.version mode 0 ctx.varbinds d p)
      ]
