-- ===== src/Snmp/Read/Walk.antt =====
-- A GetNext moves on: firmware/components/snmp_core/snmp_pdu_get.c.
use wespe.Prelude.{
  ℕ, zero, suc, ◌≡◌, ◌⊎◌, inl, inr, arith, true, ◌&&◌, Bool-cases, Option-cases, List, ◌==◌, All,
}
use wespe.Ber.Types.{tag_counter64}
use wespe.Mib.Types.{MibResult, Varbind, Resolved}
use wespe.Mib.Oid.{◌≺◌, ≺_trans}
use wespe.Mib.Registry.{Registry}
use wespe.Mib.Registry.Sorted.{AllSorted}
use wespe.Mib.Resolve.{registry_resolve_next, resolved_get}
use wespe.Mib.Resolve.Next.{IsTable, IsInstance, registry_resolve_next-IsNext}
use wespe.Snmp.Types.{Version, is_v1}
use wespe.Snmp.Read.{LookupMode, resolve, lookup_loop, lookup_and_fetch, counter64_skip_guard}

module _ {D : Type 0} (reg : Registry D) where
  -- Getters fill in the value of a varbind, not its OID.
  abbrev pub KeepsOid : Type 0
  KeepsOid =
      (d d' : D) (r : Resolved D) (vb vb' : Varbind)
      → IsInstance reg d r
      → resolved_get r d vb ≡ (MibResult.ok, vb', d')
      → vb'.oid ≡ vb.oid

  -- `vb` is what GetNext serves after `oid`.
  abbrev pub Follows : D → Version → List ℕ → Varbind → Type 0
  Follows d version oid vb =
      (oid ≺ vb.oid)
      × ((is_v1 version ≡ true)
          ⊎ ((a : Resolved D) → IsInstance reg d a → oid ≺ a.oid → ¬ (a.oid ≺ vb.oid)))

  module _ (keeps : KeepsOid) (d : D) (sorted : AllSorted reg.modules)
      (tables : All (λ t. IsTable t d) reg.tables) where
    loop-advances :
        (guard : ℕ) (version : Version) (oid : List ℕ) (out_vb vb' : Varbind) (d' : D)
        → lookup_loop reg guard version LookupMode.next oid out_vb d ≡ (MibResult.ok, vb', d')
        → Follows d version oid vb'
    unfolding lookup_loop resolve
    loop-advances zero version oid out_vb vb' d' e = absurd (ground arith)
    loop-advances (suc guard) version oid out_vb vb' d' e =
        let next = registry_resolve_next-IsNext reg d oid sorted tables in
        elim (Option-cases (registry_resolve_next reg d oid)) [
          | inl f ↦ absurd (ground (arith, rw (lookup_loop, f) at e))
          | inr (r, f) ↦
              let (instance_of, later, least) = rw f at next in
              let step = rw (lookup_loop, f) at e in
              elim (Bool-cases (is_v1 version && r.value_tag == tag_counter64)) [
                | inl skip ↦
                    let (more, rest) =
                      loop-advances guard version r.oid out_vb vb' d' (rw skip at step) in
                    (≺_trans oid r.oid vb'.oid later more, inl (ground arith))
                | inr serve ↦
                    let same =
                      keeps d d' r (record out_vb { oid = r.oid }) vb' instance_of
                        (rw serve at step) in
                    rw same (later, inr least)
              ]
        ]

    -- What GetNext fetches with MIB_OK lies strictly after the OID asked for, and outside SNMPv1
    -- no instance of the registry lies between; for sorted modules, tables that keep to
    -- mib_table.h and getters that leave the OID of the varbind alone.
    pub lookup_and_fetch-Follows :
        (version : Version) (request_vb out_vb vb' : Varbind) (d' : D)
        → lookup_and_fetch reg version LookupMode.next request_vb out_vb d ≡ (MibResult.ok, vb', d')
        → Follows d version request_vb.oid vb'
    unfolding lookup_and_fetch
    lookup_and_fetch-Follows version request_vb out_vb vb' d' e =
        loop-advances counter64_skip_guard version request_vb.oid out_vb vb' d' e
