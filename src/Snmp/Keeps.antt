-- ===== src/Snmp/Keeps.antt =====
-- What every getter and setter keeps, a whole exchange keeps: firmware/components/snmp_core, from
-- snmp_pdu_get.c, snmp_pdu_getbulk.c and snmp_pdu_set.c up to snmp_message.c.
pub mod Read
pub mod Bulk
pub mod Message
use wespe.Prelude.{
  ℕ, zero, suc, ◌≡◌, arith, ◌&&◌, inl, inr, Bool-cases, Option-cases, List, ◌==◌, All,
}
use wespe.Ber.Types.{tag_counter64}
use wespe.Mib.Types.{Varbind, Resolved, found}
use wespe.Mib.Registry.{Registry}
use wespe.Mib.Registry.Sorted.{AllSorted}
use wespe.Mib.Resolve.{registry_resolve_next, resolved_get, resolved_set}
use wespe.Mib.Resolve.Next.{IsTable, IsInstance, registry_resolve_next-IsNext}
use wespe.Mib.Resolve.Instances.{Lookup-cases}
use wespe.Mib.Resolve.Exact.{registry_resolve-Resolves}
use wespe.Snmp.Types.{Version, is_v1}
use wespe.Snmp.Read.{
  LookupMode, is_exact, resolve, lookup_loop, lookup_and_fetch, counter64_skip_guard,
}

-- `P` is kept by all that the registry serves, and makes its tables well-formed.
pub record IsKept {D : Type 0} (reg : Registry D) (P : D → Type 0) : Type 0 where
  pub sorted : AllSorted reg.modules
  pub tables : (d : D) → P d → All (λ t. IsTable t d) reg.tables
  pub gets :
      (d : D) (r : Resolved D) (vb : Varbind) → P d → IsInstance reg d r → P (resolved_get r d vb).2
  pub sets :
      (d : D) (r : Resolved D) (vb : Varbind) → P d → IsInstance reg d r → P (resolved_set r d vb).1

module _ {D : Type 0} (reg : Registry D) (P : D → Type 0) (k : IsKept reg P) where
  pub resolve-IsInstance :
      (mode : LookupMode) (d : D) (oid : List ℕ) (r : Resolved D)
      → P d
      → resolve reg mode d oid ≡ found r
      → IsInstance reg d r
  unfolding resolve
  resolve-IsInstance LookupMode.exact d oid r p e =
      (rw e at (registry_resolve-Resolves reg d oid k.sorted (k.tables d p))).0
  resolve-IsInstance LookupMode.next d oid r p e =
      elim (Option-cases (registry_resolve_next reg d oid)) [
        | inl f ↦ absurd (ground (arith, rw (resolve, f) at e))
        | inr (r', f) ↦
            let same : r' ≡ r = ground (arith, rw (resolve, f) at e) in
            rw (← same) (rw f at (registry_resolve_next-IsNext reg d oid k.sorted (k.tables d p))).0
      ]

  lookup_loop-keeps :
      (guard : ℕ) (version : Version) (mode : LookupMode) (oid : List ℕ) (vb : Varbind) (d : D)
      → P d
      → P (lookup_loop reg guard version mode oid vb d).2
  unfolding lookup_loop
  lookup_loop-keeps zero version mode oid vb d p = p
  lookup_loop-keeps (suc guard) version mode oid vb d p =
      elim (Lookup-cases (resolve reg mode d oid)) [
        | inr (res, e) ↦ rw (lookup_loop, e) p
        | inl (r, e) ↦
            let served =
              k.gets d r (record vb { oid = r.oid }) p (resolve-IsInstance mode d oid r p e) in
            elim (Bool-cases (is_v1 version && r.value_tag == tag_counter64)) [
              | inr serve ↦ rw (lookup_loop, e, serve) served
              | inl skip ↦ elim (Bool-cases (is_exact mode)) [
                | inl exact ↦ rw (lookup_loop, e, skip, exact) p
                | inr walk ↦
                    rw (lookup_loop, e, skip, walk)
                      (lookup_loop-keeps guard version mode r.oid vb d p)
              ]
            ]
      ]

  pub lookup-keeps :
      (version : Version) (mode : LookupMode) (request vb : Varbind) (d : D)
      → P d
      → P (lookup_and_fetch reg version mode request vb d).2
  unfolding lookup_and_fetch
  lookup-keeps version mode request vb d p =
      lookup_loop-keeps counter64_skip_guard version mode request.oid vb d p
