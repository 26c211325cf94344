-- ===== src/Snmp/Read/Counter64.antt =====
-- SNMPv1 has no Counter64: lookup_and_fetch of firmware/components/snmp_core/snmp_pdu_get.c.
use wespe.Prelude.{ℕ, zero, suc, ◌≡◌, ◌≢◌, inl, inr, arith, Bool-cases, Option-cases, List, ◌==◌}
use wespe.Ber.Types.{tag_counter64}
use wespe.Mib.Types.{MibResult, Varbind, Resolved, miss}
use wespe.Mib.Registry.{Registry}
use wespe.Mib.Resolve.{resolved_get, registry_resolve_next}
use wespe.Mib.Resolve.Exact.{registry_resolve-Resolves}
use wespe.Mib.Resolve.Next.{IsInstance}
use wespe.Mib.Resolve.Instances.{Lookup-cases}
use wespe.Snmp.Types.{Version}
use wespe.Snmp.Read.{
  LookupMode, is_exact, resolve, lookup_loop, lookup_and_fetch, counter64_skip_guard,
}
use wespe.Snmp.Keeps.{IsKept, resolve-IsInstance}

-- In a state with `P`, what is served has the type that was declared.
abbrev pub KeepsTypes : {D : Type 0} → Registry D → (D → Type 0) → Type 0
KeepsTypes {D} reg P =
    (d d' : D) (r : Resolved D) (vb vb' : Varbind)
    → P d
    → IsInstance reg d r
    → resolved_get r d vb ≡ (MibResult.ok, vb', d')
    → vb'.value_tag ≡ r.value_tag

module _ {D : Type 0} (reg : Registry D) (P : D → Type 0) (k : IsKept reg P)
    (types : KeepsTypes reg P) where
  miss-ok :
      (mode : LookupMode) (oid : List ℕ) (d : D) (res : MibResult)
      → P d
      → resolve reg mode d oid ≡ miss res
      → res ≢ MibResult.ok
  unfolding resolve
  miss-ok LookupMode.exact oid d res p f =
      elim (rw f at (registry_resolve-Resolves reg d oid k.sorted (k.tables d p))) [
        | inl (e, none_there) ↦ cc
        | inr (e, no_row, none_there) ↦ cc
      ]
  miss-ok LookupMode.next oid d res p f = elim (Option-cases (registry_resolve_next reg d oid)) [
    | inl e ↦ ground (arith, rw (resolve, e) at f)
    | inr (r, e) ↦ absurd (ground (arith, rw (resolve, e) at f))
  ]

  lookup_loop-NoCounter64 :
      (guard : ℕ) (mode : LookupMode) (oid : List ℕ) (vb vb' : Varbind) (d d' : D)
      → P d
      → lookup_loop reg guard Version.v1 mode oid vb d ≡ (MibResult.ok, vb', d')
      → vb'.value_tag ≢ tag_counter64
  unfolding lookup_loop
  lookup_loop-NoCounter64 zero mode oid vb vb' d d' p e = absurd (ground arith)
  lookup_loop-NoCounter64 (suc guard) mode oid vb vb' d d' p e =
      elim (Lookup-cases (resolve reg mode d oid)) [
        | inr (res, f) ↦
            absurd (miss-ok mode oid d res p f (ground (arith, rw (lookup_loop, f) at e)))
        | inl (r, f) ↦
            let served = resolve-IsInstance reg P k mode d oid r p f in
            elim (Bool-cases (r.value_tag == tag_counter64)) [
              | inr other ↦
                  let same =
                    types d d' r (record vb { oid = r.oid }) vb' p served
                      (rw (lookup_loop, f, other) at e) in
                  ground (arith, same)
              | inl wide ↦ elim (Bool-cases (is_exact mode)) [
                | inl exact ↦ absurd (ground (arith, rw (lookup_loop, f, wide, exact) at e))
                | inr walk ↦
                    lookup_loop-NoCounter64 guard mode r.oid vb vb' d d' p
                      (rw (lookup_loop, f, wide, walk) at e)
              ]
            ]
      ]

  -- An SNMPv1 Get or GetNext never fetches a Counter64, in any state where the registry keeps to its
  -- contract: modules sorted, tables well-formed, and values of the declared types.
  pub lookup_and_fetch-NoCounter64 :
      (mode : LookupMode) (request_vb vb vb' : Varbind) (d d' : D)
      → P d
      → lookup_and_fetch reg Version.v1 mode request_vb vb d ≡ (MibResult.ok, vb', d')
      → vb'.value_tag ≢ tag_counter64
  unfolding lookup_and_fetch
  lookup_and_fetch-NoCounter64 mode request_vb vb vb' d d' p e =
      lookup_loop-NoCounter64 counter64_skip_guard mode request_vb.oid vb vb' d d' p e
