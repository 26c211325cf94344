-- ===== src/DevAgent/Volatile.antt =====
-- A walk over all that tools/dev_agent/dev_agent.c serves, while the second sensor comes and goes.
use wespe.Prelude.{ℕ, ◌<◌, ◌≡◌, arith, some, List, [], ◌∷◌, length, All, All-map}
use wespe.Mib.Types.{Resolved}
use wespe.Mib.Resolve.Oids.{RowsWithin, served_oids, In-served_oids}
use wespe.Mib.Resolve.Shifting.{walk_over, Follows, Serves, walk_over-Follows}
use wespe.DevAgent.Types.{DevAgent}
use wespe.DevAgent.Agent.{dev_registry}
use wespe.DevAgent.Rows.{if_rows_within, wsensor_rows_within}
use wespe.DevAgent.Valid.{IsValid, registered, dev_registry-registered}
use wespe.DevAgent.Served.{registered-AllSorted, registered-IsTable}

abbrev rows_at_most : List ℕ
rows_at_most = 2 ∷ 2 ∷ 2 ∷ []

valid-RowsWithin : (d : DevAgent) → IsValid d → RowsWithin d registered.tables rows_at_most
valid-RowsWithin d v =
    (if_rows_within d v.interfaces, (if_rows_within d v.interfaces, (wsensor_rows_within d, tt)))

valid-Serves :
    (d : DevAgent) → IsValid d → Serves registered (served_oids registered rows_at_most) d
valid-Serves d v = record {
  tables = registered-IsTable d v.interfaces;
  within = λ a m. In-served_oids registered d rows_at_most a (valid-RowsWithin d v) m;
}

-- A walk of GetNexts, each in a valid state of its own, ends within 47 of them, from any OID and
-- whatever rows come and go on the way; each of its elements is an instance of the state that it was
-- served in, and the next one there after the element before; and when the walk ends, the state has
-- nothing left.
pub volatile-walk_ends :
    (ds : List DevAgent) (oid : List ℕ)
    → All IsValid ds
    → 46 < length ds
    → (rs : List (Resolved DevAgent)) × (walk_over dev_registry ds oid ≡ some rs)
      × Follows dev_registry ds oid rs
volatile-walk_ends ds oid valid h = rw dev_registry-registered (
    walk_over-Follows registered registered-AllSorted (served_oids registered rows_at_most) ds oid
      (All-map IsValid (Serves registered (served_oids registered rows_at_most)) ds valid-Serves
        valid)
      (omega arith))
