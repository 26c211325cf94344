-- ===== src/Checks/DevAgent.antt =====
-- The development agent of tools/dev_agent/dev_agent.c, on small inputs.
use wespe.Prelude.{
  ℕ, zero, suc, ◌+◌, ◌*◌, ◌≡◌, ◌≢◌, refl, arith, none, some, List, [], ◌∷◌, ◌++◌, All,
}
use wespe.Ber.Types.{tag_integer, tag_counter64}
use wespe.Snmp.Types.{Version}
use wespe.Snmp.Read.{LookupMode, lookup_and_fetch, lookup_loop, resolve}
use wespe.Mib.Oid.{oid_compare}
use wespe.Mib.Next.{nearer}
use wespe.Mib.Registry.{
  registry_reset, register_module, register_table, registry_find_next, find_next_from, upper_bound,
}
use wespe.Mib.Tables.{
  table_find_next, scan_columns, scan_rows, cell_oid, populate_cell, populate_scalar, row_fuel,
}
use wespe.Mib.Resolve.{resolved_get, target_get, registry_resolve_next, resolve_next_from}
use wespe.DevAgent.Interfaces.{index_of_first, index_above}
use wespe.DevAgent.Scalars.{get_temperature}
use wespe.Snmp.Read.Counter64.{KeepsTypes, lookup_and_fetch-NoCounter64}
use wespe.DevAgent.Served.{dev_registry-KeepsContract}
use wespe.Mib.Types.{MibResult, Varbind, Resolved, zeroed}
use wespe.Mib.Resolve.Shifting.{walk_over, Follows}
use wespe.Transport.{Received, datagram}
use wespe.DevAgent.Types.{DevAgent}
use wespe.DevAgent.Sensors.{wsensor_next_index, wsensor_row_count, wsensor_get_cell}
use wespe.DevAgent.Agent.{initial_agent, dev_registry, agent_round}
use wespe.DevAgent.Valid.{IsValid, initial_agent-IsValid}
use wespe.DevAgent.Volatile.{volatile-walk_ends}
use wespe.DevAgent.Runs.{Runs, start, pass, serve, Fits, Runs-KeepsValid, dev_registry-IsKept}

abbrev at : ℕ → DevAgent
at seconds = record initial_agent { elapsed = seconds }

-- The second sensor is gone at three seconds, and there at five.
alone : wsensor_next_index (at 3) 1 ≡ none
unfolding wsensor_next_index
alone = refl

joined : wsensor_next_index (at 5) 1 ≡ some 2
unfolding wsensor_next_index
joined = refl

gone : (wsensor_get_cell 3 2 (at 9) zeroed).0 ≡ MibResult.no_such_instance
unfolding wsensor_get_cell
gone = refl

-- A state for each GetNext, four seconds apart, so that the second sensor comes and goes.
abbrev every_four : ℕ → List DevAgent
every_four zero = []
every_four (suc n) = at (n * 4) ∷ every_four n

at-IsValid : (seconds : ℕ) → IsValid (at seconds)
at-IsValid seconds =
    let v = initial_agent-IsValid in
    record {
      interfaces = v.interfaces;
      sensors = v.sensors;
      sensors_fit = v.sensors_fit;
      relay = v.relay;
    }

every_four-IsValid : (n : ℕ) → All IsValid (every_four n)
every_four-IsValid zero = tt
every_four-IsValid (suc n) = (at-IsValid (n * 4), every_four-IsValid n)

volatile-walk_ends_example :
    (rs : List (Resolved DevAgent)) × (walk_over dev_registry (every_four 47) (1 ∷ 3 ∷ [])
      ≡ some rs)
    × Follows dev_registry (every_four 47) (1 ∷ 3 ∷ []) rs
volatile-walk_ends_example =
    volatile-walk_ends (every_four 47) (1 ∷ 3 ∷ []) (every_four-IsValid 47) (omega arith)

-- A GetRequest for sysName in the community "public", five seconds after the start.
abbrev heard : Received ℕ
heard = datagram 7 (
    48 ∷ 38 ∷ 2 ∷ 1 ∷ 1 ∷ 4 ∷ 6 ∷ 112 ∷ 117 ∷ 98 ∷ 108 ∷ 105 ∷ 99 ∷ 160 ∷ 25 ∷ 2 ∷ 1 ∷ 7 ∷ 2 ∷ 1 ∷ 0
    ∷ 2 ∷ 1 ∷ 0 ∷ 48 ∷ 14 ∷ 48 ∷ 12 ∷ 6 ∷ 8 ∷ 43 ∷ 6 ∷ 1 ∷ 2 ∷ 1 ∷ 1 ∷ 5 ∷ 0 ∷ 5 ∷ 0 ∷ [])

abbrev later : DevAgent
later = record initial_agent { elapsed = initial_agent.elapsed + 5 }

exchange : Runs (agent_round heard later).1 ([] ++ (agent_round heard later).0)
exchange = serve heard (pass 5 start)

Runs-KeepsValid_example :
    IsValid (agent_round heard later).1 × All (Fits {Peer = ℕ}) ([] ++ (agent_round heard later).0)
Runs-KeepsValid_example = Runs-KeepsValid exchange

dev_registry-KeepsTypes : KeepsTypes dev_registry IsValid
dev_registry-KeepsTypes d d' r vb vb' v m e =
    let (sorted, tables, types, modules_count, tables_count) = dev_registry-KeepsContract in
    (types d r m d d' vb vb' e).0

-- ifName of the second interface; the ifHCInOctets and ifHCOutOctets after it are Counter64.
abbrev last_name : Varbind
last_name = record zeroed { oid = 1 ∷ 3 ∷ 6 ∷ 1 ∷ 2 ∷ 1 ∷ 31 ∷ 1 ∷ 1 ∷ 1 ∷ 1 ∷ 2 ∷ [] }

-- wespeTemperature, which is the next after them.
abbrev temperature : Varbind
temperature = record zeroed {
  oid = 1 ∷ 3 ∷ 6 ∷ 1 ∷ 4 ∷ 1 ∷ 99999 ∷ 2 ∷ 1 ∷ 0 ∷ [];
  value_tag = tag_integer;
  int_value = 235;
}

skipped :
    lookup_and_fetch dev_registry Version.v1 LookupMode.next last_name zeroed initial_agent
    ≡ (MibResult.ok, temperature, initial_agent)
unfolding lookup_and_fetch lookup_loop resolve resolved_get target_get registry_resolve_next
    resolve_next_from registry_find_next find_next_from upper_bound nearer oid_compare
    table_find_next scan_columns scan_rows cell_oid populate_cell populate_scalar row_fuel
    dev_registry registry_reset register_module register_table index_of_first index_above
    wsensor_next_index wsensor_row_count get_temperature
skipped = refl

lookup_and_fetch-NoCounter64_example : temperature.value_tag ≢ tag_counter64
lookup_and_fetch-NoCounter64_example =
    lookup_and_fetch-NoCounter64 dev_registry IsValid dev_registry-IsKept dev_registry-KeepsTypes
      LookupMode.next last_name zeroed temperature initial_agent initial_agent initial_agent-IsValid
      skipped
