-- ===== src/Spawner/Counters.antt =====
-- internal/spawner/spawner.go: the lifetime counters and the pause flag.
-- The counters.
use autoscaler.Common.{Bool}
use autoscaler.World.{M, SpawnerState, increment}

abbrev pub update_spawner : (SpawnerState → SpawnerState) → M (Unit {0})
update_spawner f m = (tt, record m { spawner = f m.spawner })

abbrev pub add_spawned : M (Unit {0})
add_spawned = update_spawner (λ s. record s { total_spawned = increment s.total_spawned })

abbrev pub add_cap_hit : M (Unit {0})
add_cap_hit = update_spawner (λ s. record s { total_cap_hit = increment s.total_cap_hit })

abbrev pub add_error : M (Unit {0})
add_error = update_spawner (λ s. record s { total_errors = increment s.total_errors })

abbrev pub add_idle_skip : M (Unit {0})
add_idle_skip = update_spawner (λ s. record s { total_idle_skip = increment s.total_idle_skip })

abbrev pub add_paused : M (Unit {0})
add_paused = update_spawner (λ s. record s { total_paused = increment s.total_paused })

-- `IncReconcile`, `SetPaused`, `IsPaused`.
unfoldable pub inc_reconcile : M (Unit {0})
inc_reconcile = update_spawner (λ s. record s { total_reconcile = increment s.total_reconcile })

unfoldable pub set_paused : Bool → M (Unit {0})
set_paused p = update_spawner (λ s. record s { paused = p })

abbrev pub is_paused : M Bool
is_paused m = (m.spawner.paused, m)
