-- ===== src/Examples/Waiting.antt =====
-- Waiting for nodes in a small cluster, of whose two workers one is ready.
use app_lifecycle_kubernetes.Base.{
  suc, ◌+◌, ◌*◌, Bool, true, false, some, [], ok, ◌≡◌, refl, ltb, if◌then◌else◌,
}
use app_lifecycle_kubernetes.Base.Dict.{lookup}
use app_lifecycle_kubernetes.Types.{StartupNodeReadinessPolicy}
use app_lifecycle_kubernetes.Nodes.{count_total_worker_nodes, count_ready_worker_nodes}
use app_lifecycle_kubernetes.Nodes.Wait.{NodeSelect, timed_out, ticked, wait_for_nodes_ready}
use app_lifecycle_kubernetes.Examples.Fixtures.{World, client, world}

abbrev readiness : Bool → StartupNodeReadinessPolicy
readiness all = record {
  enabled = true;
  timeout_seconds = 0;
  min_ready_nodes = 0;
  require_all_nodes = all;
  node_selector = [];
}

-- Each tick is one nanosecond later, and the timer fires at nine.
abbrev until_nine : NodeSelect World
until_nine period seconds w =
    if ltb w.clock 9 then (ticked, record w { clock = suc w.clock }) else (timed_out, w)

abbrev only_ticks : NodeSelect World
only_ticks period seconds w = (ticked, record w { clock = w.clock + period * 1000000000 })

-- All nodes are asked for, and only one of two is ready when the timer fires.
runs_out :
    wait_for_nodes_ready client until_nine (readiness true) 6 world
    ≡ some ((ok 1, 0), record world { clock = 9 })
unfolding wait_for_nodes_ready count_ready_worker_nodes count_total_worker_nodes lookup
runs_out = refl

one_is_enough :
    wait_for_nodes_ready client only_ticks (readiness false) 3 world
    ≡ some ((ok 1, 2), record world { clock = 2000000005 })
unfolding wait_for_nodes_ready count_ready_worker_nodes lookup
one_is_enough = refl
