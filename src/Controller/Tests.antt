-- ===== src/Controller/Tests.antt =====
-- Runs of src/faas_controller/src/application/graph.go, and an instance of its theorem.
use faa_sgraph.Base.{ℕ, ◌≡◌, refl, Option, none, some, true, ◌==◌, if◌then◌else◌, [], ◌∷◌, arith}
use faa_sgraph.Cluster.{Cluster, Grant}
use faa_sgraph.Cluster.Sort.{by_insertion}
use faa_sgraph.Cluster.Tests.{two_nodes, two_nodes-Wf}
use faa_sgraph.Manager.{loads, new_container_set, shortest_queue}
use faa_sgraph.Controller.{Meets, retry, execute, sent_array_cnt}
use faa_sgraph.Controller.Retry.{NoSet, asks, execute-loads}

-- Refused twice, then given set 7.
abbrev third_time : ℕ → Option (Option ℕ)
third_time s = some (if s == 2 then some 7 else none)

execute_run : execute third_time (0 ∷ 1 ∷ 2 ∷ []) ≡ some (7, 9)
unfolding execute retry
execute_run = refl

arrays_run : sent_array_cnt 0 ≡ 1
arrays_run = refl

abbrev full : Cluster
full = record { nodes = []; current_slot = 1 }

-- No sets yet.
abbrev meets : ℕ → Cluster → Meets
meets now c = record {
  new_id = 5;
  now = now;
  ordered = [];
  manager = record { free = []; available = [] };
  cluster = c;
}

meets-NoSet : (now : ℕ) (c : Cluster) → NoSet by_insertion true 2 1 4 100 (meets now c)
unfolding shortest_queue
meets-NoSet now c = record { none_free = refl; none_chosen = refl }

execute-loads_example :
    (g : Grant) × (execute
        (asks by_insertion true 2 1 4 100)
        (meets 10 full ∷ meets 13 full ∷ meets 19 two_nodes ∷ [])
      ≡ some (loads (new_container_set 5 100 19 g), 9))
execute-loads_example =
    execute-loads by_insertion true 2 1 4 100 (meets 10 full ∷ meets 13 full ∷ []) []
      (meets 19 two_nodes) (omega arith)
      ((meets-NoSet 10 full, omega arith), ((meets-NoSet 13 full, omega arith), tt))
      (meets-NoSet 19 two_nodes) two_nodes-Wf (omega arith)
