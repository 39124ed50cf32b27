-- ===== src/Manager/Tests.antt =====
-- Runs of src/faas_controller/src/faas/app_resource_manager.go, and instances of its theorems.
use mathlib.Core.List.{Permᴰ}
use mathlib.Core.List.Permᴰ
use faa_sgraph.Base.{
  ℕ, ◌≤◌, ◌<◌, ◌≡◌, ◌⊎◌, refl, Bool, true, false, Option, none, some, List, [], ◌∷◌, arith, All,
  ◌>>=◌,
}
use faa_sgraph.Cluster.{
  Node, Cluster, Grant, get, place_all, take_node, take_places, take_cpus, put, put_nodes, put_node,
}
use faa_sgraph.Cluster.Sort.{insertion_sort}
use faa_sgraph.Manager.{
  ContainerSet, AppResourceManager, waits, loads, new_container_set, add_queue, store, find,
  with_new, get_container_set, put_container_set, shortest_queue, idle_sets, kept_sets, recycle,
  put_resources,
}
use faa_sgraph.Manager.Queue.{queued}
use faa_sgraph.Manager.System.{System, Step, Reaches, initial}
use faa_sgraph.Manager.Invariant.{Inv, holds}
use faa_sgraph.Manager.Reach.{Reaches-Inv}
use faa_sgraph.Manager.Turns.{put_container_set_alone, turns, joins, turns-joins}
use faa_sgraph.Manager.Choice.{get_container_set-shortest}
use faa_sgraph.Manager.Recycle.{idle_sets-put_container_set}

abbrev node : List ℕ → ℕ → List Bool → Node
node ports slot mask = record { ip = 7; slot = slot; ports = ports; cpu_mask = mask }

-- One node with two slots, of which the first request takes both.
abbrev before_run : Cluster
before_run = record { nodes = node (1 ∷ 2 ∷ 3 ∷ []) 2 (false ∷ false ∷ []) ∷ []; current_slot = 2 }

abbrev taken : Cluster
taken = record { nodes = node [] 0 (true ∷ true ∷ []) ∷ []; current_slot = 0 }

abbrev granted : Grant
granted = record {
  places =
      record { ip = 7; port = 1; cpus = 0 ∷ 1 ∷ [] }
      ∷ record { ip = 7; port = 2; cpus = 0 ∷ 1 ∷ [] }
      ∷ [];
  coordinator_ip = 7;
  coordinator_port = 3;
}

-- Request 100 runs on set 5 since time 10, and request 101 waits for it.
abbrev in_use : ContainerSet
in_use = new_container_set 5 100 10 granted

abbrev awaited : ContainerSet
awaited = add_queue 101 in_use

abbrev one_set : AppResourceManager
one_set = record { free = []; available = in_use ∷ [] }

abbrev one_waits : AppResourceManager
one_waits = record { free = []; available = awaited ∷ [] }

abbrev two_requests : System
two_requests = record { manager = one_waits; cluster = taken; running = (100, 5) ∷ [] }

two_requests-Reaches : Reaches insertion_sort true 1 2 (initial before_run) two_requests
unfolding get_container_set get place_all take_node take_places take_cpus shortest_queue
two_requests-Reaches =
    Reaches.next
      (Reaches.next {t = initial before_run} Reaches.stop
        (Step.arrives 5 100 10 2 [] {answer = loads in_use} Permᴰ.nil (tt, tt) refl))
      (Step.arrives 6 101 20 2 (in_use ∷ []) {m = one_set} {answer = waits 5}
        (Permᴰ.refl (in_use ∷ [])) (tt, ((λ e. absurd (ground (arith, e))), tt)) refl)

Reaches-Inv_example : Inv 2 two_requests
Reaches-Inv_example =
    Reaches-Inv insertion_sort true 1 2 before_run two_requests (omega arith) two_requests-Reaches

put_container_set_alone_example :
    (holds 5 [] ≡ 0)
    × ((m' : AppResourceManager) × (next : Option ℕ) × (put_container_set 5 one_waits
          ≡ some (m', next)))
put_container_set_alone_example =
    put_container_set_alone insertion_sort true 1 2 before_run two_requests 100 5 [] []
      (omega arith) two_requests-Reaches refl

turns-joins_example :
    (m1 m' : AppResourceManager) × (s' : ContainerSet) × (joins insertion_sort true 1 3
        (101 ∷ 102 ∷ 103 ∷ [])
        5
        one_set
        taken
      ≡ some (m1, taken))
    × (turns 2 5 m1 ≡ some (101 ∷ 102 ∷ [], m'))
    × (find 5 m'.available ≡ some s')
    × (s'.wait_queue ≡ 103 ∷ [])
    × (m'.free ≡ [])
turns-joins_example =
    turns-joins insertion_sort true 1 3 (101 ∷ 102 ∷ []) (103 ∷ []) 5 one_set taken in_use refl refl

get_container_set-shortest_example :
    (All (λ u. 2 ≤ queued u) (in_use ∷ [])
      × (get_container_set insertion_sort true 1 2 6 101 20 2 (in_use ∷ []) one_set taken ≡ (
          get insertion_sort true 1 2 taken >>= λ answer. some (with_new 6 101 20 one_set answer))))
    ⊎ ((s : ContainerSet) × (find s.id (in_use ∷ []) ≡ some s)
        × (queued s < 2)
        × All (λ u. queued s ≤ queued u) (in_use ∷ [])
        × (get_container_set insertion_sort true 1 2 6 101 20 2 (in_use ∷ []) one_set taken
            ≡ some (
              record one_set { available = store (add_queue 101 s) (in_use ∷ []) },
              taken,
              waits s.id,
            )))
get_container_set-shortest_example =
    get_container_set-shortest insertion_sort true 1 2 6 101 20 2 (in_use ∷ []) one_set taken
      (omega arith) (Permᴰ.refl (in_use ∷ [])) (λ k. ground arith) refl

idle_sets-put_container_set_example :
    (m' : AppResourceManager) × (put_container_set 5 one_set ≡ some (m', none))
    × (idle_sets 2000 m'.free ≡ in_use ∷ [])
    × (kept_sets 2000 m'.free ≡ [])
idle_sets-put_container_set_example =
    idle_sets-put_container_set 5 2000 one_set in_use refl refl (omega arith)

-- The tick gives the slots back.
recycle_run : Option ℕ
unfolding recycle put_resources put put_nodes put_node
recycle_run = do
  (m, c) ← recycle 2000 1 (record { free = in_use ∷ []; available = [] }) taken
  some c.current_slot

recycle_count : recycle_run ≡ some 2
unfolding recycle_run recycle put_resources put put_nodes put_node
recycle_count = refl
