-- ===== src/ContainerSet/Tests.antt =====
-- Runs of `LoadGraph` of src/faas_controller/src/faas/container_set.go, and instances of its theorems.
use mathlib.Core.List.Permᴰ
use faa_sgraph.Base.{
  ℕ, ◌≤◌, ◌≡◌, refl, true, false, none, some, List, [], ◌∷◌, ◌+◌, ◌*◌, arith, map, length,
  get_elem?,
}
use faa_sgraph.Graph.Tests.{unloaded}
use faa_sgraph.Runner.{Runner, create_writers}
use faa_sgraph.Cluster.{Node, Cluster, Place, Grant, get}
use faa_sgraph.Cluster.Sort.{by_insertion, insertion_sort}
use faa_sgraph.ContainerSet.{worker_ips, container_addrs, keys_of, load_keys}
use faa_sgraph.ContainerSet.Workers.{ips_of, worker_ips-get}
use faa_sgraph.ContainerSet.Addresses.{container_addrs-load_keys, create_writers_panics}

abbrev place : ℕ → ℕ → Place
place ip port = record { ip = ip; port = port; cpus = 0 ∷ [] }

-- Two containers with room for two partitions each.
abbrev two_places : List Place
two_places = place 7 1 ∷ place 8 2 ∷ []

workers_run : worker_ips [] (7 ∷ 7 ∷ 8 ∷ 7 ∷ []) ≡ 7 ∷ 8 ∷ []
unfolding worker_ips
workers_run = refl

keys_run :
    load_keys {A = ℕ} 3 (0 ∷ 10 ∷ 20 ∷ []) 2 0 (7 ∷ 8 ∷ []) ≡ some ((0, 7) ∷ (10, 7) ∷ (20, 8) ∷ [])
unfolding load_keys keys_of
keys_run = refl

-- Three partitions: a fourth address.
addrs_run : container_addrs 3 2 0 two_places ≡ (7, 1) ∷ (7, 1) ∷ (8, 2) ∷ (8, 2) ∷ []
unfolding container_addrs
addrs_run = refl

abbrev node : ℕ → ℕ → Node
node ip slot = record {
  ip = ip;
  slot = slot;
  ports = 1 ∷ 2 ∷ 3 ∷ 4 ∷ [];
  cpu_mask = false ∷ false ∷ false ∷ [];
}

abbrev uneven : Cluster
uneven = record { nodes = node 7 1 ∷ node 8 3 ∷ []; current_slot = 4 }

worker_ips-get_example :
    (c' : Cluster) × (g : Grant) × (get insertion_sort true 1 3 uneven ≡ some (c', some g))
    × (length (worker_ips [] (ips_of g.places)) ≤ 1)
worker_ips-get_example =
    worker_ips-get by_insertion true 1 3 uneven (node 8 3 ∷ []) (node 7 1 ∷ []) (omega arith)
      (record {
        fits = ((omega arith, omega arith), ((omega arith, omega arith), tt));
        counted = refl;
      })
      (omega arith) (Permᴰ.append_comm (node 8 3 ∷ []) (node 7 1 ∷ [])) (omega arith)

container_addrs-load_keys_example :
    (pairs : List (ℕ × Place)) × (key : ℕ) × (load_keys 3 (0 ∷ 10 ∷ 20 ∷ []) 2 0 two_places
      ≡ some pairs)
    × (get_elem? (0 ∷ 10 ∷ 20 ∷ []) 2 ≡ some key)
    × (get_elem? pairs 2 ≡ some (key, place 8 2))
    × (get_elem? (container_addrs 3 2 0 two_places) 2 ≡ some (8, 2))
container_addrs-load_keys_example =
    container_addrs-load_keys 3 2 (0 ∷ 10 ∷ 20 ∷ []) two_places (omega arith) 1 0 (place 8 2)
      (omega arith) (omega arith) (omega arith) refl

abbrev text_of : ℕ × ℕ → ℕ
text_of (ip, port) = 100000 * ip + port

abbrev three_partitions : Runner
three_partitions = record {
  ip = 7;
  total_node = 30;
  graphs = [];
  worker_ip_list = 7 ∷ 8 ∷ [];
  container_addr_list = map text_of (container_addrs 3 2 0 two_places);
  start_node_list = 0 ∷ 10 ∷ 20 ∷ [];
  share_memory = false;
}

create_writers_panics_example : create_writers three_partitions unloaded ≡ none
create_writers_panics_example =
    create_writers_panics text_of 3 2 two_places three_partitions unloaded refl refl refl
      (omega arith) (omega arith)
