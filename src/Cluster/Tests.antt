-- ===== src/Cluster/Tests.antt =====
-- Runs of src/faas_controller/src/faas/cluster.go, and instances of its theorems.
use faa_sgraph.Base.{
  inr, ℕ, ◌+◌, ◌<◌, ◌≡◌, ◌⊎◌, refl, Bool, true, false, Option, none, some, [], ◌∷◌, arith, max,
  ◌>>=◌,
}
use faa_sgraph.Cluster.{
  Node, Cluster, Grant, init, take_cpus, take_places, take_node, place_all, get, put_node,
  put_nodes, put,
}
use faa_sgraph.Cluster.Sort.{by_insertion, insertion_sort}
use faa_sgraph.Cluster.Account.{slots_of, Wf, get-slots_of}
use faa_sgraph.Cluster.Away.{Distinct}
use faa_sgraph.Cluster.Start.{init-Wf}
use faa_sgraph.Cluster.Back.{SameNodes}
use faa_sgraph.Cluster.Restore.{put-get}

abbrev pub node : ℕ → ℕ → Node
node ip slot = record {
  ip = ip;
  slot = slot;
  ports = 1 ∷ 2 ∷ 3 ∷ 4 ∷ 5 ∷ [];
  cpu_mask = false ∷ false ∷ false ∷ false ∷ [];
}

-- Two nodes with two free slots each, two slots to a container.
abbrev pub two_nodes : Cluster
two_nodes = record { nodes = node 7 2 ∷ node 8 2 ∷ []; current_slot = 4 }

abbrev pub one_node : Cluster
one_node = record {
  nodes = record { ip = 7; slot = 2; ports = 1 ∷ 2 ∷ 3 ∷ []; cpu_mask = false ∷ false ∷ [] } ∷ [];
  current_slot = 2;
}

init_run : Option ℕ
unfolding init
init_run = do c ← init 4 (7 ∷ 8 ∷ []) (1 ∷ 0 ∷ []); some c.current_slot

init_count : init_run ≡ some 7
unfolding init_run init
init_count = refl

refused_run : get insertion_sort true 1 5 two_nodes ≡ some (two_nodes, none)
unfolding get place_all take_node take_places take_cpus
refused_run = refl

-- Without SHARE_CPU each container has its own processor, and `Put` frees only those of the last
-- container of a node: the next request finds none for its second container, and panics.
second_request : Bool → Option (Cluster × Option Grant)
unfolding get put place_all take_node take_places take_cpus put_nodes put_node
second_request share_cpu = do
  (c, granted) ← get insertion_sort share_cpu 1 2 one_node
  g ← granted
  c' ← put 1 g c
  get insertion_sort share_cpu 1 2 c'

second_request_run : second_request false ≡ none
unfolding second_request get put place_all take_node take_places take_cpus put_nodes put_node
second_request_run = refl

pub two_nodes-Wf : Wf two_nodes
two_nodes-Wf = record {
  fits = ((omega arith, omega arith), ((omega arith, omega arith), tt));
  counted = refl;
}

init-Wf_example :
    (c : Cluster) × (init 4 (7 ∷ 8 ∷ []) (1 ∷ 0 ∷ []) ≡ some c) × Wf c × Distinct c.nodes
init-Wf_example =
    init-Wf 4 (7 ∷ 8 ∷ []) (1 ∷ 0 ∷ []) (omega arith)
      (((λ e. absurd (ground (arith, e))), tt), (tt, tt)) (inr (omega arith))
      (omega arith, (omega arith, tt))

get-slots_of_example :
    ((4 < max 2 4) × (get insertion_sort true 2 4 two_nodes ≡ some (two_nodes, none)))
    ⊎ ((c' : Cluster) × (g : Grant) × (get insertion_sort true 2 4 two_nodes ≡ some (c', some g))
        × (c'.current_slot + max 2 4 ≡ 4)
        × (slots_of c'.nodes ≡ c'.current_slot))
get-slots_of_example = get-slots_of by_insertion true 2 4 two_nodes (omega arith) two_nodes-Wf

put-get_example :
    (c' : Cluster) × (g : Grant) × (back : Cluster) × (get insertion_sort true 2 4 two_nodes
      ≡ some (c', some g))
    × (put 2 g c' ≡ some back)
    × (back.current_slot ≡ 4)
    × SameNodes (insertion_sort two_nodes.nodes) back.nodes
put-get_example =
    put-get by_insertion 2 4 two_nodes (omega arith) two_nodes-Wf
      ((λ e. absurd (ground (arith, e)), tt), (tt, tt)) ((1, refl), ((1, refl), tt)) (2, refl)
      (omega arith)
