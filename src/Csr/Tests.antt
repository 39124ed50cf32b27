-- ===== src/Csr/Tests.antt =====
-- Runs of util/txt2csr.go, and instances of its theorems.
use faa_sgraph.Base.{ℕ, ◌-◌, ◌^◌, ◌≡◌, refl, true, false, none, some, List, [], ◌∷◌, arith}
use faa_sgraph.Csr.{EdgeLists, read_original_graph, calc_degrees, derive_csr, add_edge, weight}
use faa_sgraph.Csr.Adjacency.{directions}
use faa_sgraph.Csr.Build.{IsNode, IsSized, read_original_graph-IsNode, read_original_graph_total}

abbrev triangle : List (ℕ × ℕ)
triangle = (0, 1) ∷ (1, 2) ∷ []

abbrev triangle_lists : EdgeLists
triangle_lists = record {
  in_edge_list = (1 ∷ []) ∷ (0 ∷ 2 ∷ []) ∷ (1 ∷ []) ∷ [];
  out_edge_list = (1 ∷ []) ∷ (0 ∷ 2 ∷ []) ∷ (1 ∷ []) ∷ [];
  in_degree = 1 ∷ 2 ∷ 1 ∷ [];
  out_degree = 1 ∷ 2 ∷ 1 ∷ [];
}

-- An undirected, unweighted graph.
triangle_run : read_original_graph false false 3 triangle ≡ some triangle_lists
unfolding read_original_graph calc_degrees derive_csr add_edge
triangle_run = refl

-- A node out of range panics.
out_of_range : read_original_graph false true 2 triangle ≡ none
unfolding read_original_graph calc_degrees
out_of_range = refl

-- The int32 sum of two large node numbers is negative, and so is the weight.
negative_weight : weight 2000000000 2000000001 ≡ 2 ^ 32 - 95
unfolding weight
negative_weight = refl

read_original_graph-IsNode_example : IsNode false (directions false triangle) triangle_lists 1
read_original_graph-IsNode_example =
    read_original_graph-IsNode false false 3 triangle triangle_lists triangle_run 1 (omega arith)

read_original_graph_total_example :
    (s : EdgeLists) × (read_original_graph false false 3 triangle ≡ some s) × IsSized 3 s
read_original_graph_total_example = read_original_graph_total false false 3 triangle (omega arith)
