-- ===== src/Partition/Tests.antt =====
-- Runs of util/split.go and of `LoadGraphConfig`, and instances of their theorems.
use faa_sgraph.Base.{ℕ, ◌≤◌, ◌≡◌, refl, true, some, List, [], ◌∷◌, ◌++◌, arith, length, sum_by}
use faa_sgraph.Partition.{
  Degrees, read_original_graph, count_edges, count_edge, split, starts, group, build_split,
  load_graph_config,
}
use faa_sgraph.Partition.Balance.{Ascends, split-Ascends}
use faa_sgraph.Partition.Config.{load_graph_config-split}

-- 0 → 1, 0 → 2, 2 → 3, 3 → 0
abbrev edges : List (ℕ × ℕ)
edges = (0, 1) ∷ (0, 2) ∷ (2, 3) ∷ (3, 0) ∷ []

abbrev counted : Degrees
counted = record { total_edge = 4; in_degree = 1 ∷ 1 ∷ 1 ∷ 1 ∷ []; out_degree = 2 ∷ 0 ∷ 1 ∷ 1 ∷ [] }

counted_run : read_original_graph true 4 edges ≡ some counted
unfolding read_original_graph count_edges count_edge
counted_run = refl

split_run : split 3 4 counted ≡ some (0 ∷ 1 ∷ 3 ∷ 4 ∷ [])
unfolding split starts group
split_run = refl

split-Ascends_example :
    (r : List ℕ) × (split 3 4 counted ≡ some (r ++ 4 ∷ [])) × Ascends 0 r 4 × (length r ≤ 3)
split-Ascends_example = split-Ascends true 4 3 edges counted counted_run (omega arith)

load_graph_config-split_example :
    ((load_graph_config 3 4 (build_split (0 ∷ 1 ∷ 3 ∷ 4 ∷ []))).0 ≡ 0 ∷ 1 ∷ 3 ∷ [])
    × (sum_by (λ p. p.1) (load_graph_config 3 4 (build_split (0 ∷ 1 ∷ 3 ∷ 4 ∷ []))).1 ≡ 4)
load_graph_config-split_example =
    load_graph_config-split 4 (0 ∷ 1 ∷ 3 ∷ [])
      (refl, (1, omega arith, (refl, (3, omega arith, (refl, (4, omega arith, refl))))))
      (omega arith) (omega arith)
