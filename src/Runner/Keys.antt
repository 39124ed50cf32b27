-- ===== src/Runner/Keys.antt =====
-- The graphs of an executor in src/lambda_executor/src/runner/graph_runner.go: `LoadKey` and
-- `LoadMemPool`. The files of a partition are named by its start node.
use mathlib.Core.Option
use faa_sgraph.Base.{
  ℕ, ◌≡◌, refl, ap, sym, ◌∙◌, inl, inr, Bool, false, Option, some, List, [], ◌∷◌, ◌==◌, ==_iff,
  if◌then◌else◌, ◌>>=◌, >>=-eq-some, arith, Bool-cases,
}
use faa_sgraph.Graph
use faa_sgraph.Graph.{Graph, AggregateOp}
use faa_sgraph.Graph.Load.{FileRead, load_graph}
use faa_sgraph.Csr.{GraphFiles}
use faa_sgraph.Graph.Save.{new_graph}
use faa_sgraph.Runner.{Runner, graph_of}

-- `r.graphs[startNode] = graph`
abbrev pub set_graph : ℕ → Graph → List (ℕ × Graph) → List (ℕ × Graph)
set_graph key g [] = (key, g) ∷ []
set_graph key g ((k, h) ∷ gs) =
    let rest = set_graph key g gs in if k == key then (key, g) ∷ gs else (k, h) ∷ rest

unfoldable pub load_key :
    (FileRead → ℕ → ℕ)
    → List ℕ
    → GraphFiles
    → Bool
    → Runner
    → ℕ
    → ℕ
    → Bool
    → Bool
    → AggregateOp
    → Option Runner
unfolding load_graph new_graph
load_key chunk start_nodes_file files weighted r key size in_edge out_edge aggregate_op = do
  g ←
      load_graph chunk start_nodes_file files
        (new_graph key size r.total_node in_edge out_edge aggregate_op weighted)
  some (record r { graphs = set_graph key g r.graphs })

-- The map holds pointers: the graph under the key is the one that gets the arrays.
unfoldable pub load_mem_pool : Runner → ℕ → ℕ → Option Runner
unfolding Graph.load_mem_pool
load_mem_pool r key vertex_array_cnt = do
  g ← graph_of key r.graphs
  some (record r { graphs = set_graph key (Graph.load_mem_pool g vertex_array_cnt) r.graphs })

pub graph_of-set_graph :
    (key k : ℕ) (g : Graph) (gs : List (ℕ × Graph))
    → graph_of k (set_graph key g gs) ≡ (if key == k then some g else graph_of k gs)
graph_of-set_graph key k g [] = refl
graph_of-set_graph key k g ((j, h) ∷ gs) = elim (Bool-cases (j == key)) [
  | inl here ↦
      let same = (==_iff j key).0 here in
      elim (Bool-cases (key == k)) [
        | inl wanted ↦ rw (set_graph, here) (rw wanted refl)
        | inr other ↦
            let other' : (j == k) ≡ false = ground arith in
            rw (set_graph, here) (rw (other, other') refl)
      ]
  | inr away ↦ elim (Bool-cases (j == k)) [
    | inl wanted ↦
        let other : (key == k) ≡ false = ground arith in
        rw (set_graph, away) (rw (wanted, other) refl)
    | inr other ↦ rw (set_graph, away) (rw other (graph_of-set_graph key k g gs))
  ]
]

-- After `LoadKey` the key has the graph that `LoadGraph` gives, and every other key what it had.
pub graph_of-load_key :
    (chunk : FileRead → ℕ → ℕ) (start_nodes_file : List ℕ) (files : GraphFiles) (weighted : Bool)
    (r r' : Runner) (key size : ℕ) (in_edge out_edge : Bool) (aggregate_op : AggregateOp)
    → load_key chunk start_nodes_file files weighted r key size in_edge out_edge aggregate_op
      ≡ some r'
    → (g : Graph) × (load_graph chunk start_nodes_file files
          (new_graph key size r.total_node in_edge out_edge aggregate_op weighted)
        ≡ some g)
      × ((k : ℕ) → graph_of k r'.graphs ≡ (if key == k then some g else graph_of k r.graphs))
unfolding load_key
graph_of-load_key chunk start_nodes_file files weighted r r' key size in_edge out_edge aggregate_op
      h =
    let (g, e, f) =
      >>=-eq-some
        (load_graph chunk start_nodes_file files
          (new_graph key size r.total_node in_edge out_edge aggregate_op weighted))
        _ h in
    (
      g,
      e,
      λ k.
          ap (λ q. graph_of k q.graphs) (sym (Option.some-injective _ _ f))
          ∙ graph_of-set_graph key k g r.graphs,
    )
