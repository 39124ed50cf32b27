-- ===== src/Partition.antt =====
-- util/split.go: the start nodes of the partitions. The text is taken as its list of parsed edges.
-- Degrees and their sums are int32, and stand here as numbers, on graphs whose degrees sum to less
-- than 2 ^ 31 at each node; `none` is a panic.
pub mod Balance
pub mod Config
pub mod Tests
use mathlib.Core.Option
use faa_sgraph.Base.{
  ℕ, zero, suc, ◌+◌, ◌-◌, ◌*◌, ◌/◌, Bool, true, false, Option, none, some, List, [], ◌∷◌, ◌++◌, ltb,
  ◌==◌, if◌then◌else◌, ◌>>=◌, replicate, modify, drop, take, length,
}
use faa_sgraph.Bytes.{uint32_slice_to_byte_slice, bytes_to_uint32}

-- The variables of `readOriginalGraph`.
pub record Degrees : Type 0 where
  pub total_edge : ℕ
  pub in_degree : List ℕ
  pub out_degree : List ℕ

-- One direction of an edge.
unfoldable pub count_edge : ℕ → ℕ → Degrees → Option Degrees
count_edge u v s = do
  ins ← modify (λ d. d + 1) s.in_degree v
  outs ← modify (λ d. d + 1) s.out_degree u
  some (record { total_edge = s.total_edge + 1; in_degree = ins; out_degree = outs })

unfoldable pub count_edges : Bool → List (ℕ × ℕ) → Degrees → Option Degrees
unfolding count_edge
count_edges directed [] s = some s
count_edges directed ((u, v) ∷ es) s = do
  s' ← count_edge u v s
  s'' ← if directed then some s' else count_edge v u s'
  count_edges directed es s''

unfoldable pub read_original_graph : Bool → ℕ → List (ℕ × ℕ) → Option Degrees
unfolding count_edges
read_original_graph directed total_node es = count_edges directed es (record {
  total_edge = 0;
  in_degree = replicate total_node 0;
  out_degree = replicate total_node 0;
})

-- The two degree arrays, read together: the sum at each node. They have the same length.
abbrev pub degree_sums : List ℕ → List ℕ → List ℕ
degree_sums [] outs = []
degree_sums (i ∷ ins) [] = []
degree_sums (i ∷ ins) (o ∷ outs) = (i + o) ∷ degree_sums ins outs

-- The inner loop: nodes join the partition until its degrees pass the limit. The result is the
-- next start, and the degrees from there on.
unfoldable pub group : ℕ → ℕ → ℕ → List ℕ → ℕ × List ℕ
group limit cur start [] = (start, [])
group limit cur start (d ∷ ds) =
    let rest = group limit (cur + d) (suc start) ds in
    if ltb limit (cur + d) then (suc start, ds) else rest

-- The outer loop, on fuel.
unfoldable pub starts : ℕ → ℕ → ℕ → List ℕ → Option (List ℕ)
unfolding group
starts limit fuel start [] = some []
starts limit zero start (d ∷ ds) = none
starts limit (suc fuel) start (d ∷ ds) =
    let next = group limit 0 start (d ∷ ds) in
    Option.map (λ r. start ∷ r) (starts limit fuel next.0 next.1)

-- The limit is a quotient by the number of partitions; a node is a round at most.
unfoldable pub split : ℕ → ℕ → Degrees → Option (List ℕ)
unfolding starts
split partition total_node s =
    if partition == 0
    then none
    else Option.map (λ r. r ++ total_node ∷ [])
        (starts (s.total_edge * 2 / partition) total_node 0 (degree_sums s.in_degree s.out_degree))

-- The file of start nodes.
unfoldable pub build_split : List ℕ → List ℕ
build_split start_nodes = uint32_slice_to_byte_slice start_nodes

-- `f.Read(b)` of the file: the bytes that are left, as many as b holds.
abbrev pub read_start : List ℕ → List ℕ → List ℕ
read_start b file = take (length b) file ++ drop (length file) b

-- `LoadGraphConfig` of src/faas_controller/src/common/config.go: the controller reads as many start
-- nodes as there are partitions; a read at the end of the file leaves the buffer as it was.
unfoldable pub read_starts : ℕ → List ℕ → List ℕ → List ℕ
unfolding bytes_to_uint32
read_starts zero b file = []
read_starts (suc k) b file =
    let b' = read_start b file in bytes_to_uint32 b' ∷ read_starts k b' (drop 4 file)

-- The sizes, with the start nodes that are their keys.
unfoldable pub sizes : ℕ → List ℕ → List (ℕ × ℕ)
sizes total_node [] = []
sizes total_node (x ∷ []) = (x, total_node - x) ∷ []
sizes total_node (x ∷ y ∷ ys) = (x, y - x) ∷ sizes total_node (y ∷ ys)

unfoldable pub load_graph_config : ℕ → ℕ → List ℕ → List ℕ × List (ℕ × ℕ)
unfolding read_starts sizes
load_graph_config partition total_node file =
    let start_nodes = read_starts partition (replicate 4 0) file in
    (start_nodes, sizes total_node start_nodes)
