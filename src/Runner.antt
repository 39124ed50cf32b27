-- ===== src/Runner.antt =====
-- src/lambda_executor/src/runner/graph_runner.go: which vertices a call loads and computes on, to
-- whom it sends updates, and the updates that come in. The kernel is a parameter; `none` is a panic.
pub mod Active
pub mod Keys
pub mod Tests
use mathlib.Core.Option
use faa_sgraph.Base.{
  ℕ, zero, suc, ◌+◌, ◌-◌, ◌*◌, ◌<◌, min, Bool, true, false, Option, none, some, List, [], ◌∷◌, ◌++◌,
  ltb, leb, ◌==◌, if◌then◌else◌, ◌>>=◌, length,
}
use faa_sgraph.Bitmap
use faa_sgraph.Bitmap.{Bitmap}
use faa_sgraph.Bytes.{uint32_slice_to_byte_slice, byte_slice_to_uint32_slice}
use faa_sgraph.Graph.{
  Graph, AggregateOp, min_cas_op, float_add_op, other_op, calc_in_degree, calc_out_degree,
  get_vertex_val, set_vertex_val, aggregate_vertex_val,
}
use faa_sgraph.Wire.{each_pair}

-- The fields that the functions read; addresses and keys are numbers.
pub record Runner : Type 0 where
  pub ip : ℕ
  pub total_node : ℕ
  pub graphs : List (ℕ × Graph)
  pub worker_ip_list : List ℕ
  pub container_addr_list : List ℕ
  pub start_node_list : List ℕ
  pub share_memory : Bool

abbrev pub graph_of : ℕ → List (ℕ × Graph) → Option Graph
graph_of key [] = none
graph_of key ((k, g) ∷ gs) = if k == key then some g else graph_of key gs

-- The receivers with shared memory: every other worker, with start node 0.
abbrev pub other_workers : ℕ → List ℕ → List (ℕ × ℕ)
other_workers ip [] = []
other_workers ip (w ∷ ws) =
    let rest = other_workers ip ws in if w == ip then rest else (w, 0) ∷ rest

-- The receivers without: every container address whose start node is another one; an address
-- without a start node panics.
abbrev pub other_parts : ℕ → List ℕ → List ℕ → Option (List (ℕ × ℕ))
other_parts start [] nodes = some []
other_parts start (a ∷ addrs) [] = none
other_parts start (a ∷ addrs) (n ∷ ns) = do
  rest ← other_parts start addrs ns
  some (if n == start then rest else (a, n) ∷ rest)

unfoldable pub create_writers : Runner → Graph → Option (List (ℕ × ℕ))
create_writers r g =
    if r.share_memory
    then some (other_workers r.ip r.worker_ip_list)
    else other_parts g.start_node r.container_addr_list r.start_node_list

-- The vertices from one on, as many as given.
abbrev pub vertices : ℕ → ℕ → List ℕ
vertices start zero = []
vertices start (suc n) = start ∷ vertices (suc start) n

-- The blocks of `LoadMem`, on fuel: `for i := 0; i < size; i += block`.
unfoldable pub load_blocks : ℕ → ℕ → ℕ → ℕ → ℕ → List (List ℕ)
load_blocks block zero start size i = []
load_blocks block (suc fuel) start size i =
    let rest = load_blocks block fuel start size (i + block) in
    if ltb i size then vertices (start + i) (min block (size - i)) ∷ rest else []

module _ (load : ℕ → ℕ → ℕ → Graph → Bitmap → Option (Graph × Bitmap)) where
  -- `loadMemFunc` on its vertices: the graph, the first active set, and what is sent.
  unfoldable pub load_vertices : List ℕ → Graph → Bitmap → List ℕ → Option (Graph × Bitmap × List ℕ)
  unfolding calc_in_degree calc_out_degree get_vertex_val
  load_vertices [] g activate updates = some (g, activate, updates)
  load_vertices (v ∷ vs) g activate updates = do
    ins ← calc_in_degree g v
    outs ← calc_out_degree g v
    r ← load v ins outs g activate
    val ← get_vertex_val r.0 0 v
    load_vertices vs r.0 r.1 (updates ++ v ∷ val ∷ [])

  -- The blocks, one after another; each sends one frame to every writer.
  unfoldable pub load_each :
      List (List ℕ) → Graph → Bitmap → List (List ℕ) → Option (Graph × Bitmap × List (List ℕ))
  unfolding load_vertices
  load_each [] g activate sent = some (g, activate, sent)
  load_each (vs ∷ vss) g activate sent = do
    (g', activate', updates) ← load_vertices vs g activate (length vs ∷ [])
    load_each vss g' activate' (sent ++ uint32_slice_to_byte_slice updates ∷ [])

  unfoldable pub load_mem : Runner → ℕ → ℕ → Option (Graph × List ℕ × List (List ℕ))
  unfolding load_each load_blocks Bitmap.new_bitmap
  load_mem r block key = do
    g ← graph_of key r.graphs
    (g', activate, sent) ←
        load_each (load_blocks block g.size g.start_node g.size 0) g
          (Bitmap.new_bitmap r.total_node) []
    some (g', activate.words, sent)

-- The list of active vertices of `gas`: from v on, as many as are left.
unfoldable pub active_from : Bitmap → ℕ → ℕ → Option (List ℕ)
unfolding Bitmap.get
active_from active v zero = some []
active_from active v (suc n) = do
  here ← Bitmap.get active v
  rest ← active_from active (suc v) n
  some (if here then v ∷ rest else rest)

abbrev pub calc_if :
    (List ℕ → Graph → Bitmap → Option (Graph × Bitmap))
    → List ℕ
    → Graph
    → Bitmap
    → Option (Graph × Bitmap)
calc_if calc [] g next = some (g, next)
calc_if calc (v ∷ vs) g next = calc (v ∷ vs) g next

module _ (calc : List ℕ → Graph → Bitmap → Option (Graph × Bitmap)) where
  -- `Calc` is called only if there is an active vertex.
  unfoldable pub gas : ℕ → Bitmap → Graph → Option (Graph × Bitmap)
  unfolding active_from Bitmap.new_bitmap
  gas total_node active g = do
    vs ← active_from active g.start_node g.size
    calc_if calc vs g (Bitmap.new_bitmap total_node)

  -- The answer is the words of the next active set, as bytes.
  unfoldable pub run : Runner → ℕ → List ℕ → Option (Graph × List ℕ)
  unfolding gas Bitmap.new_bitmap_with uint32_slice_to_byte_slice byte_slice_to_uint32_slice
  run r key body = do
    g ← graph_of key r.graphs
    (g', next) ← gas r.total_node (Bitmap.new_bitmap_with (byte_slice_to_uint32_slice body)) g
    some (g', uint32_slice_to_byte_slice next.words)

-- One update that comes in; only "MIN_CAS" aggregates.
abbrev pub set_one : (ℕ → ℕ → ℕ) → ℕ → AggregateOp → ℕ → ℕ → Graph → Option Graph
set_one fadd tag min_cas_op v val g = Option.map (λ r. r.0) (aggregate_vertex_val fadd g tag v val)
set_one fadd tag float_add_op v val g = set_vertex_val g tag v val
set_one fadd tag other_op v val g = set_vertex_val g tag v val

unfoldable pub set_vertex_info : (ℕ → ℕ → ℕ) → Runner → ℕ → ℕ → AggregateOp → List ℕ → Option Graph
unfolding set_vertex_val aggregate_vertex_val
set_vertex_info fadd r start_node tag op updates = do
  g ← graph_of start_node r.graphs
  each_pair (set_one fadd tag op) updates g
