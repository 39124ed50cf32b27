-- ===== src/Graph.antt =====
-- src/lambda_executor/src/graphutil/graph.go: one partition of the graph in an executor. Node
-- numbers, sizes and degrees are int32 in Go and stand here as numbers; `none` is a panic.
pub mod File
pub mod Load
pub mod Segment
pub mod Side
pub mod Fits
pub mod Loaded
pub mod Save
pub mod Degrees
pub mod Tests
use mathlib.Core.Option
use faa_sgraph.Base.{
  ℕ, suc, ◌-◌, ◌/◌, ◌%◌, ◌^◌, Bool, true, false, Option, none, some, List, [], ◌∷◌, ◌&&◌, ◌>>=◌,
  leb, ltb, if◌then◌else◌, get_elem?, length, take, drop,
}
use faa_sgraph.MemPool
use faa_sgraph.MemPool.{MemPool, Addr, val_addr, in_d_addr, out_d_addr}

-- The strings "MIN_CAS" and "FLOAT_ADD", and any other.
pub data AggregateOp : Type 0 where
  min_cas_op float_add_op other_op : AggregateOp

pub record Graph : Type 0 where
  pub start_node : ℕ
  pub size : ℕ
  pub total_node : ℕ
  pub in_edge : Bool
  pub in_csr : List ℕ
  pub in_offset : List ℕ
  pub out_edge : Bool
  pub out_csr : List ℕ
  pub out_offset : List ℕ
  pub mem_pool : MemPool
  pub weighted : Bool
  pub aggregate_op : AggregateOp

-- Go's `xs[lo:hi]` with bounds of type int32, as bit patterns: a negative bound panics.
unfoldable pub slice : List ℕ → ℕ → ℕ → Option (List ℕ)
slice xs lo hi =
    if leb lo hi && (leb hi (length xs) && ltb hi (2 ^ 31))
    then some (take (hi - lo) (drop lo xs))
    else none

-- `node - startNode` as an index; a node below the partition panics.
abbrev pub local_index : Graph → ℕ → Option ℕ
local_index g node = if leb g.start_node node then some (node - g.start_node) else none

abbrev pub edges_at : List ℕ → List ℕ → ℕ → Option (List ℕ)
edges_at csr offset i = do lo ← get_elem? offset i; hi ← get_elem? offset (suc i); slice csr lo hi

unfoldable pub in_edge : Graph → ℕ → Option (List ℕ)
in_edge g node = do i ← local_index g node; edges_at g.in_csr g.in_offset i

unfoldable pub out_edge : Graph → ℕ → Option (List ℕ)
out_edge g node = do i ← local_index g node; edges_at g.out_csr g.out_offset i

-- The offsets never fall, so that the difference is a number.
abbrev pub degree_at : Bool → List ℕ → ℕ → Option ℕ
degree_at weighted offset i = do
  lo ← get_elem? offset i
  hi ← get_elem? offset (suc i)
  some (if weighted then (hi - lo) / 2 else hi - lo)

unfoldable pub calc_in_degree : Graph → ℕ → Option ℕ
calc_in_degree g node = do i ← local_index g node; degree_at g.weighted g.in_offset i

unfoldable pub calc_out_degree : Graph → ℕ → Option ℕ
calc_out_degree g node = do i ← local_index g node; degree_at g.weighted g.out_offset i

unfoldable pub load_mem_pool : Graph → ℕ → Graph
load_mem_pool g vertex_val_cnt = record g {
  mem_pool = MemPool.new_mem_pool g.total_node vertex_val_cnt;
}

abbrev pub with_pool : Graph → Option MemPool → Option Graph
with_pool g = Option.map (λ m. record g { mem_pool = m })

unfoldable pub get_vertex_val : Graph → ℕ → ℕ → Option ℕ
get_vertex_val g tag node = MemPool.get g.mem_pool node (val_addr tag)

unfoldable pub set_vertex_val : Graph → ℕ → ℕ → ℕ → Option Graph
set_vertex_val g tag v val = with_pool g (MemPool.store g.mem_pool v val (val_addr tag))

-- `aggregateFunc` is set from the operator, and is nil for any other name.
unfoldable pub aggregate_vertex_val : (ℕ → ℕ → ℕ) → Graph → ℕ → ℕ → ℕ → Option (Graph × Bool)
aggregate_vertex_val fadd g tag vertex val =
    Option.map (λ (m, r). (record g { mem_pool = m }, r))
      (elim g.aggregate_op [
        | min_cas_op ↦ MemPool.min_cas g.mem_pool vertex val (val_addr tag)
        | float_add_op ↦ MemPool.float_add fadd g.mem_pool vertex val (val_addr tag)
        | other_op ↦ none
      ])

unfoldable pub get_in_degree : Graph → ℕ → Option ℕ
get_in_degree g node = MemPool.get g.mem_pool node in_d_addr

-- The address is that of the out-degrees, as in the source.
unfoldable pub set_in_degree : Graph → ℕ → ℕ → Option Graph
set_in_degree g node in_degree = with_pool g (MemPool.store g.mem_pool node in_degree out_d_addr)

unfoldable pub get_out_degree : Graph → ℕ → Option ℕ
get_out_degree g node = MemPool.get g.mem_pool node out_d_addr

unfoldable pub set_out_degree : Graph → ℕ → ℕ → Option Graph
set_out_degree g node out_degree = with_pool g (MemPool.store g.mem_pool node out_degree out_d_addr)
