-- ===== src/Runner/Tests.antt =====
-- Runs of src/lambda_executor/src/runner/graph_runner.go, and instances of its theorems.
use faa_sgraph.Base.{ℕ, ◌<◌, ◌≤◌, ◌≡◌, ◌↔◌, refl, true, some, List, [], ◌∷◌, arith, Mem}
use faa_sgraph.Bitmap
use faa_sgraph.Bitmap.{Bitmap}
use faa_sgraph.MemPool
use faa_sgraph.Bytes.{
  uint32_slice_to_byte_slice, int64_slice_to_byte_slice, byte_slice_to_uint32_slice,
  byte_slice_to_int64_slice,
}
use faa_sgraph.Csr.{build_graph}
use faa_sgraph.Graph
use faa_sgraph.Graph.{min_cas_op}
use faa_sgraph.Graph.File.{read_loop, read_segment_from_file, read_from_file}
use faa_sgraph.Graph.Load.{load_graph}
use faa_sgraph.Graph.Save.{new_graph}
use faa_sgraph.Graph.Tests.{three_bytes, lists, loaded}
use faa_sgraph.Runner.Keys.{load_key, load_mem_pool}
use faa_sgraph.Runner.{Runner, active_from, load_blocks, other_workers, other_parts}
use faa_sgraph.Runner.Active.{Ascends, active_from-Mem}

-- Vertices 1, 3 and 5 are active.
abbrev odd : Bitmap
odd = record { words = 42 ∷ [] }

active_run : active_from odd 2 3 ≡ some (3 ∷ [])
unfolding active_from Bitmap.get
active_run = refl

blocks_run : load_blocks 2 3 10 5 0 ≡ (10 ∷ 11 ∷ []) ∷ (12 ∷ 13 ∷ []) ∷ (14 ∷ []) ∷ []
unfolding load_blocks
blocks_run = refl

-- The receivers of updates, with and without shared memory.
workers_run : other_workers 2 (1 ∷ 2 ∷ 3 ∷ []) ≡ (1, 0) ∷ (3, 0) ∷ []
workers_run = refl

parts_run : other_parts 20 (7 ∷ 8 ∷ 9 ∷ []) (0 ∷ 20 ∷ 40 ∷ []) ≡ some ((7, 0) ∷ (9, 40) ∷ [])
parts_run = refl

active_from-Mem_example :
    (vs : List ℕ) × (active_from odd 2 3 ≡ some vs)
    × Ascends 2 vs
    × ((u : ℕ) → Mem u vs ↔ ((2 ≤ u) × (u < 5) × (Bitmap.get odd u ≡ some true)))
active_from-Mem_example = active_from-Mem odd 2 3 (omega arith)

abbrev no_graphs : Runner
no_graphs = record {
  ip = 7;
  total_node = 4;
  graphs = [];
  worker_ip_list = [];
  container_addr_list = [];
  start_node_list = 0 ∷ 2 ∷ [];
  share_memory = true;
}

-- The key 2 of a new executor: its graph is the second partition.
load_key_run :
    load_key three_bytes
      (uint32_slice_to_byte_slice (0 ∷ 2 ∷ []))
      (build_graph lists)
      true
      no_graphs
      2
      2
      true
      true
      min_cas_op
    ≡ some (record no_graphs { graphs = (2, loaded) ∷ [] })
unfolding load_key load_graph new_graph read_segment_from_file read_from_file read_loop build_graph
    uint32_slice_to_byte_slice int64_slice_to_byte_slice byte_slice_to_uint32_slice
    byte_slice_to_int64_slice
load_key_run = refl

pool_run :
    load_mem_pool (record no_graphs { graphs = (2, loaded) ∷ [] }) 2 1
    ≡ some (record no_graphs {
      graphs = (2, record loaded { mem_pool = MemPool.new_mem_pool 4 1 }) ∷ [];
    })
unfolding load_mem_pool Graph.load_mem_pool MemPool.new_mem_pool
pool_run = refl
