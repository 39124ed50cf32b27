-- ===== src/Graph/Tests.antt =====
-- Runs of graph.go and txt2csr.go on a small graph, and instances of their theorems.
use faa_sgraph.Base.{ℕ, ◌≡◌, ◌<◌, ltb, if◌then◌else◌, refl, true, some, List, [], ◌∷◌, arith}
use faa_sgraph.Bytes.{
  uint32_to_bytes, uint32_slice_to_byte_slice, int64_slice_to_byte_slice,
  byte_slice_to_uint32_slice, byte_slice_to_int64_slice,
}
use faa_sgraph.Graph.File.{read_loop, read_segment_from_file, read_from_file}
use faa_sgraph.Csr.{
  EdgeLists, read_original_graph, calc_degrees, derive_csr, add_edge, weight, build_graph,
}
use faa_sgraph.Csr.Build.{IsSized}
use faa_sgraph.Graph.{
  Graph, min_cas_op, in_edge, out_edge, set_in_degree, get_in_degree, get_out_degree,
  calc_in_degree, calc_out_degree, get_vertex_val,
}
use faa_sgraph.MemPool
use faa_sgraph.MemPool.{slot}
use faa_sgraph.Graph.Degrees.{set_in_degree_misplaced}
use faa_sgraph.Graph.Load.{FileRead, load_graph}
use faa_sgraph.Graph.Save.{save, saved}
use faa_sgraph.Graph.Loaded.{load_graph_returns, load_graph_faithful}

-- 0 → 1, 0 → 2, 2 → 3, 3 → 0
abbrev edges : List (ℕ × ℕ)
edges = (0, 1) ∷ (0, 2) ∷ (2, 3) ∷ (3, 0) ∷ []

abbrev pub lists : EdgeLists
lists = record {
  in_edge_list = (3 ∷ 3 ∷ []) ∷ (0 ∷ 1 ∷ []) ∷ (0 ∷ 2 ∷ []) ∷ (2 ∷ 5 ∷ []) ∷ [];
  out_edge_list = (1 ∷ 1 ∷ 2 ∷ 2 ∷ []) ∷ [] ∷ (3 ∷ 5 ∷ []) ∷ (0 ∷ 3 ∷ []) ∷ [];
  in_degree = 1 ∷ 1 ∷ 1 ∷ 1 ∷ [];
  out_degree = 2 ∷ 0 ∷ 1 ∷ 1 ∷ [];
}

lists_built : read_original_graph true true 4 edges ≡ some lists
unfolding read_original_graph calc_degrees derive_csr add_edge weight
lists_built = refl

lists-IsSized : IsSized 4 lists
lists-IsSized = record { in_lists = refl; out_lists = refl; in_degrees = refl; out_degrees = refl }

-- The second of two partitions, nodes 2 and 3, before loading.
abbrev pub unloaded : Graph
unloaded = record {
  start_node = 2;
  size = 2;
  total_node = 4;
  in_edge = true;
  in_csr = [];
  in_offset = [];
  out_edge = true;
  out_csr = [];
  out_offset = [];
  mem_pool = record { vertex_val = []; in_d = []; out_d = [] };
  weighted = true;
  aggregate_op = min_cas_op;
}

-- Three bytes at a time, and five from the sixth on.
abbrev pub three_bytes : FileRead → ℕ → ℕ
three_bytes r n = if ltb n 6 then 3 else 5

three_bytes-positive : (r : FileRead) (n : ℕ) → 0 < three_bytes r n
three_bytes-positive r n = ground arith

load_graph_returns_example :
    (g' : Graph) × (load_graph three_bytes
        (uint32_slice_to_byte_slice (0 ∷ 2 ∷ []))
        (build_graph lists)
        unloaded
      ≡ some g')
    × (g'.mem_pool ≡ unloaded.mem_pool)
load_graph_returns_example =
    load_graph_returns three_bytes true edges lists (0 ∷ 2 ∷ []) unloaded 4 three_bytes-positive
      (omega arith) (omega arith) lists_built lists-IsSized (omega arith) (omega arith)
      (omega arith) refl (omega arith) (omega arith)

abbrev pub loaded : Graph
loaded = record unloaded {
  in_csr = 0 ∷ 2 ∷ 2 ∷ 5 ∷ [];
  in_offset = 0 ∷ 2 ∷ 4 ∷ [];
  out_csr = 3 ∷ 5 ∷ 0 ∷ 3 ∷ [];
  out_offset = 0 ∷ 2 ∷ 4 ∷ [];
}

loaded_run :
    load_graph three_bytes (uint32_slice_to_byte_slice (0 ∷ 2 ∷ [])) (build_graph lists) unloaded
    ≡ some loaded
unfolding load_graph read_segment_from_file read_from_file read_loop build_graph
    uint32_slice_to_byte_slice int64_slice_to_byte_slice byte_slice_to_uint32_slice
    byte_slice_to_int64_slice
loaded_run = refl

load_graph_faithful_example :
    (out_edge loaded 3 ≡ some (0 ∷ 3 ∷ []))
    × (in_edge loaded 3 ≡ some (2 ∷ 5 ∷ []))
    × (calc_out_degree loaded 3 ≡ some 1)
    × (calc_in_degree loaded 3 ≡ some 1)
unfolding weight
load_graph_faithful_example =
    load_graph_faithful three_bytes true edges lists (0 ∷ 2 ∷ []) unloaded 4 three_bytes-positive
      (omega arith) (omega arith) lists_built lists-IsSized (omega arith) (omega arith)
      (omega arith) refl (omega arith) (omega arith) loaded 3 loaded_run refl refl (omega arith)
      (omega arith) (omega arith) (omega arith)

abbrev with_degrees : ℕ → Graph
with_degrees d = record unloaded {
  mem_pool = record { vertex_val = []; in_d = 1 ∷ 1 ∷ 1 ∷ 1 ∷ []; out_d = 1 ∷ 1 ∷ d ∷ 1 ∷ [] };
}

set_in_degree_run : set_in_degree (with_degrees 1) 2 7 ≡ some (with_degrees 7)
unfolding set_in_degree MemPool.store slot
set_in_degree_run = refl

set_in_degree_misplaced_example :
    ((u : ℕ) → get_in_degree (with_degrees 7) u ≡ get_in_degree (with_degrees 1) u)
    × (get_out_degree (with_degrees 7) 2 ≡ some 7)
set_in_degree_misplaced_example =
    set_in_degree_misplaced (with_degrees 1) (with_degrees 7) 2 7 set_in_degree_run

-- The file of the second partition's values.
save_run :
    save (record unloaded {
      mem_pool = record { vertex_val = (9 ∷ 8 ∷ 7 ∷ 600 ∷ []) ∷ []; in_d = []; out_d = [] };
    })
    ≡ some (7 ∷ 0 ∷ 0 ∷ 0 ∷ 88 ∷ 2 ∷ 0 ∷ 0 ∷ [])
unfolding save saved get_vertex_val MemPool.get slot uint32_to_bytes
save_run = refl
