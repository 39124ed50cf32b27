-- ===== src/Pull/Tests.antt =====
-- Runs of ccpull and pr in app/graph, and instances of their theorems.
use faa_sgraph.Base.{ℕ, ◌+◌, ◌-◌, ◌<◌, ◌≡◌, refl, inl, true, false, some, List, [], ◌∷◌, arith}
use faa_sgraph.Bitmap
use faa_sgraph.MemPool
use faa_sgraph.MemPool.{slot}
use faa_sgraph.Graph.{
  Graph, min_cas_op, in_edge, slice, get_vertex_val, set_vertex_val, get_out_degree,
}
use faa_sgraph.Kernel.Updates.{send}
use faa_sgraph.Bytes.{uint32_slice_to_byte_slice, uint32_to_bytes}
use faa_sgraph.Pull.{
  Pull, Float, Rank, least_label, pull_cc, calc_pr, pull_pr, acc_val, blocks, finish_call,
}
use faa_sgraph.Pull.Least.{IsLeast, pull_cc-IsLeast}
use faa_sgraph.Pull.Arrays.{calls, calls-pairs}
use faa_sgraph.Pull.Ranks.{calc_pr-ranks}

-- Vertex 0 of two, with the in-edge 1 → 0.
abbrev graph : ℕ → ℕ → List ℕ → Graph
graph a b new = record {
  start_node = 0;
  size = 1;
  total_node = 2;
  in_edge = true;
  in_csr = 1 ∷ [];
  in_offset = 0 ∷ 1 ∷ [];
  out_edge = false;
  out_csr = [];
  out_offset = [];
  mem_pool = record { vertex_val = (a ∷ b ∷ []) ∷ new ∷ []; in_d = []; out_d = 2 ∷ 1 ∷ [] };
  weighted = false;
  aggregate_op = min_cas_op;
}

abbrev before : Pull
before = record {
  graph = graph 5 3 (0 ∷ 0 ∷ []);
  next_activate = record { words = 0 ∷ [] };
  updates = 0 ∷ [];
  sent = [];
}

abbrev lowered : Pull
lowered = record {
  graph = graph 3 3 (0 ∷ 0 ∷ []);
  next_activate = record { words = 1 ∷ [] };
  updates = 0 ∷ 0 ∷ 3 ∷ [];
  sent = [];
}

pull_cc_run : pull_cc 0 before ≡ some lowered
unfolding pull_cc least_label get_vertex_val set_vertex_val in_edge slice Bitmap.add MemPool.get
    MemPool.store slot
pull_cc_run = refl

pull_cc-IsLeast_example :
    (x : ℕ) × IsLeast before.graph 5 (1 ∷ []) x
    × (get_vertex_val lowered.graph 0 0 ≡ some x)
    × ((v : ℕ)
        → (slot v ≡ slot 0 → ⊥)
        → get_vertex_val lowered.graph 0 v ≡ get_vertex_val before.graph 0 v)
    × (x < 5 → Bitmap.get lowered.next_activate 0 ≡ some true)
unfolding get_vertex_val in_edge slice MemPool.get slot
pull_cc-IsLeast_example = pull_cc-IsLeast 0 before lowered 5 (1 ∷ []) pull_cc_run refl refl

-- Numbers in place of float32, so that a run can be read.
abbrev numbers : Float
numbers = record {
  add = λ x y. x + y;
  mul = λ x y. y;
  div = λ x y. x - 1041865114 + y;
  of_int = λ x. x;
  is_positive = λ x. true;
}

abbrev ranked : Pull
ranked = record {
  graph = graph 5 3 (5 ∷ 0 ∷ []);
  next_activate = record { words = 0 ∷ [] };
  updates = 0 ∷ 0 ∷ 5 ∷ [];
  sent = (1 ∷ 0 ∷ 0 ∷ 0 ∷ 0 ∷ 0 ∷ 0 ∷ 0 ∷ 5 ∷ 0 ∷ 0 ∷ 0 ∷ []) ∷ [];
}

abbrev first_call : Rank
first_call = record { tag_new = 1; finished = 0 }

calc_pr_run :
    calc_pr numbers true (0 ∷ []) before first_call
    ≡ some (ranked, record { tag_new = 1; finished = 1 })
unfolding calc_pr pull_pr acc_val blocks finish_call get_vertex_val set_vertex_val get_out_degree
    in_edge slice MemPool.get MemPool.store slot send uint32_slice_to_byte_slice uint32_to_bytes
calc_pr_run = refl

calc_pr-ranks_example : get_vertex_val ranked.graph 1 0 ≡ some 5
unfolding get_vertex_val in_edge slice get_out_degree MemPool.get slot
calc_pr-ranks_example =
    calc_pr-ranks numbers true (0 ∷ []) before ranked first_call
      (record { tag_new = 1; finished = 1 }) 0 2 (1 ∷ []) (λ v. 3) (omega arith) (omega arith, tt)
      (omega arith) calc_pr_run (inl refl) refl refl (refl, tt)

calls-pairs_example :
    ((calls 6 first_call).tag_new ≡ 0)
    × ((calls 7 first_call).tag_new ≡ (calls 6 first_call).tag_new)
calls-pairs_example = calls-pairs 3 first_call (omega arith) refl
