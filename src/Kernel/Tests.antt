-- ===== src/Kernel/Tests.antt =====
-- Runs of the kernels in app/graph, and instances of their theorems.
use faa_sgraph.Base.{
  ℕ, zero, suc, ◌≡◌, refl, true, false, Bool, some, List, [], ◌∷◌, arith, get_elem?_total,
  if◌then◌else◌,
}
use faa_sgraph.Bitmap.{Bitmap}
use faa_sgraph.MemPool
use faa_sgraph.MemPool.{slot}
use faa_sgraph.MemPool.Access.{slot_lem}
use faa_sgraph.Graph.{Graph, min_cas_op, other_op, out_edge, slice, get_vertex_val}
use faa_sgraph.Kernel.{is_local, unreached, calc_bfs, calc_cc, calc_sssp}
use faa_sgraph.Kernel.Visit.{IsReady}
use faa_sgraph.Kernel.Bfs.{Keeps, calc_bfs-Keeps}
use faa_sgraph.Kernel.Calc.{
  Targets, IsInput, Quiet, bids_cc, bids_sssp, calc_cc-Quiet, calc_sssp-Quiet,
}

-- Vertices 0 and 1 of three, with the edges 0 → 1 and 1 → 2 (weights 3 and 4 if they have weights).
abbrev small : Bool → List ℕ → Graph
small weighted vals = record {
  start_node = 0;
  size = 2;
  total_node = 3;
  in_edge = false;
  in_csr = [];
  in_offset = [];
  out_edge = true;
  out_csr = if weighted then 1 ∷ 3 ∷ 2 ∷ 4 ∷ [] else 1 ∷ 2 ∷ [];
  out_offset = if weighted then 0 ∷ 2 ∷ 4 ∷ [] else 0 ∷ 1 ∷ 2 ∷ [];
  mem_pool = record { vertex_val = vals ∷ []; in_d = []; out_d = [] };
  weighted = weighted;
  aggregate_op = min_cas_op;
}

abbrev none_yet : Bitmap
none_yet = record { words = 0 ∷ [] }

small-IsReady : (weighted : Bool) (a b c : ℕ) → IsReady 3 (small weighted (a ∷ b ∷ c ∷ []))
unfolding get_vertex_val MemPool.get
small-IsReady weighted a b c = record {
  vals = λ u h.
      let (x, e) = get_elem?_total (a ∷ b ∷ c ∷ []) u h in (x, rw (slot_lem u (omega arith)) e);
  within = λ u local. ground arith;
}

small-edges :
    (weighted : Bool) (vals : List ℕ) (x : ℕ)
    → is_local (small weighted vals) x ≡ true
    → (out : List ℕ) × (out_edge (small weighted vals) x ≡ some out) × Targets weighted 3 out
unfolding out_edge slice
small-edges true vals zero local = (1 ∷ 3 ∷ [], refl, (omega arith, tt))
small-edges false vals zero local = (1 ∷ [], refl, (omega arith, tt))
small-edges true vals (suc zero) local = (2 ∷ 4 ∷ [], refl, (omega arith, tt))
small-edges false vals (suc zero) local = (2 ∷ [], refl, (omega arith, tt))
small-edges weighted vals (suc (suc x)) local = absurd (ground arith)

small-IsInput :
    (weighted : Bool) (a b c : ℕ)
    → IsInput weighted 3 (small weighted (a ∷ b ∷ c ∷ [])) (0 ∷ []) none_yet
small-IsInput weighted a b c = record {
  ready = small-IsReady weighted a b c;
  room = λ u h. omega arith;
  edges = small-edges weighted (a ∷ b ∷ c ∷ []);
  local = (refl, tt);
}

calc_cc-Quiet_example :
    (g' : Graph) × (b : Bitmap) × (frames : List (List ℕ)) × (calc_cc
        (λ x y. x)
        4
        true
        (0 ∷ [])
        (small false (0 ∷ 1 ∷ 2 ∷ []))
        none_yet
      ≡ some (g', b, frames))
    × Quiet (small false (0 ∷ 1 ∷ 2 ∷ [])) bids_cc (0 ∷ []) g'
calc_cc-Quiet_example =
    calc_cc-Quiet (λ x y. x) 3 (omega arith) true (small false (0 ∷ 1 ∷ 2 ∷ [])) (0 ∷ []) none_yet 4
      refl (small-IsInput false 0 1 2) (omega arith)

calc_sssp-Quiet_example :
    (g' : Graph) × (b : Bitmap) × (frames : List (List ℕ)) × (calc_sssp
        (λ x y. x)
        41
        true
        (0 ∷ [])
        (small true (0 ∷ 20 ∷ 20 ∷ []))
        none_yet
      ≡ some (g', b, frames))
    × Quiet (small true (0 ∷ 20 ∷ 20 ∷ [])) bids_sssp (0 ∷ []) g'
calc_sssp-Quiet_example =
    calc_sssp-Quiet (λ x y. x) 3 (omega arith) true (small true (0 ∷ 20 ∷ 20 ∷ [])) (0 ∷ [])
      none_yet 41 refl (small-IsInput true 0 20 20) (omega arith)

-- A bfs request sends no operator.
abbrev other_op_graph : Graph
other_op_graph = record (small false (0 ∷ unreached ∷ 2 ∷ [])) { aggregate_op = other_op }

other_op-edges :
    (x : ℕ)
    → is_local other_op_graph x ≡ true
    → (out : List ℕ) × (out_edge other_op_graph x ≡ some out) × Targets false 3 out
unfolding out_edge slice
other_op-edges zero local = (1 ∷ [], refl, (omega arith, tt))
other_op-edges (suc zero) local = (2 ∷ [], refl, (omega arith, tt))
other_op-edges (suc (suc x)) local = absurd (ground arith)

other_op-IsReady : IsReady 3 other_op_graph
unfolding get_vertex_val
other_op-IsReady =
    let r = small-IsReady false 0 unreached 2 in record { vals = r.vals; within = r.within }

other_op-IsInput : IsInput false 3 other_op_graph (0 ∷ []) none_yet
other_op-IsInput = record {
  ready = other_op-IsReady;
  room = λ u h. omega arith;
  edges = other_op-edges;
  local = (refl, tt);
}

calc_bfs-Keeps_example :
    (g' : Graph) × (b : Bitmap) × (frames : List (List ℕ)) × (calc_bfs 1000000003 true
        (0 ∷ [])
        other_op_graph
        none_yet
      ≡ some (g', b, frames))
    × Keeps other_op_graph g'
calc_bfs-Keeps_example =
    calc_bfs-Keeps 3 true other_op_graph (0 ∷ []) none_yet 1000000003 (omega arith) other_op-IsInput
      (omega arith)
