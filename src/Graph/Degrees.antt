-- ===== src/Graph/Degrees.antt =====
-- The degree arrays and vertex values behind src/lambda_executor/src/graphutil/graph.go.
use mathlib.Core.Option
use faa_sgraph.Base.{ℕ, min, ◌≡◌, sym, ◌∙◌, ◌≢◌, Option, some, arith, ltb, ◌==◌, if◌then◌else◌}
use faa_sgraph.MemPool
use faa_sgraph.MemPool.{MemPool, Addr, val_addr, in_d_addr, out_d_addr, slot}
use faa_sgraph.MemPool.Access.{get-store, get-store_ne, min_cas_lem}
use faa_sgraph.Graph.{
  Graph, min_cas_op, get_in_degree, set_in_degree, get_out_degree, set_out_degree, get_vertex_val,
  set_vertex_val, aggregate_vertex_val, with_pool,
}

-- A call that ends in `with_pool` has stored.
pub stored :
    (g g' : Graph) (o : Option MemPool)
    → with_pool g o ≡ some g'
    → (m : MemPool) × (o ≡ some m) × (g' ≡ record g { mem_pool = m })
stored g g' o h =
    let (m, e, f) = (Option.map-eq-some_iff (λ m. record g { mem_pool = m }) o).0 h in (m, e, sym f)

val_addr-injective : (s t : ℕ) → val_addr s ≡ val_addr t → s ≡ t
val_addr-injective s t e = cc

val≢out : (t : ℕ) → val_addr t ≢ out_d_addr
val≢out t e = cc

-- `SetInDegree` writes into the out-degrees: no in-degree changes, and the node's out-degree is
-- lost, whatever it was.
pub set_in_degree_misplaced :
    (g g' : Graph) (node d : ℕ)
    → set_in_degree g node d ≡ some g'
    → ((u : ℕ) → get_in_degree g' u ≡ get_in_degree g u) × (get_out_degree g' node ≡ some d)
unfolding set_in_degree get_in_degree get_out_degree
set_in_degree_misplaced g g' node d h =
    let (m, e, f) = stored g g' (MemPool.store g.mem_pool node d out_d_addr) h in
    rw f (
      λ u. get-store_ne g.mem_pool node d out_d_addr m e u in_d_addr (λ q. cc),
      get-store g.mem_pool node d out_d_addr m e node ∙ ground arith,
    )

-- `SetOutDegree` after `SetInDegree`, the order in which the page-rank kernels call them, leaves
-- the out-degree right.
pub set_degrees_out :
    (g g' g'' : Graph) (node ins outs : ℕ)
    → set_in_degree g node ins ≡ some g'
    → set_out_degree g' node outs ≡ some g''
    → (u : ℕ)
    → get_out_degree g'' u ≡ (if slot u == slot node then some outs else get_out_degree g u)
unfolding set_in_degree set_out_degree get_out_degree
set_degrees_out g g' g'' node ins outs h k u =
    let (m, e, f) = stored g g' (MemPool.store g.mem_pool node ins out_d_addr) h in
    let (n, e', f') = stored g' g'' (MemPool.store g'.mem_pool node outs out_d_addr) k in
    let first = get-store g.mem_pool node ins out_d_addr m e u in
    let second = get-store g'.mem_pool node outs out_d_addr n e' u in
    ground (arith, f, f', first, second)

-- `SetVertexVal` changes the value of its vertex under its tag, and no degree.
pub get-set_vertex_val :
    (g g' : Graph) (tag v val : ℕ)
    → set_vertex_val g tag v val ≡ some g'
    → (u : ℕ)
    → (get_vertex_val g' tag u ≡ (if slot u == slot v then some val else get_vertex_val g tag u))
      × (get_out_degree g' u ≡ get_out_degree g u)
unfolding set_vertex_val get_vertex_val get_out_degree
get-set_vertex_val g g' tag v val h u =
    let (m, e, f) = stored g g' (MemPool.store g.mem_pool v val (val_addr tag)) h in
    rw f (
      get-store g.mem_pool v val (val_addr tag) m e u,
      get-store_ne g.mem_pool v val (val_addr tag) m e u out_d_addr (val≢out tag),
    )

-- It changes no value under another tag.
pub get-set_vertex_val_ne :
    (g g' : Graph) (tag t v val : ℕ)
    → set_vertex_val g tag v val ≡ some g'
    → tag ≢ t
    → (u : ℕ) → get_vertex_val g' t u ≡ get_vertex_val g t u
unfolding set_vertex_val get_vertex_val
get-set_vertex_val_ne g g' tag t v val h ne u =
    let (m, e, f) = stored g g' (MemPool.store g.mem_pool v val (val_addr tag)) h in
    rw f (
      get-store_ne g.mem_pool v val (val_addr tag) m e u (val_addr t)
        (λ q. ne (val_addr-injective tag t q)))

-- With "MIN_CAS", `AggregateVertexVal` on a vertex in range returns, lowers its value to the
-- smaller of the two, and answers true exactly if the new value was smaller.
pub aggregate_min :
    (fadd : ℕ → ℕ → ℕ) (g : Graph) (tag v val : ℕ) {old : ℕ}
    → g.aggregate_op ≡ min_cas_op
    → get_vertex_val g tag v ≡ some old
    → (g' : Graph) × (aggregate_vertex_val fadd g tag v val ≡ some (g', ltb val old))
      × ((u : ℕ)
          → get_vertex_val g' tag u
            ≡ (if slot u == slot v then some (min old val) else get_vertex_val g tag u))
unfolding aggregate_vertex_val get_vertex_val
aggregate_min fadd g tag v val {old} op h =
    let (m, e, lowered, others) = min_cas_lem g.mem_pool v val (val_addr tag) h in
    (record g { mem_pool = m }, rw (op, e), lowered)
