-- ===== src/Graph/Save.antt =====
-- `NewGraph` and `Save` of src/lambda_executor/src/graphutil/graph.go.
use mathlib.Core.Option.{some-injective}
use faa_sgraph.Base.{
  ℕ, zero, suc, ◌+◌, ◌<◌, ◌≡◌, refl, ap, sym, ◌∙◌, Bool, Option, some, List, [], ◌∷◌, ◌++◌, ◌>>=◌,
  >>=-eq-some, arith, length, get_elem?,
}
use faa_sgraph.Graph.{Graph, AggregateOp, get_vertex_val}
use faa_sgraph.Bytes.{uint32_to_bytes, uint32_slice_to_byte_slice}

-- A new graph has no arrays and no edges yet.
unfoldable pub new_graph : ℕ → ℕ → ℕ → Bool → Bool → AggregateOp → Bool → Graph
new_graph start_node size total_node in_edge out_edge aggregate_op weighted = record {
  start_node = start_node;
  size = size;
  total_node = total_node;
  in_edge = in_edge;
  in_csr = [];
  in_offset = [];
  out_edge = out_edge;
  out_csr = [];
  out_offset = [];
  mem_pool = record { vertex_val = []; in_d = []; out_d = [] };
  weighted = weighted;
  aggregate_op = aggregate_op;
}

-- The bytes that `Save` writes: the first array's values of the nodes from one on.
unfoldable pub saved : Graph → ℕ → ℕ → Option (List ℕ)
saved g zero node = some []
saved g (suc n) node = do
  val ← get_vertex_val g 0 node
  rest ← saved g n (suc node)
  some (uint32_to_bytes val ++ rest)

unfoldable pub save : Graph → Option (List ℕ)
unfolding saved
save g = saved g g.size g.start_node

first_or_later :
    (g : Graph) (node val : ℕ) (vs : List ℕ) (n : ℕ)
    → get_vertex_val g 0 node ≡ some val
    → ((i : ℕ) → i < n → get_vertex_val g 0 (suc node + i) ≡ get_elem? vs i)
    → (i : ℕ) → i < suc n
    → get_vertex_val g 0 (node + i) ≡ get_elem? (val ∷ vs) i
first_or_later g node val vs n e later zero k =
    let same : node + 0 ≡ node = omega arith in rw same e
first_or_later g node val vs n e later (suc i) k =
    let same : node + suc i ≡ suc node + i = omega arith in rw same (later i (omega arith))

saved_lem :
    (g : Graph) (n node : ℕ) (bs : List ℕ)
    → saved g n node ≡ some bs
    → (vs : List ℕ) × (bs ≡ uint32_slice_to_byte_slice vs)
      × (length vs ≡ n)
      × ((i : ℕ) → i < n → get_vertex_val g 0 (node + i) ≡ get_elem? vs i)
unfolding saved uint32_slice_to_byte_slice
saved_lem g zero node bs h = ([], sym (some-injective _ _ h), refl, λ i k. absurd (omega arith))
saved_lem g (suc n) node bs h =
    let (val, e, h') = >>=-eq-some (get_vertex_val g 0 node) _ h in
    let (rest, f, k) = >>=-eq-some (saved g n (suc node)) _ h' in
    let (vs, bytes, size, values) = saved_lem g n (suc node) rest f in
    (
      val ∷ vs,
      sym (some-injective _ _ k) ∙ ap (λ r. uint32_to_bytes val ++ r) bytes,
      ap suc size,
      first_or_later g node val vs n e values,
    )

-- The file that `Save` writes has a word for each node of the partition, and they are the values of
-- the nodes in their order.
pub save_lem :
    (g : Graph) (bs : List ℕ)
    → save g ≡ some bs
    → (vs : List ℕ) × (bs ≡ uint32_slice_to_byte_slice vs)
      × (length vs ≡ g.size)
      × ((i : ℕ) → i < g.size → get_vertex_val g 0 (g.start_node + i) ≡ get_elem? vs i)
unfolding save
save_lem g bs h = saved_lem g g.size g.start_node bs h
