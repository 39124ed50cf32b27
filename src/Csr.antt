-- ===== src/Csr.antt =====
-- util/txt2csr.go: from a list of edges to the files that the executors load. The text is taken as
-- its list of parsed edges; node numbers are int32, and `none` is an index-out-of-range panic.
pub mod Degrees
pub mod Adjacency
pub mod Build
pub mod Tests
use faa_sgraph.Base.{
  ℕ, ◌+◌, ◌-◌, ◌*◌, ◌%◌, ◌^◌, ◌<◌, arith, Bool, true, false, Option, none, some, List, [], ◌∷◌,
  ◌++◌, ◌>>=◌, ltb, if◌then◌else◌, replicate, modify,
}
use faa_sgraph.Bytes.{uint32_slice_to_byte_slice, int64_slice_to_byte_slice}

-- `(u+v)%100` on int32, as the bit pattern: a sum past 2 ^ 31 is negative, and so is its remainder.
unfoldable pub weight : ℕ → ℕ → ℕ
weight u v =
    let s = (u + v) % 2 ^ 32 in
    if ltb s (2 ^ 31) then s % 100 else (2 ^ 32 - (2 ^ 32 - s) % 100) % 2 ^ 32

pub weight-lt : (u v : ℕ) → weight u v < 2 ^ 32
unfolding weight
weight-lt u v = ground arith

-- `degree[i]++`
abbrev pub increment : List ℕ → ℕ → Option (List ℕ)
increment = modify (λ d. d + 1)

-- `edgeList[i] = append(edgeList[i], …)`
abbrev pub append_to : List (List ℕ) → ℕ → List ℕ → Option (List (List ℕ))
append_to ls i xs = modify (λ l. l ++ xs) ls i

-- A neighbour, with its weight in a weighted graph.
abbrev pub entry : Bool → ℕ → ℕ → List ℕ
entry weighted x w = if weighted then x ∷ w ∷ [] else x ∷ []

pub record EdgeLists : Type 0 where
  pub in_edge_list : List (List ℕ)
  pub out_edge_list : List (List ℕ)
  pub in_degree : List ℕ
  pub out_degree : List ℕ

unfoldable pub add_edge : Bool → ℕ → ℕ → EdgeLists → Option EdgeLists
unfolding weight
add_edge weighted u v s = do
  ins ← append_to s.in_edge_list v (entry weighted u (weight u v))
  outs ← append_to s.out_edge_list u (entry weighted v (weight u v))
  some (record s { in_edge_list = ins; out_edge_list = outs })

-- The two degree updates of one direction of an edge.
abbrev pub count_edge : ℕ → ℕ → EdgeLists → Option EdgeLists
count_edge u v s = do
  ins ← increment s.in_degree v
  outs ← increment s.out_degree u
  some (record s { in_degree = ins; out_degree = outs })

-- The first pass over the file; an undirected edge counts in both directions.
unfoldable pub calc_degrees : Bool → List (ℕ × ℕ) → EdgeLists → Option EdgeLists
calc_degrees directed [] s = some s
calc_degrees directed ((u, v) ∷ es) s = do
  s' ← if directed then some s else count_edge v u s
  s'' ← count_edge u v s'
  calc_degrees directed es s''

-- The second pass.
unfoldable pub derive_csr : Bool → Bool → List (ℕ × ℕ) → EdgeLists → Option EdgeLists
derive_csr weighted directed [] s = some s
derive_csr weighted directed ((u, v) ∷ es) s = do
  s' ← add_edge weighted u v s
  s'' ← if directed then some s' else add_edge weighted v u s'
  derive_csr weighted directed es s''

unfoldable pub read_original_graph : Bool → Bool → ℕ → List (ℕ × ℕ) → Option EdgeLists
read_original_graph weighted directed total_node es = do
  s ← calc_degrees directed es (record {
    in_edge_list = replicate total_node [];
    out_edge_list = replicate total_node [];
    in_degree = replicate total_node 0;
    out_degree = replicate total_node 0;
  })
  derive_csr weighted directed es s

-- `offset[i+1] = offset[i] + degree`, from the first offset on.
abbrev pub offsets_from : ℕ → List ℕ → List ℕ
offsets_from a [] = a ∷ []
offsets_from a (d ∷ ds) = a ∷ offsets_from (a + d) ds

-- The lists one behind another, as they are written.
abbrev pub concat : List (List ℕ) → List ℕ
concat [] = []
concat (l ∷ ls) = l ++ concat ls

-- The bytes of in_offset.bin, out_offset.bin, in_edge.bin and out_edge.bin.
pub record GraphFiles : Type 0 where
  pub in_offset_file : List ℕ
  pub out_offset_file : List ℕ
  pub in_edge_file : List ℕ
  pub out_edge_file : List ℕ

unfoldable pub build_graph : EdgeLists → GraphFiles
build_graph s = record {
  in_offset_file = int64_slice_to_byte_slice (offsets_from 0 s.in_degree);
  out_offset_file = int64_slice_to_byte_slice (offsets_from 0 s.out_degree);
  in_edge_file = uint32_slice_to_byte_slice (concat s.in_edge_list);
  out_edge_file = uint32_slice_to_byte_slice (concat s.out_edge_list);
}
