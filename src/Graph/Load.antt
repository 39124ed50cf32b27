-- ===== src/Graph/Load.antt =====
-- `LoadGraph` of src/lambda_executor/src/graphutil/graph.go. The goroutines that read the two edge
-- files touch different fields, so that their order does not matter. Offsets are int64 in the files
-- and int32 in the graph; a negative length panics in `make`.
use faa_sgraph.Base.{
  ℕ, suc, ◌+◌, ◌-◌, ◌*◌, ◌%◌, ◌^◌, Bool, Option, none, some, List, [], ◌∷◌, ◌++◌, map, leb, ◌==◌,
  if◌then◌else◌, get_elem?, ◌>>=◌,
}
use mathlib.Core.Option
use faa_sgraph.Bytes.{byte_slice_to_uint32_slice, byte_slice_to_int64_slice}
use faa_sgraph.Csr.{GraphFiles}
use faa_sgraph.Graph.{Graph}
use faa_sgraph.Graph.File.{read_segment_from_file, read_from_file}

-- The first index of a value.
abbrev pub index_of : ℕ → List ℕ → Option ℕ
index_of x [] = none
index_of x (y ∷ ys) = if x == y then some 0 else Option.map suc (index_of x ys)

-- `startNodeList[startNodeIndex+1]`; the index stays -1 if the start node is not listed.
abbrev pub next_start : ℕ → List ℕ → Option ℕ
next_start start starts = elim (index_of start starts) [
  | none ↦ get_elem? starts 0
  | some i ↦ get_elem? starts (suc i)
]

abbrev pub last : List ℕ → Option ℕ
last [] = none
last (x ∷ []) = some x
last (x ∷ y ∷ ys) = last (y ∷ ys)

-- a - b where the result must not be negative.
abbrev pub sub_len : ℕ → ℕ → Option ℕ
sub_len a b = if leb b a then some (a - b) else none

-- `int32((offset - inOffset[0]) * el)`, as a bit pattern.
abbrev pub rebase : ℕ → List ℕ → List ℕ
rebase el [] = []
rebase el (o ∷ os) = map (λ x. (x - o) * el % 2 ^ 32) (o ∷ os)

-- The five reads of files.
pub data FileRead : Type 0 where
  start_nodes_read in_offset_read out_offset_read in_edge_read out_edge_read : FileRead

module _ (chunk : ℕ → ℕ) where
  abbrev pub load_offset : List ℕ → ℕ → ℕ → Option (List ℕ)
  load_offset file start count =
      Option.map byte_slice_to_int64_slice
        (read_segment_from_file chunk file (start * 8) (count * 8))

  -- The edges between the first and the last offset, if the flag asks for them.
  abbrev pub load_csr : Bool → ℕ → List ℕ → List ℕ → List ℕ → Option (List ℕ)
  load_csr flag el offset file old =
      let read = (do
        lo ← get_elem? offset 0
        hi ← last offset
        len ← sub_len hi lo
        Option.map byte_slice_to_uint32_slice
            (read_segment_from_file chunk file (lo * 4 * el) (len * 4 * el))) in
      if flag then read else some old

-- Each read is cut in its own way.
module _ (chunk : FileRead → ℕ → ℕ) where
  unfoldable pub load_graph : List ℕ → GraphFiles → Graph → Option Graph
  load_graph start_nodes_file files g = do
    raw ← read_from_file (chunk start_nodes_read) start_nodes_file
    next ← next_start g.start_node (byte_slice_to_uint32_slice raw ++ g.total_node ∷ [])
    count ← sub_len (next + 1) g.start_node
    ins ← load_offset (chunk in_offset_read) files.in_offset_file g.start_node count
    outs ← load_offset (chunk out_offset_read) files.out_offset_file g.start_node count
    in_csr ←
        load_csr (chunk in_edge_read) g.in_edge (if g.weighted then 2 else 1) ins files.in_edge_file
          g.in_csr
    out_csr ←
        load_csr (chunk out_edge_read) g.out_edge (if g.weighted then 2 else 1) outs
          files.out_edge_file g.out_csr
    some (record g {
      in_csr = in_csr;
      out_csr = out_csr;
      in_offset = rebase (if g.weighted then 2 else 1) ins;
      out_offset = rebase (if g.weighted then 2 else 1) outs;
    })
