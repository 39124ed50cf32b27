-- ===== src/Graph/Loaded.antt =====
-- From the list of edges to the edges that an executor sees: util/txt2csr.go, then `LoadGraph`,
-- `InEdge`, `OutEdge`, `CalcInDegree` and `CalcOutDegree` of
-- src/lambda_executor/src/graphutil/graph.go.
use mathlib.Core.Option
use faa_sgraph.Base.{
  ℕ, suc, ◌+◌, ◌-◌, ◌*◌, ◌/◌, ◌^◌, ◌≤◌, ◌<◌, ◌≡◌, refl, ap, sym, ◌∙◌, Bool, true, false, some, List,
  [], ◌∷◌, ◌++◌, map, arith, leb, get_elem?, length, take, drop, if◌then◌else◌, All, length-take,
  length-drop, get-take-drop,
}
use faa_sgraph.Bytes.{uint32_slice_to_byte_slice}
use faa_sgraph.Bytes.RoundTrip.{AreWords, words-bytes}
use faa_sgraph.Csr.{EdgeLists, read_original_graph, build_graph, concat, offsets_from}
use faa_sgraph.Csr.Adjacency.{directions, out_of, in_of}
use faa_sgraph.Csr.Degrees.{out_count, in_count, length-out_of, length-in_of}
use faa_sgraph.Csr.Build.{IsNode, read_original_graph-IsNode, IsSized, InRange}
use faa_sgraph.Graph.{Graph, in_edge, out_edge, calc_in_degree, calc_out_degree, local_index}
use faa_sgraph.Graph.File.{read_file_all}
use faa_sgraph.Graph.Load.{
  FileRead, start_nodes_read, in_offset_read, out_offset_read, in_edge_read, out_edge_read,
  load_graph, load_csr, next_start, sub_len,
}
use faa_sgraph.Graph.Segment.{sum, Fit, offsets-degree}
use faa_sgraph.Graph.Side
use faa_sgraph.Graph.Fits.{
  Fit-pointwise, AreWords-concat, AreWords-out_of, AreWords-in_of, directions-InRange,
}

module _ (chunk : FileRead → ℕ → ℕ) (directed : Bool) (es : List (ℕ × ℕ)) (s : EdgeLists)
    (starts : List ℕ) (g : Graph) (next : ℕ) (pos : (r : FileRead) (n : ℕ) → 0 < chunk r n)
    (nodes : g.total_node ≤ 2 ^ 31) (range : All (InRange g.total_node) es)
    (built : read_original_graph g.weighted directed g.total_node es ≡ some s)
    (sized : IsSized g.total_node s) (ins_small : sum s.in_degree < 2 ^ 31)
    (outs_small : sum s.out_degree < 2 ^ 31) (words : AreWords starts)
    (listed : next_start g.start_node (starts ++ g.total_node ∷ []) ≡ some next)
    (order : g.start_node ≤ next) (inside : next ≤ g.total_node) where
  abbrev el_of : ℕ
  el_of = if g.weighted then 2 else 1

  abbrev es' : List (ℕ × ℕ)
  es' = directions directed es

  node : (j : ℕ) → j < g.total_node → IsNode g.weighted es' s j
  node = read_original_graph-IsNode g.weighted directed g.total_node es s built

  out-Fit : Fit el_of s.out_edge_list s.out_degree
  out-Fit =
      Fit-pointwise el_of s.out_edge_list s.out_degree (sized.out_lists ∙ sym sized.out_degrees)
        (λ j lt.
          let h = node j (omega (arith, sized.out_degrees)) in
          (
            out_of g.weighted es' j,
            out_count es' j,
            h.outs,
            h.out_number,
            length-out_of g.weighted es' j,
          ))

  in-Fit : Fit el_of s.in_edge_list s.in_degree
  in-Fit =
      Fit-pointwise el_of s.in_edge_list s.in_degree (sized.in_lists ∙ sym sized.in_degrees)
        (λ j lt.
          let h = node j (omega (arith, sized.in_degrees)) in
          (
            in_of g.weighted es' j,
            in_count es' j,
            h.ins,
            h.in_number,
            length-in_of g.weighted es' j,
          ))

  out_words : AreWords (concat s.out_edge_list)
  out_words = AreWords-concat s.out_edge_list (λ j lt.
      let h = node j (omega (arith, sized.out_lists)) in
      let r = directions-InRange directed g.total_node es range in
      (out_of g.weighted es' j, h.outs, AreWords-out_of g.weighted g.total_node es' j nodes r))

  in_words : AreWords (concat s.in_edge_list)
  in_words = AreWords-concat s.in_edge_list (λ j lt.
      let h = node j (omega (arith, sized.in_lists)) in
      let r = directions-InRange directed g.total_node es range in
      (in_of g.weighted es' j, h.ins, AreWords-in_of g.weighted g.total_node es' j nodes r))

  el-le : (b : Bool) (n : ℕ) → n < 2 ^ 31 → n * (if b then 2 else 1) < 2 ^ 32
  el-le true n h = omega arith
  el-le false n h = omega arith

  abbrev c : ℕ
  c = next - g.start_node

  out_room : g.start_node + c ≤ length s.out_degree
  out_room = omega (arith, sized.out_degrees)

  in_room : g.start_node + c ≤ length s.in_degree
  in_room = omega (arith, sized.in_degrees)

  out_less : sum s.out_degree * el_of < 2 ^ 32
  out_less = el-le g.weighted (sum s.out_degree) outs_small

  in_less : sum s.in_degree * el_of < 2 ^ 32
  in_less = el-le g.weighted (sum s.in_degree) ins_small

  -- The partition's own lists and degrees on the two sides.
  abbrev out_lists : List (List ℕ)
  out_lists = take c (drop g.start_node s.out_edge_list)

  abbrev out_degrees : List ℕ
  out_degrees = take c (drop g.start_node s.out_degree)

  abbrev in_lists : List (List ℕ)
  in_lists = take c (drop g.start_node s.in_edge_list)

  abbrev in_degrees : List ℕ
  in_degrees = take c (drop g.start_node s.in_degree)

  abbrev scaled : List ℕ → List ℕ
  scaled ds = offsets_from 0 (map (λ d. el_of * d) ds)

  -- The graph after loading.
  abbrev loaded_graph : Graph
  loaded_graph = record g {
    in_csr = if g.in_edge then concat in_lists else g.in_csr;
    out_csr = if g.out_edge then concat out_lists else g.out_csr;
    in_offset = scaled in_degrees;
    out_offset = scaled out_degrees;
  }

  load_csr-flag :
      (cut : ℕ → ℕ) (flag : Bool) (offset file old own : List ℕ)
      → load_csr cut true el_of offset file old ≡ some own
      → load_csr cut flag el_of offset file old ≡ some (if flag then own else old)
  load_csr-flag cut true offset file old own h = h
  load_csr-flag cut false offset file old own h = refl

  -- Loading the files that were built from the edges returns.
  load_graph-loaded :
      load_graph chunk (uint32_slice_to_byte_slice starts) (build_graph s) g ≡ some loaded_graph
  unfolding load_graph build_graph
  load_graph-loaded =
      let count : sub_len (next + 1) g.start_node ≡ some (suc c) =
        let no_less : leb g.start_node (next + 1) ≡ true = ground arith in
        let exact : next + 1 - g.start_node ≡ suc c = omega arith in rw (no_less, exact) in
      let few_in : sum s.in_degree < 2 ^ 32 = omega arith in
      let few_out : sum s.out_degree < 2 ^ 32 = omega arith in
      let ins =
        Side.load_offset-own (chunk in_offset_read) el_of g.start_node c s.in_edge_list s.in_degree
          (pos in_offset_read) in-Fit in_room in_less few_in in_words in
      let outs =
        Side.load_offset-own (chunk out_offset_read) el_of g.start_node c s.out_edge_list
          s.out_degree (pos out_offset_read) out-Fit out_room out_less few_out out_words in
      let in_csr =
        Side.load_csr-own (chunk in_edge_read) el_of g.start_node c s.in_edge_list s.in_degree
          (pos in_edge_read) in-Fit in_room in_less few_in in_words g.in_csr in
      let out_csr =
        Side.load_csr-own (chunk out_edge_read) el_of g.start_node c s.out_edge_list s.out_degree
          (pos out_edge_read) out-Fit out_room out_less few_out out_words g.out_csr in
      let in_off =
        Side.rebase-own (chunk in_edge_read) el_of g.start_node c s.in_edge_list s.in_degree
          (pos in_edge_read) in-Fit in_room in_less few_in in_words in
      let out_off =
        Side.rebase-own (chunk out_edge_read) el_of g.start_node c s.out_edge_list s.out_degree
          (pos out_edge_read) out-Fit out_room out_less few_out out_words in
      rw (
        read_file_all (chunk start_nodes_read) (pos start_nodes_read)
            (uint32_slice_to_byte_slice starts),
        words-bytes starts words,
        listed,
        count,
        ins,
        outs,
        load_csr-flag (chunk in_edge_read) g.in_edge _ _ g.in_csr _ in_csr,
        load_csr-flag (chunk out_edge_read) g.out_edge _ _ g.out_csr _ out_csr,
        in_off,
        out_off,
      )

  per_entry :
      (b : Bool) (lo d : ℕ)
      → (if b then (lo + (if b then 2 else 1) * d - lo) / 2 else lo + (if b then 2 else 1) * d - lo)
        ≡ d
  per_entry true lo d = omega arith
  per_entry false lo d = omega arith

  -- Node u of the partition as an index into the partition's arrays.
  module _ (u : ℕ) (low : g.start_node ≤ u) (high : u < next) where
    index : local_index g u ≡ some (u - g.start_node)
    index = let below : leb g.start_node u ≡ true = ground arith in rw below

    whole : g.start_node + (u - g.start_node) ≡ u
    whole = omega arith

    own_lists-lt :
        (ls : List (List ℕ))
        → length ls ≡ g.total_node
        → u - g.start_node < length (take c (drop g.start_node ls))
    own_lists-lt ls h =
        omega (arith, length-take c (drop g.start_node ls), length-drop g.start_node ls)

    out_edge-loaded :
        sum s.out_degree * el_of < 2 ^ 31
        → g.out_edge ≡ true
        → out_edge loaded_graph u ≡ some (out_of g.weighted es' u)
    unfolding out_edge
    out_edge-loaded outs_words flag =
        let few_out : sum s.out_degree < 2 ^ 32 = omega arith in
        let i = u - g.start_node in
        let own =
          Side.edges_at-own (chunk out_edge_read) el_of g.start_node c s.out_edge_list s.out_degree
            (pos out_edge_read) out-Fit out_room out_less few_out out_words i (omega arith)
            (own_lists-lt s.out_edge_list sized.out_lists) outs_words in
        rw (index, flag) (own ∙ ap (get_elem? s.out_edge_list) whole ∙ (node u (omega arith)).outs)

    calc_out_degree-loaded : calc_out_degree loaded_graph u ≡ some (out_count es' u)
    unfolding calc_out_degree
    calc_out_degree-loaded =
        let i = u - g.start_node in
        let own : get_elem? out_degrees i ≡ some (out_count es' u) =
          get-take-drop g.start_node c i s.out_degree (omega arith)
          ∙ ap (get_elem? s.out_degree) whole
          ∙ (node u (omega arith)).out_number in
        let (lo, at, then_at) = offsets-degree el_of 0 out_degrees i own in
        rw (index, at, then_at) (ap some (per_entry g.weighted lo (out_count es' u)))

    in_edge-loaded :
        sum s.in_degree * el_of < 2 ^ 31
        → g.in_edge ≡ true
        → in_edge loaded_graph u ≡ some (in_of g.weighted es' u)
    unfolding in_edge
    in_edge-loaded ins_words flag =
        let few_in : sum s.in_degree < 2 ^ 32 = omega arith in
        let i = u - g.start_node in
        let own =
          Side.edges_at-own (chunk in_edge_read) el_of g.start_node c s.in_edge_list s.in_degree
            (pos in_edge_read) in-Fit in_room in_less few_in in_words i (omega arith)
            (own_lists-lt s.in_edge_list sized.in_lists) ins_words in
        rw (index, flag) (own ∙ ap (get_elem? s.in_edge_list) whole ∙ (node u (omega arith)).ins)

    calc_in_degree-loaded : calc_in_degree loaded_graph u ≡ some (in_count es' u)
    unfolding calc_in_degree
    calc_in_degree-loaded =
        let i = u - g.start_node in
        let own : get_elem? in_degrees i ≡ some (in_count es' u) =
          get-take-drop g.start_node c i s.in_degree (omega arith)
          ∙ ap (get_elem? s.in_degree) whole
          ∙ (node u (omega arith)).in_number in
        let (lo, at, then_at) = offsets-degree el_of 0 in_degrees i own in
        rw (index, at, then_at) (ap some (per_entry g.weighted lo (in_count es' u)))

  -- `LoadGraph` returns on the files that were built from the edges, and leaves the arrays of
  -- values alone, however each read of each file is cut, as long as it makes progress. The graph
  -- has at most 2^31 nodes, the nodes of the edges are among them, and the lists and degrees built
  -- from the edges have an entry for each node. The first nodes of the partitions are below 2^32,
  -- that of this partition is listed, and the next one, or the number of nodes after the last,
  -- lies between it and the number of nodes. Each side has fewer than 2^31 edges.
  pub load_graph_returns :
      (g' : Graph) × (load_graph chunk (uint32_slice_to_byte_slice starts) (build_graph s) g
        ≡ some g')
      × (g'.mem_pool ≡ g.mem_pool)
  load_graph_returns = (loaded_graph, load_graph-loaded, refl)

  -- In the graph that `LoadGraph` returns on the files that were built from the edges, every node
  -- of the partition has the out-edges and in-edges that the lines of the file name, in their
  -- order and with their weights, and their numbers as its degrees. Both sides are loaded, and
  -- each has fewer than 2^31 edges and than 2^31 words (two for a weighted edge), since the
  -- offsets are int32. The graph has at most 2^31 nodes, the nodes of the edges are among them,
  -- and the lists and degrees built from the edges have an entry for each node. The first nodes of
  -- the partitions are below 2^32, that of this partition is listed, and the next one, or the
  -- number of nodes after the last, lies between it and the number of nodes. Every read makes
  -- progress.
  pub load_graph_faithful :
      (g' : Graph) (u : ℕ)
      → load_graph chunk (uint32_slice_to_byte_slice starts) (build_graph s) g ≡ some g'
      → g.out_edge ≡ true
      → g.in_edge ≡ true
      → sum s.out_degree * el_of < 2 ^ 31
      → sum s.in_degree * el_of < 2 ^ 31
      → g.start_node ≤ u
      → u < next
      → (out_edge g' u ≡ some (out_of g.weighted es' u))
        × (in_edge g' u ≡ some (in_of g.weighted es' u))
        × (calc_out_degree g' u ≡ some (out_count es' u))
        × (calc_in_degree g' u ≡ some (in_count es' u))
  load_graph_faithful g' u h outs ins outs_words ins_words low high =
      let same : loaded_graph ≡ g' = Option.some-injective _ _ (sym load_graph-loaded ∙ h) in
      rw (← same) (
        out_edge-loaded u low high outs_words outs,
        in_edge-loaded u low high ins_words ins,
        calc_out_degree-loaded u low high,
        calc_in_degree-loaded u low high,
      )
