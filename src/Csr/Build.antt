-- ===== src/Csr/Build.antt =====
-- What `readOriginalGraph` of util/txt2csr.go returns: each node's neighbours in the order of the
-- file, with degrees that fit them; and that it returns for every file of nodes in range.
use mathlib.Core.Option
use faa_sgraph.Base.{
  ℕ, ◌+◌, ◌<◌, ◌≡◌, refl, ap, ◌∙◌, Bool, true, false, some, List, [], ◌∷◌, ◌++◌, arith, get_elem?,
  length, >>=-eq-some, modify_total, get_elem?-replicate, length-replicate, replicate, All,
}
use faa_sgraph.Csr.{
  EdgeLists, entry, add_edge, derive_csr, read_original_graph, calc_degrees, count_edge, weight,
}
use faa_sgraph.Csr.Adjacency.{directions, out_of, in_of, derive_csr-Derives}
use faa_sgraph.Csr.Degrees.{out_count, in_count, calc_degrees-Counts}

-- What the two passes leave for node j.
pub record IsNode (weighted : Bool) (es : List (ℕ × ℕ)) (s : EdgeLists) (j : ℕ) : Type 0 where
  pub ins : get_elem? s.in_edge_list j ≡ some (in_of weighted es j)
  pub outs : get_elem? s.out_edge_list j ≡ some (out_of weighted es j)
  pub in_number : get_elem? s.in_degree j ≡ some (in_count es j)
  pub out_number : get_elem? s.out_degree j ≡ some (out_count es j)

abbrev blank : ℕ → EdgeLists
blank n = record {
  in_edge_list = replicate n [];
  out_edge_list = replicate n [];
  in_degree = replicate n 0;
  out_degree = replicate n 0;
}

-- A finished build gives each node in range the neighbours that the edges name, in their order,
-- and its numbers of neighbours.
pub read_original_graph-IsNode :
    (weighted directed : Bool) (n : ℕ) (es : List (ℕ × ℕ)) (s : EdgeLists)
    → read_original_graph weighted directed n es ≡ some s
    → (j : ℕ) → j < n
    → IsNode weighted (directions directed es) s j
unfolding read_original_graph
read_original_graph-IsNode weighted directed n es s h j lt =
    let (t, e, k) = >>=-eq-some (calc_degrees directed es (blank n)) _ h in
    let c = calc_degrees-Counts directed es (blank n) t e in
    let d = derive_csr-Derives weighted directed es t s k in
    let empty : get_elem? (replicate n []) j ≡ some [] = get_elem?-replicate n j [] lt in
    let zeros : get_elem? (replicate n 0) j ≡ some 0 = get_elem?-replicate n j 0 lt in
    let es' = directions directed es in
    record {
      ins =
          d.in_grows j
          ∙ ap (λ ls. Option.map (λ l. l ++ in_of weighted es' j) (get_elem? ls j)) c.same_in
          ∙ ap (Option.map (λ l. l ++ in_of weighted es' j)) empty;
      outs =
          d.out_grows j
          ∙ ap (λ ls. Option.map (λ l. l ++ out_of weighted es' j) (get_elem? ls j)) c.same_out
          ∙ ap (Option.map (λ l. l ++ out_of weighted es' j)) empty;
      in_number =
          ap (λ ds. get_elem? ds j) d.same_in
          ∙ c.in_rises j
          ∙ ap (Option.map (λ x. x + in_count es' j)) zeros
          ∙ ap some (omega arith);
      out_number =
          ap (λ ds. get_elem? ds j) d.same_out
          ∙ c.out_rises j
          ∙ ap (Option.map (λ x. x + out_count es' j)) zeros
          ∙ ap some (omega arith);
    }

-- Every array has n entries.
pub record IsSized (n : ℕ) (s : EdgeLists) : Type 0 where
  pub in_lists : length s.in_edge_list ≡ n
  pub out_lists : length s.out_edge_list ≡ n
  pub in_degrees : length s.in_degree ≡ n
  pub out_degrees : length s.out_degree ≡ n

abbrev pub InRange : ℕ → ℕ × ℕ → Type 0
InRange n e = (e.0 < n) × (e.1 < n)

add_edge_total :
    (weighted : Bool) (n u v : ℕ) (s : EdgeLists)
    → u < n
    → v < n
    → IsSized n s
    → (s' : EdgeLists) × (add_edge weighted u v s ≡ some s') × IsSized n s'
unfolding add_edge
add_edge_total weighted n u v s hu hv z =
    let w = weight u v in
    let (ins, e, l) =
      modify_total (λ l. l ++ entry weighted u w) s.in_edge_list v (omega (arith, z.in_lists)) in
    let (outs, f, m) =
      modify_total (λ l. l ++ entry weighted v w) s.out_edge_list u (omega (arith, z.out_lists)) in
    (
      record s { in_edge_list = ins; out_edge_list = outs },
      rw (e, f),
      record {
        in_lists = l ∙ z.in_lists;
        out_lists = m ∙ z.out_lists;
        in_degrees = z.in_degrees;
        out_degrees = z.out_degrees;
      },
    )

count_edge_total :
    (n u v : ℕ) (s : EdgeLists)
    → u < n
    → v < n
    → IsSized n s
    → (s' : EdgeLists) × (count_edge u v s ≡ some s') × IsSized n s'
count_edge_total n u v s hu hv z =
    let (ins, e, l) = modify_total (λ d. d + 1) s.in_degree v (omega (arith, z.in_degrees)) in
    let (outs, f, m) = modify_total (λ d. d + 1) s.out_degree u (omega (arith, z.out_degrees)) in
    (
      record s { in_degree = ins; out_degree = outs },
      rw (e, f),
      record {
        in_lists = z.in_lists;
        out_lists = z.out_lists;
        in_degrees = l ∙ z.in_degrees;
        out_degrees = m ∙ z.out_degrees;
      },
    )

calc_degrees_total :
    (directed : Bool) (n : ℕ) (es : List (ℕ × ℕ)) (s : EdgeLists)
    → All (InRange n) es
    → IsSized n s
    → (s' : EdgeLists) × (calc_degrees directed es s ≡ some s') × IsSized n s'
unfolding calc_degrees
calc_degrees_total directed n [] s r z = (s, refl, z)
calc_degrees_total true n ((u, v) ∷ es) s r z =
    let (t, e, y) = count_edge_total n u v s r.0.0 r.0.1 z in
    let (t', e', y') = calc_degrees_total true n es t r.1 y in (t', rw e e', y')
calc_degrees_total false n ((u, v) ∷ es) s r z =
    let (t, e, y) = count_edge_total n v u s r.0.1 r.0.0 z in
    let (t', e', y') = count_edge_total n u v t r.0.0 r.0.1 y in
    let (t'', e'', y'') = calc_degrees_total false n es t' r.1 y' in (t'', rw (e, e') e'', y'')

derive_csr_total :
    (weighted directed : Bool) (n : ℕ) (es : List (ℕ × ℕ)) (s : EdgeLists)
    → All (InRange n) es
    → IsSized n s
    → (s' : EdgeLists) × (derive_csr weighted directed es s ≡ some s') × IsSized n s'
unfolding derive_csr
derive_csr_total weighted directed n [] s r z = (s, refl, z)
derive_csr_total weighted true n ((u, v) ∷ es) s r z =
    let (t, e, y) = add_edge_total weighted n u v s r.0.0 r.0.1 z in
    let (t', e', y') = derive_csr_total weighted true n es t r.1 y in (t', rw e e', y')
derive_csr_total weighted false n ((u, v) ∷ es) s r z =
    let (t, e, y) = add_edge_total weighted n u v s r.0.0 r.0.1 z in
    let (t', e', y') = add_edge_total weighted n v u t r.0.1 r.0.0 y in
    let (t'', e'', y'') = derive_csr_total weighted false n es t' r.1 y' in
    (t'', rw (e, e') e'', y'')

-- The build returns for every list of edges between nodes in range, with n entries in each array.
pub read_original_graph_total :
    (weighted directed : Bool) (n : ℕ) (es : List (ℕ × ℕ))
    → All (InRange n) es
    → (s : EdgeLists) × (read_original_graph weighted directed n es ≡ some s) × IsSized n s
unfolding read_original_graph
read_original_graph_total weighted directed n es r =
    let start : IsSized n (blank n) = record {
      in_lists = length-replicate n [];
      out_lists = length-replicate n [];
      in_degrees = length-replicate n 0;
      out_degrees = length-replicate n 0;
    } in
    let (t, e, y) = calc_degrees_total directed n es (blank n) r start in
    let (t', e', y') = derive_csr_total weighted directed n es t r y in (t', rw e e', y')
