-- ===== src/Partition/Balance.antt =====
-- The partitions of util/split.go: they cover the nodes in order, and there are no more than asked.
use mathlib.Core.Option
use native.Mathlib.Nat.{mod-lt, mod-add-div, lt_of_mul-lt-mul_left}
use faa_sgraph.Base.{
  ℕ, zero, suc, ◌+◌, ◌*◌, ◌/◌, ◌%◌, ◌<◌, ◌≤◌, ◌≡◌, refl, ap, sym, ◌∙◌, subst, ◌⊎◌, inl, inr, Bool,
  true, false, some, List, [], ◌∷◌, ◌++◌, arith, ltb, ◌==◌, Bool-cases, >>=-eq-some, length, sum_by,
  sum_by-set, get_elem?, set, replicate, length-replicate, modify, length-modify,
}
use faa_sgraph.Partition.{
  Degrees, count_edge, count_edges, read_original_graph, degree_sums, group, starts, split,
}

-- The sum of degrees.
abbrev pub weight : List ℕ → ℕ
weight = sum_by (λ d. d)

-- One partition: it takes at least a node, and more than the limit unless it takes all nodes.
pub record IsGroup (limit cur start : ℕ) (ds : List ℕ) (next : ℕ) (rest : List ℕ) : Type 0 where
  pub count : next + length rest ≡ start + length ds
  pub taken : ℕ
  pub sums : taken + weight rest ≡ weight ds
  pub heavy : (rest ≡ []) ⊎ (limit < cur + taken)

group-IsGroup :
    (limit cur start : ℕ) (ds : List ℕ)
    → IsGroup limit cur start ds (group limit cur start ds).0 (group limit cur start ds).1
unfolding group
group-IsGroup limit cur start [] = record { count = refl; taken = 0; sums = refl; heavy = inl refl }
group-IsGroup limit cur start (d ∷ ds) = elim (Bool-cases (ltb limit (cur + d))) [
  | inl full ↦
      rw full (record { count = omega arith; taken = d; sums = refl; heavy = inr (ground arith) })
  | inr not_full ↦
      let g = group-IsGroup limit (cur + d) (suc start) ds in
      rw not_full (record {
        count = omega (arith, g.count);
        taken = d + g.taken;
        sums = omega (arith, g.sums);
        heavy = elim g.heavy [ inl e ↦ inl e | inr h ↦ inr (omega arith) ];
      })
]

group-grows : (limit cur start : ℕ) (ds : List ℕ) → start ≤ (group limit cur start ds).0
unfolding group
group-grows limit cur start [] = omega arith
group-grows limit cur start (d ∷ ds) = elim (Bool-cases (ltb limit (cur + d))) [
  | inl full ↦ rw full (omega arith)
  | inr not_full ↦ let g = group-grows limit (cur + d) (suc start) ds in rw not_full (omega arith)
]

group-moves : (limit start d : ℕ) (ds : List ℕ) → start < (group limit 0 start (d ∷ ds)).0
unfolding group
group-moves limit start d ds = elim (Bool-cases (ltb limit (0 + d))) [
  | inl full ↦ rw full (omega arith)
  | inr not_full ↦ let g = group-grows limit (0 + d) (suc start) ds in rw not_full (omega arith)
]

-- Start nodes of partitions that follow one another, from a node to another.
abbrev pub Ascends : ℕ → List ℕ → ℕ → Type 0
Ascends start [] stop = start ≡ stop
Ascends start (x ∷ xs) stop = (x ≡ start) × ((next : ℕ) × (start < next) × Ascends next xs stop)

pub Ascends-le :
    (start : ℕ) (r : List ℕ) (stop : ℕ) → Ascends start r stop → start + length r ≤ stop
Ascends-le start [] stop a = omega arith
Ascends-le start (x ∷ xs) stop (e, (next, less, a)) = omega (arith, Ascends-le next xs stop a)

starts-lem :
    (limit fuel start : ℕ) (ds : List ℕ)
    → length ds ≤ fuel
    → (r : List ℕ) × (starts limit fuel start ds ≡ some r)
      × Ascends start r (start + length ds)
      × (length r * suc limit ≤ weight ds + suc limit)
unfolding starts
starts-lem limit fuel start [] h = ([], refl, omega arith, omega arith)
starts-lem limit zero start (d ∷ ds) h = absurd (omega arith)
starts-lem limit (suc fuel) start (d ∷ ds) h =
    let g = group-IsGroup limit 0 start (d ∷ ds) in
    let moves = group-moves limit start d ds in
    let next = (group limit 0 start (d ∷ ds)).0 in
    let rest = (group limit 0 start (d ∷ ds)).1 in
    let (r, e, up, few) = starts-lem limit fuel next rest (omega (arith, g.count)) in
    let stop : next + length rest ≡ start + length (d ∷ ds) = g.count in
    (
      start ∷ r,
      rw e refl,
      (refl, (next, moves, subst (Ascends next r) stop up)),
      elim g.heavy [
        | inr h ↦ grind (arith, few, g.sums)
        | inl none_left ↦
            let short = Ascends-le next r (next + length rest) up in
            let zero_more : length r ≡ 0 = omega (arith, ap length none_left) in
            subst (λ n. suc n * suc limit ≤ weight (d ∷ ds) + suc limit) (sym zero_more)
              (omega arith)
      ],
    )

-- The degrees of the edges read so far.
pub record IsTally (total_node : ℕ) (s : Degrees) : Type 0 where
  pub in_size : length s.in_degree ≡ total_node
  pub out_size : length s.out_degree ≡ total_node
  pub sums : weight s.in_degree + weight s.out_degree ≡ 2 * s.total_edge

weight-modify :
    (xs ys : List ℕ) (i : ℕ) → modify (λ d. d + 1) xs i ≡ some ys → weight ys ≡ weight xs + 1
weight-modify xs ys i e =
    let (x, f, k) = >>=-eq-some (get_elem? xs i) _ e in
    let sums = sum_by-set (λ d. d) xs i x (x + 1) f in
    let same : weight (set xs i (x + 1)) ≡ weight ys = ap weight (Option.some-injective _ _ k) in
    omega (arith, sums, same)

count_edge-IsTally :
    (n u v : ℕ) (s t : Degrees) → IsTally n s → count_edge u v s ≡ some t → IsTally n t
unfolding count_edge
count_edge-IsTally n u v s t i e =
    let (ins, f, k) = >>=-eq-some (modify (λ d. d + 1) s.in_degree v) _ e in
    let (outs, g, l) = >>=-eq-some (modify (λ d. d + 1) s.out_degree u) _ k in
    let same = sym (Option.some-injective _ _ l) in
    subst (IsTally n) (Option.some-injective _ _ l) (record {
      in_size = length-modify (λ d. d + 1) s.in_degree ins v f ∙ i.in_size;
      out_size = length-modify (λ d. d + 1) s.out_degree outs u g ∙ i.out_size;
      sums =
          omega
            (arith, i.sums, weight-modify s.in_degree ins v f, weight-modify s.out_degree outs u g);
    })

count_edges-IsTally :
    (directed : Bool) (n : ℕ) (es : List (ℕ × ℕ)) (s t : Degrees)
    → IsTally n s
    → count_edges directed es s ≡ some t
    → IsTally n t
unfolding count_edges
count_edges-IsTally directed n [] s t i e = subst (IsTally n) (Option.some-injective _ _ e) i
count_edges-IsTally true n ((u, v) ∷ es) s t i e =
    let (s', f, k) = >>=-eq-some (count_edge u v s) _ e in
    count_edges-IsTally true n es s' t (count_edge-IsTally n u v s s' i f) k
count_edges-IsTally false n ((u, v) ∷ es) s t i e =
    let (s', f, k) = >>=-eq-some (count_edge u v s) _ e in
    let (s'', g, l) = >>=-eq-some (count_edge v u s') _ k in
    count_edges-IsTally false n es s'' t
      (count_edge-IsTally n v u s' s'' (count_edge-IsTally n u v s s' i f) g) l

weight-zeros : (n : ℕ) → weight (replicate n 0) ≡ 0
weight-zeros zero = refl
weight-zeros (suc n) = omega (arith, weight-zeros n)

-- The sum of all degrees is twice the number of edges, where both directions of an undirected edge
-- count as edges.
pub read_original_graph-IsTally :
    (directed : Bool) (n : ℕ) (es : List (ℕ × ℕ)) (s : Degrees)
    → read_original_graph directed n es ≡ some s
    → IsTally n s
unfolding read_original_graph
read_original_graph-IsTally directed n es s e =
    let start : Degrees = record {
      total_edge = 0;
      in_degree = replicate n 0;
      out_degree = replicate n 0;
    } in
    count_edges-IsTally directed n es start s
      (record {
        in_size = length-replicate n 0;
        out_size = length-replicate n 0;
        sums = omega (arith, weight-zeros n);
      })
      e

degree_sums-sizes :
    (ins outs : List ℕ)
    → length ins ≡ length outs
    → (length (degree_sums ins outs) ≡ length ins)
      × (weight (degree_sums ins outs) ≡ weight ins + weight outs)
degree_sums-sizes [] [] h = (refl, omega arith)
degree_sums-sizes [] (o ∷ outs) h = absurd (omega arith)
degree_sums-sizes (i ∷ ins) [] h = absurd (omega arith)
degree_sums-sizes (i ∷ ins) (o ∷ outs) h =
    let (l, w) = degree_sums-sizes ins outs (omega arith) in (ap suc l, omega (arith, w))

quotient_bound :
    (k total asked : ℕ)
    → 0 < asked
    → k * suc (total / asked) ≤ total + suc (total / asked)
    → k ≤ asked
quotient_bound k total asked h e =
    let q = total / asked in
    let parts : asked * q + total % asked ≡ total =
      let p = mod-add-div total asked in omega (arith, p) in
    let left : total % asked < asked = mod-lt total h in
    let less : suc q * k < suc q * suc asked = grind (arith, e, parts, left) in
    let strict : k < suc asked = lt_of_mul-lt-mul_left (suc q) less in omega arith

-- `split` of the degrees of a file of edges, into at least one partition, returns the start nodes
-- of partitions that follow one another from node 0 to the last, none of them empty, and ends them
-- with the number of nodes; there are no more partitions than asked for.
pub split-Ascends :
    (directed : Bool) (n partition : ℕ) (es : List (ℕ × ℕ)) (s : Degrees)
    → read_original_graph directed n es ≡ some s
    → 0 < partition
    → (r : List ℕ) × (split partition n s ≡ some (r ++ n ∷ []))
      × Ascends 0 r n
      × (length r ≤ partition)
unfolding split
split-Ascends directed n partition es s e some_asked =
    let t = read_original_graph-IsTally directed n es s e in
    let limit = s.total_edge * 2 / partition in
    let ds = degree_sums s.in_degree s.out_degree in
    let (l, w) = degree_sums-sizes s.in_degree s.out_degree (t.in_size ∙ sym t.out_size) in
    let (r, f, up, few) = starts-lem limit n 0 ds (omega (arith, t.in_size)) in
    let asked : (partition == 0) ≡ false = ground arith in
    let doubled : weight ds ≡ s.total_edge * 2 = omega (arith, w, t.sums) in
    let stop : 0 + length ds ≡ n = omega (arith, t.in_size) in
    (
      r,
      rw (asked, f) refl,
      subst (Ascends 0 r) stop up,
      quotient_bound (length r) (s.total_edge * 2) partition some_asked
          (subst (λ m. length r * suc limit ≤ m + suc limit) doubled few),
    )
