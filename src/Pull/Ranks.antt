-- ===== src/Pull/Ranks.antt =====
-- What one call of `Calc` of app/graph/pr/graph_calc.go gives the active vertices: ranks made from
-- those of the other array, as they were before the call.
use mathlib.Core.Option
use faa_sgraph.Base.{
  ℕ, zero, suc, ◌^◌, ◌≤◌, ◌<◌, ◌≡◌, refl, ap, sym, ◌∙◌, ◌≢◌, ◌⊎◌, inl, inr, Bool, true, some, List,
  [], ◌∷◌, ◌++◌, arith, ◌==◌, ◌>>=◌, >>=-eq-some, length, take, drop, take-append-drop, length-drop,
  subst, ==_iff, ℕ_discrete, All, Mem,
}
use faa_sgraph.MemPool.{slot}
use faa_sgraph.Graph.{Graph, in_edge, get_vertex_val, set_vertex_val, get_out_degree}
use faa_sgraph.Graph.Degrees.{stored, get-set_vertex_val, get-set_vertex_val_ne}
use faa_sgraph.Kernel.Updates.{send}
use faa_sgraph.Wire.RoundTrip.{concat_all}
use faa_sgraph.Pull.{
  Pull, Float, Rank, other_tag, each, each_block, blocks, calc_block, acc_val, rank_of, pull_pr,
  calc_pr,
}

-- The sum of numbers that are given for vertices.
abbrev pub sum_of : Float → (ℕ → ℕ) → ℕ → List ℕ → ℕ
sum_of f old acc [] = acc
sum_of f old acc (v ∷ vs) = sum_of f old (f.add acc (old v)) vs

in_edge-set_vertex_val :
    (g g' : Graph) (tag v val u : ℕ)
    → set_vertex_val g tag v val ≡ some g'
    → in_edge g' u ≡ in_edge g u
unfolding set_vertex_val in_edge
in_edge-set_vertex_val g g' tag v val u e =
    let (m, k, same) = stored g g' _ e in ap (λ h. in_edge h u) same

slot-injective : (u v : ℕ) → u < 2 ^ 30 → v < 2 ^ 30 → slot u ≡ slot v → u ≡ v
unfolding slot
slot-injective u v h k e = omega arith

Mem-split : (x : ℕ) (xs ys : List ℕ) → Mem x (xs ++ ys) → Mem x xs ⊎ Mem x ys
Mem-split x [] ys m = inr m
Mem-split x (y ∷ xs) ys (inl e) = inl (inl e)
Mem-split x (y ∷ xs) ys (inr m) = elim (Mem-split x xs ys m) [
  | inl here ↦ inl (inr here)
  | inr there ↦ inr there
]

All-split : (xs ys : List ℕ) (P : ℕ → Type 0) → All P (xs ++ ys) → All P xs × All P ys
All-split [] ys P a = (tt, a)
All-split (x ∷ xs) ys P (p, a) = let (b, c) = All-split xs ys P a in ((p, b), c)

-- The blocks are the active vertices, each once.
blocks-concat :
    (block fuel : ℕ) (us : List ℕ)
    → 0 < block
    → length us ≤ fuel
    → concat_all (blocks block fuel us) ≡ us
unfolding blocks
blocks-concat block zero [] h le = refl
blocks-concat block zero (u ∷ us) h le = absurd (omega arith)
blocks-concat block (suc fuel) [] h le = refl
blocks-concat block (suc fuel) (u ∷ us) h le =
    let more =
      blocks-concat block fuel (drop block (u ∷ us)) h
        (omega (arith, length-drop block (u ∷ us))) in
    ap (λ r. take block (u ∷ us) ++ r) more ∙ take-append-drop block (u ∷ us)

module _ (f : Float) (tag : ℕ) (h : tag ≤ 1) (g0 : Graph) (u d : ℕ) (ins : List ℕ) (old : ℕ → ℕ)
    (olds : All (λ v. get_vertex_val g0 (other_tag tag) v ≡ some (old v)) ins)
    (inside : u < 2 ^ 30) where
  -- What the call has not changed.
  record Kept (g : Graph) : Type 0 where
    pub edges : in_edge g u ≡ some ins
    pub degree : get_out_degree g u ≡ some d
    pub reads : (v : ℕ) → get_vertex_val g (other_tag tag) v ≡ get_vertex_val g0 (other_tag tag) v

  abbrev Done : Graph → Type 0
  Done g = get_vertex_val g tag u ≡ some (rank_of f (sum_of f old 0 ins) d)

  acc_val-sum_of :
      (g : Graph) (acc : ℕ) (vs : List ℕ)
      → Kept g
      → All (λ v. get_vertex_val g0 (other_tag tag) v ≡ some (old v)) vs
      → acc_val f tag g acc vs ≡ some (sum_of f old acc vs)
  unfolding acc_val
  acc_val-sum_of g acc [] kept a = refl
  acc_val-sum_of g acc (v ∷ vs) kept (p, a) =
      let here : get_vertex_val g (other_tag tag) v ≡ some (old v) = kept.reads v ∙ p in
      rw here (acc_val-sum_of g (f.add acc (old v)) vs kept a)

  pull_pr-Done :
      (w : ℕ) (s t : Pull)
      → w < 2 ^ 30
      → pull_pr f tag w s ≡ some t
      → Kept s.graph
      → Kept t.graph × (Done s.graph ⊎ (u ≡ w) → Done t.graph)
  unfolding pull_pr
  pull_pr-Done w s t below e kept =
      let (vs, at, k) = >>=-eq-some (in_edge s.graph w) _ e in
      let (acc, b, l) = >>=-eq-some (acc_val f tag s.graph 0 vs) _ k in
      let (c, out, m) = >>=-eq-some (get_out_degree s.graph w) _ l in
      let (g, p, q) = >>=-eq-some (set_vertex_val s.graph tag w (rank_of f acc c)) _ m in
      let last : g ≡ t.graph = ap (λ (r : Pull). r.graph) (Option.some-injective _ _ q) in
      let apart : tag ≢ other_tag tag = λ o. absurd (omega arith) in
      let written = λ (v : ℕ). get-set_vertex_val s.graph g tag w (rank_of f acc c) p v in
      let kept' : Kept g = record {
        edges = in_edge-set_vertex_val s.graph g tag w (rank_of f acc c) u p ∙ kept.edges;
        degree = (written u).1 ∙ kept.degree;
        reads = λ v.
            get-set_vertex_val_ne s.graph g tag (other_tag tag) w (rank_of f acc c) p apart v
            ∙ kept.reads v;
      } in
      let done : Done s.graph ⊎ (u ≡ w) → Done g = λ which. elim (ℕ_discrete w u) [
        | yes same ↦
            let vs_ins =
              Option.some-injective _ _ (sym at ∙ ap (in_edge s.graph) same ∙ kept.edges) in
            let acc_sum = Option.some-injective _ _ (
              sym b
              ∙ ap (acc_val f tag s.graph 0) vs_ins
              ∙ acc_val-sum_of s.graph 0 ins kept olds) in
            let c_d =
              Option.some-injective _ _
                (sym out ∙ ap (get_out_degree s.graph) same ∙ kept.degree) in
            let one : (slot u == slot w) ≡ true = (==_iff _ _).1 (ap slot (sym same)) in
            (written u).0
            ∙ rw one (
                ap some (ap (λ a. rank_of f a c) acc_sum ∙ ap (rank_of f (sum_of f old 0 ins)) c_d))
        | no other ↦ elim which [
          | inr same ↦ absurd (other (sym same))
          | inl before ↦
              let two : (slot u == slot w) ≢ true = λ one.
                absurd (other (sym (slot-injective u w inside below ((==_iff _ _).0 one)))) in
              (written u).0 ∙ ground (arith, two, before)
        ]
      ] in
      (subst Kept last kept', λ which. subst Done last (done which))

  each-Done :
      (us : List ℕ) (s t : Pull)
      → All (λ v. v < 2 ^ 30) us
      → each (pull_pr f tag) us s ≡ some t
      → Kept s.graph
      → Kept t.graph × (Done s.graph ⊎ Mem u us → Done t.graph)
  each-Done [] s t below e kept =
      let same = ap (λ (r : Pull). r.graph) (Option.some-injective _ _ e) in
      (
        subst Kept same kept,
        λ which. elim which [ inl done ↦ subst Done same done | inr m ↦ absurd m ],
      )
  each-Done (w ∷ us) s t (p, below) e kept =
      let (r, k, l) = >>=-eq-some (pull_pr f tag w s) _ e in
      let (kept1, one) = pull_pr-Done w s r p k kept in
      let (kept2, rest) = each-Done us r t below l kept1 in
      (
        kept2,
        λ which. elim which [
          | inl done ↦ rest (inl (one (inl done)))
          | inr (inl same) ↦ rest (inl (one (inr same)))
          | inr (inr m) ↦ rest (inr m)
        ],
      )

  blocks-Done :
      (writers : Bool) (uss : List (List ℕ)) (s t : Pull)
      → All (λ v. v < 2 ^ 30) (concat_all uss)
      → each_block writers (pull_pr f tag) uss s ≡ some t
      → Kept s.graph
      → Done s.graph ⊎ Mem u (concat_all uss)
      → Done t.graph
  blocks-Done writers [] s t below e kept which =
      let same = ap (λ (r : Pull). r.graph) (Option.some-injective _ _ e) in
      elim which [ inl done ↦ subst Done same done | inr m ↦ absurd m ]
  blocks-Done writers (us ∷ uss) s t below e kept which =
      let begun : Pull = record s { updates = 0 ∷ [] } in
      let (r, k, l) =
        >>=-eq-some
          (each (pull_pr f tag) us begun >>= λ s'.
            some (record s' { sent = send writers s'.updates s'.sent }))
          _ e in
      let (r', k', l') = >>=-eq-some (each (pull_pr f tag) us begun) _ k in
      let same : r'.graph ≡ r.graph = ap (λ (p : Pull). p.graph) (Option.some-injective _ _ l') in
      let (now, later) = All-split us (concat_all uss) (λ v. v < 2 ^ 30) below in
      let (kept1, one) = each-Done us begun r' now k' kept in
      let go = blocks-Done writers uss r t later l (subst Kept same kept1) in
      elim which [
        | inl done ↦ go (inl (subst Done same (one (inl done))))
        | inr m ↦ elim (Mem-split u us (concat_all uss) m) [
          | inl here ↦ go (inl (subst Done same (one (inr here))))
          | inr there ↦ go (inr there)
        ]
      ]

-- Where `Calc` of pr returns on active vertices below 2^30, with the tag 0 or 1, every active
-- vertex has a rank in the array that the call writes, made from its out-degree and from the ranks
-- that its in-neighbours had in the other array before the call, whatever the order of the active
-- vertices: no rank that the call itself wrote is read.
pub calc_pr-ranks :
    (f : Float) (writers : Bool) (active : List ℕ) (s t : Pull) (r r' : Rank) (u d : ℕ)
    (ins : List ℕ) (old : ℕ → ℕ)
    → r.tag_new ≤ 1
    → All (λ v. v < 2 ^ 30) active
    → u < 2 ^ 30
    → calc_pr f writers active s r ≡ some (t, r')
    → Mem u active
    → in_edge s.graph u ≡ some ins
    → get_out_degree s.graph u ≡ some d
    → All (λ v. get_vertex_val s.graph (other_tag r.tag_new) v ≡ some (old v)) ins
    → get_vertex_val t.graph r.tag_new u ≡ some (rank_of f (sum_of f old 0 ins) d)
unfolding calc_pr
calc_pr-ranks f writers active s t r r' u d ins old h below inside e m edges degree olds =
    let uss = blocks calc_block (length active) active in
    let (t', k, l) = >>=-eq-some (each_block writers (pull_pr f r.tag_new) uss s) _ e in
    let same = ap (λ (p : Pull × Rank). p.0.graph) (Option.some-injective _ _ l) in
    let all : concat_all uss ≡ active =
      blocks-concat calc_block (length active) active (omega arith) (omega arith) in
    subst (λ g. get_vertex_val g r.tag_new u ≡ some (rank_of f (sum_of f old 0 ins) d)) same
      (blocks-Done f r.tag_new h s.graph u d ins old olds inside writers uss s t'
        (subst (All (λ v. v < 2 ^ 30)) (sym all) below) k
        (record { edges = edges; degree = degree; reads = λ v. refl })
        (inr (subst (Mem u) (sym all) m)))
