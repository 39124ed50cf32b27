-- ===== src/Csr/Degrees.antt =====
-- The first pass of util/txt2csr.go: the degrees are the numbers of neighbours.
use mathlib.Core.Option
use faa_sgraph.Base.{
  ℕ, ◌+◌, ◌*◌, ◌≡◌, refl, ap, ◌∙◌, Bool, true, false, Option, none, some, List, [], ◌∷◌, ◌++◌,
  arith, ◌==◌, if◌then◌else◌, get_elem?, length, >>=-eq-some, get-modify,
}
use faa_sgraph.Csr.{EdgeLists, increment, count_edge, calc_degrees, entry, weight}
use faa_sgraph.Csr.Adjacency.{directions, out_of, in_of}

abbrev pub out_count : List (ℕ × ℕ) → ℕ → ℕ
out_count [] u = 0
out_count ((a, b) ∷ es) u = (if a == u then 1 else 0) + out_count es u

abbrev pub in_count : List (ℕ × ℕ) → ℕ → ℕ
in_count [] v = 0
in_count ((a, b) ∷ es) v = (if b == v then 1 else 0) + in_count es v

-- The words of one entry.
abbrev pub el : Bool → ℕ
el weighted = if weighted then 2 else 1

length-entry : (weighted : Bool) (x w : ℕ) → length (entry weighted x w) ≡ el weighted
length-entry true x w = refl
length-entry false x w = refl

-- One more entry, if the test holds, in front of n.
length-guarded :
    (weighted test : Bool) (x w : ℕ) (rest : List ℕ) (n : ℕ)
    → length rest ≡ el weighted * n
    → length ((if test then entry weighted x w else []) ++ rest)
      ≡ el weighted * ((if test then 1 else 0) + n)
length-guarded true true x w rest n h = omega arith
length-guarded true false x w rest n h = omega arith
length-guarded false true x w rest n h = omega arith
length-guarded false false x w rest n h = omega arith

pub length-out_of :
    (weighted : Bool) (es : List (ℕ × ℕ)) (u : ℕ)
    → length (out_of weighted es u) ≡ el weighted * out_count es u
length-out_of weighted [] u = omega arith
length-out_of weighted ((a, b) ∷ es) u =
    length-guarded weighted (a == u) b (weight a b) (out_of weighted es u) (out_count es u)
      (length-out_of weighted es u)

pub length-in_of :
    (weighted : Bool) (es : List (ℕ × ℕ)) (v : ℕ)
    → length (in_of weighted es v) ≡ el weighted * in_count es v
length-in_of weighted [] v = omega arith
length-in_of weighted ((a, b) ∷ es) v =
    length-guarded weighted (b == v) a (weight a b) (in_of weighted es v) (in_count es v)
      (length-in_of weighted es v)

-- Every entry j has risen by d j.
abbrev pub Rises : List ℕ → List ℕ → (ℕ → ℕ) → Type 0
Rises ds ds' d = (j : ℕ) → get_elem? ds' j ≡ Option.map (λ x. x + d j) (get_elem? ds j)

map-id : (o : Option ℕ) (k : ℕ) → k ≡ 0 → o ≡ Option.map (λ x. x + k) o
map-id none k h = refl
map-id (some x) k h = ap some (omega arith)

map-add :
    (o : Option ℕ) (j k l : ℕ)
    → j + k ≡ l
    → Option.map (λ x. x + k) (Option.map (λ x. x + j) o) ≡ Option.map (λ x. x + l) o
map-add none j k l h = refl
map-add (some x) j k l h = ap some (omega arith)

Rises-trans :
    (ds ds' ds'' : List ℕ) (d d' d'' : ℕ → ℕ)
    → ((j : ℕ) → d j + d' j ≡ d'' j)
    → Rises ds ds' d
    → Rises ds' ds'' d'
    → Rises ds ds'' d''
Rises-trans ds ds' ds'' d d' d'' sum r r' j =
    r' j
    ∙ ap (Option.map (λ x. x + d' j)) (r j)
    ∙ map-add (get_elem? ds j) (d j) (d' j) (d'' j) (sum j)

increment-Rises :
    (ds ds' : List ℕ) (i : ℕ)
    → increment ds i ≡ some ds'
    → Rises ds ds' (λ j. if i == j then 1 else 0)
increment-Rises ds ds' i h j = get-modify (λ d. d + 1) ds ds' i j h ∙ on (get_elem? ds j)
  where
    on :
        (o : Option ℕ)
        → Option.map (λ d. if i == j then d + 1 else d) o
          ≡ Option.map (λ x. x + (if i == j then 1 else 0)) o
    on none = refl
    on (some x) = ground arith

pub record Counts (s s' : EdgeLists) (ins outs : ℕ → ℕ) : Type 0 where
  pub in_rises : Rises s.in_degree s'.in_degree ins
  pub out_rises : Rises s.out_degree s'.out_degree outs
  pub same_in : s'.in_edge_list ≡ s.in_edge_list
  pub same_out : s'.out_edge_list ≡ s.out_edge_list

Counts-trans :
    (s t u : EdgeLists) (i i' i'' o o' o'' : ℕ → ℕ)
    → ((j : ℕ) → i j + i' j ≡ i'' j)
    → ((j : ℕ) → o j + o' j ≡ o'' j)
    → Counts s t i o
    → Counts t u i' o'
    → Counts s u i'' o''
Counts-trans s t u i i' i'' o o' o'' si so p q = record {
  in_rises = Rises-trans s.in_degree t.in_degree u.in_degree i i' i'' si p.in_rises q.in_rises;
  out_rises =
      Rises-trans s.out_degree t.out_degree u.out_degree o o' o'' so p.out_rises q.out_rises;
  same_in = q.same_in ∙ p.same_in;
  same_out = q.same_out ∙ p.same_out;
}

count_edge-Counts :
    (u v : ℕ) (s s' : EdgeLists)
    → count_edge u v s ≡ some s'
    → Counts s s' (λ j. if v == j then 1 else 0) (λ j. if u == j then 1 else 0)
count_edge-Counts u v s s' h =
    let (ins, e, k) = >>=-eq-some (increment s.in_degree v) _ h in
    let (outs, f, l) = >>=-eq-some (increment s.out_degree u) _ k in
    rw (← Option.some-injective _ _ l) (record {
      in_rises = increment-Rises s.in_degree ins v e;
      out_rises = increment-Rises s.out_degree outs u f;
      same_in = refl;
      same_out = refl;
    })

pub calc_degrees-Counts :
    (directed : Bool) (es : List (ℕ × ℕ)) (s s' : EdgeLists)
    → calc_degrees directed es s ≡ some s'
    → Counts s s' (in_count (directions directed es)) (out_count (directions directed es))
unfolding calc_degrees
calc_degrees-Counts directed [] s s' h = rw (← Option.some-injective _ _ h) (record {
  in_rises = λ j. map-id (get_elem? s.in_degree j) 0 refl;
  out_rises = λ j. map-id (get_elem? s.out_degree j) 0 refl;
  same_in = refl;
  same_out = refl;
})
calc_degrees-Counts true ((u, v) ∷ es) s s' h =
    let es' = directions true es in
    let (t, e, k) = >>=-eq-some (count_edge u v s) _ h in
    Counts-trans s t s' _ (in_count es') _ _ (out_count es') _ (λ j. refl) (λ j. refl)
      (count_edge-Counts u v s t e) (calc_degrees-Counts true es t s' k)
calc_degrees-Counts false ((u, v) ∷ es) s s' h =
    let es' = directions false es in
    let (t, e, k) = >>=-eq-some (count_edge v u s) _ h in
    let (t', e', k') = >>=-eq-some (count_edge u v t) _ k in
    Counts-trans s t s' _ (in_count ((u, v) ∷ es')) _ _ (out_count ((u, v) ∷ es')) _
      (λ j. omega arith) (λ j. omega arith) (count_edge-Counts v u s t e)
      (Counts-trans t t' s' _ (in_count es') _ _ (out_count es') _ (λ j. refl) (λ j. refl)
        (count_edge-Counts u v t t' e') (calc_degrees-Counts false es t' s' k'))
