-- ===== src/Csr/Adjacency.antt =====
-- The second pass of util/txt2csr.go against the neighbours that the edges name.
use mathlib.Core.Option
use mathlib.Core.List.{append_assoc, append-nil}
use faa_sgraph.Base.{
  ℕ, ◌≡◌, refl, ap, sym, ◌∙◌, Bool, true, false, Option, none, some, List, [], ◌∷◌, ◌++◌, ◌==◌,
  if◌then◌else◌, get_elem?, >>=-eq-some, get-modify, Bool-cases, inl, inr,
}
use faa_sgraph.Csr.{EdgeLists, weight, append_to, entry, add_edge, derive_csr}

-- The directed edges behind the lines of the file.
abbrev pub directions : Bool → List (ℕ × ℕ) → List (ℕ × ℕ)
directions directed [] = []
directions directed ((u, v) ∷ es) =
    (u, v) ∷ (if directed then directions directed es else (v, u) ∷ directions directed es)

-- What node u's out-edges are, in the order of the file.
abbrev pub out_of : Bool → List (ℕ × ℕ) → ℕ → List ℕ
out_of weighted [] u = []
out_of weighted ((a, b) ∷ es) u =
    (if a == u then entry weighted b (weight a b) else []) ++ out_of weighted es u

-- What node v's in-edges are.
abbrev pub in_of : Bool → List (ℕ × ℕ) → ℕ → List ℕ
in_of weighted [] v = []
in_of weighted ((a, b) ∷ es) v =
    (if b == v then entry weighted a (weight a b) else []) ++ in_of weighted es v

-- Every list j has grown at its end by d j.
abbrev pub Grows : List (List ℕ) → List (List ℕ) → (ℕ → List ℕ) → Type 0
Grows ls ls' d = (j : ℕ) → get_elem? ls' j ≡ Option.map (λ l. l ++ d j) (get_elem? ls j)

Grows-nil : (ls : List (List ℕ)) → Grows ls ls (λ _. [])
Grows-nil ls j = on (get_elem? ls j)
  where
    on : (o : Option (List ℕ)) → o ≡ Option.map (λ l. l ++ []) o
    on none = refl
    on (some l) = ap some (sym (append-nil l))

Grows-trans :
    (ls ls' ls'' : List (List ℕ)) (d d' : ℕ → List ℕ)
    → Grows ls ls' d
    → Grows ls' ls'' d'
    → Grows ls ls'' (λ j. d j ++ d' j)
Grows-trans ls ls' ls'' d d' g g' j =
    g' j ∙ ap (Option.map (λ l. l ++ d' j)) (g j) ∙ on (get_elem? ls j)
  where
    on :
        (o : Option (List ℕ))
        → Option.map (λ l. l ++ d' j) (Option.map (λ l. l ++ d j) o)
          ≡ Option.map (λ l. l ++ (d j ++ d' j)) o
    on none = refl
    on (some l) = ap some (append_assoc l (d j) (d' j))

append_to-Grows :
    (ls ls' : List (List ℕ)) (i : ℕ) (xs : List ℕ)
    → append_to ls i xs ≡ some ls'
    → Grows ls ls' (λ j. if i == j then xs else [])
append_to-Grows ls ls' i xs h j = get-modify (λ l. l ++ xs) ls ls' i j h ∙ on (get_elem? ls j)
  where
    on :
        (o : Option (List ℕ))
        → Option.map (λ l. if i == j then l ++ xs else l) o
          ≡ Option.map (λ l. l ++ (if i == j then xs else [])) o
    on none = refl
    on (some l) = elim (Bool-cases (i == j)) [
      | inl same ↦ rw same
      | inr other ↦ rw other (ap some (sym (append-nil l)))
    ]

-- What a pass does to both kinds of lists, the degrees left alone.
pub record Derives (s s' : EdgeLists) (ins outs : ℕ → List ℕ) : Type 0 where
  pub in_grows : Grows s.in_edge_list s'.in_edge_list ins
  pub out_grows : Grows s.out_edge_list s'.out_edge_list outs
  pub same_in : s'.in_degree ≡ s.in_degree
  pub same_out : s'.out_degree ≡ s.out_degree

Derives-trans :
    (s t u : EdgeLists) (i i' o o' : ℕ → List ℕ)
    → Derives s t i o
    → Derives t u i' o'
    → Derives s u (λ j. i j ++ i' j) (λ j. o j ++ o' j)
Derives-trans s t u i i' o o' p q = record {
  in_grows = Grows-trans s.in_edge_list t.in_edge_list u.in_edge_list i i' p.in_grows q.in_grows;
  out_grows =
      Grows-trans s.out_edge_list t.out_edge_list u.out_edge_list o o' p.out_grows q.out_grows;
  same_in = q.same_in ∙ p.same_in;
  same_out = q.same_out ∙ p.same_out;
}

add_edge-Derives :
    (weighted : Bool) (u v : ℕ) (s s' : EdgeLists)
    → add_edge weighted u v s ≡ some s'
    → Derives s s'
        (λ j. if v == j then entry weighted u (weight u v) else [])
        (λ j. if u == j then entry weighted v (weight u v) else [])
unfolding add_edge
add_edge-Derives weighted u v s s' h =
    let (ins, e, k) =
      >>=-eq-some (append_to s.in_edge_list v (entry weighted u (weight u v))) _ h in
    let (outs, f, l) =
      >>=-eq-some (append_to s.out_edge_list u (entry weighted v (weight u v))) _ k in
    let same = Option.some-injective _ _ l in
    rw (← same) (record {
      in_grows = append_to-Grows s.in_edge_list ins v (entry weighted u (weight u v)) e;
      out_grows = append_to-Grows s.out_edge_list outs u (entry weighted v (weight u v)) f;
      same_in = refl;
      same_out = refl;
    })

pub derive_csr-Derives :
    (weighted directed : Bool) (es : List (ℕ × ℕ)) (s s' : EdgeLists)
    → derive_csr weighted directed es s ≡ some s'
    → Derives s s'
        (in_of weighted (directions directed es))
        (out_of weighted (directions directed es))
unfolding derive_csr
derive_csr-Derives weighted directed [] s s' h = rw (← Option.some-injective _ _ h) (record {
  in_grows = Grows-nil s.in_edge_list;
  out_grows = Grows-nil s.out_edge_list;
  same_in = refl;
  same_out = refl;
})
derive_csr-Derives weighted true ((u, v) ∷ es) s s' h =
    let es' = directions true es in
    let (t, e, k) = >>=-eq-some (add_edge weighted u v s) _ h in
    Derives-trans s t s' _ (in_of weighted es') _ (out_of weighted es')
      (add_edge-Derives weighted u v s t e) (derive_csr-Derives weighted true es t s' k)
derive_csr-Derives weighted false ((u, v) ∷ es) s s' h =
    let es' = directions false es in
    let (t, e, k) = >>=-eq-some (add_edge weighted u v s) _ h in
    let (t', e', k') = >>=-eq-some (add_edge weighted v u t) _ k in
    Derives-trans s t s' _ (in_of weighted ((v, u) ∷ es')) _ (out_of weighted ((v, u) ∷ es'))
      (add_edge-Derives weighted u v s t e)
      (Derives-trans t t' s' _ (in_of weighted es') _ (out_of weighted es')
        (add_edge-Derives weighted v u t t' e') (derive_csr-Derives weighted false es t' s' k'))
