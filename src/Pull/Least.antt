-- ===== src/Pull/Least.antt =====
-- One vertex of app/graph/ccpull/graph_calc.go: it takes the least label among its own and those of
-- its in-neighbours.
use mathlib.Core.Option
use faa_sgraph.Base.{
  ℕ, ◌<◌, ◌≤◌, ◌≡◌, ap, sym, ◌∙◌, subst, ◌⊎◌, inl, inr, true, some, List, [], ◌∷◌, arith, ltb,
  if◌then◌else◌, Bool-cases, >>=-eq-some,
}
use faa_sgraph.Bitmap
use faa_sgraph.Bitmap.Members.{get-add}
use faa_sgraph.MemPool.{slot}
use faa_sgraph.Graph.{Graph, in_edge, get_vertex_val, set_vertex_val}
use faa_sgraph.Graph.Degrees.{get-set_vertex_val}
use faa_sgraph.Pull.{Pull, least_label, lower_label, pull_cc}

-- The label of a vertex in a list.
abbrev pub HasLabel : Graph → ℕ → List ℕ → Type 0
HasLabel g x [] = ⊥
HasLabel g x (v ∷ vs) = (get_vertex_val g 0 v ≡ some x) ⊎ HasLabel g x vs

-- The least of a label and those of a list of vertices.
pub record IsLeast (g : Graph) (val : ℕ) (vs : List ℕ) (x : ℕ) : Type 0 where
  pub below_own : x ≤ val
  pub below_each : (y : ℕ) → HasLabel g y vs → x ≤ y
  pub one_of : (x ≡ val) ⊎ HasLabel g x vs

cons-IsLeast :
    (g : Graph) (val v vval x : ℕ) (vs : List ℕ)
    → get_vertex_val g 0 v ≡ some vval
    → IsLeast g (if ltb vval val then vval else val) vs x
    → IsLeast g val (v ∷ vs) x
cons-IsLeast g val v vval x vs f l = record {
  below_own = let low = l.below_own in ground arith;
  below_each = λ y h. elim h [
    | inr later ↦ l.below_each y later
    | inl here ↦
        let same : y ≡ vval = Option.some-injective _ _ (sym here ∙ f) in
        let low = l.below_own in ground arith
  ];
  one_of = elim l.one_of [
    | inr later ↦ inr (inr later)
    | inl own ↦ elim (Bool-cases (ltb vval val)) [
      | inl less ↦ let same : x ≡ vval = ground arith in inr (inl (f ∙ ap some (sym same)))
      | inr not_less ↦ inl (ground arith)
    ]
  ];
}

least_label-IsLeast :
    (g : Graph) (val : ℕ) (vs : List ℕ) (x : ℕ) → least_label g val vs ≡ some x → IsLeast g val vs x
unfolding least_label
least_label-IsLeast g val [] x e =
    let same = Option.some-injective _ _ e in
    record { below_own = omega arith; below_each = λ y h. absurd h; one_of = inl (sym same) }
least_label-IsLeast g val (v ∷ vs) x e =
    let (vval, f, k) = >>=-eq-some (get_vertex_val g 0 v) _ e in
    cons-IsLeast g val v vval x vs f
      (least_label-IsLeast g (if ltb vval val then vval else val) vs x k)

-- Where the kernel's step on a vertex returns, the label of the vertex is the least of its own and
-- of those of its in-neighbours, all as they were, no other entry has changed, and the vertex is
-- active in the next round if its label fell.
pub pull_cc-IsLeast :
    (u : ℕ) (s t : Pull) (val : ℕ) (ins : List ℕ)
    → pull_cc u s ≡ some t
    → get_vertex_val s.graph 0 u ≡ some val
    → in_edge s.graph u ≡ some ins
    → (x : ℕ) × IsLeast s.graph val ins x
      × (get_vertex_val t.graph 0 u ≡ some x)
      × ((v : ℕ) → (slot v ≡ slot u → ⊥) → get_vertex_val t.graph 0 v ≡ get_vertex_val s.graph 0 v)
      × (x < val → Bitmap.get t.next_activate u ≡ some true)
unfolding pull_cc
pull_cc-IsLeast u s t val ins e here edges =
    let (val', f, k) = >>=-eq-some (get_vertex_val s.graph 0 u) _ e in
    let (ins', g, l) = >>=-eq-some (in_edge s.graph u) _ k in
    let (x, h, m) = >>=-eq-some (least_label s.graph val' ins') _ l in
    let one : val' ≡ val = Option.some-injective _ _ (sym f ∙ here) in
    let two : ins' ≡ ins = Option.some-injective _ _ (sym g ∙ edges) in
    let least = least_label-IsLeast s.graph val' ins' x h in
    let least' : IsLeast s.graph val ins x =
      subst (λ js. IsLeast s.graph val js x) two
        (subst (λ w. IsLeast s.graph w ins' x) one least) in
    elim (Bool-cases (ltb x val')) [
      | inl less ↦
          let wrote = subst (λ c. (if c then lower_label u x s else some s) ≡ some t) less m in
          let (g', p, q) = >>=-eq-some (set_vertex_val s.graph 0 u x) _ wrote in
          let (b, r, w) = >>=-eq-some (Bitmap.add s.next_activate u) _ q in
          let last = Option.some-injective _ _ w in
          let reads = λ (v : ℕ). (get-set_vertex_val s.graph g' 0 u x p v).0 in
          (
            x,
            least',
            ap (λ (r : Pull). get_vertex_val r.graph 0 u) (sym last) ∙ reads u ∙ ground arith,
            λ v other.
                ap (λ (r : Pull). get_vertex_val r.graph 0 v) (sym last) ∙ reads v ∙ ground arith,
            λ fell.
                ap (λ (r : Pull). Bitmap.get r.next_activate u) (sym last)
                ∙ get-add s.next_activate b u r u
                ∙ ground arith,
          )
      | inr not_less ↦
          let kept = subst (λ c. (if c then lower_label u x s else some s) ≡ some t) not_less m in
          let last = Option.some-injective _ _ kept in
          let low = least'.below_own in
          let same : x ≡ val = ground arith in
          (
            x,
            least',
            ap (λ (r : Pull). get_vertex_val r.graph 0 u) (sym last) ∙ here ∙ ap some (sym same),
            λ v other. ap (λ (r : Pull). get_vertex_val r.graph 0 v) (sym last),
            λ fell. absurd (omega arith),
          )
    ]
