-- ===== src/Pull/Arrays.antt =====
-- The two arrays of values of app/graph/pr/graph_calc.go: a call reads one and writes the other.
use mathlib.Core.Option
use faa_sgraph.Base.{
  ℕ, zero, suc, ◌+◌, ◌*◌, ◌%◌, ◌≤◌, ◌≡◌, refl, ap, sym, ◌∙◌, ◌≢◌, Bool, true, false, some, List, [],
  ◌∷◌, arith, ◌==◌, if◌then◌else◌, ◌>>=◌, >>=-eq-some, length,
}
use faa_sgraph.Graph.{in_edge, get_vertex_val, set_vertex_val, get_out_degree}
use faa_sgraph.Graph.Degrees.{get-set_vertex_val_ne}
use faa_sgraph.Kernel.Updates.{send}
use faa_sgraph.Pull.{
  Pull, Float, Rank, other_tag, each, each_block, blocks, calc_block, acc_val, rank_of, pull_pr,
  calc_pr, finish_call,
}

-- The values that a call of `Calc` reads.
abbrev pub SameOld : ℕ → Pull → Pull → Type 0
SameOld tag s t =
    (u : ℕ) → get_vertex_val t.graph (other_tag tag) u ≡ get_vertex_val s.graph (other_tag tag) u

pull_pr-SameOld :
    (f : Float) (tag u : ℕ) (s t : Pull) → tag ≤ 1 → pull_pr f tag u s ≡ some t → SameOld tag s t
unfolding pull_pr
pull_pr-SameOld f tag u s t h e w =
    let (ins, a, k) = >>=-eq-some (in_edge s.graph u) _ e in
    let (acc, b, l) = >>=-eq-some (acc_val f tag s.graph 0 ins) _ k in
    let (d, c, m) = >>=-eq-some (get_out_degree s.graph u) _ l in
    let (g, p, q) = >>=-eq-some (set_vertex_val s.graph tag u (rank_of f acc d)) _ m in
    let last = Option.some-injective _ _ q in
    let apart : tag ≢ other_tag tag = λ o. absurd (omega arith) in
    ap (λ (r : Pull). get_vertex_val r.graph (other_tag tag) w) (sym last)
    ∙ get-set_vertex_val_ne s.graph g tag (other_tag tag) u (rank_of f acc d) p apart w

module _ (f : Float) (tag : ℕ) (h : tag ≤ 1) where
  each-SameOld : (us : List ℕ) (s t : Pull) → each (pull_pr f tag) us s ≡ some t → SameOld tag s t
  each-SameOld [] s t e w =
      ap (λ (r : Pull). get_vertex_val r.graph (other_tag tag) w)
        (sym (Option.some-injective _ _ e))
  each-SameOld (u ∷ us) s t e w =
      let (r, k, l) = >>=-eq-some (pull_pr f tag u s) _ e in
      each-SameOld us r t l w ∙ pull_pr-SameOld f tag u s r h k w

  blocks-SameOld :
      (writers : Bool) (uss : List (List ℕ)) (s t : Pull)
      → each_block writers (pull_pr f tag) uss s ≡ some t
      → SameOld tag s t
  blocks-SameOld writers [] s t e w =
      ap (λ (r : Pull). get_vertex_val r.graph (other_tag tag) w)
        (sym (Option.some-injective _ _ e))
  blocks-SameOld writers (us ∷ uss) s t e w =
      let begun : Pull = record s { updates = 0 ∷ [] } in
      let (r, k, l) =
        >>=-eq-some
          (each (pull_pr f tag) us begun >>= λ s'.
            some (record s' { sent = send writers s'.updates s'.sent }))
          _ e in
      let (r', k', l') = >>=-eq-some (each (pull_pr f tag) us begun) _ k in
      blocks-SameOld writers uss r t l w
      ∙ ap (λ (p : Pull). get_vertex_val p.graph (other_tag tag) w)
          (sym (Option.some-injective _ _ l'))
      ∙ each-SameOld us begun r' k' w

-- Where `Calc` of pr returns, the array that it reads is as it was.
pub calc_pr-SameOld :
    (f : Float) (writers : Bool) (active : List ℕ) (s t : Pull) (r r' : Rank)
    → r.tag_new ≤ 1
    → calc_pr f writers active s r ≡ some (t, r')
    → (r' ≡ finish_call r)
      × ((u : ℕ)
          → get_vertex_val t.graph (other_tag r.tag_new) u
            ≡ get_vertex_val s.graph (other_tag r.tag_new) u)
unfolding calc_pr
calc_pr-SameOld f writers active s t r r' h e =
    let (t', k, l) =
      >>=-eq-some
        (each_block writers (pull_pr f r.tag_new) (blocks calc_block (length active) active) s) _
        e in
    let both = Option.some-injective _ _ l in
    (
      sym (ap (λ (p : Pull × Rank). p.1) both),
      λ u.
          ap (λ (p : Pull × Rank). get_vertex_val p.0.graph (other_tag r.tag_new) u) (sym both)
          ∙ blocks-SameOld f r.tag_new h writers (blocks calc_block (length active) active) s t' k
              u,
    )

-- The calls of a container.
abbrev pub calls : ℕ → Rank → Rank
calls zero r = r
calls (suc k) r = calls k (finish_call r)

finish_call-once :
    (r : Rank)
    → r.finished ≡ 0
    → ((finish_call r).tag_new ≡ r.tag_new) × ((finish_call r).finished ≡ 1)
unfolding finish_call
finish_call-once r z =
    let first : (r.finished + 1 == 2) ≡ false = ground arith in
    (rw first refl, rw first (omega arith))

finish_call-twice :
    (r : Rank)
    → r.finished ≡ 1
    → ((finish_call r).tag_new ≡ other_tag r.tag_new) × ((finish_call r).finished ≡ 0)
unfolding finish_call
finish_call-twice r z =
    let second : (r.finished + 1 == 2) ≡ true = ground arith in (rw second refl, rw second refl)

-- The arrays change places after every second call, and never after an odd one: a container that
-- makes one call a round reads what it wrote only in every other round.
pub calls-pairs :
    (k : ℕ) (r : Rank)
    → r.tag_new ≤ 1
    → r.finished ≡ 0
    → ((calls (2 * k) r).tag_new ≡ (if k % 2 == 0 then r.tag_new else other_tag r.tag_new))
      × ((calls (2 * k + 1) r).tag_new ≡ (calls (2 * k) r).tag_new)
calls-pairs zero r h z = (refl, (finish_call-once r z).0)
calls-pairs (suc k) r h z =
    let (same, one) = finish_call-once r z in
    let (other, none_left) = finish_call-twice (finish_call r) one in
    let r2 = finish_call (finish_call r) in
    let tag : r2.tag_new ≡ other_tag r.tag_new = other ∙ ap other_tag same in
    let (even, odd) = calls-pairs k r2 (omega (arith, tag)) none_left in
    let two : 2 * suc k ≡ suc (suc (2 * k)) = omega arith in
    let three : 2 * suc k + 1 ≡ suc (suc (2 * k + 1)) = omega arith in
    let at_two : (calls (2 * suc k) r).tag_new ≡ (calls (2 * k) r2).tag_new =
      ap (λ n. (calls n r).tag_new) two in
    let at_three : (calls (2 * suc k + 1) r).tag_new ≡ (calls (2 * k + 1) r2).tag_new =
      ap (λ n. (calls n r).tag_new) three in
    (at_two ∙ even ∙ (ground (arith, tag)), at_three ∙ odd ∙ sym at_two)
