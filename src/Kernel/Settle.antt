-- ===== src/Kernel/Settle.antt =====
-- What the worklist loop of cc and sssp in app/graph leaves: each vertex that was active, or whose
-- value fell, has offered its last value to all its neighbours.
use mathlib.Core.Option
use faa_sgraph.Base.{
  ℕ, zero, suc, ◌^◌, ◌<◌, ◌≤◌, ◌≡◌, refl, ap, sym, ◌∙◌, subst, ◌⊎◌, inl, inr, Bool, true, Option,
  some, List, [], ◌∷◌, arith, ltb, if◌then◌else◌, Bool-cases, >>=-eq-some, length, All, All-map,
  Mem,
}
use faa_sgraph.Graph.{Graph, out_edge, get_vertex_val}
use faa_sgraph.Kernel.{State, is_local, scan, round, drain}
use faa_sgraph.Kernel.Visit.{IsReady, write, write-Lowered}
use faa_sgraph.Kernel.Drain.{
  Inv, measure, visit_returns, round_returns, drain_returns, drain-stop, drain-step, round_lem,
}
use faa_sgraph.Kernel.Effect.{
  AtMost, Closed, Effect, Effect-lowered, Effect-refl, Effect-trans, lowered_offer,
}

pub lowers_ltb : (val old : ℕ) → Unit {0} → ltb val old ≡ true → val < old
lowers_ltb val old u e = ground arith

-- A kernel that writes what is smaller, and offers what follows from the value of the vertex.
module _ (n : ℕ) (small : n ≤ 2 ^ 30) (writers : Bool) (g : Graph)
    (visit : ℕ → ℕ → State → Option State) (offers : Graph → ℕ → List ℕ → Option (List (ℕ × ℕ)))
    (bids : ℕ → List ℕ → List (ℕ × ℕ))
    (law : (v val old : ℕ) (s : State)
      → Unit {0}
      → s.graph ≡ record g { mem_pool = s.graph.mem_pool }
      → get_vertex_val s.graph 0 v ≡ some old
      → visit v val s ≡ (if ltb val old then write writers v val s else some s))
    (offered : (h : Graph) (x : ℕ)
      → IsReady n h
      → h ≡ record g { mem_pool = h.mem_pool }
      → is_local g x ≡ true
      → (out : List ℕ) × (os : List (ℕ × ℕ)) × (out_edge h x ≡ some out)
        × (offers h x out ≡ some os)
        × All (λ o. (o.0 < n) × Unit {0}) os)
    (bids_law : (h : Graph) (x a : ℕ) (out : List ℕ) (os : List (ℕ × ℕ))
      → get_vertex_val h 0 x ≡ some a
      → offers h x out ≡ some os
      → os ≡ bids a out) where
  abbrev Sound : State → Type 0
  Sound = Inv n writers g visit offers (λ val. Unit {0}) ltb lowers_ltb law offered

  visit-Effect :
      (v val : ℕ) (s t : State)
      → Sound s
      → v < n
      → visit v val s ≡ some t
      → Effect n s t × AtMost t.graph v val
  visit-Effect v val s t inv h e =
      let (old, here) = inv.ready.vals v h in
      let what = law v val old s tt inv.edges here in
      elim (Bool-cases (ltb val old)) [
        | inr keep ↦
            let same : s ≡ t = Option.some-injective _ _ (sym (what ∙ rw keep refl) ∙ e) in
            subst (λ r. Effect n s r × AtMost r.graph v val) same
              (Effect-refl n s, (old, here, ground arith))
        | inl less ↦
            let (t', e', l, ready, room) =
              write-Lowered n writers v val old s inv.ready h inv.room here in
            let same : t' ≡ t = Option.some-injective _ _ (sym (what ∙ rw less e') ∙ e) in
            let below : val < old = ground arith in
            subst (λ r. Effect n s r × AtMost r.graph v val) same
              (
                Effect-lowered n small v val old s t' h here below l,
                lowered_offer n small v val old s t' h here below l,
              )
      ]

  scan-Effect :
      (os : List (ℕ × ℕ)) (s t : State)
      → Sound s
      → All (λ o. (o.0 < n) × Unit {0}) os
      → scan visit os s ≡ some t
      → Effect n s t × All (λ o. AtMost t.graph o.0 o.1) os
  unfolding scan
  scan-Effect [] s t inv a e =
      (subst (Effect n s) (Option.some-injective _ _ e) (Effect-refl n s), tt)
  scan-Effect ((v, val) ∷ os) s t inv a e =
      let (r, f, k) = >>=-eq-some (visit v val s) _ e in
      let (r', f', inv', le) =
        visit_returns n writers g visit offers (λ val. Unit {0}) ltb lowers_ltb law offered v val s
          inv a.0.0 tt in
      let same : r' ≡ r = Option.some-injective _ _ (sym f' ∙ f) in
      let (effect, most) = visit-Effect v val s r inv a.0.0 f in
      let (effect', all) = scan-Effect os r t (subst Sound same inv') a.1 k in
      (Effect-trans n s r t effect effect', (effect'.falls v val most, all))

  module _ (first : State) (idle : ℕ → Type 0) where
    -- Each local vertex is on the list, or closed, or it is idle and has its first value.
    abbrev pub Settled : State → Type 0
    Settled s =
        (u : ℕ)
        → is_local g u ≡ true
        → Mem u s.active_vertex
          ⊎ (Closed g bids s.graph u
              ⊎ (idle u × (get_vertex_val s.graph 0 u ≡ get_vertex_val first.graph 0 u)))

    Settled-unless :
        (s t : State) (u : ℕ)
        → Effect n s t
        → u < n
        → is_local s.graph u ≡ true
        → (Closed g bids s.graph u
            ⊎ (idle u × (get_vertex_val s.graph 0 u ≡ get_vertex_val first.graph 0 u)))
        → Mem u t.active_vertex
          ⊎ (Closed g bids t.graph u
              ⊎ (idle u × (get_vertex_val t.graph 0 u ≡ get_vertex_val first.graph 0 u)))
    Settled-unless s t u effect h near before = elim (effect.kept u h near) [
      | inr m ↦ inl m
      | inl same ↦ elim before [
        | inl (a, out, here, edges, all) ↦
            let all' =
              All-map (λ o. AtMost s.graph o.0 o.1) (λ o. AtMost t.graph o.0 o.1) (bids a out)
                (λ o. effect.falls o.0 o.1) all in
            inr (inl (a, out, same ∙ here, edges, all'))
        | inr (i, e) ↦ inr (inr (i, same ∙ e))
      ]
    ]

    edges_kept :
        (h : Graph) (x : ℕ) → h ≡ record g { mem_pool = h.mem_pool } → out_edge h x ≡ out_edge g x
    unfolding out_edge
    edges_kept h x e = ap (λ k. out_edge k x) e

    round-Settled :
        (s t : State) (x : ℕ) (xs : List ℕ)
        → s.active_vertex ≡ x ∷ xs
        → Sound s
        → Settled s
        → round visit offers s ≡ some t
        → Settled t
    round-Settled s t x xs q inv settled e u local =
        let all : All (λ w. is_local g w ≡ true) (x ∷ xs) =
          subst (All (λ w. is_local g w ≡ true)) q inv.queued in
        let (out, os, f, k, fine) = offered s.graph x inv.ready inv.edges all.0 in
        let popped : State = record s { active_vertex = xs } in
        let still : Sound popped = record {
          ready = inv.ready;
          room = inv.room;
          edges = inv.edges;
          queued = all.1;
        } in
        let scanned : scan visit os popped ≡ some t =
          sym (round_lem visit offers s x xs out os q f k) ∙ e in
        let (effect, made) = scan-Effect os popped t still fine scanned in
        let near : is_local s.graph u ≡ true = ap (λ h. is_local h u) inv.edges ∙ local in
        let below = inv.ready.within u near in
        elim (settled u local) [
          | inr before ↦ Settled-unless popped t u effect below near before
          | inl m ↦ elim (subst (Mem u) q m) [
            | inr later ↦ inl (effect.stays u later)
            | inl one ↦ elim (effect.kept u below near) [
              | inr again ↦ inl again
              | inl same ↦
                  let (a, here) = inv.ready.vals u below in
                  let there : get_vertex_val s.graph 0 x ≡ some a =
                    subst (λ w. get_vertex_val s.graph 0 w ≡ some a) one here in
                  let which = bids_law s.graph x a out os there k in
                  let edges : out_edge g u ≡ some out =
                    subst (λ w. out_edge g w ≡ some out) (sym one)
                      (sym (edges_kept s.graph x inv.edges) ∙ f) in
                  inr (
                    inl (
                      a,
                      out,
                      same ∙ here,
                      edges,
                      subst (All (λ o. AtMost t.graph o.0 o.1)) which made,
                    ))
            ]
          ]
        ]

    drain-Settled :
        (fuel : ℕ) (s t : State) (q : List ℕ)
        → s.active_vertex ≡ q
        → Sound s
        → Settled s
        → measure s ≤ fuel
        → drain visit offers fuel s ≡ some t
        → Settled t
    drain-Settled fuel s t [] q inv settled le e =
        subst Settled (Option.some-injective _ _ (sym (drain-stop visit offers fuel s q) ∙ e))
          settled
    drain-Settled zero s t (x ∷ xs) q inv settled le e = absurd (omega (arith, ap length q))
    drain-Settled (suc fuel) s t (x ∷ xs) q inv settled le e =
        let (r, f, inv', less) =
          round_returns n writers g visit offers (λ val. Unit {0}) ltb lowers_ltb law offered s x xs
            q inv in
        drain-Settled fuel r t r.active_vertex refl inv' (round-Settled s r x xs q inv settled f)
          (omega arith) (sym (drain-step visit offers fuel s r x xs q f) ∙ e)

  -- The loop ends, with each local vertex closed, unless it was idle and has its first value.
  pub settles :
      (fuel : ℕ) (s : State) (idle : ℕ → Type 0)
      → Sound s
      → measure s ≤ fuel
      → ((u : ℕ) → is_local g u ≡ true → Mem u s.active_vertex ⊎ idle u)
      → (t : State) × (drain visit offers fuel s ≡ some t)
        × ((u : ℕ)
            → is_local g u ≡ true
            → Closed g bids t.graph u
              ⊎ (idle u × (get_vertex_val t.graph 0 u ≡ get_vertex_val s.graph 0 u)))
  settles fuel s idle inv le start =
      let (t, e, inv', done) =
        drain_returns n writers g visit offers (λ val. Unit {0}) ltb lowers_ltb law offered fuel s
          inv le in
      let begin : Settled s idle s =
        λ u local. elim (start u local) [ inl m ↦ inl m | inr i ↦ inr (inr (i, refl)) ] in
      let after = drain-Settled s idle fuel s t s.active_vertex refl inv begin le e in
      (t, e, λ u local. elim (after u local) [ inl m ↦ absurd (subst (Mem u) done m) | inr r ↦ r ])
