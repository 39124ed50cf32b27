-- ===== src/Kernel/Drain.antt =====
-- The worklist loop of the kernels in app/graph (bfs, cc, sssp): a vertex goes back on the list only
-- when its value has fallen, so that the list runs empty.
use faa_sgraph.Base.{
  ℕ, zero, suc, ◌+◌, ◌<◌, ◌≤◌, ◌≡◌, refl, ap, sym, ◌∙◌, subst, inl, inr, Bool, true, false, Option,
  some, List, [], ◌∷◌, ◌++◌, arith, if◌then◌else◌, Bool-cases, length, length-append, All,
  All-append,
}
use faa_sgraph.MemPool.{MemPool}
use faa_sgraph.Graph.{Graph, out_edge, get_vertex_val}
use faa_sgraph.Kernel.{State, is_local, scan, round, drain, is_empty}
use faa_sgraph.Kernel.Visit.{mass, IsReady, HasRoom, write, write-Lowered}

-- What a round can shrink.
abbrev pub measure : State → ℕ
measure s = length s.active_vertex + mass s.graph

same_edges :
    (a b g : Graph) (m : MemPool)
    → b ≡ record a { mem_pool = m }
    → a ≡ record g { mem_pool = a.mem_pool }
    → b ≡ record g { mem_pool = b.mem_pool }
same_edges a b g m e f =
    e
    ∙ ap {A = Graph} {B = Graph} (λ h. record h { mem_pool = m }) f
    ∙ ap {B = Graph} (λ q. record g { mem_pool = q }) (sym (ap {A = Graph} (λ h. h.mem_pool) e))

module _ (visit : ℕ → ℕ → State → Option State)
    (offers : Graph → ℕ → List ℕ → Option (List (ℕ × ℕ))) where
  pub drain-stop :
      (fuel : ℕ) (s : State) → s.active_vertex ≡ [] → drain visit offers fuel s ≡ some s
  unfolding drain
  drain-stop zero s q = let empty : is_empty s.active_vertex ≡ true = ap is_empty q in rw empty refl
  drain-stop (suc fuel) s q =
      let empty : is_empty s.active_vertex ≡ true = ap is_empty q in rw empty refl

  pub round_lem :
      (s : State) (x : ℕ) (xs out : List ℕ) (os : List (ℕ × ℕ))
      → s.active_vertex ≡ x ∷ xs
      → out_edge s.graph x ≡ some out
      → offers s.graph x out ≡ some os
      → round visit offers s ≡ scan visit os (record s { active_vertex = xs })
  unfolding round
  round_lem s x xs out os q e f = rw (q, e, f) refl

  pub drain-step :
      (fuel : ℕ) (s t : State) (x : ℕ) (xs : List ℕ)
      → s.active_vertex ≡ x ∷ xs
      → round visit offers s ≡ some t
      → drain visit offers (suc fuel) s ≡ drain visit offers fuel t
  unfolding drain
  drain-step fuel s t x xs q e =
      let more : is_empty s.active_vertex ≡ false = ap is_empty q in rw (more, e) refl

-- A kernel on the edges of g: when it writes, which values it offers, and that offers are made.
module _ (n : ℕ) (writers : Bool) (g : Graph) (visit : ℕ → ℕ → State → Option State)
    (offers : Graph → ℕ → List ℕ → Option (List (ℕ × ℕ))) (Fine : ℕ → Type 0) (test : ℕ → ℕ → Bool)
    (lowers : (val old : ℕ) → Fine val → test val old ≡ true → val < old)
    (law : (v val old : ℕ) (s : State)
      → Fine val
      → s.graph ≡ record g { mem_pool = s.graph.mem_pool }
      → get_vertex_val s.graph 0 v ≡ some old
      → visit v val s ≡ (if test val old then write writers v val s else some s))
    (offered : (h : Graph) (x : ℕ)
      → IsReady n h
      → h ≡ record g { mem_pool = h.mem_pool }
      → is_local g x ≡ true
      → (out : List ℕ) × (os : List (ℕ × ℕ)) × (out_edge h x ≡ some out)
        × (offers h x out ≡ some os)
        × All (λ o. (o.0 < n) × Fine o.1) os) where
  pub record Inv (s : State) : Type 0 where
    pub ready : IsReady n s.graph
    pub room : HasRoom n s.next_activate
    pub edges : s.graph ≡ record g { mem_pool = s.graph.mem_pool }
    pub queued : All (λ u. is_local g u ≡ true) s.active_vertex

  pub visit_returns :
      (v val : ℕ) (s : State)
      → Inv s
      → v < n
      → Fine val
      → (t : State) × (visit v val s ≡ some t) × Inv t × (measure t ≤ measure s)
  visit_returns v val s inv h fine =
      let (old, here) = inv.ready.vals v h in
      let what = law v val old s fine inv.edges here in
      elim (Bool-cases (test val old)) [
        | inr keep ↦ (s, what ∙ rw keep refl, inv, omega arith)
        | inl less ↦
            let (t, e, l, ready, room) =
              write-Lowered n writers v val old s inv.ready h inv.room here in
            let falls = lowers val old fine less in
            let sums = l.mass_of old here in
            let same : t.graph ≡ record g { mem_pool = t.graph.mem_pool } =
              same_edges s.graph t.graph g l.pool l.graph_of inv.edges in
            elim (Bool-cases (is_local s.graph v)) [
              | inl near ↦
                  let queue : t.active_vertex ≡ s.active_vertex ++ v ∷ [] =
                    l.queue_of ∙ rw near refl in
                  let local : is_local g v ≡ true = sym (ap (λ h. is_local h v) inv.edges) ∙ near in
                  (
                    t,
                    what ∙ rw less e,
                    record {
                      ready = ready;
                      room = room;
                      edges = same;
                      queued = rw queue (
                          All-append (λ u. is_local g u ≡ true) s.active_vertex (v ∷ []) inv.queued
                            (local, tt));
                    },
                    omega (arith, ap length queue, length-append s.active_vertex (v ∷ [])),
                  )
              | inr far ↦
                  let queue : t.active_vertex ≡ s.active_vertex = l.queue_of ∙ rw far refl in
                  (
                    t,
                    what ∙ rw less e,
                    record {
                      ready = ready;
                      room = room;
                      edges = same;
                      queued = rw queue inv.queued;
                    },
                    omega (arith, ap length queue),
                  )
            ]
      ]

  pub scan_returns :
      (os : List (ℕ × ℕ)) (s : State)
      → Inv s
      → All (λ o. (o.0 < n) × Fine o.1) os
      → (t : State) × (scan visit os s ≡ some t) × Inv t × (measure t ≤ measure s)
  unfolding scan
  scan_returns [] s inv a = (s, refl, inv, omega arith)
  scan_returns ((v, val) ∷ os) s inv a =
      let (t, e, inv', le) = visit_returns v val s inv a.0.0 a.0.1 in
      let (t', e', inv'', le') = scan_returns os t inv' a.1 in
      (t', rw (e, e') refl, inv'', omega arith)

  pub round_returns :
      (s : State) (x : ℕ) (xs : List ℕ)
      → s.active_vertex ≡ x ∷ xs
      → Inv s
      → (t : State) × (round visit offers s ≡ some t) × Inv t × (measure t < measure s)
  unfolding round
  round_returns s x xs q inv =
      let all : All (λ u. is_local g u ≡ true) (x ∷ xs) =
        subst (All (λ u. is_local g u ≡ true)) q inv.queued in
      let (out, os, e, f, fine) = offered s.graph x inv.ready inv.edges all.0 in
      let popped : State = record s { active_vertex = xs } in
      let (t, e', inv', le) =
        scan_returns os popped
          (record { ready = inv.ready; room = inv.room; edges = inv.edges; queued = all.1 }) fine in
      (t, rw (q, e, f) e', inv', omega (arith, ap length q))

  run :
      (fuel : ℕ) (s : State) (q : List ℕ)
      → s.active_vertex ≡ q
      → Inv s
      → measure s ≤ fuel
      → (t : State) × (drain visit offers fuel s ≡ some t) × Inv t × (t.active_vertex ≡ [])
  run fuel s [] q inv le = (s, drain-stop visit offers fuel s q, inv, q)
  run zero s (x ∷ xs) q inv le = absurd (omega (arith, ap length q))
  run (suc fuel) s (x ∷ xs) q inv le =
      let (t, e, inv', less) = round_returns s x xs q inv in
      let (t', e', inv'', done) = run fuel t t.active_vertex refl inv' (omega arith) in
      (t', drain-step visit offers fuel s t x xs q e ∙ e', inv'', done)

  -- With fuel for the values and the list, the loop ends with an empty list.
  pub drain_returns :
      (fuel : ℕ) (s : State)
      → Inv s
      → measure s ≤ fuel
      → (t : State) × (drain visit offers fuel s ≡ some t) × Inv t × (t.active_vertex ≡ [])
  drain_returns fuel s inv le = run fuel s s.active_vertex refl inv le
