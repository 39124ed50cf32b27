-- ===== src/Kernel/Calc.antt =====
-- `Calc` of cc and sssp in app/graph on a partition whose edges end at vertices: it returns, and each
-- vertex has then made its offers.
use mathlib.Core.Option
use faa_sgraph.Base.{
  ℕ, ◌+◌, ◌%◌, ◌^◌, ◌<◌, ◌≤◌, ◌≡◌, refl, ap, sym, ◌∙◌, ◌⊎◌, inl, inr, Bool, true, false, some, List,
  [], ◌∷◌, map, arith, ltb, if◌then◌else◌, >>=-eq-some, ℕ_discrete, length, All, Mem,
}
use faa_sgraph.Bitmap.{Bitmap}
use faa_sgraph.Graph.{Graph, min_cas_op, out_edge, get_vertex_val}
use faa_sgraph.Kernel.{
  State, is_local, begin, visit_cc, visit_sssp, offers_cc, offers_sssp, weighted_offers, calc_cc,
  calc_sssp,
}
use faa_sgraph.Kernel.Updates.{flush}
use faa_sgraph.Kernel.Visit.{mass, IsReady, HasRoom, write, visit_cc_lem, visit_sssp_lem}
use faa_sgraph.Kernel.Settle.{settles}
use faa_sgraph.Kernel.Effect.{Closed}

-- The weighted neighbours in a list of edges, where each has an entry for its weight.
abbrev pub Targets : Bool → ℕ → List ℕ → Type 0
Targets false n [] = Unit {0}
Targets false n (v ∷ es) = (v < n) × Targets false n es
Targets true n [] = Unit {0}
Targets true n (v ∷ []) = ⊥
Targets true n (v ∷ w ∷ es) = (v < n) × Targets true n es

-- What a call of `Calc` is given: a graph of n vertices whose local vertices have edges to vertices,
-- and local active vertices.
pub record IsInput (weighted : Bool) (n : ℕ) (g : Graph) (active : List ℕ) (next : Bitmap)
    : Type 0 where
  pub ready : IsReady n g
  pub room : HasRoom n next
  pub edges :
      (x : ℕ)
      → is_local g x ≡ true
      → (out : List ℕ) × (out_edge g x ≡ some out) × Targets weighted n out
  pub local : All (λ u. is_local g u ≡ true) active

pub edges_of :
    (weighted : Bool) (n : ℕ) (g h : Graph) (active : List ℕ) (next : Bitmap) (x : ℕ)
    → IsInput weighted n g active next
    → h ≡ record g { mem_pool = h.mem_pool }
    → is_local g x ≡ true
    → (out : List ℕ) × (out_edge h x ≡ some out) × Targets weighted n out
unfolding out_edge
edges_of weighted n g h active next x input same local =
    let (out, e, t) = input.edges x local in (out, ap (λ k. out_edge k x) same ∙ e, t)

-- The offers of cc and of sssp, as lists.
abbrev pub bids_cc : ℕ → List ℕ → List (ℕ × ℕ)
bids_cc a out = map (λ v. (v, a)) out

abbrev pub bids_sssp : ℕ → List ℕ → List (ℕ × ℕ)
bids_sssp a [] = []
bids_sssp a (v ∷ []) = []
bids_sssp a (v ∷ w ∷ es) = (v, (a + w) % 2 ^ 32) ∷ bids_sssp a es

bids_cc-fine :
    (n a : ℕ) (out : List ℕ) → Targets false n out → All (λ o. (o.0 < n) × Unit {0}) (bids_cc a out)
bids_cc-fine n a [] t = tt
bids_cc-fine n a (v ∷ es) t = ((t.0, tt), bids_cc-fine n a es t.1)

bids_sssp-fine :
    (n a : ℕ) (out : List ℕ)
    → Targets true n out
    → (weighted_offers a out ≡ some (bids_sssp a out))
      × All (λ o. (o.0 < n) × Unit {0}) (bids_sssp a out)
bids_sssp-fine n a [] t = (refl, tt)
bids_sssp-fine n a (v ∷ []) t = absurd t
bids_sssp-fine n a (v ∷ w ∷ es) t =
    let (e, all) = bids_sssp-fine n a es t.1 in (rw e refl, ((t.0, tt), all))

weighted_offers_lem :
    (a : ℕ) (out : List ℕ) (os : List (ℕ × ℕ))
    → weighted_offers a out ≡ some os
    → os ≡ bids_sssp a out
weighted_offers_lem a [] os e = sym (Option.some-injective _ _ e)
weighted_offers_lem a (v ∷ []) os e = absurd (ground arith)
weighted_offers_lem a (v ∷ w ∷ es) os e =
    let (rest, f, k) = >>=-eq-some (weighted_offers a es) _ e in
    sym (Option.some-injective _ _ k)
    ∙ ap (λ r. (v, (a + w) % 2 ^ 32) ∷ r) (weighted_offers_lem a es rest f)

-- Each local vertex has made its offers, unless it was not active and has the value that it had.
abbrev pub Quiet : Graph → (ℕ → List ℕ → List (ℕ × ℕ)) → List ℕ → Graph → Type 0
Quiet g bids active g' =
    (u : ℕ)
    → is_local g u ≡ true
    → Closed g bids g' u ⊎ ((Mem u active → ⊥) × (get_vertex_val g' 0 u ≡ get_vertex_val g 0 u))

Mem-cases : (u : ℕ) (xs : List ℕ) → Mem u xs ⊎ (Mem u xs → ⊥)
Mem-cases u [] = inr (λ m. m)
Mem-cases u (x ∷ xs) = elim (ℕ_discrete u x) [
  | yes e ↦ inl (inl e)
  | no other ↦ elim (Mem-cases u xs) [
    | inl m ↦ inl (inr m)
    | inr none_there ↦ inr (λ m. elim m [ inl e ↦ other e | inr k ↦ none_there k ])
  ]
]

module _ (fadd : ℕ → ℕ → ℕ) (n : ℕ) (small : n ≤ 2 ^ 30) (writers : Bool) (g : Graph)
    (active : List ℕ) (next : Bitmap) where
  law_cc :
      g.aggregate_op ≡ min_cas_op
      → (v val old : ℕ) (s : State) → Unit {0}
      → s.graph ≡ record g { mem_pool = s.graph.mem_pool }
      → get_vertex_val s.graph 0 v ≡ some old
      → visit_cc fadd writers v val s ≡ (if ltb val old then write writers v val s else some s)
  law_cc op v val old s u same here =
      visit_cc_lem fadd writers v val old s (ap (λ (h : Graph). h.aggregate_op) same ∙ op) here

  law_sssp :
      g.aggregate_op ≡ min_cas_op
      → (v val old : ℕ) (s : State) → Unit {0}
      → s.graph ≡ record g { mem_pool = s.graph.mem_pool }
      → get_vertex_val s.graph 0 v ≡ some old
      → visit_sssp fadd writers v val s ≡ (if ltb val old then write writers v val s else some s)
  law_sssp op v val old s u same here =
      visit_sssp_lem fadd writers v val old s (ap (λ (h : Graph). h.aggregate_op) same ∙ op) here

  offered_cc :
      IsInput false n g active next
      → (h : Graph) (x : ℕ) → IsReady n h
      → h ≡ record g { mem_pool = h.mem_pool }
      → is_local g x ≡ true
      → (out : List ℕ) × (os : List (ℕ × ℕ)) × (out_edge h x ≡ some out)
        × (offers_cc h x out ≡ some os)
        × All (λ o. (o.0 < n) × Unit {0}) os
  unfolding offers_cc
  offered_cc input h x ready same local =
      let (out, e, t) = edges_of false n g h active next x input same local in
      let near : is_local h x ≡ true = ap (λ k. is_local k x) same ∙ local in
      let (a, here) = ready.vals x (ready.within x near) in
      (out, bids_cc a out, e, rw here refl, bids_cc-fine n a out t)

  offered_sssp :
      IsInput true n g active next
      → (h : Graph) (x : ℕ) → IsReady n h
      → h ≡ record g { mem_pool = h.mem_pool }
      → is_local g x ≡ true
      → (out : List ℕ) × (os : List (ℕ × ℕ)) × (out_edge h x ≡ some out)
        × (offers_sssp h x out ≡ some os)
        × All (λ o. (o.0 < n) × Unit {0}) os
  unfolding offers_sssp
  offered_sssp input h x ready same local =
      let (out, e, t) = edges_of true n g h active next x input same local in
      let near : is_local h x ≡ true = ap (λ k. is_local k x) same ∙ local in
      let (a, here) = ready.vals x (ready.within x near) in
      let (f, fine) = bids_sssp-fine n a out t in (out, bids_sssp a out, e, rw (here, f) refl, fine)

  bids_law_cc :
      (h : Graph) (x a : ℕ) (out : List ℕ) (os : List (ℕ × ℕ))
      → get_vertex_val h 0 x ≡ some a
      → offers_cc h x out ≡ some os
      → os ≡ bids_cc a out
  unfolding offers_cc
  bids_law_cc h x a out os here e =
      let (b, f, k) = >>=-eq-some (get_vertex_val h 0 x) _ e in
      let same : a ≡ b = Option.some-injective _ _ (sym here ∙ f) in
      sym (Option.some-injective _ _ k) ∙ ap (λ c. bids_cc c out) (sym same)

  bids_law_sssp :
      (h : Graph) (x a : ℕ) (out : List ℕ) (os : List (ℕ × ℕ))
      → get_vertex_val h 0 x ≡ some a
      → offers_sssp h x out ≡ some os
      → os ≡ bids_sssp a out
  unfolding offers_sssp
  bids_law_sssp h x a out os here e =
      let (b, f, k) = >>=-eq-some (get_vertex_val h 0 x) _ e in
      let same : a ≡ b = Option.some-injective _ _ (sym here ∙ f) in
      weighted_offers_lem b out os k ∙ ap (λ c. bids_sssp c out) (sym same)

  -- `Calc` of cc on complete inputs of at most 2^30 vertices, with MIN_CAS as the operator and with fuel for the active vertices and the sum of the labels,
  -- returns, and no neighbour of a local vertex has then a label above that of the vertex, unless the
  -- vertex was not active and its label is as before.
  pub calc_cc-Quiet :
      (fuel : ℕ)
      → g.aggregate_op ≡ min_cas_op
      → IsInput false n g active next
      → length active + mass g ≤ fuel
      → (g' : Graph) × (b : Bitmap) × (frames : List (List ℕ)) × (calc_cc fadd fuel writers active g
            next
          ≡ some (g', b, frames))
        × Quiet g bids_cc active g'
  unfolding calc_cc
  calc_cc-Quiet fuel op input enough =
      let (t, e, quiet) =
        settles n small writers g (visit_cc fadd writers) offers_cc bids_cc (law_cc op)
          (offered_cc input) bids_law_cc fuel (begin active g next) (λ u. Mem u active → ⊥)
          (record { ready = input.ready; room = input.room; edges = refl; queued = input.local })
          enough (λ u local. Mem-cases u active) in
      (t.graph, t.next_activate, flush writers t.sender, rw e refl, quiet)

  -- `Calc` of sssp on complete inputs of at most 2^30 vertices, with MIN_CAS as the operator and with fuel for the active vertices and the sum of the
  -- distances, returns, and no edge of a local vertex offers its end a shorter distance (a sum mod
  -- 2 ^ 32), unless the vertex was not active and its distance is as before.
  pub calc_sssp-Quiet :
      (fuel : ℕ)
      → g.aggregate_op ≡ min_cas_op
      → IsInput true n g active next
      → length active + mass g ≤ fuel
      → (g' : Graph) × (b : Bitmap) × (frames : List (List ℕ)) × (calc_sssp fadd fuel writers active
            g next
          ≡ some (g', b, frames))
        × Quiet g bids_sssp active g'
  unfolding calc_sssp
  calc_sssp-Quiet fuel op input enough =
      let (t, e, quiet) =
        settles n small writers g (visit_sssp fadd writers) offers_sssp bids_sssp (law_sssp op)
          (offered_sssp input) bids_law_sssp fuel (begin active g next) (λ u. Mem u active → ⊥)
          (record { ready = input.ready; room = input.room; edges = refl; queued = input.local })
          enough (λ u local. Mem-cases u active) in
      (t.graph, t.next_activate, flush writers t.sender, rw e refl, quiet)
