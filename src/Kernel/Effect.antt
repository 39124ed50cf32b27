-- ===== src/Kernel/Effect.antt =====
-- What any number of visits of vertices in the kernels of app/graph/cc and app/graph/sssp does.
use mathlib.Core.Option
use faa_sgraph.Base.{
  ℕ, ◌^◌, ◌<◌, ◌≤◌, ◌≡◌, refl, ap, sym, ◌∙◌, subst, ◌⊎◌, inl, inr, true, some, List, [], ◌∷◌, ◌++◌,
  arith, Bool-cases, ◌==◌, ==_iff, All, Mem, Mem-append_left, Mem-append_right,
}
use faa_sgraph.MemPool.{slot, val_addr}
use faa_sgraph.MemPool.Access.{slot_lem, get-slot}
use faa_sgraph.Graph.{Graph, out_edge, get_vertex_val}
use faa_sgraph.Kernel.{State, is_local}
use faa_sgraph.Kernel.Visit.{Lowered}

-- The value of v is at most c.
abbrev pub AtMost : Graph → ℕ → ℕ → Type 0
AtMost h v c = (b : ℕ) × (get_vertex_val h 0 v ≡ some b) × (b ≤ c)

-- The offers of u are made: no neighbour of u in g has a value above what u offers by its value in h.
abbrev pub Closed : Graph → (ℕ → List ℕ → List (ℕ × ℕ)) → Graph → ℕ → Type 0
Closed g bids h u =
    (a : ℕ) × (out : List ℕ) × (get_vertex_val h 0 u ≡ some a)
    × (out_edge g u ≡ some out)
    × All (λ o. AtMost h o.0 o.1) (bids a out)

-- What any number of visits did.
pub record Effect (n : ℕ) (s t : State) : Type 0 where
  pub falls : (u c : ℕ) → AtMost s.graph u c → AtMost t.graph u c
  pub kept :
      (u : ℕ)
      → u < n
      → is_local s.graph u ≡ true
      → (get_vertex_val t.graph 0 u ≡ get_vertex_val s.graph 0 u) ⊎ Mem u t.active_vertex
  pub stays : (u : ℕ) → Mem u s.active_vertex → Mem u t.active_vertex
  pub region : (u : ℕ) → is_local t.graph u ≡ is_local s.graph u

pub Effect-refl : (n : ℕ) (s : State) → Effect n s s
Effect-refl n s = record {
  falls = λ u c a. a;
  kept = λ u h l. inl refl;
  stays = λ u m. m;
  region = λ u. refl;
}

pub Effect-trans : (n : ℕ) (r s t : State) → Effect n r s → Effect n s t → Effect n r t
Effect-trans n r s t e f = record {
  falls = λ u c a. f.falls u c (e.falls u c a);
  kept = λ u h l. elim (f.kept u h (e.region u ∙ l)) [
    | inr m ↦ inr m
    | inl same ↦ elim (e.kept u h l) [ inl same' ↦ inl (same ∙ same') | inr m ↦ inr (f.stays u m) ]
  ];
  stays = λ u m. f.stays u (e.stays u m);
  region = λ u. f.region u ∙ e.region u;
}

module _ (n : ℕ) (small : n ≤ 2 ^ 30) (v val old : ℕ) (s t : State) (h : v < n)
    (here : get_vertex_val s.graph 0 v ≡ some old) (less : val < old) (l : Lowered s v val t) where
  pub lowered_region : (u : ℕ) → is_local t.graph u ≡ is_local s.graph u
  lowered_region u = ap (λ g. is_local g u) l.graph_of

  pub lowered_stays : (u : ℕ) → Mem u s.active_vertex → Mem u t.active_vertex
  lowered_stays u m = elim (Bool-cases (is_local s.graph v)) [
    | inl near ↦
        let q : t.active_vertex ≡ s.active_vertex ++ v ∷ [] = l.queue_of ∙ rw near refl in
        subst (Mem u) (sym q) (Mem-append_left u s.active_vertex (v ∷ []) m)
    | inr far ↦
        let q : t.active_vertex ≡ s.active_vertex = l.queue_of ∙ rw far refl in
        subst (Mem u) (sym q) m
  ]

  pub lowered_kept :
      (u : ℕ)
      → u < n
      → is_local s.graph u ≡ true
      → (get_vertex_val t.graph 0 u ≡ get_vertex_val s.graph 0 u) ⊎ Mem u t.active_vertex
  lowered_kept u k local = elim (Bool-cases (slot u == slot v)) [
    | inr other ↦ inl (l.val_of u ∙ rw other refl)
    | inl same ↦
        let one : u ≡ v = ground (arith, slot_lem u (omega arith), slot_lem v (omega arith)) in
        let near : is_local s.graph v ≡ true = subst (λ w. is_local s.graph w ≡ true) one local in
        let q : t.active_vertex ≡ s.active_vertex ++ v ∷ [] = l.queue_of ∙ rw near refl in
        inr (subst (Mem u) (sym q) (Mem-append_right u s.active_vertex (v ∷ []) (inl one)))
  ]

  pub lowered_falls : (u c : ℕ) → AtMost s.graph u c → AtMost t.graph u c
  unfolding get_vertex_val
  lowered_falls u c (b, e, le) = elim (Bool-cases (slot u == slot v)) [
    | inr other ↦ (b, l.val_of u ∙ rw other e, le)
    | inl same ↦
        let one = get-slot s.graph.mem_pool u v (val_addr 0) ((==_iff (slot u) (slot v)).0 same) in
        let both : old ≡ b = Option.some-injective _ _ (sym here ∙ sym one ∙ e) in
        (val, l.val_of u ∙ rw same refl, omega arith)
  ]

  pub Effect-lowered : Effect n s t
  Effect-lowered = record {
    falls = lowered_falls;
    kept = lowered_kept;
    stays = lowered_stays;
    region = lowered_region;
  }

  pub lowered_offer : AtMost t.graph v val
  lowered_offer = (val, l.val_of v ∙ ground arith, omega arith)
