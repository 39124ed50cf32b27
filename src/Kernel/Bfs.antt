-- ===== src/Kernel/Bfs.antt =====
-- `Calc` of app/graph/bfs/graph_calc.go on a partition whose edges end at vertices: it returns, and a
-- vertex keeps the parent that it has.
use mathlib.Core.Option
use faa_sgraph.Base.{
  ℕ, zero, suc, ◌+◌, ◌<◌, ◌≤◌, ◌≡◌, ◌≢◌, refl, ap, sym, ◌∙◌, ◌⊎◌, inl, inr, Bool, true, false, some,
  List, [], ◌∷◌, ◌>>=◌, get_elem?, ==_iff, All, arith, ◌==◌, if◌then◌else◌, Bool-cases, >>=-eq-some,
  length,
}
use faa_sgraph.Bitmap
use faa_sgraph.Bitmap.{Bitmap}
use faa_sgraph.MemPool
use faa_sgraph.MemPool.{slot, array_at, val_addr}
use faa_sgraph.Graph.{Graph, out_edge, get_vertex_val, set_vertex_val}
use faa_sgraph.Graph.Degrees.{get-set_vertex_val}
use faa_sgraph.Kernel.{
  State, is_local, is_empty, begin, notify, scan, round, drain, unreached, visit_bfs, offers_bfs,
  calc_bfs,
}
use faa_sgraph.Kernel.Updates.{flush}
use faa_sgraph.Kernel.Visit.{mass, visit_bfs_lem}
use faa_sgraph.Kernel.Drain.{drain_returns}
use faa_sgraph.Kernel.Calc.{Targets, IsInput, edges_of, bids_cc}

bids_bfs-fine :
    (n x : ℕ) (out : List ℕ)
    → n ≤ unreached
    → x < n
    → Targets false n out
    → All (λ o. (o.0 < n) × (o.1 < unreached)) (bids_cc x out)
bids_bfs-fine n x [] h k t = tt
bids_bfs-fine n x (v ∷ es) h k t = ((t.0, omega arith), bids_bfs-fine n x es h k t.1)

-- A vertex that has a parent keeps it.
abbrev pub Keeps : Graph → Graph → Type 0
Keeps g h =
    (u x : ℕ) → get_vertex_val g 0 u ≡ some x → x ≢ unreached → get_vertex_val h 0 u ≡ some x

if-split {ℓ} :
    {A : Type ℓ} (c : Bool) {x y z : A}
    → (if c then x else y) ≡ z
    → ((c ≡ true) × (x ≡ z)) ⊎ ((c ≡ false) × (y ≡ z))
if-split true h = inl (refl, h)
if-split false h = inr (refl, h)

notify-graph :
    (writers : Bool) (v val : ℕ) (s t : State) → notify writers v val s ≡ some t → t.graph ≡ s.graph
unfolding notify
notify-graph writers v val s t e = elim (if-split (is_local s.graph v) e) [
  | inl (near, there) ↦ ap (λ (r : State). r.graph) (sym (Option.some-injective _ _ there))
  | inr (far, there) ↦
      let (b, f, g) = >>=-eq-some (Bitmap.add s.next_activate v) _ there in
      ap (λ (r : State). r.graph) (sym (Option.some-injective _ _ g))
]

get-slot : (g : Graph) (u v : ℕ) → slot u ≡ slot v → get_vertex_val g 0 u ≡ get_vertex_val g 0 v
unfolding get_vertex_val MemPool.get
get-slot g u v same = ap (λ i. array_at g.mem_pool (val_addr 0) >>= λ xs. get_elem? xs i) same

-- One visit writes only over `unreached`.
visit_bfs-Keeps :
    (writers : Bool) (v val : ℕ) (s t : State)
    → visit_bfs writers v val s ≡ some t
    → Keeps s.graph t.graph
unfolding visit_bfs
visit_bfs-Keeps writers v val s t e u x here parent =
    let (old, at_v, k) = >>=-eq-some (get_vertex_val s.graph 0 v) _ e in
    elim (if-split (old == unreached) k) [
      | inr (taken, same) ↦
          ap (λ (r : State). get_vertex_val r.graph 0 u) (sym (Option.some-injective _ _ same))
          ∙ here
      | inl (free, wrote) ↦
          let (g, p, q) = >>=-eq-some (set_vertex_val s.graph 0 v val) _ wrote in
          let kept = notify-graph writers v val (record s { graph = g }) t q in
          let read = (get-set_vertex_val s.graph g 0 v val p u).0 in
          ap (λ h. get_vertex_val h 0 u) kept ∙ (elim (Bool-cases (slot u == slot v)) [
            | inr other ↦ read ∙ rw other here
            | inl one ↦
                let both = get-slot s.graph u v ((==_iff (slot u) (slot v)).0 one) in
                let old_x = Option.some-injective _ _ (sym at_v ∙ sym both ∙ here) in
                absurd (parent (sym old_x ∙ (==_iff old unreached).0 free))
          ])
    ]

scan-Keeps :
    (writers : Bool) (os : List (ℕ × ℕ)) (s t : State)
    → scan (visit_bfs writers) os s ≡ some t
    → Keeps s.graph t.graph
unfolding scan
scan-Keeps writers [] s t e u x here parent =
    ap (λ (r : State). get_vertex_val r.graph 0 u) (sym (Option.some-injective _ _ e)) ∙ here
scan-Keeps writers ((v, val) ∷ os) s t e u x here parent =
    let (r, f, g) = >>=-eq-some (visit_bfs writers v val s) _ e in
    scan-Keeps writers os r t g u x (visit_bfs-Keeps writers v val s r f u x here parent) parent

round-Keeps :
    (writers : Bool) (s t : State) (q : List ℕ)
    → s.active_vertex ≡ q
    → round (visit_bfs writers) offers_bfs s ≡ some t
    → Keeps s.graph t.graph
unfolding round offers_bfs
round-Keeps writers s t [] q e u x here parent =
    let stays : round (visit_bfs writers) offers_bfs s ≡ some s = rw q refl in
    ap (λ (r : State). get_vertex_val r.graph 0 u) (Option.some-injective _ _ (sym e ∙ stays))
    ∙ here
round-Keeps writers s t (w ∷ ws) q e u x here parent =
    let goes : round (visit_bfs writers) offers_bfs s ≡ (
        out_edge s.graph w >>= λ out.
        scan (visit_bfs writers) (bids_cc w out) (record s { active_vertex = ws })) =
      rw q refl in
    let (out, f, g) = >>=-eq-some (out_edge s.graph w) _ (sym goes ∙ e) in
    scan-Keeps writers (bids_cc w out) (record s { active_vertex = ws }) t g u x here parent

drain-Keeps :
    (writers : Bool) (fuel : ℕ) (s t : State)
    → drain (visit_bfs writers) offers_bfs fuel s ≡ some t
    → Keeps s.graph t.graph
unfolding drain
drain-Keeps writers zero s t e u x here parent = elim (if-split (is_empty s.active_vertex) e) [
  | inl (empty, same) ↦
      ap (λ (r : State). get_vertex_val r.graph 0 u) (sym (Option.some-injective _ _ same)) ∙ here
  | inr (more, nothing) ↦ absurd (ground arith)
]
drain-Keeps writers (suc fuel) s t e u x here parent =
    elim (if-split (is_empty s.active_vertex) e) [
      | inl (empty, same) ↦
          ap (λ (r : State). get_vertex_val r.graph 0 u) (sym (Option.some-injective _ _ same))
          ∙ here
      | inr (more, step) ↦
          let (r, f, g) = >>=-eq-some (round (visit_bfs writers) offers_bfs s) _ step in
          let first = round-Keeps writers s r s.active_vertex refl f u x here parent in
          drain-Keeps writers fuel r t g u x first parent
    ]

-- `Calc` of bfs on complete inputs of at most 1000000000 vertices, with fuel for the active
-- vertices and the sum of the values, returns, and every vertex that had a parent has kept it.
pub calc_bfs-Keeps :
    (n : ℕ) (writers : Bool) (g : Graph) (active : List ℕ) (next : Bitmap) (fuel : ℕ)
    → n ≤ unreached
    → IsInput false n g active next
    → length active + mass g ≤ fuel
    → (g' : Graph) × (b : Bitmap) × (frames : List (List ℕ)) × (calc_bfs fuel writers active g next
        ≡ some (g', b, frames))
      × Keeps g g'
unfolding calc_bfs offers_bfs
calc_bfs-Keeps n writers g active next fuel small input enough =
    let (t, e, inv, done) =
      drain_returns n writers g (visit_bfs writers) offers_bfs (λ x. x < unreached)
        (λ x old. old == unreached) (λ x old fine free. ground arith)
        (λ v x old s fine same here. visit_bfs_lem writers v x old s here)
        (λ h x ready same local.
          let (out, f, targets) = edges_of false n g h active next x input same local in
          let near : is_local h x ≡ true = ap (λ k. is_local k x) same ∙ local in
          (out, bids_cc x out, f, refl, bids_bfs-fine n x out small (ready.within x near) targets))
        fuel (begin active g next)
        (record { ready = input.ready; room = input.room; edges = refl; queued = input.local })
        enough in
    (
      t.graph,
      t.next_activate,
      flush writers t.sender,
      rw e refl,
      drain-Keeps writers fuel (begin active g next) t e,
    )
