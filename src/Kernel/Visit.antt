-- ===== src/Kernel/Visit.antt =====
-- One visit of an edge by the kernels in app/graph (bfs, cc, sssp): what it writes and whom it tells.
use Prim.Native.Nat.{bit_or}
use faa_sgraph.Base.{
  ℕ, ◌+◌, ◌/◌, ◌%◌, ◌^◌, ◌<◌, ◌≡◌, refl, ◌∙◌, inl, inr, Bool, true, false, Option, some, [], ◌∷◌,
  ◌++◌, arith, ltb, leb, ◌==◌, if◌then◌else◌, Bool-cases, ◌>>=◌, length, set, length-set,
  get_elem?_total,
}
use faa_sgraph.Bitmap
use faa_sgraph.Bitmap.{Bitmap, word_bits}
use faa_sgraph.MemPool
use faa_sgraph.MemPool.{MemPool, val_addr, slot}
use faa_sgraph.MemPool.Access.{get-store, store_total, total, total-store}
use faa_sgraph.Graph.{Graph, min_cas_op, get_vertex_val, set_vertex_val, aggregate_vertex_val}
use faa_sgraph.Kernel.{State, is_local, notify, unreached, visit_bfs, visit_cc, visit_sssp}
use faa_sgraph.Kernel.Updates.{push}

-- The sum of the values.
abbrev pub mass : Graph → ℕ
mass g = total g.mem_pool (val_addr 0)

-- A graph of n vertices whose array of values is complete, and whose local vertices are among them.
pub record IsReady (n : ℕ) (g : Graph) : Type 0 where
  pub vals : (u : ℕ) → u < n → (x : ℕ) × (get_vertex_val g 0 u ≡ some x)
  pub within : (u : ℕ) → is_local g u ≡ true → u < n

abbrev pub HasRoom : ℕ → Bitmap → Type 0
HasRoom n b = (u : ℕ) → u < n → u / word_bits < length b.words

-- A visit that wrote.
pub record Lowered (s : State) (v val : ℕ) (t : State) : Type 0 where
  pub pool : MemPool
  pub graph_of : t.graph ≡ record s.graph { mem_pool = pool }
  pub val_of :
      (u : ℕ)
      → get_vertex_val t.graph 0 u
        ≡ (if slot u == slot v then some val else get_vertex_val s.graph 0 u)
  pub queue_of :
      t.active_vertex ≡ (if is_local s.graph v then s.active_vertex ++ v ∷ [] else s.active_vertex)
  pub mass_of :
      (old : ℕ) → get_vertex_val s.graph 0 v ≡ some old → mass t.graph + old ≡ mass s.graph + val

-- The store of a value and its notification.
abbrev pub write : Bool → ℕ → ℕ → State → Option State
write writers v val s = do
  m ← MemPool.store s.graph.mem_pool v val (val_addr 0)
  notify writers v val (record s { graph = record s.graph { mem_pool = m } })

-- Without a panic, if the vertex and its bit are there.
add_total :
    (n : ℕ) (b : Bitmap) (v : ℕ)
    → HasRoom n b
    → v < n
    → (c : Bitmap) × (Bitmap.add b v ≡ some c) × HasRoom n c
unfolding Bitmap.add
add_total n b v room h =
    let (w, e) = get_elem?_total b.words (v / word_bits) (room v h) in
    let c : Bitmap = record {
      words = set b.words (v / word_bits) (bit_or w (2 ^ (v % word_bits)));
    } in
    (c, rw e refl, λ u k. rw length-set (room u k))

module _ (n : ℕ) (writers : Bool) (v val old : ℕ) (s : State) (ready : IsReady n s.graph) where
  -- A write succeeds where the vertex has a value, and keeps the graph ready.
  pub write-Lowered :
      v < n
      → HasRoom n s.next_activate
      → get_vertex_val s.graph 0 v ≡ some old
      → (t : State) × (write writers v val s ≡ some t)
        × Lowered s v val t
        × IsReady n t.graph
        × HasRoom n t.next_activate
  unfolding notify get_vertex_val
  write-Lowered h room here =
      let (m, e) = store_total s.graph.mem_pool v val (val_addr 0) here in
      let g : Graph = record s.graph { mem_pool = m } in
      let read = get-store s.graph.mem_pool v val (val_addr 0) m e in
      let ready' : IsReady n g = record {
        vals = λ u k.
            let (x, f) = ready.vals u k in
            elim (Bool-cases (slot u == slot v)) [
              | inl same ↦ (val, read u ∙ rw same refl)
              | inr other ↦ (x, read u ∙ rw other f)
            ];
        within = ready.within;
      } in
      let sums : (o : ℕ) → get_vertex_val s.graph 0 v ≡ some o → mass g + o ≡ mass s.graph + val =
        λ o f. total-store s.graph.mem_pool m v val o (val_addr 0) f e in
      elim (Bool-cases (is_local s.graph v)) [
        | inl near ↦
            let t : State = record s {
              graph = g;
              active_vertex = s.active_vertex ++ v ∷ [];
              sender = push writers v val s.sender;
            } in
            (
              t,
              rw (e, near) refl,
              record {
                pool = m;
                graph_of = refl;
                val_of = read;
                queue_of = rw near refl;
                mass_of = sums;
              },
              ready',
              room,
            )
        | inr far ↦
            let (b, f, room') = add_total n s.next_activate v room h in
            let t : State = record s {
              graph = g;
              next_activate = b;
              sender = push writers v val s.sender;
            } in
            (
              t,
              rw (e, far, f) refl,
              record {
                pool = m;
                graph_of = refl;
                val_of = read;
                queue_of = rw far refl;
                mass_of = sums;
              },
              ready',
              room',
            )
      ]

module _ (fadd : ℕ → ℕ → ℕ) (writers : Bool) (v val old : ℕ) (s : State)
    (op : s.graph.aggregate_op ≡ min_cas_op) (here : get_vertex_val s.graph 0 v ≡ some old) where
  pub visit_cc_lem :
      visit_cc fadd writers v val s ≡ (if ltb val old then write writers v val s else some s)
  unfolding visit_cc get_vertex_val aggregate_vertex_val MemPool.min_cas
  visit_cc_lem = elim (Bool-cases (ltb val old)) [
    | inl less ↦
        let (m, e) = store_total s.graph.mem_pool v val (val_addr 0) here in
        let drop_old : leb old val ≡ false = ground arith in
        rw (here, less, op, here, drop_old, e) refl
    | inr not_less ↦ rw (here, not_less) refl
  ]

  pub visit_sssp_lem :
      visit_sssp fadd writers v val s ≡ (if ltb val old then write writers v val s else some s)
  unfolding visit_sssp get_vertex_val aggregate_vertex_val MemPool.min_cas
  visit_sssp_lem = elim (Bool-cases (ltb val old)) [
    | inl less ↦
        let (m, e) = store_total s.graph.mem_pool v val (val_addr 0) here in
        let drop_old : leb old val ≡ false = ground arith in
        rw (here, less, op, here, drop_old, e) refl
    | inr not_less ↦ rw (here, not_less) refl
  ]

pub visit_bfs_lem :
    (writers : Bool) (v x old : ℕ) (s : State)
    → get_vertex_val s.graph 0 v ≡ some old
    → visit_bfs writers v x s ≡ (if old == unreached then write writers v x s else some s)
unfolding visit_bfs set_vertex_val
visit_bfs_lem writers v x old s here = elim (Bool-cases (old == unreached)) [
  | inl free ↦
      let (m, e) = store_total s.graph.mem_pool v x (val_addr 0) here in rw (here, free, e) refl
  | inr taken ↦ rw (here, taken) refl
]
