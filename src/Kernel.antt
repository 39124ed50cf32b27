-- ===== src/Kernel.antt =====
-- The worklist kernels app/graph/bfs/graph_calc.go, app/graph/cc/graph_calc.go and
-- app/graph/sssp/graph_calc.go: one call of `Calc`, with no other executor on the arrays. `none`
-- is a panic.
pub mod Updates
pub mod Visit
pub mod Drain
pub mod Effect
pub mod Settle
pub mod Calc
pub mod Bfs
pub mod Tests
use faa_sgraph.Base.{
  ℕ, zero, suc, ◌+◌, ◌-◌, ◌*◌, ◌%◌, ◌^◌, Bool, true, false, Option, none, some, List, [], ◌∷◌, ◌++◌,
  map, ltb, leb, ◌==◌, ◌&&◌, if◌then◌else◌, ◌>>=◌,
}
use faa_sgraph.Bitmap
use faa_sgraph.Bitmap.{Bitmap}
use faa_sgraph.Graph.{Graph, out_edge, get_vertex_val, set_vertex_val, aggregate_vertex_val}
use Updates.{Sender, opened, push, flush}

-- The variables of `Calc`.
pub record State : Type 0 where
  pub graph : Graph
  pub active_vertex : List ℕ
  pub next_activate : Bitmap
  pub sender : Sender

-- `v >= startNode && v < startNode+size`
abbrev pub is_local : Graph → ℕ → Bool
is_local g v = leb g.start_node v && ltb v (g.start_node + g.size)

-- A vertex with a new value: it is worked on here or in the next round, and its value is sent.
unfoldable pub notify : Bool → ℕ → ℕ → State → Option State
unfolding push
notify writers v val s =
    if is_local s.graph v
    then some (record s {
      active_vertex = s.active_vertex ++ v ∷ [];
      sender = push writers v val s.sender;
    })
    else (do
      b ← Bitmap.add s.next_activate v
      some (record s { next_activate = b; sender = push writers v val s.sender }))

-- bfs: the value of an unreached vertex.
abbrev pub unreached : ℕ
unreached = 1000000000

-- bfs: `SetVertexVal` of a parent, if there is none.
unfoldable pub visit_bfs : Bool → ℕ → ℕ → State → Option State
unfolding get_vertex_val set_vertex_val notify
visit_bfs writers v x s = do
  old ← get_vertex_val s.graph 0 v
  if old == unreached
      then (do g ← set_vertex_val s.graph 0 v x; notify writers v x (record s { graph = g }))
      else some s

module _ (fadd : ℕ → ℕ → ℕ) where
  -- cc: a smaller label.
  unfoldable pub visit_cc : Bool → ℕ → ℕ → State → Option State
  unfolding get_vertex_val aggregate_vertex_val notify
  visit_cc writers v val s = do
    old ← get_vertex_val s.graph 0 v
    if ltb val old
        then (do
          r ← aggregate_vertex_val fadd s.graph 0 v val
          if r.1
              then notify writers v val (record s { graph = r.0 })
              else some (record s { graph = r.0 }))
        else some s

  -- sssp: a shorter distance; what `AggregateVertexVal` answers is not used.
  unfoldable pub visit_sssp : Bool → ℕ → ℕ → State → Option State
  unfolding get_vertex_val aggregate_vertex_val notify
  visit_sssp writers v val s = do
    old ← get_vertex_val s.graph 0 v
    if ltb val old
        then (do
          r ← aggregate_vertex_val fadd s.graph 0 v val
          notify writers v val (record s { graph = r.0 }))
        else some s

-- What a vertex offers to its neighbours: itself, its label, or its distance with the weight, a
-- uint32 sum.
unfoldable pub offers_bfs : Graph → ℕ → List ℕ → Option (List (ℕ × ℕ))
offers_bfs g x out = some (map (λ v. (v, x)) out)

unfoldable pub offers_cc : Graph → ℕ → List ℕ → Option (List (ℕ × ℕ))
unfolding get_vertex_val
offers_cc g x out = do val ← get_vertex_val g 0 x; some (map (λ v. (v, val)) out)

-- An odd number of entries panics at `outEdges[i+1]`.
abbrev pub weighted_offers : ℕ → List ℕ → Option (List (ℕ × ℕ))
weighted_offers val [] = some []
weighted_offers val (v ∷ []) = none
weighted_offers val (v ∷ w ∷ es) = do
  rest ← weighted_offers val es
  some ((v, (val + w) % 2 ^ 32) ∷ rest)

unfoldable pub offers_sssp : Graph → ℕ → List ℕ → Option (List (ℕ × ℕ))
unfolding get_vertex_val
offers_sssp g x out = do val ← get_vertex_val g 0 x; weighted_offers val out

-- The loop over the edges of one vertex.
unfoldable pub scan : (ℕ → ℕ → State → Option State) → List (ℕ × ℕ) → State → Option State
scan visit [] s = some s
scan visit ((v, val) ∷ os) s = do s' ← visit v val s; scan visit os s'

-- The first vertex of the list.
unfoldable pub round :
    (ℕ → ℕ → State → Option State)
    → (Graph → ℕ → List ℕ → Option (List (ℕ × ℕ)))
    → State
    → Option State
unfolding scan out_edge
round visit offers s = elim s.active_vertex [
  | [] ↦ some s
  | x ∷ xs ↦ (do
    out ← out_edge s.graph x
    os ← offers s.graph x out
    scan visit os (record s { active_vertex = xs }))
]

abbrev pub is_empty : List ℕ → Bool
is_empty [] = true
is_empty (x ∷ xs) = false

-- `for len(activeVertex) > 0`, on fuel.
unfoldable pub drain :
    (ℕ → ℕ → State → Option State)
    → (Graph → ℕ → List ℕ → Option (List (ℕ × ℕ)))
    → ℕ
    → State
    → Option State
unfolding round
drain visit offers zero s = if is_empty s.active_vertex then some s else none
drain visit offers (suc fuel) s =
    if is_empty s.active_vertex
    then some s
    else (do s' ← round visit offers s; drain visit offers fuel s')

-- What `Calc` starts with.
abbrev pub begin : List ℕ → Graph → Bitmap → State
begin active g next = record {
  graph = g;
  active_vertex = active;
  next_activate = next;
  sender = opened;
}

-- What it leaves: the arrays, the set of the next round, and what each writer was given.
abbrev pub finish : Bool → State → Graph × Bitmap × List (List ℕ)
finish writers s = (s.graph, s.next_activate, flush writers s.sender)

unfoldable pub calc_bfs :
    ℕ → Bool → List ℕ → Graph → Bitmap → Option (Graph × Bitmap × List (List ℕ))
unfolding drain visit_bfs offers_bfs flush
calc_bfs fuel writers active g next = do
  s ← drain (visit_bfs writers) offers_bfs fuel (begin active g next)
  some (finish writers s)

module _ (fadd : ℕ → ℕ → ℕ) where
  unfoldable pub calc_cc :
      ℕ → Bool → List ℕ → Graph → Bitmap → Option (Graph × Bitmap × List (List ℕ))
  unfolding drain visit_cc offers_cc flush
  calc_cc fuel writers active g next = do
    s ← drain (visit_cc fadd writers) offers_cc fuel (begin active g next)
    some (finish writers s)

  unfoldable pub calc_sssp :
      ℕ → Bool → List ℕ → Graph → Bitmap → Option (Graph × Bitmap × List (List ℕ))
  unfolding drain visit_sssp offers_sssp flush
  calc_sssp fuel writers active g next = do
    s ← drain (visit_sssp fadd writers) offers_sssp fuel (begin active g next)
    some (finish writers s)

-- `Load` of bfs: the parameter "source" is at 0 and the first active vertex.
unfoldable pub load_bfs : ℕ → ℕ → Graph → Bitmap → Option (Graph × Bitmap)
unfolding set_vertex_val
load_bfs source u g first =
    if u == source
    then (do g' ← set_vertex_val g 0 u 0; b ← Bitmap.add first source; some (g', b))
    else (do g' ← set_vertex_val g 0 u unreached; some (g', first))

unfoldable pub load_cc : ℕ → Graph → Bitmap → Option (Graph × Bitmap)
unfolding set_vertex_val
load_cc u g first = do g' ← set_vertex_val g 0 u u; b ← Bitmap.add first u; some (g', b)

-- sssp: the constant `inf`; the source is vertex 0.
abbrev pub inf : ℕ
inf = 2 ^ 31 - 1 - 1000

unfoldable pub load_sssp : ℕ → Graph → Bitmap → Option (Graph × Bitmap)
unfolding set_vertex_val
load_sssp u g first =
    if u == 0
    then (do g' ← set_vertex_val g 0 u 0; b ← Bitmap.add first 0; some (g', b))
    else (do g' ← set_vertex_val g 0 u inf; some (g', first))
