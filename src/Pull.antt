-- ===== src/Pull.antt =====
-- The kernels app/graph/ccpull/graph_calc.go, app/graph/pr/graph_calc.go and
-- app/graph/prpush/graph_calc.go, which go over the active vertices once, in blocks. The blocks of
-- one call are goroutines, and are taken here one after another. A float32 is its 32 bits, and its
-- arithmetic a parameter. `none` is a panic.
pub mod Least
pub mod Arrays
pub mod Ranks
pub mod Tests
use faa_sgraph.Base.{
  ℕ, zero, suc, ◌+◌, ◌-◌, ◌*◌, ◌%◌, ◌^◌, Bool, true, false, Option, none, some, List, [], ◌∷◌, ◌++◌,
  ltb, leb, ◌==◌, if◌then◌else◌, ◌>>=◌, replicate, take, drop, get_elem?, modify, length,
}
use faa_sgraph.Bitmap
use faa_sgraph.Bitmap.{Bitmap}
use faa_sgraph.Graph.{
  Graph, in_edge, out_edge, get_vertex_val, set_vertex_val, aggregate_vertex_val, set_in_degree,
  get_out_degree, set_out_degree,
}
use faa_sgraph.Kernel.Updates.{Sender, opened, send, push, flush}

-- The blocks of the active vertices, on fuel; each but the last has as many as a block holds.
unfoldable pub blocks : ℕ → ℕ → List ℕ → List (List ℕ)
blocks block zero active = []
blocks block (suc fuel) [] = []
blocks block (suc fuel) (u ∷ us) =
    let rest = blocks block fuel (drop block (u ∷ us)) in take block (u ∷ us) ∷ rest

abbrev pub calc_block : ℕ
calc_block = 65536

-- What the blocks share, and the updates of the block that runs.
pub record Pull : Type 0 where
  pub graph : Graph
  pub next_activate : Bitmap
  pub updates : List ℕ
  pub sent : List (List ℕ)

-- The loop over one block, and what it sends.
abbrev pub each : (ℕ → Pull → Option Pull) → List ℕ → Pull → Option Pull
each visit [] s = some s
each visit (u ∷ us) s = do s' ← visit u s; each visit us s'

abbrev pub calc_func : Bool → (ℕ → Pull → Option Pull) → List ℕ → Pull → Option Pull
calc_func writers visit us s = do
  s' ← each visit us (record s { updates = 0 ∷ [] })
  some (record s' { sent = send writers s'.updates s'.sent })

abbrev pub each_block : Bool → (ℕ → Pull → Option Pull) → List (List ℕ) → Pull → Option Pull
each_block writers visit [] s = some s
each_block writers visit (us ∷ uss) s = do
  s' ← calc_func writers visit us s
  each_block writers visit uss s'

-- ccpull: the least label among a vertex and its in-neighbours.
unfoldable pub least_label : Graph → ℕ → List ℕ → Option ℕ
unfolding get_vertex_val
least_label g new_val [] = some new_val
least_label g new_val (v ∷ vs) = do
  vval ← get_vertex_val g 0 v
  least_label g (if ltb vval new_val then vval else new_val) vs

-- The label of a vertex falls.
abbrev pub lower_label : ℕ → ℕ → Pull → Option Pull
lower_label u new_val s = do
  g ← set_vertex_val s.graph 0 u new_val
  b ← Bitmap.add s.next_activate u
  some (record s { graph = g; next_activate = b; updates = s.updates ++ u ∷ new_val ∷ [] })

unfoldable pub pull_cc : ℕ → Pull → Option Pull
unfolding least_label get_vertex_val in_edge set_vertex_val
pull_cc u s = do
  val ← get_vertex_val s.graph 0 u
  ins ← in_edge s.graph u
  new_val ← least_label s.graph val ins
  if ltb new_val val then lower_label u new_val s else some s

unfoldable pub calc_ccpull : Bool → List ℕ → Pull → Option Pull
unfolding blocks pull_cc send
calc_ccpull writers active s =
    each_block writers pull_cc (blocks calc_block (length active) active) s

-- `Load` of ccpull.
unfoldable pub load_ccpull : ℕ → Graph → Bitmap → Option (Graph × Bitmap)
unfolding set_vertex_val
load_ccpull u g first = do g' ← set_vertex_val g 0 u u; b ← Bitmap.add first u; some (g', b)

-- float32 arithmetic on bits.
pub record Float : Type 0 where
  pub add : ℕ → ℕ → ℕ
  pub mul : ℕ → ℕ → ℕ
  pub div : ℕ → ℕ → ℕ
  pub of_int : ℕ → ℕ
  pub is_positive : ℕ → Bool

-- The bits of 1.0, 0.15 and 0.85.
abbrev pub one : ℕ
one = 1065353216

abbrev pub damping_base : ℕ
damping_base = 1041865114

abbrev pub damping : ℕ
damping = 1062836634

-- The package's variables: VERTEX_ARRAY_TAG_NEW, which is 0 or 1, and the calls since it changed.
pub record Rank : Type 0 where
  pub tag_new : ℕ
  pub finished : ℕ

-- `tag ^ 1`
abbrev pub other_tag : ℕ → ℕ
other_tag tag = 1 - tag

-- At the end of `Calc`.
unfoldable pub finish_call : Rank → Rank
finish_call r =
    if r.finished + 1 == 2
    then record { tag_new = other_tag r.tag_new; finished = 0 }
    else record r { finished = r.finished + 1 }

module _ (f : Float) where
  -- `Load` of pr and of prpush.
  unfoldable pub load_pr : ℕ → ℕ → ℕ → Graph → Bitmap → Rank → Option (Graph × Bitmap × Rank)
  unfolding set_in_degree set_out_degree set_vertex_val
  load_pr u in_degree out_degree g first r = do
    g1 ← set_in_degree g u in_degree
    g2 ← set_out_degree g1 u out_degree
    b ← if ltb 0 out_degree then Bitmap.add first u else some first
    g3 ← set_vertex_val g2 0 u (if ltb 0 out_degree then f.div one (f.of_int out_degree) else one)
    some (g3, b, record r { tag_new = 1 })

  -- pr: the sum over the in-neighbours.
  unfoldable pub acc_val : ℕ → Graph → ℕ → List ℕ → Option ℕ
  unfolding get_vertex_val
  acc_val tag g acc [] = some acc
  acc_val tag g acc (v ∷ vs) = do
    val ← get_vertex_val g (other_tag tag) v
    acc_val tag g (f.add acc val) vs

  -- `(0.15 + 0.85*acc) / float32(outDegree)`
  abbrev pub rank_of : ℕ → ℕ → ℕ
  rank_of acc out_degree = f.div (f.add damping_base (f.mul damping acc)) (f.of_int out_degree)

  unfoldable pub pull_pr : ℕ → ℕ → Pull → Option Pull
  unfolding acc_val in_edge get_out_degree set_vertex_val
  pull_pr tag u s = do
    ins ← in_edge s.graph u
    acc ← acc_val tag s.graph 0 ins
    out_degree ← get_out_degree s.graph u
    g ← set_vertex_val s.graph tag u (rank_of acc out_degree)
    some (record s { graph = g; updates = s.updates ++ u ∷ rank_of acc out_degree ∷ [] })

  unfoldable pub calc_pr : Bool → List ℕ → Pull → Rank → Option (Pull × Rank)
  unfolding blocks pull_pr send finish_call
  calc_pr writers active s r = do
    s' ← each_block writers (pull_pr r.tag_new) (blocks calc_block (length active) active) s
    some (s', finish_call r)

  -- prpush: `sum[v] += newVal` for each out-edge.
  abbrev pub add_to_each : ℕ → List ℕ → List ℕ → Option (List ℕ)
  add_to_each new_val [] sum = some sum
  add_to_each new_val (v ∷ vs) sum = do
    sum' ← modify (λ x. f.add x new_val) sum v
    add_to_each new_val vs sum'

  unfoldable pub push_sums : ℕ → Graph → List ℕ → List ℕ → Option (List ℕ)
  unfolding get_vertex_val get_out_degree out_edge
  push_sums tag g [] sum = some sum
  push_sums tag g (u ∷ us) sum = do
    old_val ← get_vertex_val g (other_tag tag) u
    out_degree ← get_out_degree g u
    outs ← out_edge g u
    sum' ← add_to_each (rank_of old_val out_degree) outs sum
    push_sums tag g us sum'

  -- The loop over the sums, from vertex i on.
  unfoldable pub write_sums : Bool → ℕ → ℕ → List ℕ → Graph → Sender → Option (Graph × Sender)
  unfolding aggregate_vertex_val push
  write_sums writers tag i [] g s = some (g, s)
  write_sums writers tag i (x ∷ xs) g s =
      if f.is_positive x
      then (do
        r ← aggregate_vertex_val f.add g tag i x
        write_sums writers tag (suc i) xs r.0 (push writers i x s))
      else write_sums writers tag (suc i) xs g s

  -- The blocks add to the sums one after another; in the source they do so without a lock.
  unfoldable pub calc_prpush : Bool → List ℕ → Graph → Rank → Option (Graph × List (List ℕ) × Rank)
  unfolding push_sums write_sums flush finish_call
  calc_prpush writers active g r = do
    sum ← push_sums r.tag_new g active (replicate g.total_node 0)
    (g', s) ← write_sums writers r.tag_new 0 sum g opened
    some (g', flush writers s, finish_call r)
