-- ===== src/LocalManager.antt =====
-- src/local_manager/src: the pools of the functions of a host (mem.go), and the handlers of main.go
-- that use them. Requests and pools are keyed by the number of a request; `none` is a panic. The
-- segments of mem.go are those of the executors, so that their arrays are `MemPool`.
pub mod Pools
pub mod Aggregate
pub mod Tests
use mathlib.Core.Option
use faa_sgraph.Base.{
  ℕ, ◌+◌, ◌*◌, ◌%◌, ◌^◌, Bool, true, false, Option, none, some, List, [], ◌∷◌, ◌==◌, if◌then◌else◌,
  ◌>>=◌, leb, replicate,
}
use faa_sgraph.MemPool
use faa_sgraph.MemPool.{MemPool, val_addr}
use faa_sgraph.Graph.{AggregateOp, min_cas_op, float_add_op, other_op}
use faa_sgraph.Wire.{each_pair, read_frames}

-- `MinCas` without an answer.
unfoldable pub min_cas : ℕ → ℕ → ℕ → MemPool → Option MemPool
unfolding MemPool.min_cas
min_cas tag vertex val m = Option.map (λ r. r.0) (MemPool.min_cas m vertex val (val_addr tag))

-- `fadd` adds two float32 values given and returned by their bits.
unfoldable pub float_add : (ℕ → ℕ → ℕ) → ℕ → ℕ → ℕ → MemPool → Option MemPool
unfolding MemPool.float_add
float_add fadd tag vertex val m =
    Option.map (λ r. r.0) (MemPool.float_add fadd m vertex val (val_addr tag))

unfoldable pub aggregate_vertex_val :
    (ℕ → ℕ → ℕ) → ℕ → AggregateOp → List ℕ → MemPool → Option MemPool
unfolding min_cas float_add
aggregate_vertex_val fadd tag min_cas_op updates m = each_pair (min_cas tag) updates m
aggregate_vertex_val fadd tag float_add_op updates m = each_pair (float_add fadd tag) updates m
aggregate_vertex_val fadd tag other_op updates m =
    each_pair (λ v val m'. MemPool.store m' v val (val_addr tag)) updates m

-- The variables of main.go that the handlers share.
pub record Manager : Type 0 where
  pub pool : List (ℕ × MemPool)
  pub overall_comm : ℕ

abbrev pub pool_of : ℕ → List (ℕ × MemPool) → Option MemPool
pool_of id [] = none
pool_of id ((i, m) ∷ ps) = if i == id then some m else pool_of id ps

-- `delete(pool, requestId)`
abbrev pub delete : ℕ → List (ℕ × MemPool) → List (ℕ × MemPool)
delete id [] = []
delete id ((i, m) ∷ ps) = let rest = delete id ps in if i == id then rest else (i, m) ∷ rest

-- `pool[requestId] = m`
abbrev pub put : ℕ → MemPool → List (ℕ × MemPool) → List (ℕ × MemPool)
put id m ps = (id, m) ∷ delete id ps

unfoldable pub allocate_mem : ℕ → ℕ → ℕ → Manager → Manager
unfolding MemPool.new_mem_pool
allocate_mem id total_node cnt s = record s {
  pool = put id (MemPool.new_mem_pool total_node cnt) s.pool;
}

-- The answer is the number of updates so far, of every request: it is not reset.
unfoldable pub clear_mem : ℕ → Manager → Option (Manager × ℕ)
clear_mem id s = do
  m ← pool_of id s.pool
  some (record s { pool = delete id s.pool }, s.overall_comm)

-- The loops of `AggregateVertexVal` on a nil pool: it is not read if there is no update.
abbrev pub on_nil : List ℕ → Manager → Option Manager
on_nil [] s = some s
on_nil (v ∷ vs) s = none

-- One frame of a body, with what `pool[requestId]` reads.
abbrev pub apply_to :
    (ℕ → ℕ → ℕ) → ℕ → AggregateOp → ℕ → List ℕ → Manager → Option MemPool → Option Manager
apply_to fadd id op tag updates s none = on_nil updates s
apply_to fadd id op tag updates s (some m) =
    Option.map (λ m'. record s { pool = put id m' s.pool })
      (aggregate_vertex_val fadd tag op updates m)

abbrev pub apply_frame : (ℕ → ℕ → ℕ) → ℕ → AggregateOp → ℕ → List ℕ → Manager → Option Manager
apply_frame fadd id op tag updates s = apply_to fadd id op tag updates s (pool_of id s.pool)

-- The body, on fuel, as the transport cuts it.
unfoldable pub set_vertex_info :
    (ℕ → ℕ) → (ℕ → ℕ → ℕ) → ℕ → ℕ → AggregateOp → ℕ → List ℕ → Manager → Option Manager
unfolding read_frames aggregate_vertex_val
set_vertex_info cut fadd fuel id op tag body s = do
  r ← read_frames cut (apply_frame fadd id op tag) fuel (replicate 4 0) body 0 s
  some (record r.0 { overall_comm = r.0.overall_comm + r.1 })
