-- ===== src/LocalManager/Pools.antt =====
-- The handlers of src/local_manager/src/main.go: the pool of a request after a body of updates.
use mathlib.Core.Option
use faa_sgraph.Base.{
  ℕ, ◌+◌, ◌%◌, ◌^◌, ◌≡◌, refl, ◌≢◌, Option, none, some, List, [], ◌∷◌, arith, ◌==◌, if◌then◌else◌,
  length,
}
use faa_sgraph.MemPool
use faa_sgraph.MemPool.{MemPool, val_addr}
use faa_sgraph.Graph.{AggregateOp, min_cas_op, float_add_op, other_op}
use faa_sgraph.LocalManager.{
  Manager, min_cas, float_add, aggregate_vertex_val, pool_of, delete, put, allocate_mem, clear_mem,
}
use faa_sgraph.Wire.RoundTrip.{flat}

pool_of-delete :
    (id j : ℕ) (ps : List (ℕ × MemPool))
    → pool_of j (delete id ps) ≡ (if id == j then none else pool_of j ps)
pool_of-delete id j [] = ground arith
pool_of-delete id j ((i, m) ∷ ps) = ground (arith, pool_of-delete id j ps)

-- A request's pool after it is put, and every other's.
pub pool_of-put :
    (id j : ℕ) (m : MemPool) (ps : List (ℕ × MemPool))
    → pool_of j (put id m ps) ≡ (if id == j then some m else pool_of j ps)
pool_of-put id j m ps = ground (arith, pool_of-delete id j ps)

-- `allocate_mem` gives its request an empty pool, `clear_mem` takes it away, with no other request
-- in between, every other pool is as it was.
pub clear_mem-allocate_mem :
    (id total_node cnt : ℕ) (s : Manager)
    → (s' : Manager) × (clear_mem id (allocate_mem id total_node cnt s) ≡ some (s', s.overall_comm))
      × ((j : ℕ) → pool_of j s'.pool ≡ (if id == j then none else pool_of j s.pool))
unfolding clear_mem allocate_mem
clear_mem-allocate_mem id total_node cnt s =
    let m = MemPool.new_mem_pool total_node cnt in
    let here : pool_of id (put id m s.pool) ≡ some m = ground (arith, pool_of-put id id m s.pool) in
    (
      record s { pool = delete id (put id m s.pool) },
      rw here refl,
      λ j. ground (arith, pool_of-delete id j (put id m s.pool), pool_of-put id j m s.pool),
    )

-- One update of `AggregateVertexVal`.
abbrev pub step_of : (ℕ → ℕ → ℕ) → ℕ → AggregateOp → ℕ → ℕ → MemPool → Option MemPool
step_of fadd tag min_cas_op = min_cas tag
step_of fadd tag float_add_op = float_add fadd tag
step_of fadd tag other_op = λ v val m. MemPool.store m v val (val_addr tag)

module _ (fadd : ℕ → ℕ → ℕ) (id : ℕ) (op : AggregateOp) (tag : ℕ) where
  -- What frames leave: the request's pool updated, and all else as it was.
  pub record Updated (s : Manager) (m' : MemPool) (s' : Manager) : Type 0 where
    pub pool_here : pool_of id s'.pool ≡ some m'
    pub others : (j : ℕ) → id ≢ j → pool_of j s'.pool ≡ pool_of j s.pool
    pub comm : s'.overall_comm ≡ s.overall_comm

  -- What the handler leaves: all updates made on the request's pool, no other pool changed, and the
  -- updates counted.
  pub record Handled (s : Manager) (ups : List (ℕ × ℕ)) (m m' : MemPool) (s' : Manager)
      : Type 0 where
    pub made : aggregate_vertex_val fadd tag op (flat ups) m ≡ some m'
    pub pool_here : pool_of id s'.pool ≡ some m'
    pub others : (j : ℕ) → id ≢ j → pool_of j s'.pool ≡ pool_of j s.pool
    pub comm : s'.overall_comm ≡ s.overall_comm + length ups % 2 ^ 32
