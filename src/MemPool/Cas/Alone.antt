-- ===== src/MemPool/Cas/Alone.antt =====
-- A call of `minCas` (src/lambda_executor/src/graphutil/mem.go) with no other thread on its cell.
use faa_sgraph.Base.{ℕ, min, ◌≡◌, [], ◌∷◌, arith, ltb}
use faa_sgraph.MemPool.Cas.{done, act, move, run, init}

-- Two actions of one thread on a cell make up the call, which leaves the smaller value.
pub min_cas-run :
    (old val : ℕ)
    → run (init old (val ∷ [])) (0 ∷ 0 ∷ [])
      ≡ record { cell = min old val; threads = record { val = val; pc = done (ltb val old) } ∷ [] }
unfolding run move act init
min_cas-run old val = ground arith
