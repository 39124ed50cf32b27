-- ===== src/MemPool/Tests.antt =====
-- Runs of src/lambda_executor/src/graphutil/mem.go, and instances of its theorems.
use faa_sgraph.Base.{
  ℕ, ◌+◌, ◌*◌, ◌≤◌, ◌≡◌, ◌≢◌, ◌⊎◌, refl, true, none, some, List, [], ◌∷◌, ltb, min, ◌==◌,
  if◌then◌else◌, length,
}
use faa_sgraph.MemPool.{MemPool, Addr, val_addr, slot, get, store, min_cas}
use faa_sgraph.MemPool.Access.{get-store, min_cas_lem}
use faa_sgraph.MemPool.Cas.{start, loaded, done, act, move, run, init}
use faa_sgraph.MemPool.Cas.Least.{cell-least, least, Winner}
use faa_sgraph.MemPool.Cas.Bound.{Busy-le}

abbrev pool : MemPool
pool = record { vertex_val = (9 ∷ 4 ∷ []) ∷ []; in_d = 0 ∷ 0 ∷ []; out_d = 3 ∷ 1 ∷ [] }

abbrev stored : MemPool
stored = record { vertex_val = (9 ∷ 2 ∷ []) ∷ []; in_d = 0 ∷ 0 ∷ []; out_d = 3 ∷ 1 ∷ [] }

store_run : store pool 1 2 (val_addr 0) ≡ some stored
unfolding store slot
store_run = refl

store_outside : store pool 2 2 (val_addr 0) ≡ none
unfolding store slot
store_outside = refl

get-store_example :
    get stored 1 (val_addr 0) ≡ (if slot 1 == slot 1 then some 2 else get pool 1 (val_addr 0))
get-store_example = get-store pool 1 2 (val_addr 0) stored store_run 1

get_run : get pool 1 (val_addr 0) ≡ some 4
unfolding get slot
get_run = refl

min_cas_lem_example :
    (m' : MemPool) × (min_cas pool 1 2 (val_addr 0) ≡ some (m', ltb 2 4))
    × ((u : ℕ)
        → get m' u (val_addr 0)
          ≡ (if slot u == slot 1 then some (min 4 2) else get pool u (val_addr 0)))
    × ((u : ℕ) (b : Addr) → val_addr 0 ≢ b → get m' u b ≡ get pool u b)
min_cas_lem_example = min_cas_lem pool 1 2 (val_addr 0) get_run

-- Both threads load 9; the second swaps first, so that the first fails its swap and retries.
abbrev contended : List ℕ
contended = 0 ∷ 1 ∷ 1 ∷ 0 ∷ 0 ∷ 0 ∷ []

contended-run : run (init 9 (3 ∷ 5 ∷ [])) contended ≡ record {
  cell = 3;
  threads = record { val = 3; pc = done true } ∷ record { val = 5; pc = done true } ∷ [];
}
unfolding run move act init
contended-run = refl

cell-least_example :
    ((run (init 9 (3 ∷ 5 ∷ [])) contended).cell ≡ 3)
    × ((least 9 (3 ∷ 5 ∷ []) ≡ 9) ⊎ Winner (run (init 9 (3 ∷ 5 ∷ [])) contended))
unfolding run move act init
cell-least_example = cell-least 9 (3 ∷ 5 ∷ []) contended ((true, refl), ((true, refl), tt))

Busy-le_example : length contended ≤ 2 * (2 * 2 + 2)
unfolding run move act init
Busy-le_example = Busy-le 9 (3 ∷ 5 ∷ []) contended (
  (record { val = 3; pc = start }, refl, refl),
  (
    (record { val = 5; pc = start }, refl, refl),
    (
      (record { val = 5; pc = loaded 9 }, refl, refl),
      (
        (record { val = 3; pc = loaded 9 }, refl, refl),
        (
          (record { val = 3; pc = start }, refl, refl),
          ((record { val = 3; pc = loaded 5 }, refl, refl), tt),
        ),
      ),
    ),
  ),
)
