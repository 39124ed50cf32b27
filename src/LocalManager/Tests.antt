-- ===== src/LocalManager/Tests.antt =====
-- Runs of src/local_manager/src, and instances of its theorems.
use mathlib.Core.List.{Permᴰ}
use mathlib.Core.List.Permᴰ
use faa_sgraph.Base.{ℕ, ◌≡◌, refl, some, List, [], ◌∷◌}
use faa_sgraph.MemPool
use faa_sgraph.MemPool.{MemPool, val_addr, slot}
use faa_sgraph.Graph.{min_cas_op}
use faa_sgraph.LocalManager.{Manager, min_cas, aggregate_vertex_val}
use faa_sgraph.LocalManager.Aggregate.{IsLeast, aggregate_vertex_val-IsLeast}
use faa_sgraph.Wire.RoundTrip.{flat}

abbrev three : MemPool
three = record { vertex_val = (9 ∷ 8 ∷ 7 ∷ []) ∷ []; in_d = []; out_d = [] }

abbrev lowered : MemPool
lowered = record { vertex_val = (9 ∷ 3 ∷ 7 ∷ []) ∷ []; in_d = []; out_d = [] }

abbrev ups : List (ℕ × ℕ)
ups = (1, 5) ∷ (1, 3) ∷ (2, 9) ∷ []

abbrev manager : Manager
manager = record { pool = (4, three) ∷ []; overall_comm = 10 }

ups_made : aggregate_vertex_val (λ x y. x) 0 min_cas_op (flat ups) three ≡ some lowered
unfolding aggregate_vertex_val min_cas MemPool.min_cas MemPool.get MemPool.store slot
ups_made = refl

aggregate_vertex_val-IsLeast_example :
    (m' : MemPool) × (aggregate_vertex_val (λ x y. x) 0 min_cas_op (flat ups) three ≡ some m')
    × ((u old : ℕ)
        → MemPool.get three u (val_addr 0) ≡ some old
        → (x : ℕ) × (MemPool.get m' u (val_addr 0) ≡ some x) × IsLeast u ups old x)
unfolding MemPool.get slot
aggregate_vertex_val-IsLeast_example =
    aggregate_vertex_val-IsLeast (λ x y. x) 0 ups three ((8, refl), ((8, refl), ((7, refl), tt)))
