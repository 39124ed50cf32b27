-- ===== src/SharedMem/Tests.antt =====
-- Runs on the shared memory of src/local_manager/src/mem.go, and instances of its theorems.
use faa_sgraph.Base.{ℕ, ◌≡◌, refl, inl, inr, none, some, List, [], ◌∷◌, arith, map, All, Mem}
use faa_sgraph.SharedMem.{pool_keys, new_mem_pool, new_shared_mem_pool, clear_mem}
use faa_sgraph.SharedMem.Os.{Lengths, by_lengths, by_lengths-ShmLaws}
use faa_sgraph.SharedMem.Keys.{pool_keys_apart}
use faa_sgraph.SharedMem.Pools.{new_shared_mem_pool-new_mem_pool}

abbrev nothing : Lengths
nothing k = none

keys_run : pool_keys 3 2 ≡ 30 ∷ 31 ∷ 32 ∷ 33 ∷ []
unfolding pool_keys
keys_run = refl

-- With nine arrays the last key of a request is the first of the next.
shared_key : Mem 40 (pool_keys 3 9)
unfolding pool_keys
shared_key = inr (inr (inr (inr (inr (inr (inr (inr (inr (inr (inl refl))))))))))

third_key : Mem 32 (pool_keys 3 2)
unfolding pool_keys
third_key = inr (inr (inl refl))

pool_keys_apart_example : ¬ Mem 32 (pool_keys 4 2)
pool_keys_apart_example =
    pool_keys_apart 3 4 2 2 32 (omega arith) (omega arith) (omega arith) (omega arith)
      (λ e. absurd (ground (arith, e))) third_key

new_shared_mem_pool-new_mem_pool_example :
    (ids : List ℕ) × (s' : Lengths) × (new_mem_pool by_lengths 3 10 2 nothing ≡ (map some ids, s'))
    × (new_shared_mem_pool by_lengths 3 10 2 s' ≡ some (ids, s'))
    × All (λ k. by_lengths-ShmLaws.segment (clear_mem by_lengths ids s') k ≡ none) (pool_keys 3 2)
new_shared_mem_pool-new_mem_pool_example =
    new_shared_mem_pool-new_mem_pool by_lengths by_lengths-ShmLaws 3 10 2 nothing (omega arith)
      (omega arith) (omega arith) (omega arith)
