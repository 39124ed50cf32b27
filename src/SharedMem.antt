-- ===== src/SharedMem.antt =====
-- The segments of shared memory: `NewMemPool` and `ClearMem` of src/local_manager/src/mem.go, and
-- `NewSharedMemPool` of src/lambda_executor/src/graphutil/mem.go. The system calls are a parameter;
-- the attached addresses are left out.
pub mod Os
pub mod Keys
pub mod Pools
pub mod Tests
use mathlib.Core.Option
use faa_sgraph.Base.{
  ℕ, zero, suc, ◌+◌, ◌-◌, ◌*◌, ◌%◌, ◌^◌, Option, none, some, List, [], ◌∷◌, ◌++◌, ◌>>=◌, ltb,
  if◌then◌else◌,
}
use Os.{Shm}

-- The keys of the vertex arrays: `uintptr(id*10+i)`.
abbrev pub vertex_keys : ℕ → ℕ → ℕ → List ℕ
vertex_keys zero id i = []
vertex_keys (suc n) id i = ((id * 10 + i) % 2 ^ 64) ∷ vertex_keys n id (suc i)

-- And after them those of the in-degrees and the out-degrees.
unfoldable pub pool_keys : ℕ → ℕ → List ℕ
pool_keys id cnt =
    vertex_keys cnt id 0 ++ ((id * 10 + cnt) % 2 ^ 64) ∷ ((id * 10 + cnt + 1) % 2 ^ 64) ∷ []

-- `uintptr(totalNode*4)` of an int32, whose product wraps and keeps its sign.
abbrev pub int32_length : ℕ → ℕ
int32_length total_node =
    let bits = total_node * 4 % 2 ^ 32 in
    if ltb bits (2 ^ 31) then bits else bits + (2 ^ 64 - 2 ^ 32)

module _ {State : Type 0} (os : Shm State) where
  abbrev pub remove_if : Option ℕ → State → State
  remove_if none s = s
  remove_if (some id) s = os.rmid id s

  abbrev pub or_again : ℕ → ℕ → Option ℕ × State → Option ℕ × State
  or_again key len (some id, s) = (some id, s)
  or_again key len (none, s) = let old = os.get key 1 s in os.get key len (remove_if old.0 old.1)

  -- `shmGet` of the local manager: a segment that is too short is removed, and made again. It goes on
  -- with what the last call gives, an error too.
  unfoldable pub shm_get : ℕ → ℕ → State → Option ℕ × State
  shm_get key len s = or_again key len (os.get key len s)

  -- The calls of NewMemPool, in their order.
  unfoldable pub get_segments : ℕ → List ℕ → State → List (Option ℕ) × State
  unfolding shm_get
  get_segments len [] s = ([], s)
  get_segments len (key ∷ keys) s =
      let first = shm_get key len s in
      let rest = get_segments len keys first.1 in (first.0 ∷ rest.0, rest.1)

  unfoldable pub new_mem_pool : ℕ → ℕ → ℕ → State → List (Option ℕ) × State
  unfolding pool_keys get_segments
  new_mem_pool id total_node cnt s = get_segments (total_node * 4 % 2 ^ 64) (pool_keys id cnt) s

  abbrev pub or_panic : Option ℕ × State → Option (ℕ × State)
  or_panic (none, s) = none
  or_panic (some id, s) = some (id, s)

  -- The calls of NewSharedMemPool; `shmGet` of the executor panics on an error.
  unfoldable pub attach_segments : ℕ → List ℕ → State → Option (List ℕ × State)
  attach_segments len [] s = some ([], s)
  attach_segments len (key ∷ keys) s = do
    (id, s') ← or_panic (os.get key len s)
    (ids, s'') ← attach_segments len keys s'
    some (id ∷ ids, s'')

  unfoldable pub new_shared_mem_pool : ℕ → ℕ → ℕ → State → Option (List ℕ × State)
  unfolding pool_keys attach_segments
  new_shared_mem_pool id total_node cnt s =
      attach_segments (int32_length total_node) (pool_keys id cnt) s

  -- `ClearMem`: every segment of the pool is removed.
  unfoldable pub clear_mem : List ℕ → State → State
  clear_mem [] s = s
  clear_mem (id ∷ ids) s = clear_mem ids (os.rmid id s)
