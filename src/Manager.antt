-- ===== src/Manager.antt =====
-- src/faas_controller/src/faas/app_resource_manager.go, and the queue, the request and the resources
-- of a set of containers in container_set.go beside it. A set is named by its id, a request by a
-- number, and times are seconds. What a set does between `Get` and `Put` is not part of the model.
pub mod Lists
pub mod System
pub mod Invariant
pub mod Queue
pub mod Release
pub mod Reach
pub mod Choice
pub mod Turns
pub mod Recycle
pub mod Tests
use mathlib.Core.Option
use faa_sgraph.Base.{
  ℕ, zero, suc, ◌+◌, ◌-◌, ◌^◌, Bool, true, false, not, Option, none, some, List, [], ◌∷◌, ◌++◌, ltb,
  leb, ◌==◌, ◌&&◌, if◌then◌else◌, ◌>>=◌, length,
}
use faa_sgraph.Cluster.{Node, Cluster, Grant, get, put}

pub data Status : Type 0 where
  starting load_graph running : Status

-- The fields that the manager reads; what `Cluster.Get` gave is in the fields of its containers.
pub record ContainerSet : Type 0 where
  pub id : ℕ
  pub request : ℕ
  pub wait_queue : List ℕ
  pub last_used : ℕ
  pub status : Status
  pub grant : Grant

pub record AppResourceManager : Type 0 where
  pub free : List ContainerSet
  pub available : List ContainerSet

abbrev pub allow_idle_time : ℕ
allow_idle_time = 1200

-- math.MaxInt.
abbrev pub max_int : ℕ
max_int = 2 ^ 63 - 1

abbrev pub or_last :
    ContainerSet
    → List ContainerSet
    → Option (ContainerSet × List ContainerSet)
    → Option (ContainerSet × List ContainerSet)
or_last s ss none = some (s, [])
or_last s ss (some (t, ts)) = some (t, s ∷ ts)

-- The last of a list and the list without it.
abbrev pub last_of : List ContainerSet → Option (ContainerSet × List ContainerSet)
last_of [] = none
last_of (s ∷ ss) = or_last s ss (last_of ss)

-- The map `availableContainerPool`: an entry is replaced or added, found, and deleted.
abbrev pub store : ContainerSet → List ContainerSet → List ContainerSet
store s [] = s ∷ []
store s (x ∷ xs) = let rest = store s xs in if x.id == s.id then s ∷ xs else x ∷ rest

abbrev pub find : ℕ → List ContainerSet → Option ContainerSet
find k [] = none
find k (x ∷ xs) = let rest = find k xs in if x.id == k then some x else rest

abbrev pub remove : ℕ → List ContainerSet → List ContainerSet
remove k [] = []
remove k (x ∷ xs) = let rest = remove k xs in if x.id == k then xs else x ∷ rest

-- The loop over the map in GetContainerSet; `none` stands for "NEW".
unfoldable pub shortest_queue : ℕ → List ContainerSet → Option ℕ → ℕ → Option ℕ
shortest_queue limit [] best len = best
shortest_queue limit (s ∷ ss) best len =
    let found = ltb (length s.wait_queue) limit && ltb (length s.wait_queue) len in
    shortest_queue limit ss (if found then some s.id else best)
      (if found then length s.wait_queue else len)

abbrev pub add_queue : ℕ → ContainerSet → ContainerSet
add_queue r s = record s { wait_queue = s.wait_queue ++ (r ∷ []) }

abbrev pub set_request : ℕ → ContainerSet → ContainerSet
set_request r s = record s { request = r; status = running }

-- How a call of GetContainerSet goes on once it has left the lock: with a set that was free, with
-- waiting on the queue of a set, with loading the graph into a new set, or with none.
pub data Answer : Type 0 where
  takes : ContainerSet → Answer
  waits : ℕ → Answer
  loads : ContainerSet → Answer
  refused : Answer

-- NewContainerSet, and what `LoadGraph` and `SetRequest` do to its fields.
abbrev pub new_container_set : ℕ → ℕ → ℕ → Grant → ContainerSet
new_container_set id r now g = set_request r (record {
  id = id;
  request = r;
  wait_queue = [];
  last_used = now;
  status = load_graph;
  grant = g;
})

-- NewContainerSet failed, or its set goes into the map.
abbrev pub with_new :
    ℕ → ℕ → ℕ → AppResourceManager → Cluster × Option Grant → AppResourceManager × Cluster × Answer
with_new id r now m (c, none) = (m, c, refused)
with_new id r now m (c, some g) =
    let s = new_container_set id r now g in
    (record m { available = store s m.available }, c, loads s)

module _ (sort : List Node → List Node) (share_cpu : Bool)
    (slot_per_container queue_length : ℕ) where
  -- What is under the lock of GetContainerSet when no set is free. `ordered` has the entries of the map
  -- in the order in which the loop meets them.
  abbrev pub wait_or_new :
      ℕ
      → ℕ
      → ℕ
      → ℕ
      → AppResourceManager
      → Cluster
      → Option ContainerSet
      → Option (AppResourceManager × Cluster × Answer)
  wait_or_new id r now partition m c (some s) =
      some (record m { available = store (add_queue r s) m.available }, c, waits s.id)
  wait_or_new id r now partition m c none = do
    answer ← get sort share_cpu slot_per_container partition c
    some (with_new id r now m answer)

  abbrev pub chosen_set : List ContainerSet → List ContainerSet → Option ContainerSet
  chosen_set ordered available =
      if queue_length == 0
      then none
      else shortest_queue queue_length ordered none max_int >>= λ k. find k available

  abbrev pub take_free :
      ℕ
      → ℕ
      → ℕ
      → ℕ
      → List ContainerSet
      → AppResourceManager
      → Cluster
      → Option (ContainerSet × List ContainerSet)
      → Option (AppResourceManager × Cluster × Answer)
  take_free id r now partition ordered m c (some (s, rest)) =
      let s' = set_request r (record s { last_used = now }) in
      some (record { free = rest; available = store s' m.available }, c, takes s')
  take_free id r now partition ordered m c none =
      wait_or_new id r now partition m c (chosen_set ordered m.available)

  -- GetContainerSet for the request `r`; `id` is the random number of a new set.
  unfoldable pub get_container_set :
      ℕ
      → ℕ
      → ℕ
      → ℕ
      → List ContainerSet
      → AppResourceManager
      → Cluster
      → Option (AppResourceManager × Cluster × Answer)
  unfolding shortest_queue
  get_container_set id r now partition ordered m c =
      take_free id r now partition ordered m c (last_of m.free)

-- NextQueue and what follows: the first request that waits, if one does, runs on the set.
abbrev pub next_queue : AppResourceManager → ContainerSet → List ℕ → AppResourceManager × Option ℕ
next_queue m s [] =
    (record { free = m.free ++ (s ∷ []); available = remove s.id m.available }, none)
next_queue m s (r ∷ rs) = (
  record m { available = store (set_request r (record s { wait_queue = rs })) m.available },
  some r,
)

-- PutContainerSet for a set in use; an id that is not in the map is outside the model.
unfoldable pub put_container_set : ℕ → AppResourceManager → Option (AppResourceManager × Option ℕ)
put_container_set id m = do s ← find id m.available; some (next_queue m s s.wait_queue)

abbrev pub is_idle : ℕ → ContainerSet → Bool
is_idle cur s = ltb allow_idle_time (cur - s.last_used)

-- The sets to be removed, and the new pool.
abbrev pub idle_sets : ℕ → List ContainerSet → List ContainerSet
idle_sets cur [] = []
idle_sets cur (s ∷ ss) = let rest = idle_sets cur ss in if is_idle cur s then s ∷ rest else rest

abbrev pub kept_sets : ℕ → List ContainerSet → List ContainerSet
kept_sets cur [] = []
kept_sets cur (s ∷ ss) = let rest = kept_sets cur ss in if is_idle cur s then rest else s ∷ rest

-- PutResource for each of them, with the containers in the order of the grant.
unfoldable pub put_resources : ℕ → List ContainerSet → Cluster → Option Cluster
put_resources slot_per_container [] c = some c
put_resources slot_per_container (s ∷ ss) c = do
  c' ← put slot_per_container s.grant c
  put_resources slot_per_container ss c'

-- One tick of Recycle.
unfoldable pub recycle :
    ℕ → ℕ → AppResourceManager → Cluster → Option (AppResourceManager × Cluster)
unfolding put_resources
recycle cur slot_per_container m c = do
  c' ← put_resources slot_per_container (idle_sets cur m.free) c
  some (record m { free = kept_sets cur m.free }, c')
