-- ===== src/Manager/System.antt =====
-- The manager of src/faas_controller/src/faas/app_resource_manager.go under its callers, as
-- `Execute` of src/faas_controller/src/application/graph.go calls it: which request runs on which set.
-- A step is what happens under one holding of the lock.
use mathlib.Core.List.{Permᴰ}
use faa_sgraph.Base.{ℕ, ◌≡◌, ◌≢◌, Bool, none, some, List, [], ◌∷◌, ◌++◌, All, Option}
use faa_sgraph.Cluster.{Node, Cluster}
use faa_sgraph.Manager.{
  ContainerSet, AppResourceManager, Answer, takes, waits, loads, refused, get_container_set,
  put_container_set, recycle,
}
use faa_sgraph.Manager.Lists.{ids_of}

-- `running` has a request and the id of its set, from GetContainerSet on to PutContainerSet.
pub record System : Type 0 where
  pub manager : AppResourceManager
  pub cluster : Cluster
  pub running : List (ℕ × ℕ)

abbrev pub initial : Cluster → System
initial c = record { manager = record { free = []; available = [] }; cluster = c; running = [] }

-- A request that takes a set or loads a new one runs on it; one that waits runs later, and one that
-- is refused sleeps and comes again.
abbrev pub started : ℕ → Answer → List (ℕ × ℕ) → List (ℕ × ℕ)
started r (takes s) running = (r, s.id) ∷ running
started r (loads s) running = (r, s.id) ∷ running
started r (waits k) running = running
started r refused running = running

-- The request that waited longest runs on the set that is handed over.
abbrev pub handed_over : ℕ → Option ℕ → List (ℕ × ℕ) → List (ℕ × ℕ)
handed_over id none running = running
handed_over id (some r) running = (r, id) ∷ running

abbrev pub Unused : ℕ → AppResourceManager → Type 0
Unused id m = All (λ j. j ≢ id) (ids_of m.free) × All (λ j. j ≢ id) (ids_of m.available)

module _ (sort : List Node → List Node) (share_cpu : Bool)
    (slot_per_container queue_length : ℕ) where
  -- The id of a new set is one that no set has.
  pub data Step : System → System → Type 0 where
    arrives :
        (id r now partition : ℕ) (ordered : List ContainerSet) {m m' : AppResourceManager}
        {c c' : Cluster} {running : List (ℕ × ℕ)} {answer : Answer}
        → Permᴰ ordered m.available
        → Unused id m
        → get_container_set sort share_cpu slot_per_container queue_length id r now partition
            ordered m c
          ≡ some (m', c', answer)
        → Step
            (record { manager = m; cluster = c; running = running })
            (record { manager = m'; cluster = c'; running = started r answer running })
    finishes :
        (id r : ℕ) (before after : List (ℕ × ℕ)) {m m' : AppResourceManager} {c : Cluster}
        {next : Option ℕ}
        → put_container_set id m ≡ some (m', next)
        → Step
            (record { manager = m; cluster = c; running = before ++ ((r, id) ∷ after) })
            (record { manager = m'; cluster = c; running = handed_over id next (before ++ after) })
    ticks :
        (cur : ℕ) {m m' : AppResourceManager} {c c' : Cluster} {running : List (ℕ × ℕ)}
        → recycle cur slot_per_container m c ≡ some (m', c')
        → Step
            (record { manager = m; cluster = c; running = running })
            (record { manager = m'; cluster = c'; running = running })

  pub data Reaches : System → System → Type 0 where
    stop : {s : System} → Reaches s s
    next : {s t u : System} → Reaches s t → Step t u → Reaches s u
