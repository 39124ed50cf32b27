-- ===== src/Controller.antt =====
-- `Execute` of src/faas_controller/src/application/graph.go: the loop in which a request asks for a
-- set of containers, and the default in `Serialize`. Other requests change the state between two
-- calls, so that the states that the calls meet are a list.
pub mod Retry
pub mod Tests
use mathlib.Core.Option
use faa_sgraph.Cluster.{Node, Cluster}
use faa_sgraph.Manager.{
  ContainerSet, AppResourceManager, Answer, refused, takes, waits, loads, get_container_set,
}
use faa_sgraph.Base.{
  ℕ, ◌+◌, ◌*◌, Bool, true, false, Option, none, some, List, [], ◌∷◌, ◌==◌, if◌then◌else◌, ◌>>=◌,
}

-- What a call of GetContainerSet meets: the identifier that a new set would get, the time, the order in
-- which the loop goes over the map, the manager and the cluster.
pub record Meets : Type 0 where
  pub new_id : ℕ
  pub now : ℕ
  pub ordered : List ContainerSet
  pub manager : AppResourceManager
  pub cluster : Cluster

-- `containerSet == nil` is what the loop looks at; a request that waits on a queue gets its set.
abbrev pub or_nil : Answer → Option Answer
or_nil refused = none
or_nil (takes s) = some (takes s)
or_nil (waits k) = some (waits k)
or_nil (loads s) = some (loads s)

-- GetContainerSet, as the loop of request r calls it.
abbrev pub ask : (List Node → List Node) → Bool → ℕ → ℕ → ℕ → ℕ → Meets → Option (Option Answer)
ask sort share_cpu per queue_length partition r s = do
  t ←
      get_container_set sort share_cpu per queue_length s.new_id r s.now partition s.ordered
        s.manager s.cluster
  some (or_nil t.2)

-- `sleep` when the loop starts, in tenths of a second.
abbrev pub first_sleep : ℕ
first_sleep = 3

module _ {State A : Type 0} (attempt : State → Option (Option A)) where
  -- What one call answered: a set of containers ends the loop, and the request sleeps otherwise; the
  -- time that it has slept is counted. The list ends while the request still waits.
  abbrev pub or_sleep : ℕ → ℕ → (ℕ → ℕ → Option (A × ℕ)) → Option A → Option (A × ℕ)
  or_sleep sleep slept again (some a) = some (a, slept)
  or_sleep sleep slept again none = again (sleep * 2) (slept + sleep)

  unfoldable pub retry : List State → ℕ → ℕ → Option (A × ℕ)
  retry [] sleep slept = none
  retry (s ∷ ss) sleep slept = do answer ← attempt s; or_sleep sleep slept (retry ss) answer

  unfoldable pub execute : List State → Option (A × ℕ)
  unfolding retry
  execute states = retry states first_sleep 0

-- `vertex_array_cnt` of the message to the coordinator.
abbrev pub sent_array_cnt : ℕ → ℕ
sent_array_cnt vertex_array_cnt = if vertex_array_cnt == 0 then 1 else vertex_array_cnt
