-- ===== src/Manager/Turns.antt =====
-- What a call of PutContainerSet in src/faas_controller/src/faas/app_resource_manager.go finds, and
-- when a waiting request has its turn.
use mathlib.Core.List.{append-nil, append_assoc}
use faa_sgraph.Base.{
  ℕ, zero, suc, ◌≤◌, ◌≡◌, refl, ap, sym, ◌∙◌, Bool, Option, some, List, [], ◌∷◌, ◌++◌, arith,
  length, ◌>>=◌,
}
use faa_sgraph.Cluster.{Node, Cluster}
use faa_sgraph.Manager.{
  ContainerSet, AppResourceManager, find, store, set_request, put_container_set, next_queue,
  max_int, add_queue, wait_or_new,
}
use faa_sgraph.Manager.Lists.{find-id, find-store, find_total}
use faa_sgraph.Manager.System.{System, Reaches, initial}
use faa_sgraph.Manager.Invariant.{holds, holds-middle, times_self}
use faa_sgraph.Manager.Reach.{Reaches-Inv}

-- In every state that can be reached, a request that runs is alone on its set, and its call of
-- PutContainerSet finds the set in the map.
pub put_container_set_alone :
    (sort : List Node → List Node) (share_cpu : Bool) (per queue_length : ℕ) (c : Cluster)
    (t : System) (r id : ℕ) (before after : List (ℕ × ℕ))
    → queue_length ≤ max_int
    → Reaches sort share_cpu per queue_length (initial c) t
    → t.running ≡ before ++ ((r, id) ∷ after)
    → (holds id (before ++ after) ≡ 0)
      × ((m' : AppResourceManager) × (next : Option ℕ) × (put_container_set id t.manager
            ≡ some (m', next)))
unfolding put_container_set
put_container_set_alone sort share_cpu per queue_length c t r id before after big reach runs =
    let inv = Reaches-Inv sort share_cpu per queue_length c t big reach in
    let count = ap (holds id) runs ∙ holds-middle id r id before after in
    let one = times_self id in
    let (s, found) = find_total id t.manager.available (omega (arith, count, one, inv.held id)) in
    (
      omega (arith, count, one, inv.held id, inv.once id),
      (
        (next_queue t.manager s s.wait_queue).0,
        (next_queue t.manager s s.wait_queue).1,
        rw found refl,
      ),
    )

-- The requests that run on a set one after another, each when the one before calls PutContainerSet.
abbrev pub turns : ℕ → ℕ → AppResourceManager → Option (List ℕ × AppResourceManager)
turns zero id m = some ([], m)
turns (suc n) id m = do
  (m', next) ← put_container_set id m
  r ← next
  (rs, m'') ← turns n id m'
  some (r ∷ rs, m'')

-- Requests for which GetContainerSet finds no free set and chooses the set `id`, one after another. No
-- new set is made, so that its id, the time and the partition are not used.
abbrev pub joins :
    (List Node → List Node)
    → Bool
    → ℕ
    → ℕ
    → List ℕ
    → ℕ
    → AppResourceManager
    → Cluster
    → Option (AppResourceManager × Cluster)
joins sort share_cpu per queue_length [] id m c = some (m, c)
joins sort share_cpu per queue_length (r ∷ rs) id m c = do
  s ← find id m.available
  (m', c', answer) ← wait_or_new sort share_cpu per queue_length 0 r 0 0 m c (some s)
  joins sort share_cpu per queue_length rs id m' c'

-- The queue after requests have joined it.
joins-wait_queue :
    (sort : List Node → List Node) (share_cpu : Bool) (per queue_length : ℕ) (rs : List ℕ) (id : ℕ)
    (m : AppResourceManager) (c : Cluster) (s : ContainerSet)
    → find id m.available ≡ some s
    → (m' : AppResourceManager) × (s' : ContainerSet) × (joins sort share_cpu per queue_length rs id
          m c
        ≡ some (m', c))
      × (find id m'.available ≡ some s')
      × (s'.wait_queue ≡ s.wait_queue ++ rs)
      × (m'.free ≡ m.free)
joins-wait_queue sort share_cpu per queue_length [] id m c s found =
    (m, s, refl, found, sym (append-nil s.wait_queue), refl)
joins-wait_queue sort share_cpu per queue_length (r ∷ rs) id m c s found =
    let s1 = add_queue r s in
    let m1 : AppResourceManager = record m { available = store s1 m.available } in
    let there : find id (store s1 m.available) ≡ some s1 =
      ap (λ k. find k (store s1 m.available)) (sym (find-id id m.available s found))
      ∙ find-store s1 m.available in
    let (m', s', e, f, g, free) =
      joins-wait_queue sort share_cpu per queue_length rs id m1 c s1 there in
    (m', s', rw found e, f, g ∙ append_assoc s.wait_queue (r ∷ []) rs, free)

turns-wait_queue :
    (waiting more : List ℕ) (id : ℕ) (m : AppResourceManager) (s : ContainerSet)
    → find id m.available ≡ some s
    → s.wait_queue ≡ waiting ++ more
    → (m' : AppResourceManager) × (s' : ContainerSet) × (turns (length waiting) id m
        ≡ some (waiting, m'))
      × (find id m'.available ≡ some s')
      × (s'.wait_queue ≡ more)
      × (m'.free ≡ m.free)
unfolding put_container_set
turns-wait_queue [] more id m s found queue = (m, s, refl, found, queue, refl)
turns-wait_queue (r ∷ rs) more id m s found queue =
    let s1 = set_request r (record s { wait_queue = rs ++ more }) in
    let m1 : AppResourceManager = record m { available = store s1 m.available } in
    let there : find id (store s1 m.available) ≡ some s1 =
      ap (λ k. find k (store s1 m.available)) (sym (find-id id m.available s found))
      ∙ find-store s1 m.available in
    let (m', s', e, f, g, free) = turns-wait_queue rs more id m1 s1 there refl in
    (m', s', rw (found, queue, e) refl, f, g, free)

-- Requests that GetContainerSet adds to the queue of a set on which nobody waits run on it in the order
-- in which they joined, one for each call of PutContainerSet, and those that joined behind them wait
-- on; the free sets and the cluster stay as they were.
pub turns-joins :
    (sort : List Node → List Node) (share_cpu : Bool) (per queue_length : ℕ) (waiting more : List ℕ)
    (id : ℕ) (m : AppResourceManager) (c : Cluster) (s : ContainerSet)
    → find id m.available ≡ some s
    → s.wait_queue ≡ []
    → (m1 m' : AppResourceManager) × (s' : ContainerSet) × (joins sort share_cpu per queue_length
          (waiting ++ more)
          id
          m
          c
        ≡ some (m1, c))
      × (turns (length waiting) id m1 ≡ some (waiting, m'))
      × (find id m'.available ≡ some s')
      × (s'.wait_queue ≡ more)
      × (m'.free ≡ m.free)
turns-joins sort share_cpu per queue_length waiting more id m c s found nobody =
    let (m1, s1, joined, found1, queue, free1) =
      joins-wait_queue sort share_cpu per queue_length (waiting ++ more) id m c s found in
    let all : s1.wait_queue ≡ waiting ++ more = queue ∙ ap (λ q. q ++ (waiting ++ more)) nobody in
    let (m', s', e, f, g, free) = turns-wait_queue waiting more id m1 s1 found1 all in
    (m1, m', s', joined, e, f, g, free ∙ free1)
