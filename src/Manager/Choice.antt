-- ===== src/Manager/Choice.antt =====
-- What GetContainerSet of src/faas_controller/src/faas/app_resource_manager.go does when no set is
-- free.
use mathlib.Core.List.{Permᴰ}
use faa_sgraph.Base.{
  ℕ, ◌≤◌, ◌<◌, ◌≡◌, refl, ap, ◌⊎◌, inl, inr, Bool, none, some, List, [], ◌∷◌, arith, ◌==◌, ◌>>=◌,
  Bool-cases, Option-cases, All, All-Perm, Mem-Perm, times,
}
use faa_sgraph.Cluster.{Node, Cluster, get}
use faa_sgraph.Manager.{
  ContainerSet, AppResourceManager, waits, add_queue, chosen_set, with_new, find, store,
  get_container_set, max_int, last_of,
}
use faa_sgraph.Manager.Lists.{ids_of, find-Mem}
use faa_sgraph.Manager.Queue.{queued, shortest_queue-IsShortest}
use faa_sgraph.Manager.Reach.{chosen_set_lem}

All-any {κ} :
    (P : ContainerSet → Type κ) → ((s : ContainerSet) → P s) → (ss : List ContainerSet) → All P ss
All-any P f [] = tt
All-any P f (s ∷ ss) = (f s, All-any P f ss)

module _ (sort : List Node → List Node) (share_cpu : Bool) (per queue_length : ℕ) where
  full_queues :
      (ordered available : List ContainerSet)
      → queue_length ≤ max_int
      → Permᴰ ordered available
      → ((k : ℕ) → times k (ids_of available) ≤ 1)
      → chosen_set sort share_cpu per queue_length ordered available ≡ none
      → All (λ u. queue_length ≤ queued u) available
  full_queues ordered available big perm once h = elim (Bool-cases (queue_length == 0)) [
    | inl no_queue ↦ All-any (λ u. queue_length ≤ queued u) (λ u. ground arith) available
    | inr queues ↦ elim (shortest_queue-IsShortest queue_length ordered big) [
      | inl (missing, a) ↦ All-Perm (λ u. queue_length ≤ queued u) ordered available perm a
      | inr (t, mem, g, short, a) ↦
          let there = find-Mem t available (once t.id) (Mem-Perm t ordered available perm mem) in
          let chosen : chosen_set sort share_cpu per queue_length ordered available ≡ some t =
            rw (queues, g) there in
          absurd (ground (arith, h, chosen))
    ]
  ]

  -- With no free set, a request waits for a set in use whose queue is below QUEUE_LENGTH and no longer
  -- than any other; a new set is asked of the cluster when every queue is as long as that.
  pub get_container_set-shortest :
      (id r now partition : ℕ) (ordered : List ContainerSet) (m : AppResourceManager) (c : Cluster)
      → queue_length ≤ max_int
      → Permᴰ ordered m.available
      → ((k : ℕ) → times k (ids_of m.available) ≤ 1)
      → m.free ≡ []
      → (All (λ u. queue_length ≤ queued u) m.available
          × (get_container_set sort share_cpu per queue_length id r now partition ordered m c ≡ (
              get sort share_cpu per partition c >>= λ answer. some (with_new id r now m answer))))
        ⊎ ((s : ContainerSet) × (find s.id m.available ≡ some s)
            × (queued s < queue_length)
            × All (λ u. queued s ≤ queued u) m.available
            × (get_container_set sort share_cpu per queue_length id r now partition ordered m c
                ≡ some (record m { available = store (add_queue r s) m.available }, c, waits s.id)))
  unfolding get_container_set
  get_container_set-shortest id r now partition ordered m c big perm once free =
      let none_free : last_of m.free ≡ none = ap last_of free in
      elim (Option-cases (chosen_set sort share_cpu per queue_length ordered m.available)) [
        | inl e ↦ inl (full_queues ordered m.available big perm once e, rw (none_free, e) refl)
        | inr (s, e) ↦
            let (found, short, least) =
              chosen_set_lem sort share_cpu per queue_length ordered m.available s big perm once
                e in
            inr (s, found, short, least, rw (none_free, e) refl)
      ]
