-- ===== src/Manager/Reach.antt =====
-- Every state that callers can bring src/faas_controller/src/faas/app_resource_manager.go to.
use mathlib.Core.List.{Permᴰ}
use mathlib.Core.Option.{some-injective}
use faa_sgraph.Base.{
  ℕ, ◌≤◌, ◌<◌, ◌≡◌, refl, ap, sym, ◌∙◌, subst, inl, inr, Bool, Option, none, some, List, arith,
  ◌==◌, if◌then◌else◌, ◌>>=◌, >>=-eq-some, Bool-cases, Option-cases, All, All-Perm, Mem-Perm, times,
}
use faa_sgraph.Cluster.{Node, Cluster, Grant, get}
use faa_sgraph.Manager.{
  ContainerSet, AppResourceManager, Answer, new_container_set, chosen_set, take_free, wait_or_new,
  with_new, last_of, find, get_container_set, put_container_set, max_int, shortest_queue,
}
use faa_sgraph.Manager.Lists.{ids_of, last_of_lem, find-Mem}
use faa_sgraph.Manager.Queue.{queued, shortest_queue-IsShortest}
use faa_sgraph.Manager.System.{System, Step, Reaches, initial, started, Unused}
use faa_sgraph.Manager.Invariant.{Inv, initial-Inv, take-Inv, wait-Inv, new-Inv}
use faa_sgraph.Manager.Release.{next-Inv, recycle-Inv}

module _ (sort : List Node → List Node) (share_cpu : Bool) (per queue_length : ℕ) where
  -- A request waits for a set in use whose queue is below the limit.
  pub chosen_set_lem :
      (ordered available : List ContainerSet) (s : ContainerSet)
      → queue_length ≤ max_int
      → Permᴰ ordered available
      → ((k : ℕ) → times k (ids_of available) ≤ 1)
      → chosen_set sort share_cpu per queue_length ordered available ≡ some s
      → (find s.id available ≡ some s)
        × (queued s < queue_length)
        × All (λ u. queued s ≤ queued u) available
  chosen_set_lem ordered available s big perm once h = elim (Bool-cases (queue_length == 0)) [
    | inl no_queue ↦ absurd (ground (arith, h, no_queue))
    | inr queues ↦
        let h' : (shortest_queue queue_length ordered none max_int >>= λ k. find k available)
            ≡ some s =
          subst
            (λ b.
              (if b
                then none
                else shortest_queue queue_length ordered none max_int >>= λ k. find k available)
              ≡ some s)
            queues h in
        let (k, e, f) =
          >>=-eq-some (shortest_queue queue_length ordered none max_int) (λ k. find k available)
            h' in
        elim (shortest_queue-IsShortest queue_length ordered big) [
          | inl (missing, a) ↦ absurd (ground (arith, missing, e))
          | inr (t, mem, g, short, a) ↦
              let there =
                find-Mem t available (once t.id) (Mem-Perm t ordered available perm mem) in
              let key : t.id ≡ k = some-injective _ _ (sym g ∙ e) in
              let same : t ≡ s =
                some-injective _ _ (sym there ∙ ap (λ j. find j available) key ∙ f) in
              subst
                (λ u.
                  (find u.id available ≡ some u)
                  × (queued u < queue_length)
                  × All (λ v. queued u ≤ queued v) available)
                same (there, short, All-Perm (λ v. queued t ≤ queued v) ordered available perm a)
        ]
  ]

  with_new-Inv :
      (id r now : ℕ) (m : AppResourceManager) (c : Cluster) (running : List (ℕ × ℕ))
      (given : Cluster × Option Grant)
      → Unused id m
      → Inv queue_length (record { manager = m; cluster = c; running = running })
      → let (m', c', answer) = with_new id r now m given in
        Inv queue_length (record { manager = m'; cluster = c'; running = started r answer running })
  with_new-Inv id r now m c running (c', none) unused inv = record {
    unqueued = inv.unqueued;
    bounded = inv.bounded;
    once = inv.once;
    held = inv.held;
  }
  with_new-Inv id r now m c running (c', some g) unused inv =
      new-Inv queue_length r m c c' running (new_container_set id r now g) unused refl inv

  wait_or_new-Inv :
      (id r now partition : ℕ) (ordered : List ContainerSet) (m m' : AppResourceManager)
      (c c' : Cluster) (running : List (ℕ × ℕ)) (answer : Answer)
      → queue_length ≤ max_int
      → Permᴰ ordered m.available
      → Unused id m
      → wait_or_new sort share_cpu per queue_length id r now partition m c
          (chosen_set sort share_cpu per queue_length ordered m.available)
        ≡ some (m', c', answer)
      → Inv queue_length (record { manager = m; cluster = c; running = running })
      → Inv queue_length (record { manager = m'; cluster = c'; running = started r answer running })
  wait_or_new-Inv id r now partition ordered m m' c c' running answer big perm unused e inv =
      elim (Option-cases (chosen_set sort share_cpu per queue_length ordered m.available)) [
        | inr (s, chosen) ↦
            let e' =
              subst
                (λ o.
                  wait_or_new sort share_cpu per queue_length id r now partition m c o
                  ≡ some (m', c', answer))
                chosen e in
            let (found, short, least) =
              chosen_set_lem ordered m.available s big perm (λ k. omega (arith, inv.once k))
                chosen in
            subst
              (λ q.
                Inv queue_length
                  (record { manager = q.0; cluster = q.1; running = started r q.2 running }))
              (some-injective _ _ e') (wait-Inv queue_length r m c running s found short inv)
        | inl none_chosen ↦
            let e' =
              subst
                (λ o.
                  wait_or_new sort share_cpu per queue_length id r now partition m c o
                  ≡ some (m', c', answer))
                none_chosen e in
            let (given, f, g) = >>=-eq-some (get sort share_cpu per partition c) _ e' in
            subst
              (λ q.
                Inv queue_length
                  (record { manager = q.0; cluster = q.1; running = started r q.2 running }))
              (some-injective _ _ g) (with_new-Inv id r now m c running given unused inv)
      ]

  arrives-Inv :
      (id r now partition : ℕ) (ordered : List ContainerSet) (m m' : AppResourceManager)
      (c c' : Cluster) (running : List (ℕ × ℕ)) (answer : Answer)
      → queue_length ≤ max_int
      → Permᴰ ordered m.available
      → Unused id m
      → get_container_set sort share_cpu per queue_length id r now partition ordered m c
        ≡ some (m', c', answer)
      → Inv queue_length (record { manager = m; cluster = c; running = running })
      → Inv queue_length (record { manager = m'; cluster = c'; running = started r answer running })
  unfolding get_container_set
  arrives-Inv id r now partition ordered m m' c c' running answer big perm unused e inv =
      elim (Option-cases (last_of m.free)) [
        | inr ((s, rest), free) ↦
            let e' =
              subst
                (λ o.
                  take_free sort share_cpu per queue_length id r now partition ordered m c o
                  ≡ some (m', c', answer))
                free e in
            subst
              (λ q.
                Inv queue_length
                  (record { manager = q.0; cluster = q.1; running = started r q.2 running }))
              (some-injective _ _ e')
              (take-Inv queue_length r now m c running s rest (last_of_lem m.free rest s free) inv)
        | inl none_free ↦
            wait_or_new-Inv id r now partition ordered m m' c c' running answer big perm unused
              (subst
                (λ o.
                  take_free sort share_cpu per queue_length id r now partition ordered m c o
                  ≡ some (m', c', answer))
                none_free e)
              inv
      ]

  Step-Inv :
      {s t : System}
      → Step sort share_cpu per queue_length s t
      → queue_length ≤ max_int
      → Inv queue_length s
      → Inv queue_length t
  unfolding put_container_set
  Step-Inv
        (Step.arrives id r now partition ordered {m} {m'} {c} {c'} {running} {answer} perm unused e)
        big inv =
      arrives-Inv id r now partition ordered m m' c c' running answer big perm unused e inv
  Step-Inv (Step.finishes id r before after {m} {m'} {c} {next} e) big inv =
      let (s, found, f) = >>=-eq-some (find id m.available) _ e in
      next-Inv queue_length id r before after m m' c next s s.wait_queue found refl
        (some-injective _ _ f) inv
  Step-Inv (Step.ticks cur {m} {m'} {c} {c'} {running} e) big inv =
      recycle-Inv queue_length cur per m m' c c' running e inv

  -- In every state that calls of GetContainerSet, calls of PutContainerSet and ticks of Recycle lead
  -- to, in any order: no request waits for a free set, no queue is longer than QUEUE_LENGTH, no set
  -- is twice in the pools, and the sets in use are just those on which a request runs.
  pub Reaches-Inv :
      (c : Cluster) (t : System)
      → queue_length ≤ max_int
      → Reaches sort share_cpu per queue_length (initial c) t
      → Inv queue_length t
  Reaches-Inv c t big Reaches.stop = initial-Inv queue_length c
  Reaches-Inv c t big (Reaches.next {t = u} before step) =
      Step-Inv step big (Reaches-Inv c u big before)
