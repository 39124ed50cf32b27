-- ===== src/Manager/Release.antt =====
-- PutContainerSet and Recycle of src/faas_controller/src/faas/app_resource_manager.go keep what holds
-- of the manager.
use mathlib.Core.Option.{some-injective}
use faa_sgraph.Base.{
  ℕ, ◌+◌, ◌≤◌, ◌≡◌, ap, sym, ◌∙◌, subst, inl, inr, Option, some, List, [], ◌∷◌, ◌++◌, arith,
  >>=-eq-some, Bool-cases, All, All-append, length, times,
}
use faa_sgraph.Cluster.{Cluster}
use faa_sgraph.Manager.{
  ContainerSet, AppResourceManager, set_request, find, remove, idle_sets, kept_sets, is_idle,
  put_resources, recycle, next_queue,
}
use faa_sgraph.Manager.Lists.{
  ids_of, find-id, store_found, times-append, times-remove, All-store, All-remove, All-find,
}
use faa_sgraph.Manager.Queue.{queued}
use faa_sgraph.Manager.System.{handed_over}
use faa_sgraph.Manager.Invariant.{Inv, holds, holds-middle}

module _ (queue_length : ℕ) where
  pub next-Inv :
      (id r : ℕ) (before after : List (ℕ × ℕ)) (m m' : AppResourceManager) (c : Cluster)
      (next : Option ℕ) (s : ContainerSet) (queue : List ℕ)
      → find id m.available ≡ some s
      → s.wait_queue ≡ queue
      → next_queue m s queue ≡ (m', next)
      → Inv queue_length
          (record { manager = m; cluster = c; running = before ++ ((r, id) ∷ after) })
      → Inv queue_length
          (record { manager = m'; cluster = c; running = handed_over id next (before ++ after) })
  next-Inv id r before after m m' c next s [] found empty e inv =
      let same = find-id id m.available s found in
      let found' = subst (λ k. find k m.available ≡ some s) (sym same) found in
      let removed : (k : ℕ)
          → times k (ids_of m.available)
            ≡ times k (s.id ∷ []) + times k (ids_of (remove s.id m.available)) =
        λ k. times-remove s.id k s m.available found' ∙ omega arith in
      let freed : (k : ℕ)
          → times k (ids_of (m.free ++ (s ∷ []))) ≡ times k (ids_of m.free) + times k (s.id ∷ []) =
        λ k. times-append k m.free (s ∷ []) in
      let gone : (k : ℕ)
          → holds k (before ++ ((r, id) ∷ after))
            ≡ times k (s.id ∷ []) + holds k (before ++ after) =
        λ k.
          holds-middle k r id before after
          ∙ ap (λ j. times k (j ∷ []) + holds k (before ++ after)) (sym same) in
      subst
        (λ q.
          Inv queue_length
            (record { manager = q.0; cluster = c; running = handed_over id q.1 (before ++ after) }))
        e
        (record {
          unqueued = All-append (λ t. t.wait_queue ≡ []) m.free (s ∷ []) inv.unqueued (empty, tt);
          bounded = All-remove (λ t. queued t ≤ queue_length) s.id m.available inv.bounded;
          once = λ k. omega (arith, inv.once k, removed k, freed k);
          held = λ k. omega (arith, inv.held k, removed k, gone k);
        })
  next-Inv id r before after m m' c next s (r' ∷ rs) found waiting e inv =
      let s' = set_request r' (record s { wait_queue = rs }) in
      let same = find-id id m.available s found in
      let found' = subst (λ k. find k m.available ≡ some s) (sym same) found in
      let kept = store_found s' s m.available found' in
      let before_it =
        All-find (λ t. queued t ≤ queue_length) s.id s m.available inv.bounded found' in
      subst
        (λ q.
          Inv queue_length
            (record { manager = q.0; cluster = c; running = handed_over id q.1 (before ++ after) }))
        e
        (record {
          unqueued = inv.unqueued;
          bounded =
              All-store (λ t. queued t ≤ queue_length) s' m.available inv.bounded
                (omega (arith, ap length waiting));
          once = λ k. omega (arith, inv.once k, ap (times k) kept);
          held =
              λ k. omega (arith, inv.held k, ap (times k) kept, holds-middle k r id before after);
        })

  All-kept :
      (P : ContainerSet → Type 0) (cur : ℕ) (ss : List ContainerSet)
      → All P ss
      → All P (kept_sets cur ss)
  All-kept P cur [] a = tt
  All-kept P cur (s ∷ ss) (p, a) = elim (Bool-cases (is_idle cur s)) [
    | inl idle ↦ rw (kept_sets, idle) (All-kept P cur ss a)
    | inr fresh ↦ rw (kept_sets, fresh) (p, All-kept P cur ss a)
  ]

  times-kept :
      (cur k : ℕ) (ss : List ContainerSet)
      → times k (ids_of (kept_sets cur ss)) ≤ times k (ids_of ss)
  times-kept cur k [] = omega arith
  times-kept cur k (s ∷ ss) = elim (Bool-cases (is_idle cur s)) [
    | inl idle ↦ rw (kept_sets, idle) (omega (arith, times-kept cur k ss))
    | inr fresh ↦ rw (kept_sets, fresh) (omega (arith, times-kept cur k ss))
  ]

  pub recycle-Inv :
      (cur per : ℕ) (m m' : AppResourceManager) (c c' : Cluster) (running : List (ℕ × ℕ))
      → recycle cur per m c ≡ some (m', c')
      → Inv queue_length (record { manager = m; cluster = c; running = running })
      → Inv queue_length (record { manager = m'; cluster = c'; running = running })
  unfolding recycle
  recycle-Inv cur per m m' c c' running e inv =
      let (c1, f, g) = >>=-eq-some (put_resources per (idle_sets cur m.free) c) _ e in
      subst (λ q. Inv queue_length (record { manager = q.0; cluster = q.1; running = running }))
        (some-injective _ _ g)
        (record {
          unqueued = All-kept (λ t. t.wait_queue ≡ []) cur m.free inv.unqueued;
          bounded = inv.bounded;
          once = λ k. omega (arith, inv.once k, times-kept cur k m.free);
          held = inv.held;
        })
