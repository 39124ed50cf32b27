-- ===== src/Manager/Queue.antt =====
-- The waiting queues of src/faas_controller/src/faas/app_resource_manager.go: which one a request
-- joins, and when its turn comes.
use mathlib.Core.List.{append_assoc, append-nil}
use faa_sgraph.Base.{
  ℕ, ◌≤◌, ◌<◌, ◌≡◌, refl, sym, subst, ◌⊎◌, inl, inr, true, Option, none, some, List, [], ◌∷◌, ◌++◌,
  arith, ltb, ◌&&◌, if◌then◌else◌, Bool-cases, All, All-append, All-map, Mem, Mem-append_left,
  Mem-append_right, length,
}
use faa_sgraph.Manager.{ContainerSet, shortest_queue, max_int}

abbrev pub queued : ContainerSet → ℕ
queued s = length s.wait_queue

-- What the loop has after the sets that it has seen.
abbrev pub IsShortest : ℕ → List ContainerSet → Option ℕ → Type 0
IsShortest limit seen best =
    ((best ≡ none) × All (λ u. limit ≤ queued u) seen)
    ⊎ ((t : ContainerSet) × Mem t seen
        × (best ≡ some t.id)
        × (queued t < limit)
        × All (λ u. queued t ≤ queued u) seen)

abbrev LoopState : ℕ → List ContainerSet → Option ℕ → ℕ → Type 0
LoopState limit seen best len =
    ((best ≡ none) × (limit ≤ len) × All (λ u. limit ≤ queued u) seen)
    ⊎ ((t : ContainerSet) × Mem t seen
        × (best ≡ some t.id)
        × (len ≡ queued t)
        × (queued t < limit)
        × All (λ u. queued t ≤ queued u) seen)

module _ (limit : ℕ) where
  loop_step :
      (seen : List ContainerSet) (s : ContainerSet) (best : Option ℕ) (len : ℕ)
      → LoopState limit seen best len
      → let found = ltb (queued s) limit && ltb (queued s) len in
        LoopState limit
          (seen ++ (s ∷ []))
          (if found then some s.id else best)
          (if found then queued s else len)
  loop_step seen s best len (inl (e, big, a)) = elim (Bool-cases (ltb (queued s) limit)) [
    | inl less ↦
        let short : queued s < limit = ground arith in
        let also : ltb (queued s) len ≡ true = ground arith in
        rw (less, also)
          (inr (
            s,
            Mem-append_right s seen (s ∷ []) (inl refl),
            refl,
            refl,
            short,
            All-append (λ u. queued s ≤ queued u) seen (s ∷ [])
                (All-map (λ u. limit ≤ queued u) (λ u. queued s ≤ queued u) seen
                  (λ u h. omega arith) a)
                (omega arith, tt),
          ))
    | inr more ↦
        let long : limit ≤ queued s = ground arith in
        rw more (inl (e, big, All-append (λ u. limit ≤ queued u) seen (s ∷ []) a (long, tt)))
  ]
  loop_step seen s best len (inr (t, m, e, size, short, a)) =
      elim (Bool-cases (ltb (queued s) limit && ltb (queued s) len)) [
        | inl found ↦
            let shorter : queued s < queued t = ground arith in
            rw found (
              inr (
                s,
                Mem-append_right s seen (s ∷ []) (inl refl),
                refl,
                refl,
                omega arith,
                All-append (λ u. queued s ≤ queued u) seen (s ∷ [])
                    (All-map (λ u. queued t ≤ queued u) (λ u. queued s ≤ queued u) seen
                      (λ u h. omega arith) a)
                    (omega arith, tt),
              ))
        | inr kept ↦
            let longer : queued t ≤ queued s = ground arith in
            rw kept (
              inr (
                t,
                Mem-append_left t seen (s ∷ []) m,
                e,
                size,
                short,
                All-append (λ u. queued t ≤ queued u) seen (s ∷ []) a (longer, tt),
              ))
      ]

  loop_lem :
      (seen rest : List ContainerSet) (best : Option ℕ) (len : ℕ)
      → LoopState limit seen best len
      → IsShortest limit (seen ++ rest) (shortest_queue limit rest best len)
  unfolding shortest_queue
  loop_lem seen [] best len h =
      subst (λ l. IsShortest limit l best) (sym (append-nil seen))
        (elim h [
          | inl (e, big, a) ↦ inl (e, a)
          | inr (t, m, e, size, short, a) ↦ inr (t, m, e, short, a)
        ])
  loop_lem seen (s ∷ rest) best len h =
      let found = ltb (queued s) limit && ltb (queued s) len in
      subst
        (λ l. IsShortest limit l (
          shortest_queue limit rest (if found then some s.id else best)
            (if found then queued s else len)))
        (append_assoc seen (s ∷ []) rest)
        (loop_lem (seen ++ (s ∷ [])) rest (if found then some s.id else best)
          (if found then queued s else len) (loop_step seen s best len h))

  -- The loop of GetContainerSet finds a set with the shortest queue of all, when one is below the
  -- limit, and none otherwise.
  pub shortest_queue-IsShortest :
      (ordered : List ContainerSet)
      → limit ≤ max_int
      → IsShortest limit ordered (shortest_queue limit ordered none max_int)
  shortest_queue-IsShortest ordered big = loop_lem [] ordered none max_int (inl (refl, big, tt))
