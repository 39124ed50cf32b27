-- ===== src/Controller/Retry.antt =====
-- When the loop of `Execute` in src/faas_controller/src/application/graph.go ends, for requests that
-- find no set of their application, as src/faas_controller/src/faas/app_resource_manager.go and
-- src/faas_controller/src/faas/cluster.go answer them.
use faa_sgraph.Base.{
  ℕ, zero, suc, ◌+◌, ◌-◌, ◌*◌, ◌^◌, ◌≤◌, ◌<◌, ◌≡◌, refl, ap, ◌∙◌, Bool, true, Option, none, some,
  List, [], ◌∷◌, ◌++◌, arith, ltb, length, max, All, ◌>>=◌,
}
use faa_sgraph.Cluster.{Grant, get}
use faa_sgraph.Cluster.Sort.{Sorting}
use faa_sgraph.Cluster.Account.{Wf, get-Granted}
use faa_sgraph.Manager.{Answer, loads, new_container_set, get_container_set, chosen_set, last_of}
use faa_sgraph.Controller.{Meets, ask, retry, execute, or_sleep, first_sleep}

power_suc : (n : ℕ) → 2 * 2 ^ n ≡ 2 ^ suc n
power_suc n = grind arith

power_positive : (n : ℕ) → 0 < 2 ^ n
power_positive zero = omega arith
power_positive (suc n) = let e = power_suc n in omega (arith, e, power_positive n)

-- Twice the time, once more.
doubled :
    (sleep slept p : ℕ)
    → 0 < p
    → (slept + sleep) + sleep * 2 * (p - 1) ≡ slept + sleep * (2 * p - 1)
doubled sleep slept zero h = elim h [ ]
doubled sleep slept (suc q) h =
    let a : suc q - 1 ≡ q = omega arith in
    let b : 2 * suc q - 1 ≡ 2 * q + 1 = omega arith in rw (a, b) (grind arith)

module _ (sorting : Sorting) (share_cpu : Bool) (per queue_length partition r : ℕ) where
  abbrev pub asks : Meets → Option (Option Answer)
  asks = ask sorting.sort share_cpu per queue_length partition r

  -- A state in which no set of the application is free and none has room in its queue.
  pub record NoSet (s : Meets) : Type 0 where
    pub none_free : s.manager.free ≡ []
    pub none_chosen :
        chosen_set sorting.sort share_cpu per queue_length s.ordered s.manager.available ≡ none

  -- In it the request is refused where the cluster has fewer slots than it wants.
  ask-refused :
      (s : Meets) → NoSet s → s.cluster.current_slot < max 2 partition → asks s ≡ some none
  unfolding get_container_set get
  ask-refused s no_set less =
      let refuses : ltb s.cluster.current_slot (max 2 partition) ≡ true = ground arith in
      let empty : last_of s.manager.free ≡ none = ap last_of no_set.none_free in
      rw (empty, no_set.none_chosen, refuses) refl

  -- And it loads a new set where the cluster has as many.
  ask-loads :
      (s : Meets)
      → 0 < per
      → NoSet s
      → Wf s.cluster
      → max 2 partition ≤ s.cluster.current_slot
      → (g : Grant) × (asks s ≡ some (some (loads (new_container_set s.new_id r s.now g))))
  unfolding get_container_set
  ask-loads s one no_set wf enough =
      let (c', g, e, granted) =
        get-Granted sorting share_cpu per partition s.cluster one wf enough in
      let empty : last_of s.manager.free ≡ none = ap last_of no_set.none_free in
      (g, rw (empty, no_set.none_chosen, e) refl)

  -- After refusals, an answer other than one ends the loop.
  retry-answer :
      (busy more : List Meets) (s : Meets) (a : Answer) (sleep slept : ℕ)
      → All (λ b. asks b ≡ some none) busy
      → asks s ≡ some (some a)
      → retry asks (busy ++ (s ∷ more)) sleep slept
        ≡ some (a, slept + sleep * (2 ^ length busy - 1))
  unfolding retry
  retry-answer [] more s a sleep slept refusals answer =
      let time : slept ≡ slept + sleep * (2 ^ 0 - 1) = omega arith in
      ap (λ o. o >>= or_sleep asks sleep slept (retry asks more)) answer
      ∙ ap (λ t. some (a, t)) time
  retry-answer (b ∷ busy) more s a sleep slept (none_now, refusals) answer =
      let later = retry-answer busy more s a (sleep * 2) (slept + sleep) refusals answer in
      let time : (slept + sleep) + sleep * 2 * (2 ^ length busy - 1)
          ≡ slept + sleep * (2 ^ suc (length busy) - 1) =
        doubled sleep slept (2 ^ length busy) (power_positive (length busy))
        ∙ ap (λ p. slept + sleep * (p - 1)) (power_suc (length busy)) in
      ap (λ o. o >>= or_sleep asks sleep slept (retry asks (busy ++ (s ∷ more)))) none_now
      ∙ later
      ∙ ap (λ t. some (a, t)) time

  refusals-All :
      (busy : List Meets)
      → All (λ b. NoSet b × (b.cluster.current_slot < max 2 partition)) busy
      → All (λ b. asks b ≡ some none) busy
  refusals-All [] a = tt
  refusals-All (b ∷ busy) ((no_set, less), a) = (ask-refused b no_set less, refusals-All busy a)

  -- A request whose application has no free set and no queue with room is refused by
  -- GetContainerSet while the cluster has fewer free slots than it wants, and sleeps 0.3 seconds,
  -- then 0.6 and so on, twice as long each time. The first call that meets a well-formed cluster
  -- with enough slots ends the loop with a new set, after 0.3 * (2 ^ n - 1) seconds for n
  -- refusals. A container has at least one slot.
  pub execute-loads :
      (busy more : List Meets) (s : Meets)
      → 0 < per
      → All (λ b. NoSet b × (b.cluster.current_slot < max 2 partition)) busy
      → NoSet s
      → Wf s.cluster
      → max 2 partition ≤ s.cluster.current_slot
      → (g : Grant) × (execute asks (busy ++ (s ∷ more))
          ≡ some (loads (new_container_set s.new_id r s.now g), 3 * (2 ^ length busy - 1)))
  unfolding execute
  execute-loads busy more s one refused_first no_set wf enough =
      let (g, e) = ask-loads s one no_set wf enough in
      let done =
        retry-answer busy more s (loads (new_container_set s.new_id r s.now g)) first_sleep 0
          (refusals-All busy refused_first) e in
      let time : 0 + first_sleep * (2 ^ length busy - 1) ≡ 3 * (2 ^ length busy - 1) =
        omega arith in
      (g, done ∙ ap (λ t. some (loads (new_container_set s.new_id r s.now g), t)) time)
