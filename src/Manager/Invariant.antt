-- ===== src/Manager/Invariant.antt =====
-- What holds of src/faas_controller/src/faas/app_resource_manager.go in every state that its callers
-- can bring it to.
use faa_sgraph.Base.{
  ℕ, ◌+◌, ◌≤◌, ◌<◌, ◌≡◌, refl, ap, sym, ◌∙◌, subst, inl, inr, some, List, [], ◌∷◌, ◌++◌, map, arith,
  ◌==◌, ==_iff, Bool-cases, All, length, length-append, times, times-zero,
}
use faa_sgraph.Cluster.{Cluster}
use faa_sgraph.Manager.{ContainerSet, AppResourceManager, add_queue, set_request, find, store}
use faa_sgraph.Manager.Lists.{ids_of, store_found, times-append, times-store_new, All-store}
use faa_sgraph.Manager.Queue.{queued}
use faa_sgraph.Manager.System.{System, initial, Unused}

abbrev pub holds : ℕ → List (ℕ × ℕ) → ℕ
holds k running = times k (map (λ p. p.1) running)

-- No request waits for a free set, no queue is longer than the configuration says, no set is in the
-- pools twice, and the sets in use are just those on which a request runs.
pub record Inv (queue_length : ℕ) (s : System) : Type 0 where
  pub unqueued : All (λ t. t.wait_queue ≡ []) s.manager.free
  pub bounded : All (λ t. queued t ≤ queue_length) s.manager.available
  pub once : (k : ℕ) → times k (ids_of s.manager.free) + times k (ids_of s.manager.available) ≤ 1
  pub held : (k : ℕ) → holds k s.running ≡ times k (ids_of s.manager.available)

All-unsnoc {κ} :
    (P : ContainerSet → Type κ) (xs : List ContainerSet) (s : ContainerSet)
    → All P (xs ++ (s ∷ []))
    → All P xs × P s
All-unsnoc P [] s (p, a) = (tt, p)
All-unsnoc P (x ∷ xs) s (q, a) = let (b, p) = All-unsnoc P xs s a in ((q, b), p)

pub times_self : (k : ℕ) → times k (k ∷ []) ≡ 1
times_self k = rw ((==_iff k k).1 refl) refl

-- An id that stands in neither of two lists can come into the second.
once_more :
    (id k : ℕ) (free old new : List ℕ)
    → times id free ≡ 0
    → times id old ≡ 0
    → times k free + times k old ≤ 1
    → times k new ≡ times k old + times k (id ∷ [])
    → times k free + times k new ≤ 1
once_more id k free old new h g one e = elim (Bool-cases (id == k)) [
  | inl same ↦
      let eq = (==_iff id k).0 same in
      let h' = subst (λ j. times j free ≡ 0) eq h in
      let g' = subst (λ j. times j old ≡ 0) eq g in
      let single : times k (id ∷ []) ≡ 1 = rw same refl in omega (arith, h', g', single)
  | inr other ↦ let none_more : times k (id ∷ []) ≡ 0 = rw other refl in omega (arith, none_more)
]

module _ (queue_length : ℕ) where
  pub initial-Inv : (c : Cluster) → Inv queue_length (initial c)
  initial-Inv c = record { unqueued = tt; bounded = tt; once = λ k. omega arith; held = λ k. refl }

  -- The set that was freed last is in use.
  pub take-Inv :
      (r now : ℕ) (m : AppResourceManager) (c : Cluster) (running : List (ℕ × ℕ)) (s : ContainerSet)
      (rest : List ContainerSet)
      → m.free ≡ rest ++ (s ∷ [])
      → Inv queue_length (record { manager = m; cluster = c; running = running })
      → Inv queue_length (record {
        manager = record {
          free = rest;
          available = store (set_request r (record s { last_used = now })) m.available;
        };
        cluster = c;
        running = (r, s.id) ∷ running;
      })
  take-Inv r now m c running s rest split inv =
      let s' = set_request r (record s { last_used = now }) in
      let pool : (k : ℕ) → times k (ids_of m.free) ≡ times k (ids_of rest) + times k (s.id ∷ []) =
        λ k. ap (λ l. times k (ids_of l)) split ∙ times-append k rest (s ∷ []) in
      let there : times s.id (s.id ∷ []) ≡ 1 = times_self s.id in
      let out : times s.id (ids_of m.available) ≡ 0 =
        omega (arith, inv.once s.id, pool s.id, there) in
      let stored : (k : ℕ)
          → times k (ids_of (store s' m.available))
            ≡ times k (ids_of m.available) + times k (s.id ∷ []) =
        λ k. times-store_new k s' m.available out ∙ omega arith in
      let (unqueued, own) =
        All-unsnoc (λ t. t.wait_queue ≡ []) rest s
          (subst (All (λ t. t.wait_queue ≡ [])) split inv.unqueued) in
      record {
        unqueued = unqueued;
        bounded =
            All-store (λ t. queued t ≤ queue_length) s' m.available inv.bounded
              (omega (arith, ap length own));
        once = λ k. omega (arith, inv.once k, pool k, stored k);
        held = λ k. omega (arith, inv.held k, stored k);
      }

  -- A request joins the queue of a set in use.
  pub wait-Inv :
      (r : ℕ) (m : AppResourceManager) (c : Cluster) (running : List (ℕ × ℕ)) (s : ContainerSet)
      → find s.id m.available ≡ some s
      → queued s < queue_length
      → Inv queue_length (record { manager = m; cluster = c; running = running })
      → Inv queue_length (record {
        manager = record m { available = store (add_queue r s) m.available };
        cluster = c;
        running = running;
      })
  wait-Inv r m c running s found short inv =
      let same = store_found (add_queue r s) s m.available found in
      let longer = length-append s.wait_queue (r ∷ []) in
      record {
        unqueued = inv.unqueued;
        bounded =
            All-store (λ t. queued t ≤ queue_length) (add_queue r s) m.available inv.bounded
              (omega (arith, longer));
        once = λ k. omega (arith, inv.once k, ap (times k) same);
        held = λ k. inv.held k ∙ ap (times k) (sym same);
      }

  -- A set that no pool has comes into use.
  pub new-Inv :
      (r : ℕ) (m : AppResourceManager) (c c' : Cluster) (running : List (ℕ × ℕ)) (s : ContainerSet)
      → Unused s.id m
      → s.wait_queue ≡ []
      → Inv queue_length (record { manager = m; cluster = c; running = running })
      → Inv queue_length (record {
        manager = record m { available = store s m.available };
        cluster = c';
        running = (r, s.id) ∷ running;
      })
  new-Inv r m c c' running s (not_free, not_used) empty inv =
      let out = times-zero s.id (ids_of m.available) not_used in
      let out' = times-zero s.id (ids_of m.free) not_free in
      let stored : (k : ℕ)
          → times k (ids_of (store s m.available))
            ≡ times k (ids_of m.available) + times k (s.id ∷ []) =
        λ k. times-store_new k s m.available out ∙ omega arith in
      record {
        unqueued = inv.unqueued;
        bounded =
            All-store (λ t. queued t ≤ queue_length) s m.available inv.bounded
              (omega (arith, ap length empty));
        once = λ k.
            once_more (s.id) k (ids_of m.free) (ids_of m.available) (ids_of (store s m.available))
              out' out (inv.once k) (stored k);
        held = λ k. omega (arith, inv.held k, stored k);
      }

pub holds-middle :
    (k r id : ℕ) (before after : List (ℕ × ℕ))
    → holds k (before ++ ((r, id) ∷ after)) ≡ times k (id ∷ []) + holds k (before ++ after)
holds-middle k r id [] after = omega arith
holds-middle k r id (p ∷ before) after = omega (arith, holds-middle k r id before after)
