-- ===== src/Manager/Recycle.antt =====
-- Which sets a tick of Recycle in src/faas_controller/src/faas/app_resource_manager.go removes.
use faa_sgraph.Base.{
  ℕ, ◌-◌, ◌<◌, ◌≡◌, refl, ap, inl, inr, true, none, some, List, [], ◌∷◌, ◌++◌, arith, Bool-cases,
}
use faa_sgraph.Manager.{
  ContainerSet, AppResourceManager, allow_idle_time, find, idle_sets, kept_sets, is_idle,
  put_container_set, next_queue,
}

idle-append :
    (cur : ℕ) (xs : List ContainerSet) (s : ContainerSet)
    → is_idle cur s ≡ true
    → (idle_sets cur (xs ++ (s ∷ [])) ≡ idle_sets cur xs ++ (s ∷ []))
      × (kept_sets cur (xs ++ (s ∷ [])) ≡ kept_sets cur xs)
idle-append cur [] s h = (rw h refl, rw h refl)
idle-append cur (x ∷ xs) s h =
    let (gone, kept) = idle-append cur xs s h in
    elim (Bool-cases (is_idle cur x)) [
      | inl idle ↦ (rw (idle_sets, idle) (ap (λ ys. x ∷ ys) gone), rw (kept_sets, idle) kept)
      | inr fresh ↦ (rw (idle_sets, fresh) gone, rw (kept_sets, fresh) (ap (λ ys. x ∷ ys) kept))
    ]

-- PutContainerSet leaves LastUsed as GetContainerSet set it: a set whose request ran for longer than
-- the idle time is removed by the next tick, even when that comes at the moment at which the set
-- becomes free.
pub idle_sets-put_container_set :
    (id cur : ℕ) (m : AppResourceManager) (s : ContainerSet)
    → find id m.available ≡ some s
    → s.wait_queue ≡ []
    → allow_idle_time < cur - s.last_used
    → (m' : AppResourceManager) × (put_container_set id m ≡ some (m', none))
      × (idle_sets cur m'.free ≡ idle_sets cur m.free ++ (s ∷ []))
      × (kept_sets cur m'.free ≡ kept_sets cur m.free)
unfolding put_container_set
idle_sets-put_container_set id cur m s found empty long =
    let idle : is_idle cur s ≡ true = ground arith in
    let (gone, kept) = idle-append cur m.free s idle in
    ((next_queue m s []).0, rw (found, empty) refl, gone, kept)
