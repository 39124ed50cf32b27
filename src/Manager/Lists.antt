-- ===== src/Manager/Lists.antt =====
-- What the operations of src/faas_controller/src/faas/app_resource_manager.go on its pools do to the
-- ids in them.
use mathlib.Core.List.{Permᴰ}
use mathlib.Core.List.Permᴰ
use mathlib.Core.Option.{some-injective}
use faa_sgraph.Base.{
  ne→==, eq→==, ℕ, ◌≡◌, ◌≢◌, refl, ap, ap₂, sym, ◌∙◌, subst, inl, inr, none, some, List, [], ◌∷◌,
  ◌++◌, map, arith, ◌==◌, ==_iff, if◌then◌else◌, Bool-cases, All, Mem, absent, times, sum_by-append,
  sum_by-Perm, suc, ◌+◌, ◌≤◌, ◌<◌, Option-cases,
}
use faa_sgraph.Manager.{ContainerSet, store, find, remove, last_of, or_last}

abbrev pub ids_of : List ContainerSet → List ℕ
ids_of ss = map (λ s. s.id) ss

-- A new id goes to the end of the map.
pub store_new :
    (s : ContainerSet) (xs : List ContainerSet)
    → All (λ j. j ≢ s.id) (ids_of xs)
    → store s xs ≡ xs ++ (s ∷ [])
store_new s [] a = refl
store_new s (x ∷ xs) (h, a) = rw (store, ne→== x.id s.id h) (ap (λ ys. x ∷ ys) (store_new s xs a))

pub find-id : (k : ℕ) (xs : List ContainerSet) (s : ContainerSet) → find k xs ≡ some s → s.id ≡ k
find-id k [] s h = absurd (ground arith)
find-id k (x ∷ xs) s h = elim (Bool-cases (x.id == k)) [
  | inl here ↦
      let same : x ≡ s = ground (arith, h, here) in
      ap (λ y. y.id) (sym same) ∙ (==_iff x.id k).0 here
  | inr away ↦ let step : find k xs ≡ some s = ground (arith, h, away) in find-id k xs s step
]

-- To replace the set that has an id leaves the ids as they are.
pub store_found :
    (s t : ContainerSet) (xs : List ContainerSet)
    → find s.id xs ≡ some t
    → ids_of (store s xs) ≡ ids_of xs
store_found s t [] h = absurd (ground arith)
store_found s t (x ∷ xs) h = elim (Bool-cases (x.id == s.id)) [
  | inl here ↦ rw (store, here) (ap (λ k. k ∷ ids_of xs) (sym ((==_iff x.id s.id).0 here)))
  | inr away ↦
      let step : find s.id xs ≡ some t = ground (arith, h, away) in
      rw (store, away) (ap (λ ks. x.id ∷ ks) (store_found s t xs step))
]

pub remove_found :
    (k : ℕ) (t : ContainerSet) (xs : List ContainerSet)
    → find k xs ≡ some t
    → Permᴰ (ids_of xs) (k ∷ ids_of (remove k xs))
remove_found k t [] h = absurd (ground arith)
remove_found k t (x ∷ xs) h = elim (Bool-cases (x.id == k)) [
  | inl here ↦ rw (remove, here) (Permᴰ.cons ((==_iff x.id k).0 here) (Permᴰ.refl (ids_of xs)))
  | inr away ↦
      let step : find k xs ≡ some t = ground (arith, h, away) in
      rw (remove, away)
        (Permᴰ.trans (Permᴰ.cons refl (remove_found k t xs step)) (Permᴰ.swap refl refl))
]

last_of-none : (xs : List ContainerSet) → last_of xs ≡ none → xs ≡ []
last_of-none [] h = refl
last_of-none (x ∷ xs) h = elim (Option-cases (last_of xs)) [
  | inl e ↦
      let bad : some (x, []) ≡ none = subst (λ o. or_last x xs o ≡ none) e h in
      absurd (ground (arith, bad))
  | inr ((t, ts), e) ↦
      let bad : some (t, x ∷ ts) ≡ none = subst (λ o. or_last x xs o ≡ none) e h in
      absurd (ground (arith, bad))
]

-- The last of the free sets is the one that is taken.
pub last_of_lem :
    (xs ys : List ContainerSet) (s : ContainerSet) → last_of xs ≡ some (s, ys) → xs ≡ ys ++ (s ∷ [])
last_of_lem [] ys s h = absurd (ground arith)
last_of_lem (x ∷ xs) ys s h = elim (Option-cases (last_of xs)) [
  | inl e ↦
      let pair : some (x, []) ≡ some (s, ys) = subst (λ o. or_last x xs o ≡ some (s, ys)) e h in
      let same = some-injective _ _ pair in
      ap (λ zs. x ∷ zs) (last_of-none xs e)
      ∙ ap₂ (λ y zs. zs ++ (y ∷ [])) (ap (λ q. q.0) same) (ap (λ q. q.1) same)
  | inr ((t, ts), e) ↦
      let pair : some (t, x ∷ ts) ≡ some (s, ys) = subst (λ o. or_last x xs o ≡ some (s, ys)) e h in
      let same = some-injective _ _ pair in
      ap (λ zs. x ∷ zs) (last_of_lem xs ts t e)
      ∙ ap₂ (λ y zs. zs ++ (y ∷ [])) (ap (λ q. q.0) same) (ap (λ q. q.1) same)
]

ids-append : (xs ys : List ContainerSet) → ids_of (xs ++ ys) ≡ ids_of xs ++ ids_of ys
ids-append [] ys = refl
ids-append (x ∷ xs) ys = ap (λ ks. x.id ∷ ks) (ids-append xs ys)

pub times-append :
    (k : ℕ) (xs ys : List ContainerSet)
    → times k (ids_of (xs ++ ys)) ≡ times k (ids_of xs) + times k (ids_of ys)
times-append k xs ys =
    ap (times k) (ids-append xs ys)
    ∙ sum_by-append (λ j. if j == k then 1 else 0) (ids_of xs) (ids_of ys)

-- A set that no entry of the map has the id of is added.
pub times-store_new :
    (k : ℕ) (s : ContainerSet) (xs : List ContainerSet)
    → times s.id (ids_of xs) ≡ 0
    → times k (ids_of (store s xs)) ≡ times k (ids_of xs) + (if s.id == k then 1 else 0)
times-store_new k s xs h =
    let e = ap (λ ys. times k (ids_of ys)) (store_new s xs (absent s.id (ids_of xs) h)) in
    omega (arith, e, times-append k xs (s ∷ []))

pub times-remove :
    (k j : ℕ) (t : ContainerSet) (xs : List ContainerSet)
    → find k xs ≡ some t
    → times j (ids_of xs) ≡ (if k == j then 1 else 0) + times j (ids_of (remove k xs))
times-remove k j t xs h =
    sum_by-Perm (λ i. if i == j then 1 else 0) (ids_of xs) (k ∷ ids_of (remove k xs))
      (remove_found k t xs h)

pub times-Mem : (t : ContainerSet) (xs : List ContainerSet) → Mem t xs → 0 < times t.id (ids_of xs)
times-Mem t (x ∷ xs) (inl e) = rw (eq→== x.id t.id (ap (λ y. y.id) (sym e))) (omega arith)
times-Mem t (x ∷ xs) (inr m) = omega (arith, times-Mem t xs m)
times-Mem t [] m = absurd m

-- Where an id is there once, the set that is found is the one that is there.
pub find-Mem :
    (t : ContainerSet) (xs : List ContainerSet)
    → times t.id (ids_of xs) ≤ 1
    → Mem t xs
    → find t.id xs ≡ some t
find-Mem t [] h m = absurd m
find-Mem t (x ∷ xs) h (inl e) = rw (eq→== x.id t.id (ap (λ y. y.id) (sym e))) (ap some (sym e))
find-Mem t (x ∷ xs) h (inr m) = elim (Bool-cases (x.id == t.id)) [
  | inl same ↦
      let more = times-Mem t xs m in
      let two : suc (times t.id (ids_of xs)) ≤ 1 = ground (arith, h, same) in
      absurd (omega (arith, more, two))
  | inr other ↦
      let rest : times t.id (ids_of xs) ≤ 1 = ground (arith, h, other) in
      rw other (find-Mem t xs rest m)
]

module _ {κ} (P : ContainerSet → Type κ) where
  pub All-store : (s : ContainerSet) (xs : List ContainerSet) → All P xs → P s → All P (store s xs)
  All-store s [] a p = (p, tt)
  All-store s (x ∷ xs) (q, a) p = elim (Bool-cases (x.id == s.id)) [
    | inl same ↦ rw (store, same) (p, a)
    | inr other ↦ rw (store, other) (q, All-store s xs a p)
  ]

  pub All-remove : (k : ℕ) (xs : List ContainerSet) → All P xs → All P (remove k xs)
  All-remove k [] a = tt
  All-remove k (x ∷ xs) (q, a) = elim (Bool-cases (x.id == k)) [
    | inl same ↦ rw (remove, same) a
    | inr other ↦ rw (remove, other) (q, All-remove k xs a)
  ]

  pub All-find :
      (k : ℕ) (s : ContainerSet) (xs : List ContainerSet) → All P xs → find k xs ≡ some s → P s
  All-find k s [] a h = absurd (ground arith)
  All-find k s (x ∷ xs) (q, a) h = elim (Bool-cases (x.id == k)) [
    | inl here ↦ let same : x ≡ s = ground (arith, h, here) in subst P same q
    | inr away ↦ let step : find k xs ≡ some s = ground (arith, h, away) in All-find k s xs a step
  ]

pub find_total :
    (k : ℕ) (xs : List ContainerSet)
    → 0 < times k (ids_of xs)
    → (s : ContainerSet) × (find k xs ≡ some s)
find_total k [] h = absurd (omega arith)
find_total k (x ∷ xs) h = elim (Bool-cases (x.id == k)) [
  | inl here ↦ (x, rw here refl)
  | inr away ↦
      let rest : 0 < times k (ids_of xs) = ground (arith, h, away) in
      let (s, e) = find_total k xs rest in (s, rw away e)
]

pub find-store : (s : ContainerSet) (xs : List ContainerSet) → find s.id (store s xs) ≡ some s
find-store s [] = rw (eq→== s.id s.id refl) refl
find-store s (x ∷ xs) = elim (Bool-cases (x.id == s.id)) [
  | inl here ↦ rw (store, here) (rw (eq→== s.id s.id refl) refl)
  | inr away ↦ rw (store, away) (rw away (find-store s xs))
]
