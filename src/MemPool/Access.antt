-- ===== src/MemPool/Access.antt =====
-- Reads after writes in the vertex arrays of src/lambda_executor/src/graphutil/mem.go.
use mathlib.Core.Option
use faa_sgraph.Base.{
  ℕ, ◌+◌, ◌^◌, ◌<◌, min, ◌≡◌, refl, ap, subst, sym, ◌≢◌, inl, inr, true, Option, none, some, List,
  sum_by, sum_by-set, ◌∙◌, arith, leb, ltb, ◌==◌, if◌then◌else◌, get_elem?, set, ◌>>=◌, >>=-eq-some,
  ℕ_discrete, get_elem?-set_self, get_elem?-set_ne, lt-length_of_get_elem?, Bool-cases,
}
use faa_sgraph.MemPool.{
  MemPool, Addr, val_addr, in_d_addr, out_d_addr, slot, array_at, with_array, get, store, min_cas,
}

-- An entry stands at its vertex up to 2 ^ 30 vertices.
pub slot_lem : (v : ℕ) → v < 2 ^ 30 → slot v ≡ v
unfolding slot
slot_lem v h = omega arith

-- From there on the 32-bit product wraps: a vertex shares its entry with the one 2 ^ 30 below.
pub slot_wraps : (v : ℕ) → slot (v + 2 ^ 30) ≡ slot v
unfolding slot
slot_wraps v = omega arith

array_at-with_array :
    (m : MemPool) (a : Addr) (xs ys : List ℕ)
    → array_at m a ≡ some xs
    → array_at (with_array m a ys) a ≡ some ys
array_at-with_array m (val_addr tag) xs ys h =
    get_elem?-set_self m.vertex_val tag ys (lt-length_of_get_elem? m.vertex_val tag h)
array_at-with_array m in_d_addr xs ys h = refl
array_at-with_array m out_d_addr xs ys h = refl

array_at-with_array_ne :
    (m : MemPool) (a b : Addr) (ys : List ℕ) → a ≢ b → array_at (with_array m a ys) b ≡ array_at m b
array_at-with_array_ne m (val_addr s) (val_addr t) ys h =
    get_elem?-set_ne m.vertex_val ys (λ e. h (ap val_addr e))
array_at-with_array_ne m (val_addr s) in_d_addr ys h = refl
array_at-with_array_ne m (val_addr s) out_d_addr ys h = refl
array_at-with_array_ne m in_d_addr (val_addr t) ys h = refl
array_at-with_array_ne m in_d_addr in_d_addr ys h = absurd (h refl)
array_at-with_array_ne m in_d_addr out_d_addr ys h = refl
array_at-with_array_ne m out_d_addr (val_addr t) ys h = refl
array_at-with_array_ne m out_d_addr in_d_addr ys h = refl
array_at-with_array_ne m out_d_addr out_d_addr ys h = absurd (h refl)

-- What a store that stays inside its array did.
abbrev Stored : MemPool → ℕ → ℕ → Addr → MemPool → Type 0
Stored m v val a m' =
    (xs : List ℕ) × (old : ℕ) × (array_at m a ≡ some xs)
    × (get_elem? xs (slot v) ≡ some old)
    × (m' ≡ with_array m a (set xs (slot v) val))

store-Stored :
    (m : MemPool) (v val : ℕ) (a : Addr) (m' : MemPool)
    → store m v val a ≡ some m'
    → Stored m v val a m'
unfolding store slot
store-Stored m v val a m' h =
    let (xs, at, k) = >>=-eq-some (array_at m a) _ h in
    let (old, old_at, e) = >>=-eq-some (get_elem? xs (slot v)) _ k in
    (xs, old, at, old_at, sym (Option.some-injective _ _ e))

get-array :
    (m : MemPool) (u : ℕ) (a : Addr) (xs : List ℕ)
    → array_at m a ≡ some xs
    → get m u a ≡ get_elem? xs (slot u)
unfolding get slot
get-array m u a xs h = rw h

-- Vertices that share an entry read the same.
pub get-slot : (m : MemPool) (u v : ℕ) (a : Addr) → slot u ≡ slot v → get m u a ≡ get m v a
unfolding get
get-slot m u v a h = ap (λ i. array_at m a >>= λ xs. get_elem? xs i) h

module _ (m : MemPool) (v val : ℕ) (a : Addr) (m' : MemPool) (h : store m v val a ≡ some m') where
  -- A store changes the entry of its vertex in its array.
  pub get-store : (u : ℕ) → get m' u a ≡ (if slot u == slot v then some val else get m u a)
  get-store u =
      let (xs, old, at, old_at, e) = store-Stored m v val a m' h in
      let new = set xs (slot v) val in
      let read : get m' u a ≡ get_elem? new (slot u) =
        get-array m' u a new (rw e (array_at-with_array m a xs new at)) in
      let before = get-array m u a xs at in
      elim (ℕ_discrete (slot v) (slot u)) [
        | yes same ↦
            let here =
              get_elem?-set_self xs (slot v) val (lt-length_of_get_elem? xs (slot v) old_at) in
            let there : get_elem? new (slot u) ≡ some val =
              subst (λ i. get_elem? new i ≡ some val) same here in
            ground (arith, read, there)
        | no other ↦
            let kept : get_elem? new (slot u) ≡ get_elem? xs (slot u) =
              get_elem?-set_ne xs val other in
            ground (arith, read, kept, before)
      ]

  -- It changes no other array.
  pub get-store_ne : (u : ℕ) (b : Addr) → a ≢ b → get m' u b ≡ get m u b
  unfolding get
  get-store_ne u b ne =
      let (xs, old, at, old_at, e) = store-Stored m v val a m' h in
      rw (e, array_at-with_array_ne m a b (set xs (slot v) val) ne)

-- A store succeeds exactly where a read does.
pub store_total :
    (m : MemPool) (v val : ℕ) (a : Addr) {old : ℕ}
    → get m v a ≡ some old
    → (m' : MemPool) × (store m v val a ≡ some m')
unfolding get store
store_total m v val a h =
    let (xs, at, k) = >>=-eq-some (array_at m a) _ h in
    (with_array m a (set xs (slot v) val), rw (at, k))

-- `minCas` alone on its entry leaves the smaller value there, answers true exactly if it has
-- written, and changes no other entry.
pub min_cas_lem :
    (m : MemPool) (v val : ℕ) (a : Addr) {old : ℕ}
    → get m v a ≡ some old
    → (m' : MemPool) × (min_cas m v val a ≡ some (m', ltb val old))
      × ((u : ℕ) → get m' u a ≡ (if slot u == slot v then some (min old val) else get m u a))
      × ((u : ℕ) (b : Addr) → a ≢ b → get m' u b ≡ get m u b)
unfolding min_cas
min_cas_lem m v val a {old} h = elim (Bool-cases (leb old val)) [
  | inl keep ↦ (m, rw (h, keep) (ground arith), unchanged keep, λ u b ne. refl)
  | inr write ↦
      let (m', e) = store_total m v val a h in
      let smaller : min old val ≡ val = ground arith in
      (
        m',
        rw (h, write, e) (ground arith),
        λ u. rw smaller (get-store m v val a m' e u),
        get-store_ne m v val a m' e,
      )
]
  where
    unchanged :
        leb old val ≡ true
        → (u : ℕ) → get m u a ≡ (if slot u == slot v then some (min old val) else get m u a)
    unchanged keep u = elim (ℕ_discrete (slot u) (slot v)) [
      | yes same ↦
          let there : get m u a ≡ get m v a = get-slot m u v a same in
          let smaller : min old val ≡ old = ground arith in ground (arith, there, h)
      | no other ↦ ground arith
    ]

abbrev pub sum_of : Option (List ℕ) → ℕ
sum_of none = 0
sum_of (some xs) = sum_by (λ x. x) xs

-- The sum of an array.
abbrev pub total : MemPool → Addr → ℕ
total m a = sum_of (array_at m a)

-- A store changes the sum by what it changes one entry.
pub total-store :
    (m m' : MemPool) (v val old : ℕ) (a : Addr)
    → get m v a ≡ some old
    → store m v val a ≡ some m'
    → total m' a + old ≡ total m a + val
unfolding get
total-store m m' v val old a h k =
    let (xs, o, at, old_at, e) = store-Stored m v val a m' k in
    let there : get_elem? xs (slot v) ≡ some old = sym (get-array m v a xs at) ∙ h in
    let new = array_at-with_array m a xs (set xs (slot v) val) at in
    let after : total m' a ≡ sum_by (λ x. x) (set xs (slot v) val) =
      ap (λ p. total p a) e ∙ ap sum_of new in
    let before : total m a ≡ sum_by (λ x. x) xs = ap sum_of at in
    omega (arith, after, before, sum_by-set (λ x. x) xs (slot v) old val there)
