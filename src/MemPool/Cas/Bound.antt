-- ===== src/MemPool/Cas/Bound.antt =====
-- The retry loop of `minCas` (src/lambda_executor/src/graphutil/mem.go) under contention: a thread
-- retries only after another has written, so that n calls end within a bounded number of actions.
use faa_sgraph.Base.{
  ℕ, ◌+◌, ◌*◌, ◌≤◌, ◌<◌, ◌≡◌, refl, ap, ◌∙◌, Bool, true, false, some, List, [], ◌∷◌, arith, leb,
  ◌==◌, if◌then◌else◌, get_elem?, set, length, sum_by, sum_by-set, ◌⊎◌, inl, inr, sum_by-le,
  length-set, length-map,
}
use faa_sgraph.MemPool.Cas.{Pc, start, loaded, done, Thread, System, act, move, init}
use faa_sgraph.MemPool.Cas.Least.{moved, move-moved}

abbrev pub is_done : Pc → Bool
is_done start = false
is_done (loaded old) = false
is_done (done r) = true

-- The actions that a thread still needs if no other writes, over a reserve that pays for retries.
abbrev rank : ℕ → ℕ → ℕ → Pc → ℕ
rank n cell val start = 2 * n + 2
rank n cell val (loaded old) = 2 * n + (if leb old val then 1 else (if cell == old then 1 else 3))
rank n cell val (done r) = 0

abbrev of_thread : ℕ → ℕ → Thread → ℕ
of_thread n cell t = rank n cell t.val t.pc

potential : ℕ → System → ℕ
potential n s = sum_by (of_thread n s.cell) s.threads

-- A write costs every other thread at most one retry.
rank-write : (n c d val : ℕ) (p : Pc) → rank n c val p ≤ rank n d val p + 2
rank-write n c d val start = omega arith
rank-write n c d val (loaded old) = ground arith
rank-write n c d val (done r) = omega arith

-- What an action of a thread that has not returned does to its own rank.
act-rank :
    (n cell val : ℕ) (p : Pc)
    → is_done p ≡ false
    → let r = act cell val p in
      ((r.0 ≡ cell) × (rank n cell val r.1 < rank n cell val p))
      ⊎ ((rank n r.0 val r.1 ≡ 0) × (2 * n + 3 ≤ rank n r.0 val p))
unfolding act
act-rank n cell val start h = inl (refl, ground arith)
act-rank n cell val (loaded old) h = ground arith
act-rank n cell val (done r) h = absurd (ground arith)

module _ (n : ℕ) (s : System) (i : ℕ) (t : Thread) (e : get_elem? s.threads i ≡ some t) where
  potential-moved :
      length s.threads ≡ n → is_done t.pc ≡ false → potential n (moved s i t) < potential n s
  unfolding potential
  potential-moved size busy =
      let r = act s.cell t.val t.pc in
      let t' = record t { pc = r.1 } in
      let swap = sum_by-set (of_thread n r.0) s.threads i t t' e in
      let rise =
        sum_by-le (of_thread n r.0) (of_thread n s.cell) 2 s.threads
          (λ u. rank-write n r.0 s.cell u.val u.pc) in
      elim (act-rank n s.cell t.val t.pc busy) [
        | inl (same, less) ↦
            let alone = sum_by-set (of_thread n s.cell) s.threads i t t' e in
            let after : ℕ → ℕ = λ c. sum_by (of_thread n c) (set s.threads i t') in
            omega (arith, alone, ap after same, less)
        | inr (ended, reserve) ↦ omega (arith, swap, rise, ended, reserve, size)
      ]

-- Every move of the schedule is one of a thread that has not returned.
abbrev pub Busy : System → List ℕ → Type 0
Busy s [] = Unit {0}
Busy s (i ∷ is) =
    ((t : Thread) × (get_elem? s.threads i ≡ some t) × (is_done t.pc ≡ false)) × Busy (move s i) is

length-move :
    (s : System) (i : ℕ) (t : Thread)
    → get_elem? s.threads i ≡ some t
    → length (move s i).threads ≡ length s.threads
length-move s i t e = rw (move-moved s i t e) (length-set s.threads i _)

Busy-bound :
    (n : ℕ) (s : System) (is : List ℕ)
    → length s.threads ≡ n
    → Busy s is
    → length is ≤ potential n s
Busy-bound n s [] size b = omega arith
Busy-bound n s (i ∷ is) size b =
    let (t, e, busy) = b.0 in
    let rest = Busy-bound n (move s i) is (length-move s i t e ∙ size) b.1 in
    let less = potential-moved n s i t e size busy in
    let same : potential n (move s i) ≡ potential n (moved s i t) =
      ap (potential n) (move-moved s i t e) in
    omega (arith, rest, less, same)

potential-init :
    (n first : ℕ) (vals : List ℕ) → potential n (init first vals) ≡ length vals * (2 * n + 2)
unfolding potential init
potential-init n first [] = omega arith
potential-init n first (v ∷ vals) = omega (arith, potential-init n first vals)

length-init : (first : ℕ) (vals : List ℕ) → length (init first vals).threads ≡ length vals
unfolding init
length-init first vals = length-map vals (λ v. record { val = v; pc = start })

-- Whatever the schedule, n calls of `minCas` take at most n * (2 n + 2) atomic actions together.
pub Busy-le :
    (first : ℕ) (vals is : List ℕ)
    → Busy (init first vals) is
    → length is ≤ length vals * (2 * length vals + 2)
Busy-le first vals is b = omega (
  arith,
  Busy-bound (length vals) (init first vals) is (length-init first vals) b,
  potential-init (length vals) first vals,
)
