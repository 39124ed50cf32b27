-- ===== src/MemPool/Cas/Least.antt =====
-- What many calls of `minCas` (src/lambda_executor/src/graphutil/mem.go) leave in the cell, and
-- what they answer, whatever the schedule.
use mathlib.Core.Option
use faa_sgraph.Base.{
  ℕ, zero, suc, ◌≤◌, ◌<◌, min, ◌≡◌, refl, ap, ap₂, subst, sym, ◌∙◌, ◌⊎◌, inl, inr, Bool, true,
  false, Option, none, some, List, [], ◌∷◌, map, arith, get_elem?, set, All, All-get, All-set,
  All-map, Option-cases, ℕ_discrete, get_elem?-set_self, get_elem?-set_ne, lt-length_of_get_elem?,
}
use faa_sgraph.MemPool.Cas.{Pc, start, loaded, done, Thread, System, act, move, run, init}

-- What a thread may rely on: the cell is at most what it loaded, and at most what it brought.
abbrev pub OkPc : ℕ → ℕ → ℕ → Pc → Type 0
OkPc cell first val start = Unit {0}
OkPc cell first val (loaded old) = cell ≤ old
OkPc cell first val (done true) = (cell ≤ val) × (val < first)
OkPc cell first val (done false) = cell ≤ val

abbrev pub Ok : ℕ → ℕ → Thread → Type 0
Ok cell first t = OkPc cell first t.val t.pc

OkPc-mono : (c d first val : ℕ) (p : Pc) → d ≤ c → OkPc c first val p → OkPc d first val p
OkPc-mono c d first val start h k = tt
OkPc-mono c d first val (loaded old) h k = omega arith
OkPc-mono c d first val (done true) h k = omega arith
OkPc-mono c d first val (done false) h k = omega arith

-- The cell keeps its value, or holds what the thread brought and the thread answers true.
abbrev Wrote : ℕ → ℕ → ℕ × Pc → Type 0
Wrote cell val r = (r.0 ≡ cell) ⊎ ((r.0 ≡ val) × (r.1 ≡ done true))

module _ (cell first val : ℕ) where
  act-falls : (p : Pc) → (act cell val p).0 ≤ cell
  unfolding act
  act-falls start = omega arith
  act-falls (loaded old) = ground arith
  act-falls (done r) = omega arith

  act-OkPc :
      (p : Pc)
      → cell ≤ first
      → OkPc cell first val p
      → OkPc (act cell val p).0 first val (act cell val p).1
  unfolding act
  act-OkPc start h k = omega arith
  act-OkPc (loaded old) h k = ground arith
  act-OkPc (done true) h k = k
  act-OkPc (done false) h k = k

  act-Wrote : (p : Pc) → Wrote cell val (act cell val p)
  unfolding act
  act-Wrote start = inl refl
  act-Wrote (loaded old) = ground arith
  act-Wrote (done r) = inl refl

-- A thread that has answered true and brought what the cell holds.
abbrev pub Winner : System → Type 0
Winner s = (i : ℕ) × (get_elem? s.threads i ≡ some (record { val = s.cell; pc = done true }))

pub record Inv (first : ℕ) (s : System) : Type 0 where
  pub low : s.cell ≤ first
  pub threads_ok : All (Ok s.cell first) s.threads
  pub source : (s.cell ≡ first) ⊎ Winner s

-- The system after thread i has moved.
abbrev pub moved : System → ℕ → Thread → System
moved s i t = record {
  cell = (act s.cell t.val t.pc).0;
  threads = set s.threads i (record t { pc = (act s.cell t.val t.pc).1 });
}

pub move-moved :
    (s : System) (i : ℕ) (t : Thread) → get_elem? s.threads i ≡ some t → move s i ≡ moved s i t
unfolding move
move-moved s i t e = rw (e, move)

pub move-absent : (s : System) (i : ℕ) → get_elem? s.threads i ≡ none → move s i ≡ s
unfolding move
move-absent s i e = rw (e, move)

module _ (first : ℕ) (s : System) (i : ℕ) (t : Thread) (e : get_elem? s.threads i ≡ some t) where
  -- A thread that has answered stands where it stood after any move.
  answered_stays :
      (j : ℕ) (r : Bool) (v : ℕ)
      → get_elem? s.threads j ≡ some (record { val = v; pc = done r })
      → get_elem? (moved s i t).threads j ≡ some (record { val = v; pc = done r })
  unfolding act
  answered_stays j r v g = elim (ℕ_discrete i j) [
    | yes same ↦
        let here = lt-length_of_get_elem? s.threads i e in
        let one : t ≡ record { val = v; pc = done r } =
          Option.some-injective _ _ (sym e ∙ ap (get_elem? s.threads) same ∙ g) in
        let next : Thread → Thread = λ u. record u { pc = (act s.cell u.val u.pc).1 } in
        let stays : some (next t) ≡ some (record { val = v; pc = done r }) =
          ap (λ u. some (next u)) one in
        subst (λ k. get_elem? (moved s i t).threads k ≡ some (record { val = v; pc = done r })) same
          (get_elem?-set_self s.threads i (next t) here ∙ stays)
    | no other ↦ get_elem?-set_ne s.threads _ other ∙ g
  ]

  moved-source : Inv first s → ((moved s i t).cell ≡ first) ⊎ Winner (moved s i t)
  moved-source inv = elim (act-Wrote s.cell first t.val t.pc) [
    | inl kept ↦ elim inv.source [
      | inl unchanged ↦ inl (kept ∙ unchanged)
      | inr (j, g) ↦
          let winner : ℕ → Option Thread = λ c. some (record { val = c; pc = done true }) in
          inr (j, answered_stays j true s.cell g ∙ ap winner (sym kept))
    ]
    | inr (wrote, answer) ↦
        let answered : ℕ → Pc → Option Thread = λ v p. some (record { val = v; pc = p }) in
        inr (
          i,
          get_elem?-set_self s.threads i (record t { pc = (act s.cell t.val t.pc).1 })
                (lt-length_of_get_elem? s.threads i e)
              ∙ ap₂ answered (sym wrote) answer,
        )
  ]

  moved-Inv : Inv first s → Inv first (moved s i t)
  moved-Inv inv =
      let lower = act-falls s.cell first t.val t.pc in
      record {
        low = omega arith;
        threads_ok =
            All-set (Ok (moved s i t).cell first) s.threads i
              (record t { pc = (act s.cell t.val t.pc).1 })
              (All-map (Ok s.cell first) (Ok (moved s i t).cell first) s.threads
                (λ u ok. OkPc-mono s.cell (moved s i t).cell first u.val u.pc lower ok)
                inv.threads_ok)
              (act-OkPc s.cell first t.val t.pc inv.low
                (All-get (Ok s.cell first) s.threads i inv.threads_ok e));
        source = moved-source inv;
      }

pub move-Inv : (first : ℕ) (s : System) (i : ℕ) → Inv first s → Inv first (move s i)
move-Inv first s i inv = elim (Option-cases (get_elem? s.threads i)) [
  | inl e ↦ rw (move-absent s i e) inv
  | inr (t, e) ↦ rw (move-moved s i t e) (moved-Inv first s i t e inv)
]

pub run-Inv : (first : ℕ) (s : System) (is : List ℕ) → Inv first s → Inv first (run s is)
unfolding run
run-Inv first s [] inv = inv
run-Inv first s (i ∷ is) inv = run-Inv first (move s i) is (move-Inv first s i inv)

init-Ok : (first : ℕ) (vals : List ℕ) → All (Ok first first) (init first vals).threads
unfolding init
init-Ok first [] = tt
init-Ok first (v ∷ vals) = (tt, init-Ok first vals)

pub init-Inv : (first : ℕ) (vals : List ℕ) → Inv first (init first vals)
unfolding init
init-Inv first vals = record {
  low = omega arith;
  threads_ok = init-Ok first vals;
  source = inl refl;
}

-- The values that the threads brought do not change.
abbrev pub vals_of : List Thread → List ℕ
vals_of = map (λ t. t.val)

vals-set :
    (ts : List Thread) (i : ℕ) (t : Thread) (p : Pc)
    → get_elem? ts i ≡ some t
    → vals_of (set ts i (record t { pc = p })) ≡ vals_of ts
vals-set [] i t p e = refl
vals-set (u ∷ ts) zero t p e =
    ap (λ v. v ∷ vals_of ts) (ap (λ (w : Thread). w.val) (sym (Option.some-injective _ _ e)))
vals-set (u ∷ ts) (suc i) t p e = ap (λ vs. u.val ∷ vs) (vals-set ts i t p e)

vals-move : (s : System) (i : ℕ) → vals_of (move s i).threads ≡ vals_of s.threads
vals-move s i = elim (Option-cases (get_elem? s.threads i)) [
  | inl e ↦ rw (move-absent s i e)
  | inr (t, e) ↦ rw (move-moved s i t e) (vals-set s.threads i t _ e)
]

vals-run : (s : System) (is : List ℕ) → vals_of (run s is).threads ≡ vals_of s.threads
unfolding run
vals-run s [] = refl
vals-run s (i ∷ is) = vals-run (move s i) is ∙ vals-move s i

vals-init : (first : ℕ) (vals : List ℕ) → vals_of (init first vals).threads ≡ vals
unfolding init
vals-init first [] = refl
vals-init first (v ∷ vals) = ap (λ vs. v ∷ vs) (vals-init first vals)

abbrev pub IsDone : Thread → Type 0
IsDone t = (r : Bool) × (t.pc ≡ done r)

-- The least of a first value and a list.
abbrev pub least : ℕ → List ℕ → ℕ
least first [] = first
least first (v ∷ vals) = min v (least first vals)

below_done : (cell first : ℕ) (t : Thread) → IsDone t → Ok cell first t → cell ≤ t.val
below_done cell first t (r, e) ok = below r (subst (OkPc cell first t.val) e ok)
  where
    below : (r : Bool) → OkPc cell first t.val (done r) → cell ≤ t.val
    below true k = k.0
    below false k = k

le-least :
    (cell first : ℕ) (ts : List Thread)
    → cell ≤ first
    → All IsDone ts
    → All (Ok cell first) ts
    → cell ≤ least first (vals_of ts)
le-least cell first [] h d ok = h
le-least cell first (t ∷ ts) h d ok =
    omega (arith, below_done cell first t d.0 ok.0, le-least cell first ts h d.1 ok.1)

least-le_first : (first : ℕ) (vals : List ℕ) → least first vals ≤ first
least-le_first first [] = omega arith
least-le_first first (v ∷ vals) = omega (arith, least-le_first first vals)

least-le_thread :
    (first : ℕ) (ts : List Thread) (i : ℕ) (t : Thread)
    → get_elem? ts i ≡ some t
    → least first (vals_of ts) ≤ t.val
least-le_thread first [] i t e = absurd (ground arith)
least-le_thread first (u ∷ ts) zero t e =
    omega (arith, ap (λ (w : Thread). w.val) (Option.some-injective _ _ e))
least-le_thread first (u ∷ ts) (suc i) t e = omega (arith, least-le_thread first ts i t e)

-- Once every call has returned, the cell holds the least of its first value and the values
-- brought, and if that is below the first value, a call that brought it answered true.
pub cell-least :
    (first : ℕ) (vals is : List ℕ)
    → All IsDone (run (init first vals) is).threads
    → ((run (init first vals) is).cell ≡ least first vals)
      × ((least first vals ≡ first) ⊎ Winner (run (init first vals) is))
cell-least first vals is d =
    let s = run (init first vals) is in
    let inv = run-Inv first (init first vals) is (init-Inv first vals) in
    let same = vals-run (init first vals) is ∙ vals-init first vals in
    let upper = le-least s.cell first s.threads inv.low d inv.threads_ok in
    let lower : least first (vals_of s.threads) ≤ s.cell = elim inv.source [
      | inl unchanged ↦ omega (arith, least-le_first first (vals_of s.threads))
      | inr (i, e) ↦ least-le_thread first s.threads i _ e
    ] in
    let meet : s.cell ≡ least first vals = omega (arith, ap (least first) same) in
    let why : (least first vals ≡ first) ⊎ Winner s = elim inv.source [
      | inl unchanged ↦ inl (sym meet ∙ unchanged)
      | inr w ↦ inr w
    ] in
    (meet, why)
