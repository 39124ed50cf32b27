-- ===== src/LocalManager/Aggregate.antt =====
-- `AggregateVertexVal` of src/local_manager/src/mem.go with "MIN_CAS": the least of what a vertex
-- was sent, in whatever order it came.
use mathlib.Core.Option
use faa_sgraph.Base.{
  ℕ, ◌≤◌, min, ◌≡◌, refl, sym, ◌∙◌, ◌⊎◌, inl, inr, some, List, [], ◌∷◌, arith, ltb, ◌==◌, ==_iff,
  Bool-cases, All, All-map,
}
use faa_sgraph.MemPool
use faa_sgraph.MemPool.{MemPool, val_addr, slot}
use faa_sgraph.MemPool.Access.{get-slot, min_cas_lem}
use faa_sgraph.Graph.{min_cas_op}
use faa_sgraph.LocalManager.{min_cas, aggregate_vertex_val}
use faa_sgraph.Wire.RoundTrip.{flat}

-- An update of a vertex's entry, with a value.
abbrev pub Sends : ℕ → ℕ → List (ℕ × ℕ) → Type 0
Sends u x [] = ⊥
Sends u x ((v, val) ∷ us) = ((slot u ≡ slot v) × (x ≡ val)) ⊎ Sends u x us

-- The least of the old value and what was sent, whatever the order.
pub record IsLeast (u : ℕ) (ups : List (ℕ × ℕ)) (old x : ℕ) : Type 0 where
  pub below_old : x ≤ old
  pub below_sent : (y : ℕ) → Sends u y ups → x ≤ y
  pub one_of : (x ≡ old) ⊎ Sends u x ups

-- "MIN_CAS" on vertices of the array returns, and leaves in each entry the least of its old value
-- and of the values that were sent to it, whatever their order.
pub aggregate_vertex_val-IsLeast :
    (fadd : ℕ → ℕ → ℕ) (tag : ℕ) (ups : List (ℕ × ℕ)) (m : MemPool)
    → All (λ u. (old : ℕ) × (MemPool.get m u.0 (val_addr tag) ≡ some old)) ups
    → (m' : MemPool) × (aggregate_vertex_val fadd tag min_cas_op (flat ups) m ≡ some m')
      × ((u old : ℕ)
          → MemPool.get m u (val_addr tag) ≡ some old
          → (x : ℕ) × (MemPool.get m' u (val_addr tag) ≡ some x) × IsLeast u ups old x)
unfolding aggregate_vertex_val min_cas
aggregate_vertex_val-IsLeast fadd tag [] m a = (
  m,
  refl,
  λ u old e.
      (old, e, record { below_old = omega arith; below_sent = λ y s. absurd s; one_of = inl refl }),
)
aggregate_vertex_val-IsLeast fadd tag ((v, val) ∷ us) m a =
    let (o, here) = a.0 in
    let (m1, e, reads, others) = min_cas_lem m v val (val_addr tag) here in
    let still =
      All-map (λ u. (old : ℕ) × (MemPool.get m u.0 (val_addr tag) ≡ some old))
        (λ u. (old : ℕ) × (MemPool.get m1 u.0 (val_addr tag) ≡ some old)) us
        (λ u p. elim (Bool-cases (slot u.0 == slot v)) [
          | inl same ↦ (min o val, reads u.0 ∙ rw same refl)
          | inr other ↦ (p.0, reads u.0 ∙ rw other p.1)
        ])
        a.1 in
    let (m', e', least) = aggregate_vertex_val-IsLeast fadd tag us m1 still in
    (
      m',
      rw e e',
      λ u old f. elim (Bool-cases (slot u == slot v)) [
        | inl same ↦
            let one = (==_iff (slot u) (slot v)).0 same in
            let equal : o ≡ old =
              Option.some-injective _ _ (sym here ∙ sym (get-slot m u v (val_addr tag) one) ∙ f) in
            let (x, g, l) = least u (min o val) (reads u ∙ rw same refl) in
            (
              x,
              g,
              record {
                below_old = omega (arith, l.below_old);
                below_sent = λ y s. elim s [
                  | inl p ↦ omega (arith, l.below_old, p.1)
                  | inr later ↦ l.below_sent y later
                ];
                one_of = elim l.one_of [
                  | inr later ↦ inr (inr later)
                  | inl p ↦ elim (Bool-cases (ltb val o)) [
                    | inl less ↦ inr (inl (one, ground arith))
                    | inr not_less ↦ inl (ground arith)
                  ]
                ];
              },
            )
        | inr other ↦
            let (x, g, l) = least u old (reads u ∙ rw other f) in
            (
              x,
              g,
              record {
                below_old = l.below_old;
                below_sent = λ y s. elim s [
                  | inl p ↦ absurd (ground arith)
                  | inr later ↦ l.below_sent y later
                ];
                one_of = elim l.one_of [ inl p ↦ inl p | inr s ↦ inr (inr s) ];
              },
            )
      ],
    )
