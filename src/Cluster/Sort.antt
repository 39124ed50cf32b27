-- ===== src/Cluster/Sort.antt =====
-- What `sort.Slice` promises of the nodes of src/faas_controller/src/faas/cluster.go, and one sort
-- that keeps the promise.
use mathlib.Core.List.{Permᴰ}
use mathlib.Core.List.Permᴰ
use faa_sgraph.Base.{
  All-Perm, ◌≤◌, refl, inl, inr, List, [], ◌∷◌, arith, ltb, if◌then◌else◌, Bool-cases, All, All-map,
}
use faa_sgraph.Cluster.{Node}

-- The largest number of free slots first.
abbrev pub Descends : List Node → Type 0
Descends [] = Unit
Descends (n ∷ ns) = All (λ m. m.slot ≤ n.slot) ns × Descends ns

pub record Sorting : Type 0 where
  pub sort : List Node → List Node
  pub perm : (ns : List Node) → Permᴰ ns (sort ns)
  pub descends : (ns : List Node) → Descends (sort ns)

-- Insertion, which keeps the order of nodes with equally many slots.
abbrev insert : Node → List Node → List Node
insert n [] = n ∷ []
insert n (m ∷ ms) = let rest = insert n ms in if ltb m.slot n.slot then n ∷ m ∷ ms else m ∷ rest

abbrev pub insertion_sort : List Node → List Node
insertion_sort [] = []
insertion_sort (n ∷ ns) = insert n (insertion_sort ns)

insert-Perm : (n : Node) (ms : List Node) → Permᴰ (n ∷ ms) (insert n ms)
insert-Perm n [] = Permᴰ.refl (n ∷ [])
insert-Perm n (m ∷ ms) = elim (Bool-cases (ltb m.slot n.slot)) [
  | inl less ↦ rw less (Permᴰ.refl (n ∷ m ∷ ms))
  | inr more ↦ rw more (Permᴰ.trans (Permᴰ.swap refl refl) (Permᴰ.cons refl (insert-Perm n ms)))
]

pub insertion_sort-Perm : (ns : List Node) → Permᴰ ns (insertion_sort ns)
insertion_sort-Perm [] = Permᴰ.nil
insertion_sort-Perm (n ∷ ns) =
    Permᴰ.trans (Permᴰ.cons refl (insertion_sort-Perm ns)) (insert-Perm n (insertion_sort ns))

insert-Descends : (n : Node) (ms : List Node) → Descends ms → Descends (insert n ms)
insert-Descends n [] d = (tt, tt)
insert-Descends n (m ∷ ms) (a, d) = elim (Bool-cases (ltb m.slot n.slot)) [
  | inl less ↦
      let below : m.slot ≤ n.slot = ground arith in
      rw less (
        (below, All-map (λ k. k.slot ≤ m.slot) (λ k. k.slot ≤ n.slot) ms (λ k h. omega arith) a),
        (a, d),
      )
  | inr more ↦
      let above : n.slot ≤ m.slot = ground arith in
      rw more (
        All-Perm (λ k. k.slot ≤ m.slot) (n ∷ ms) (insert n ms) (insert-Perm n ms) (above, a),
        insert-Descends n ms d,
      )
]

pub insertion_sort-Descends : (ns : List Node) → Descends (insertion_sort ns)
insertion_sort-Descends [] = tt
insertion_sort-Descends (n ∷ ns) =
    insert-Descends n (insertion_sort ns) (insertion_sort-Descends ns)

abbrev pub by_insertion : Sorting
by_insertion = record {
  sort = insertion_sort;
  perm = insertion_sort-Perm;
  descends = insertion_sort-Descends;
}
