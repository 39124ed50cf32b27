-- ===== src/Coordinator/Union.antt =====
-- The union of the answers of the containers in src/graph_coordinator/src/container_set.go: it does
-- not depend on the order in which they come.
use faa_sgraph.Base.{
  ℕ, suc, ◌*◌, ◌/◌, ◌<◌, ◌≡◌, refl, sym, ◌∙◌, ◌↔◌, ◌⊎◌, inl, inr, Bool, true, false, ◌||◌, Option,
  some, List, [], ◌∷◌, arith, ltb, if◌then◌else◌, All, length, length-replicate,
}
use faa_sgraph.Bitmap
use faa_sgraph.Bitmap.{Bitmap, word_bits}
use faa_sgraph.Bitmap.Members.{get_total, or_total, get-or, get-new_bitmap}
use faa_sgraph.Coordinator.{union_with, dispatch_request}

-- Bitmaps of one size.
abbrev pub Sized : ℕ → Bitmap → Type 0
Sized n b = length b.words ≡ n

-- Some answer has the vertex.
abbrev pub AnyHas : ℕ → List Bitmap → Type 0
AnyHas v [] = ⊥
AnyHas v (b ∷ bs) = (Bitmap.get b v ≡ some true) ⊎ AnyHas v bs

or_two_lem :
    (few : Bool) (b c : Bitmap) → (if few then Bitmap.or_two b c else Bitmap.or b c) ≡ Bitmap.or b c
unfolding Bitmap.or_two Bitmap.or
or_two_lem true b c = refl
or_two_lem false b c = refl

or_iff :
    (o p q : Option Bool) (x y : Bool)
    → o ≡ some x
    → p ≡ some y
    → q ≡ some (x || y)
    → (q ≡ some true) ↔ ((o ≡ some true) ⊎ (p ≡ some true))
or_iff o p q true y e f g = (λ h. inl e, λ m. g)
or_iff o p q false true e f g = (λ h. inr f, λ m. g)
or_iff o p q false false e f g = (
  λ h. absurd (not_true (sym g ∙ h)),
  λ m. elim m [ inl h ↦ absurd (not_true (sym e ∙ h)) | inr h ↦ absurd (not_true (sym f ∙ h)) ],
)
  where
    not_true : some false ≡ some true → ⊥
    not_true h = absurd (ground arith)

union_with_lem :
    (few : Bool) (n v : ℕ) (bs : List Bitmap) (acc : Bitmap)
    → Sized n acc
    → All (Sized n) bs
    → v < word_bits * n
    → (d : Bitmap) × (union_with few bs acc ≡ some d)
      × Sized n d
      × ((Bitmap.get d v ≡ some true) ↔ ((Bitmap.get acc v ≡ some true) ⊎ AnyHas v bs))
union_with_lem few n v [] acc s a h =
    (acc, refl, s, (λ e. inl e, λ m. elim m [ inl e ↦ e | inr e ↦ absurd e ]))
union_with_lem few n v (b ∷ bs) acc s a h =
    let (x, p) = get_total acc v (omega (arith, s)) in
    let (y, q) = get_total b v (omega (arith, a.0)) in
    let (c, e, l) = or_total acc b (s ∙ sym a.0) in
    let both : Bitmap.get c v ≡ some (x || y) = get-or acc b c v p q e in
    let joined = or_iff (Bitmap.get acc v) (Bitmap.get b v) (Bitmap.get c v) x y p q both in
    let (d, f, size, iff) = union_with_lem few n v bs c (l ∙ s) a.1 h in
    (
      d,
      rw (or_two_lem few acc b, e) f,
      size,
      (
        λ got. elim (iff.0 got) [
          | inr later ↦ inr (inr later)
          | inl here ↦ elim (joined.0 here) [ inl m ↦ inl m | inr m ↦ inr (inl m) ]
        ],
        λ m. iff.1 (elim m [
          | inl first ↦ inl (joined.1 (inl first))
          | inr k ↦ elim k [ inl this ↦ inl (joined.1 (inr this)) | inr later ↦ inr later ]
        ]),
      ),
    )

-- The words of a bitmap for n vertices.
abbrev pub words_of : ℕ → ℕ
words_of n = suc (n / word_bits)

-- A round's next active set: where the answers have the size of the graph, `dispatchRequest`
-- returns, and a vertex is active exactly if some container says so; neither the order of the
-- answers nor the way they are joined matters.
pub dispatch_request-AnyHas :
    (n partitions v : ℕ) (bs : List Bitmap)
    → All (Sized (words_of n)) bs
    → v < n
    → (d : Bitmap) × (dispatch_request n partitions bs ≡ some d)
      × ((Bitmap.get d v ≡ some true) ↔ AnyHas v bs)
unfolding dispatch_request Bitmap.new_bitmap
dispatch_request-AnyHas n partitions v bs a h =
    let empty = get-new_bitmap n v h in
    let (d, e, s, iff) =
      union_with_lem (ltb partitions 3) (words_of n) v bs (Bitmap.new_bitmap n)
        (length-replicate (words_of n) 0) a (omega arith) in
    (
      d,
      e,
      (
        λ got. elim (iff.0 got) [ inl first ↦ absurd (ground (arith, first, empty)) | inr m ↦ m ],
        λ m. iff.1 (inr m),
      ),
    )

-- It keeps the size, and returns whatever the vertices are.
pub dispatch_request-Sized :
    (n partitions : ℕ) (bs : List Bitmap)
    → All (Sized (words_of n)) bs
    → (d : Bitmap) × (dispatch_request n partitions bs ≡ some d) × Sized (words_of n) d
unfolding dispatch_request Bitmap.new_bitmap
dispatch_request-Sized n partitions bs a =
    let (d, e, s, iff) =
      union_with_lem (ltb partitions 3) (words_of n) 0 bs (Bitmap.new_bitmap n)
        (length-replicate (words_of n) 0) a (omega arith) in
    (d, e, s)
