-- ===== src/Bitmap/Members.antt =====
-- The operations of src/graph_coordinator/src/common/bitmap.go as operations on a set of vertices.
use mathlib.Core.Option
use Prim.Native.Nat.{bit_and, bit_or}
use faa_sgraph.Base.{
  ℕ, zero, suc, ◌+◌, ◌*◌, ◌/◌, ◌%◌, ◌^◌, ◌<◌, ◌≡◌, refl, ap, ap₂, subst, sym, ◌∙◌, Bool, true,
  false, some, List, [], ◌∷◌, map, arith, ◌||◌, ◌&&◌, ◌==◌, if◌then◌else◌, get_elem?, set,
  replicate, length, ◌↔◌, inl, inr, ◌≢◌, get_elem?-set_self, get_elem?-set_ne, Bool-cases,
  lt-length_of_get_elem?, get_elem?_total, get_elem?-replicate, ℕ_discrete, dec_lt,
}
use faa_sgraph.Bits.{bit_found, bit_at-ones, bit_at-zero}
use faa_sgraph.Bitmap.{
  Bitmap, new_bitmap, new_bitmap_with, new_bitmap_with_all, add, get, or, and, all_zero, empty,
  zip_words, word_bits, full_word,
}
use faa_sgraph.Bitmap.Words.{
  bit_set, get_lem, bit_set-bit_or, bit_set-bit_and, bit_set-pow, get_elem?-zip_words,
  zip_words_total,
}

-- The number of vertices that a bitmap has room for.
abbrev pub room : Bitmap → ℕ
room b = word_bits * length b.words

-- What a read says once the word is known.
pub get_of_word :
    (b : Bitmap) (v w : ℕ)
    → get_elem? b.words (v / word_bits) ≡ some w
    → get b v ≡ some (bit_set (v % word_bits) w)
get_of_word b v w e = rw (get_lem, e)

-- `Get` succeeds exactly below the room.
pub get_total : (b : Bitmap) (v : ℕ) → v < room b → (x : Bool) × (get b v ≡ some x)
get_total b v h =
    let (w, e) = get_elem?_total b.words (v / word_bits) (omega arith) in
    (bit_set (v % word_bits) w, get_of_word b v w e)

-- A read of the words of a bitmap in which one word is replaced.
module _ (b : Bitmap) (v w : ℕ) (h : get_elem? b.words (v / word_bits) ≡ some w) where
  abbrev after : Bitmap
  after = record { words = set b.words (v / word_bits) (bit_or w (2 ^ (v % word_bits))) }

  get-after : (u : ℕ) → get after u ≡ (if u == v then some true else get b u)
  get-after u = elim (ℕ_discrete (v / word_bits) (u / word_bits)) [
    | yes same ↦
        let here = lt-length_of_get_elem? b.words (v / word_bits) h in
        let new =
          get_elem?-set_self b.words (v / word_bits) (bit_or w (2 ^ (v % word_bits))) here in
        let old = get_of_word b u w (subst (λ i. get_elem? b.words i ≡ some w) same h) in
        let word = bit_or w (2 ^ (v % word_bits)) in
        let now =
          get_of_word after u word (subst (λ i. get_elem? after.words i ≡ some word) same new) in
        rw (now, bit_set-bit_or w (2 ^ (v % word_bits)), bit_set-pow (v % word_bits))
          (ground (arith, old))
    | no other ↦
        let kept = get_elem?-set_ne b.words (bit_or w (2 ^ (v % word_bits))) other in
        rw (get_lem after u, kept, ← get_lem b u) (ground arith)
  ]

-- Where `Add` returns, its vertex is in the set, and every other vertex reads as before.
pub get-add :
    (b c : Bitmap) (v : ℕ)
    → add b v ≡ some c
    → (u : ℕ) → get c u ≡ (if u == v then some true else get b u)
unfolding add
get-add b c v h u =
    let (w, e, f) =
      (Option.map-eq-some_iff
          (λ w. record { words = set b.words (v / word_bits) (bit_or w (2 ^ (v % word_bits))) })
          (get_elem? b.words (v / word_bits))).0
        h in
    rw (← f) (get-after b v w e u)

-- Two bitmaps of one size: `Or` and `And` run to their end.
module _ (b c : Bitmap) (same : length b.words ≡ length c.words) where
  pub or_total : (d : Bitmap) × (or b c ≡ some d) × (length d.words ≡ length b.words)
  unfolding or new_bitmap_with
  or_total =
      let (ws, e, l) = zip_words_total bit_or b.words c.words same in
      (record { words = ws }, rw e, l)

module _ (b c d : Bitmap) (u : ℕ) {x y : Bool} (p : get b u ≡ some x) (q : get c u ≡ some y) where
  get_of_zip :
      (op : ℕ → ℕ → ℕ) (test : Bool → Bool → Bool)
      → ((k m n : ℕ) → bit_set k (op m n) ≡ test (bit_set k m) (bit_set k n))
      → Option.map new_bitmap_with (zip_words op b.words c.words) ≡ some d
      → get d u ≡ some (test x y)
  unfolding new_bitmap_with
  get_of_zip op test law h =
      let i = u / word_bits in
      let (ws, e, f) =
        (Option.map-eq-some_iff new_bitmap_with (zip_words op b.words c.words)).0 h in
      let (m, bm, gm) =
        (Option.map-eq-some_iff (bit_set (u % word_bits)) (get_elem? b.words i)).0
          (sym (get_lem b u) ∙ p) in
      let (n, cn, gn) =
        (Option.map-eq-some_iff (bit_set (u % word_bits)) (get_elem? c.words i)).0
          (sym (get_lem c u) ∙ q) in
      rw (← f) (
        get_of_word (record { words = ws }) u (op m n)
          (get_elem?-zip_words op b.words c.words ws i e bm cn)
        ∙ ap some (law (u % word_bits) m n ∙ ap₂ test gm gn))

  -- After `Or` a vertex is in the set exactly if it was in one of the two.
  pub get-or : or b c ≡ some d → get d u ≡ some (x || y)
  unfolding or
  get-or h = get_of_zip bit_or (λ s t. s || t) (λ k m n. bit_set-bit_or m n k) h

  -- After `And` a vertex is in the set exactly if it was in both.
  pub get-and : and b c ≡ some d → get d u ≡ some (x && y)
  unfolding and
  get-and h = get_of_zip bit_and (λ s t. s && t) (λ k m n. bit_set-bit_and m n k) h

zero_unset : (k : ℕ) → bit_set k 0 ≡ false
zero_unset k = ground (arith, bit_at-zero k)

-- A new bitmap has room for the vertices below its size, and holds none of them.
pub get-new_bitmap : (size v : ℕ) → v < size → get (new_bitmap size) v ≡ some false
unfolding new_bitmap
get-new_bitmap size v h =
    let word = get_elem?-replicate (suc (size / word_bits)) (v / word_bits) 0 (omega arith) in
    get_of_word (new_bitmap size) v 0 word ∙ ap some (zero_unset (v % word_bits))

get_elem?-map-replicate :
    (f : ℕ → ℕ) (n a i : ℕ) → i < n → get_elem? (map f (replicate n a)) i ≡ some (f a)
get_elem?-map-replicate f zero a i h = elim h [ ]
get_elem?-map-replicate f (suc n) a zero h = refl
get_elem?-map-replicate f (suc n) a (suc i) h = get_elem?-map-replicate f n a i (omega arith)

-- `NewBitmapWithAll` holds every vertex below its size.
pub get-new_bitmap_with_all : (size v : ℕ) → v < size → get (new_bitmap_with_all size) v ≡ some true
unfolding new_bitmap_with_all
get-new_bitmap_with_all size v h =
    let n = suc (size / word_bits) in
    let words : get_elem? (new_bitmap_with_all size).words (v / word_bits) ≡ some full_word =
      get_elem?-map-replicate (λ _. full_word) n 0 (v / word_bits) (omega arith) in
    get_of_word (new_bitmap_with_all size) v full_word words
    ∙ ap some (ground (arith, bit_at-ones 32 (v % word_bits) (omega arith)))

abbrev pub Fits : List ℕ → Type 0
Fits [] = Unit {0}
Fits (w ∷ ws) = (w < 2 ^ 32) × Fits ws

zero_of_all_zero :
    (ws : List ℕ) (i : ℕ) {w : ℕ} → all_zero ws ≡ true → get_elem? ws i ≡ some w → w ≡ 0
zero_of_all_zero [] i h e = absurd (ground arith)
zero_of_all_zero (x ∷ ws) zero h e = ground arith
zero_of_all_zero (x ∷ ws) (suc i) h e = zero_of_all_zero ws i (ground arith) e

positive_found :
    (ws : List ℕ)
    → Fits ws
    → all_zero ws ≡ false
    → (i w : ℕ) × (get_elem? ws i ≡ some w) × (0 < w) × (w < 2 ^ 32)
positive_found [] h e = absurd (ground arith)
positive_found (w ∷ ws) h e = elim (dec_lt 0 w) [
  | yes p ↦ (0, w, refl, p, h.0)
  | no z ↦
      let (i, x, at, pos, fits) = positive_found ws h.1 (ground arith) in (suc i, x, at, pos, fits)
]

-- `Empty` answers true exactly if `Get` finds no vertex in the set.
pub empty_iff : (b : Bitmap) → Fits b.words → (empty b ≡ true) ↔ ((v : ℕ) → get b v ≢ some true)
unfolding empty
empty_iff b h = (λ e v g. not_member e v g, λ none_set. no_word none_set)
  where
    not_member : all_zero b.words ≡ true → (v : ℕ) → get b v ≡ some true → ⊥
    not_member e v g =
        let (w, at, set) =
          (Option.map-eq-some_iff (bit_set (v % word_bits)) (get_elem? b.words (v / word_bits))).0
            (sym (get_lem b v) ∙ g) in
        let z = zero_of_all_zero b.words (v / word_bits) e at in
        cc (sym set ∙ ap (bit_set (v % word_bits)) z ∙ zero_unset (v % word_bits))

    no_word : ((v : ℕ) → get b v ≢ some true) → all_zero b.words ≡ true
    no_word none_set = elim (Bool-cases (all_zero b.words)) [
      | inl z ↦ z
      | inr nz ↦
          let (i, w, at, pos, fits) = positive_found b.words h nz in
          let (j, below, one) = bit_found 32 w fits pos in
          let row : (i * 32 + j) / word_bits ≡ i = omega arith in
          let column : (i * 32 + j) % word_bits ≡ j = omega arith in
          let found =
            get_of_word b (i * 32 + j) w (subst (λ k. get_elem? b.words k ≡ some w) (sym row) at) in
          let set : bit_set ((i * 32 + j) % word_bits) w ≡ true = rw column (ground arith) in
          absurd (none_set (i * 32 + j) (found ∙ ap some set))
    ]
