-- ===== src/Bitmap/Words.antt =====
-- The words behind a bitmap of src/graph_coordinator/src/common/bitmap.go: reads of `get` as bits,
-- and the word loops at one index.
use Prim.Native.Nat.{bit_and, bit_or}
use mathlib.Core.Option
use native.Mathlib.Nat.{one-le-pow}
use faa_sgraph.Base.{
  ℕ, zero, suc, ◌/◌, ◌%◌, ◌^◌, ◌≡◌, refl, ap, Bool, Option, none, some, List, [], ◌∷◌, arith, ltb,
  ◌||◌, ◌&&◌, ◌==◌, get_elem?, length,
}
use faa_sgraph.Bits.{bit_at, bit_and-pow, bit_at-bit_or, bit_at-bit_and, bit_at-pow, bit_at-le}
use faa_sgraph.Bitmap.{Bitmap, get, zip_words, word_bits}

-- Whether bit k of a word is set.
abbrev pub bit_set : ℕ → ℕ → Bool
bit_set k w = ltb 0 (bit_at w k)

-- Go's test `w & (1 << k) > 0`.
test-bit_set : (w k : ℕ) → ltb 0 (bit_and w (2 ^ k)) ≡ bit_set k w
test-bit_set w k = rw bit_and-pow (ground (arith, bit_at-le w k, one-le-pow k 2))

pub get_lem :
    (b : Bitmap) (v : ℕ)
    → get b v ≡ Option.map (bit_set (v % word_bits)) (get_elem? b.words (v / word_bits))
unfolding get
get_lem b v = on_word (get_elem? b.words (v / word_bits))
  where
    on_word :
        (o : Option ℕ)
        → Option.map (λ w. ltb 0 (bit_and w (2 ^ (v % word_bits)))) o
          ≡ Option.map (bit_set (v % word_bits)) o
    on_word none = refl
    on_word (some w) = ap some (test-bit_set w (v % word_bits))

pub bit_set-bit_or : (a b k : ℕ) → bit_set k (bit_or a b) ≡ (bit_set k a || bit_set k b)
bit_set-bit_or a b k = rw bit_at-bit_or (ground (arith, bit_at-le a k, bit_at-le b k))

pub bit_set-bit_and : (a b k : ℕ) → bit_set k (bit_and a b) ≡ (bit_set k a && bit_set k b)
bit_set-bit_and a b k = rw bit_at-bit_and (ground (arith, bit_at-le a k, bit_at-le b k))

pub bit_set-pow : (j k : ℕ) → bit_set k (2 ^ j) ≡ (j == k)
bit_set-pow j k = rw bit_at-pow (ground arith)

-- A finished word loop has one result at each index.
pub get_elem?-zip_words :
    (op : ℕ → ℕ → ℕ) (bs cs ds : List ℕ) (i : ℕ) {x y : ℕ}
    → zip_words op bs cs ≡ some ds
    → get_elem? bs i ≡ some x
    → get_elem? cs i ≡ some y
    → get_elem? ds i ≡ some (op x y)
get_elem?-zip_words op [] cs ds i h p q = absurd (ground arith)
get_elem?-zip_words op (b ∷ bs) [] ds i h p q = absurd (ground arith)
get_elem?-zip_words op (b ∷ bs) (c ∷ cs) ds zero h p q =
    let (ws, e, f) = (Option.map-eq-some_iff (λ ws. op b c ∷ ws) (zip_words op bs cs)).0 h in
    rw (← f) (ground arith)
get_elem?-zip_words op (b ∷ bs) (c ∷ cs) ds (suc i) h p q =
    let (ws, e, f) = (Option.map-eq-some_iff (λ ws. op b c ∷ ws) (zip_words op bs cs)).0 h in
    rw (← f) (get_elem?-zip_words op bs cs ws i e p q)

-- The loop runs to its end exactly when the second list is as long as the first.
pub zip_words_total :
    (op : ℕ → ℕ → ℕ) (bs cs : List ℕ)
    → length bs ≡ length cs
    → (ds : List ℕ) × (zip_words op bs cs ≡ some ds) × (length ds ≡ length bs)
zip_words_total op [] cs h = ([], refl, refl)
zip_words_total op (b ∷ bs) [] h = absurd (omega arith)
zip_words_total op (b ∷ bs) (c ∷ cs) h =
    let (ds, e, l) = zip_words_total op bs cs (omega arith) in (op b c ∷ ds, rw e, omega arith)
