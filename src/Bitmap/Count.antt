-- ===== src/Bitmap/Count.antt =====
-- `Count` of src/graph_coordinator/src/common/bitmap.go against the number of vertices in the set.
use Prim.Native.Nat.{bit_and}
use native.Mathlib.Nat.{pow-suc}
use faa_sgraph.Base.{
  ℕ, zero, suc, ◌+◌, ◌*◌, ◌/◌, ◌%◌, ◌^◌, ◌<◌, ◌≡◌, refl, ap, ap₂, ◌∙◌, Bool, false, Option, none,
  some, List, [], ◌∷◌, arith, if◌then◌else◌, length, ℕ_discrete,
}
use faa_sgraph.Bits.{bit_at-zero, bit_and-pow}
use faa_sgraph.Bitmap.{Bitmap, get, count, count_word, count_words, word_bits}
use faa_sgraph.Bitmap.Words.{bit_set, get_lem}
use faa_sgraph.Bitmap.Members.{Fits, room}

-- Whether `Get` finds the vertex in the set.
abbrev pub is_some_true : Option Bool → Bool
is_some_true none = false
is_some_true (some x) = x

-- How many of the first n numbers pass a test.
abbrev pub tally : ℕ → (ℕ → Bool) → ℕ
tally zero p = 0
tally (suc n) p = (if p 0 then 1 else 0) + tally n (λ v. p (suc v))

pub tally_congr : (n : ℕ) (p q : ℕ → Bool) → ((v : ℕ) → v < n → p v ≡ q v) → tally n p ≡ tally n q
tally_congr zero p q h = refl
tally_congr (suc n) p q h =
    ap₂ ◌+◌ (ap (λ (x : Bool). if x then 1 else 0) (h 0 (omega arith)))
      (tally_congr n (λ v. p (suc v)) (λ v. q (suc v)) (λ v l. h (suc v) (omega arith)))

pub tally-add : (m n : ℕ) (p : ℕ → Bool) → tally (m + n) p ≡ tally m p + tally n (λ v. p (m + v))
tally-add zero n p =
    let start : 0 + n ≡ n = omega arith in
    let shift = tally_congr n (λ v. p (0 + v)) p (λ v _. ap p (omega arith)) in
    rw start (omega (arith, shift))
tally-add (suc m) n p =
    let step : suc m + n ≡ suc (m + n) = omega arith in
    let shift =
      tally_congr n (λ v. p (suc m + v)) (λ v. p (suc (m + v))) (λ v _. ap p (omega arith)) in
    rw step (omega (arith, shift, tally-add m n (λ v. p (suc v))))

tally-none : (n : ℕ) → tally n (λ _. false) ≡ 0
tally-none zero = refl
tally-none (suc n) = omega (arith, tally-none n)

bit_set-zero : (k : ℕ) → bit_set k 0 ≡ false
bit_set-zero k = ground (arith, bit_at-zero k)

-- The loop on one word: it ends within its bits, and has added the number of bits set.
ones-tally :
    (fuel v cnt : ℕ)
    → v < 2 ^ fuel
    → count_word fuel v cnt ≡ some (cnt + tally fuel (λ k. bit_set k v))
unfolding count_word
ones-tally zero v cnt h = ground arith
ones-tally (suc fuel) v cnt h = elim (ℕ_discrete v 0) [
  | yes z ↦
      let none_set =
        tally_congr (suc fuel) (λ k. bit_set k v) (λ _. false)
          (λ k _. ap (bit_set k) z ∙ bit_set-zero k) in
      ground (arith, none_set, tally-none (suc fuel))
  | no nz ↦
      let rest = ones-tally fuel (v / 2) (cnt + bit_and v 1) (omega (arith, pow-suc 2 fuel)) in
      ground (arith, rest, bit_and-pow v 0)
]

total : List ℕ → ℕ
total [] = 0
total (w ∷ ws) = tally word_bits (λ k. bit_set k w) + total ws

count_words-total : (ws : List ℕ) (cnt : ℕ) → Fits ws → count_words ws cnt ≡ some (cnt + total ws)
unfolding count_words total
count_words-total [] cnt h = ground arith
count_words-total (w ∷ ws) cnt h =
    rw (ones-tally word_bits w cnt h.0)
      (rw (count_words-total ws (cnt + tally word_bits (λ k. bit_set k w)) h.1) (ground arith))

member-first :
    (w : ℕ) (ws : List ℕ) (v : ℕ)
    → v < word_bits
    → is_some_true (get (record { words = w ∷ ws }) v) ≡ bit_set v w
member-first w ws v h =
    let row : v / word_bits ≡ 0 = omega arith in
    let column : v % word_bits ≡ v = omega arith in
    rw (get_lem (record { words = w ∷ ws }) v, row, column)

member-rest :
    (w : ℕ) (ws : List ℕ) (v : ℕ)
    → is_some_true (get (record { words = w ∷ ws }) (word_bits + v))
      ≡ is_some_true (get (record { words = ws }) v)
member-rest w ws v =
    let row : (word_bits + v) / word_bits ≡ suc (v / word_bits) = omega arith in
    let column : (word_bits + v) % word_bits ≡ v % word_bits = omega arith in
    rw (
      get_lem (record { words = w ∷ ws }) (word_bits + v),
      get_lem (record { words = ws }) v,
      row,
      column,
    )

total-tally :
    (ws : List ℕ)
    → total ws ≡ tally (word_bits * length ws) (λ v. is_some_true (get (record { words = ws }) v))
unfolding total
total-tally [] = refl
total-tally (w ∷ ws) =
    let p = λ (v : ℕ). is_some_true (get (record { words = w ∷ ws }) v) in
    let size : word_bits * suc (length ws) ≡ word_bits + word_bits * length ws = omega arith in
    let first = tally_congr word_bits p (λ k. bit_set k w) (member-first w ws) in
    let rest =
      tally_congr (word_bits * length ws) (λ v. p (word_bits + v))
        (λ v. is_some_true (get (record { words = ws }) v)) (λ v _. member-rest w ws v) in
    rw size
      (omega (arith, tally-add word_bits (word_bits * length ws) p, first, rest, total-tally ws))

-- `Count` ends, and returns how many vertices in room `Get` finds in the set.
pub count-tally :
    (b : Bitmap) → Fits b.words → count b ≡ some (tally (room b) (λ v. is_some_true (get b v)))
unfolding count
count-tally b h = count_words-total b.words 0 h ∙ ap some (omega (arith, total-tally b.words))
