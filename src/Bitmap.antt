-- ===== src/Bitmap.antt =====
-- src/graph_coordinator/src/common/bitmap.go: the set of active vertices, one bit a vertex in
-- words of 32 bits. `none` is Go's index-out-of-range panic. The lock-prefixed `Or` of
-- or_amd64.s acts on one word at once, so that here it is `bit_or`.
pub mod Words
pub mod Members
pub mod Count
pub mod Tests
use Prim.Native.Nat.{bit_and, bit_or}
use mathlib.Core.Option
use faa_sgraph.Base.{
  ℕ, zero, suc, ◌+◌, ◌-◌, ◌/◌, ◌%◌, ◌^◌, ◌<◌, Bool, true, false, Option, none, some, List, [], ◌∷◌,
  map, ltb, ◌==◌, if◌then◌else◌, get_elem?, set, replicate, ◌>>=◌,
}

pub record Bitmap : Type 0 where
  pub words : List ℕ

abbrev pub word_bits : ℕ
word_bits = 32

-- math.MaxUint32
abbrev pub full_word : ℕ
full_word = 2 ^ 32 - 1

unfoldable pub new_bitmap : ℕ → Bitmap
new_bitmap size = record { words = replicate (suc (size / word_bits)) 0 }

unfoldable pub new_bitmap_with : List ℕ → Bitmap
new_bitmap_with ws = record { words = ws }

unfoldable pub new_bitmap_with_all : ℕ → Bitmap
unfolding new_bitmap
new_bitmap_with_all size = record { words = map (λ _. full_word) (new_bitmap size).words }

unfoldable pub add : Bitmap → ℕ → Option Bitmap
add b v =
    let pos = v / word_bits in
    let off = v % word_bits in
    Option.map (λ w. record { words = set b.words pos (bit_or w (2 ^ off)) })
      (get_elem? b.words pos)

unfoldable pub get : Bitmap → ℕ → Option Bool
get b v =
    let pos = v / word_bits in
    let off = v % word_bits in Option.map (λ w. ltb 0 (bit_and w (2 ^ off))) (get_elem? b.words pos)

-- The loop over `b.Data`, which reads `c.Data[i]`.
abbrev pub zip_words : (ℕ → ℕ → ℕ) → List ℕ → List ℕ → Option (List ℕ)
zip_words op [] cs = some []
zip_words op (b ∷ bs) [] = none
zip_words op (b ∷ bs) (c ∷ cs) = Option.map (λ ws. op b c ∷ ws) (zip_words op bs cs)

unfoldable pub or : Bitmap → Bitmap → Option Bitmap
or b c = Option.map new_bitmap_with (zip_words bit_or b.words c.words)

-- `Or2` is `Or` without the lock prefix.
unfoldable pub or_two : Bitmap → Bitmap → Option Bitmap
or_two b c = Option.map new_bitmap_with (zip_words bit_or b.words c.words)

unfoldable pub and : Bitmap → Bitmap → Option Bitmap
and b c = Option.map new_bitmap_with (zip_words bit_and b.words c.words)

abbrev pub all_zero : List ℕ → Bool
all_zero [] = true
all_zero (w ∷ ws) = if ltb 0 w then false else all_zero ws

unfoldable pub empty : Bitmap → Bool
empty b = all_zero b.words

-- `for v != 0 { cnt += v & 1; v >>= 1 }`, on fuel.
unfoldable pub count_word : ℕ → ℕ → ℕ → Option ℕ
count_word zero v cnt = if v == 0 then some cnt else none
count_word (suc fuel) v cnt =
    let rest = count_word fuel (v / 2) (cnt + bit_and v 1) in if v == 0 then some cnt else rest

-- A word has 32 bits, and each round drops one.
unfoldable pub count_words : List ℕ → ℕ → Option ℕ
count_words [] cnt = some cnt
count_words (w ∷ ws) cnt = do n ← count_word word_bits w cnt; count_words ws n

unfoldable pub count : Bitmap → Option ℕ
count b = count_words b.words 0
