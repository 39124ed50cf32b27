-- ===== src/Bitmap/Tests.antt =====
-- Runs of src/graph_coordinator/src/common/bitmap.go, and instances of its theorems.
use faa_sgraph.Base.{
  ℕ, ◌≡◌, ◌≢◌, ◌↔◌, refl, true, false, none, some, [], ◌∷◌, arith, ◌==◌, if◌then◌else◌,
}
use faa_sgraph.Bitmap.{
  Bitmap, new_bitmap, new_bitmap_with, new_bitmap_with_all, add, get, or, and, empty, count,
  count_word, count_words,
}
use faa_sgraph.Bitmap.Members.{room, get-add, get-new_bitmap, get-new_bitmap_with_all, empty_iff}
use faa_sgraph.Bitmap.Count.{tally, is_some_true, count-tally}

abbrev two_words : Bitmap
two_words = record { words = 5 ∷ 2 ∷ [] }

-- Vertex 35 is bit 3 of the second word.
abbrev with_35 : Bitmap
with_35 = record { words = 5 ∷ 10 ∷ [] }

add_35 : add two_words 35 ≡ some with_35
unfolding add
add_35 = refl

-- There is no third word.
add_out_of_room : add two_words 64 ≡ none
unfolding add
add_out_of_room = refl

get-add_example : get with_35 33 ≡ (if 33 == 35 then some true else get two_words 33)
get-add_example = get-add two_words with_35 35 add_35 33

get_33 : get two_words 33 ≡ some true
unfolding get
get_33 = refl

get_of_none : get (record { words = 0 ∷ 0 ∷ [] }) 33 ≡ some false
unfolding get
get_of_none = refl

or_run : or two_words (record { words = 0 ∷ 0 ∷ [] }) ≡ some two_words
unfolding or new_bitmap_with
or_run = refl

and_run : and two_words (record { words = 0 ∷ 0 ∷ [] }) ≡ some (record { words = 0 ∷ 0 ∷ [] })
unfolding and new_bitmap_with
and_run = refl

get-new_bitmap_example : get (new_bitmap 64) 63 ≡ some false
get-new_bitmap_example = get-new_bitmap 64 63 (omega arith)

get-new_bitmap_with_all_example : get (new_bitmap_with_all 64) 63 ≡ some true
get-new_bitmap_with_all_example = get-new_bitmap_with_all 64 63 (omega arith)

empty_iff_example : (empty two_words ≡ true) ↔ ((v : ℕ) → get two_words v ≢ some true)
empty_iff_example = empty_iff two_words (omega arith)

count_run : count two_words ≡ some 3
unfolding count count_words count_word
count_run = refl

count-tally_example :
    count two_words ≡ some (tally (room two_words) (λ v. is_some_true (get two_words v)))
count-tally_example = count-tally two_words (omega arith)
