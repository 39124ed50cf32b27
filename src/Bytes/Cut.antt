-- ===== src/Bytes/Cut.antt =====
-- A run of whole words, cut out of the bytes of util.go's slices, is the bytes of a run of words.
use faa_sgraph.Base.{
  ℕ, zero, suc, ◌*◌, ◌/◌, ◌^◌, ◌≡◌, refl, ap, List, [], ◌∷◌, ◌++◌, arith, take, drop, take-nil,
  drop-nil,
}
use faa_sgraph.Bytes.{uint32_slice_to_byte_slice, int64_slice_to_byte_slice, uint32_to_bytes}

pub drop-bytes :
    (n : ℕ) (ws : List ℕ)
    → drop (4 * n) (uint32_slice_to_byte_slice ws) ≡ uint32_slice_to_byte_slice (drop n ws)
unfolding uint32_slice_to_byte_slice
drop-bytes zero ws = refl
drop-bytes (suc n) [] = drop-nil (4 * suc n)
drop-bytes (suc n) (w ∷ ws) =
    let e : 4 * suc n ≡ suc (suc (suc (suc (4 * n)))) = omega arith in rw e (drop-bytes n ws)

pub take-bytes :
    (n : ℕ) (ws : List ℕ)
    → take (4 * n) (uint32_slice_to_byte_slice ws) ≡ uint32_slice_to_byte_slice (take n ws)
unfolding uint32_slice_to_byte_slice
take-bytes zero ws = refl
take-bytes (suc n) [] = take-nil (4 * suc n)
take-bytes (suc n) (w ∷ ws) =
    let e : 4 * suc n ≡ suc (suc (suc (suc (4 * n)))) = omega arith in
    rw e (ap (λ bs. uint32_to_bytes w ++ bs) (take-bytes n ws))

pub drop-offset_bytes :
    (n : ℕ) (ns : List ℕ)
    → drop (8 * n) (int64_slice_to_byte_slice ns) ≡ int64_slice_to_byte_slice (drop n ns)
unfolding int64_slice_to_byte_slice
drop-offset_bytes zero ns = refl
drop-offset_bytes (suc n) [] = drop-nil (8 * suc n)
drop-offset_bytes (suc n) (o ∷ ns) =
    let e : 8 * suc n ≡ suc (suc (suc (suc (suc (suc (suc (suc (8 * n)))))))) = omega arith in
    rw e (drop-offset_bytes n ns)

pub take-offset_bytes :
    (n : ℕ) (ns : List ℕ)
    → take (8 * n) (int64_slice_to_byte_slice ns) ≡ int64_slice_to_byte_slice (take n ns)
unfolding int64_slice_to_byte_slice
take-offset_bytes zero ns = refl
take-offset_bytes (suc n) [] = take-nil (8 * suc n)
take-offset_bytes (suc n) (o ∷ ns) =
    let e : 8 * suc n ≡ suc (suc (suc (suc (suc (suc (suc (suc (8 * n)))))))) = omega arith in
    rw e (
      ap (λ bs. uint32_to_bytes o ++ (uint32_to_bytes (o / 2 ^ 32) ++ bs)) (take-offset_bytes n ns))
