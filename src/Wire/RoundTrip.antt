-- ===== src/Wire/RoundTrip.antt =====
-- The updates that a kernel in app/graph sends are those that the readers of frames in
-- src/lambda_executor/src/main.go and src/local_manager/src/main.go apply.
use mathlib.Core.Option
use faa_sgraph.Base.{
  ℕ, zero, suc, ◌+◌, ◌*◌, ◌%◌, ◌^◌, ◌<◌, ◌≤◌, ◌≡◌, refl, ap, ap₂, All, ◌∙◌, inl, inr, Option, some,
  List, [], ◌∷◌, ◌++◌, map, arith, Option-cases, length, replicate, length-append, length-replicate,
  take-append_left, drop-append_left, ◌>>=◌,
}
use faa_sgraph.Bytes.{uint32_slice_to_byte_slice, uint32_to_bytes, bytes_to_uint32}
use faa_sgraph.Bytes.RoundTrip.{
  AreWords, words-bytes, length-bytes, bytes_to_uint32-uint32_to_bytes,
}
use faa_sgraph.Wire.{read_into, read_frame, read_frames, fill, each_pair}
use faa_sgraph.Wire.Fill.{Full, fill_lem, read_into_lem}

-- Pairs as they stand in a slice.
abbrev pub flat : List (ℕ × ℕ) → List ℕ
flat [] = []
flat ((v, val) ∷ us) = v ∷ val ∷ flat us

pub length-flat : (us : List (ℕ × ℕ)) → length (flat us) ≡ 2 * length us
length-flat [] = refl
length-flat (u ∷ us) = omega (arith, length-flat us)

abbrev pub frame : List (ℕ × ℕ) → List ℕ
frame us = uint32_slice_to_byte_slice (length us ∷ flat us)

-- One frame, followed by anything.
pub read_frame_lem :
    (cut : ℕ → ℕ) (us : List (ℕ × ℕ)) (b rest : List ℕ)
    → Full cut
    → length b ≡ 4
    → AreWords (flat us)
    → length us < 2 ^ 28
    → (b' : List ℕ) × (length b' ≡ 4)
      × (read_frame cut b (frame us ++ rest) ≡ some (length us, flat us, b', rest))
unfolding read_frame uint32_slice_to_byte_slice uint32_to_bytes
read_frame_lem cut us b rest full h w short =
    let head = uint32_to_bytes (length us) in
    let payload = uint32_slice_to_byte_slice (flat us) in
    let body = payload ++ rest in
    let size : length payload ≡ 8 * length us =
      omega (arith, length-bytes (flat us), length-flat us) in
    let buffer : read_into cut b (frame us ++ rest) ≡ (head, body) =
      read_into_lem cut b (head ++ body) full h (omega arith) in
    let num : bytes_to_uint32 head ≡ length us =
      bytes_to_uint32-uint32_to_bytes (length us) (omega arith) in
    let room : length us * 8 % 2 ^ 32 ≡ 8 * length us = omega arith in
    let filled : fill cut (length us) 0 (replicate (8 * length us) 0) body ≡ some (payload, rest) =
      fill_lem cut (length us) 0 [] (replicate (8 * length us) 0) body full refl
        (length-replicate (8 * length us) 0) (omega (arith, length-append payload rest))
        (omega arith)
      ∙ ap₂ (λ x y. some (x, y)) (take-append_left (8 * length us) payload rest size)
          (drop-append_left (8 * length us) payload rest size) in
    (head, refl, rw (buffer, num, room, filled, words-bytes (flat us) w) refl)

-- A reader on frames one after another does what the pairs of all of them say, in their order.
abbrev pub frames : List (List (ℕ × ℕ)) → List (List ℕ)
frames = map frame

abbrev pub concat_all {ℓ} : {A : Type ℓ} → List (List A) → List A
concat_all [] = []
concat_all (xs ∷ xss) = xs ++ concat_all xss

-- Chunks of words, each short enough for its count.
abbrev pub AreChunks : List (List (ℕ × ℕ)) → Type 0
AreChunks uss = All (λ us. AreWords (flat us) × (length us < 2 ^ 28)) uss

pub flat-append : (us vs : List (ℕ × ℕ)) → flat (us ++ vs) ≡ flat us ++ flat vs
flat-append [] vs = refl
flat-append ((v, val) ∷ us) vs = ap (λ r. v ∷ val ∷ r) (flat-append us vs)

pub each_pair-append {ℓ} :
    {S : Type ℓ} (f : ℕ → ℕ → S → Option S) (us : List (ℕ × ℕ)) (vs : List ℕ) (s : S)
    → each_pair f (flat us ++ vs) s ≡ (each_pair f (flat us) s >>= each_pair f vs)
each_pair-append f [] vs s = refl
each_pair-append f ((v, val) ∷ us) vs s = elim (Option-cases (f v val s)) [
  | inl e ↦ rw e refl
  | inr (s', e) ↦ rw e (each_pair-append f us vs s')
]

read_frames-step {ℓ} :
    {S : Type ℓ} (cut : ℕ → ℕ) (apply : List ℕ → S → Option S) (us : List (ℕ × ℕ))
    (rest b b' : List ℕ) (fuel comm : ℕ) (s : S)
    → read_frame cut b (frame us ++ rest) ≡ some (length us, flat us, b', rest)
    → read_frames cut apply (suc fuel) b (frame us ++ rest) comm s ≡ (
        apply (flat us) s >>= λ s'.
        read_frames cut apply fuel b' rest ((comm + length us) % 2 ^ 32) s')
unfolding read_frames uint32_slice_to_byte_slice uint32_to_bytes
read_frames-step cut apply us rest b b' fuel comm s e = rw e refl

-- What a reader does to its state, frame by frame.
abbrev pub each_frame {ℓ} :
    {S : Type ℓ} → (List ℕ → S → Option S) → List (List (ℕ × ℕ)) → S → Option S
each_frame apply [] s = some s
each_frame apply (us ∷ uss) s = do s' ← apply (flat us) s; each_frame apply uss s'

pub each_frame-each_pair {ℓ} :
    {S : Type ℓ} (f : ℕ → ℕ → S → Option S) (uss : List (List (ℕ × ℕ))) (s : S)
    → each_frame (each_pair f) uss s ≡ each_pair f (flat (concat_all uss)) s
each_frame-each_pair f [] s = refl
each_frame-each_pair f (us ∷ uss) s =
    let both =
      ap (λ x. each_pair f x s) (flat-append us (concat_all uss))
      ∙ each_pair-append f us (flat (concat_all uss)) s in
    elim (Option-cases (each_pair f (flat us) s)) [
      | inl g ↦ rw (both, g) refl
      | inr (s', g) ↦ rw (both, g) (each_frame-each_pair f uss s')
    ]

-- A loop over the body reads frame by frame; the fuel is a round for each frame.
pub read_frames-frames {ℓ} :
    {S : Type ℓ} (cut : ℕ → ℕ) (apply : List ℕ → S → Option S) (uss : List (List (ℕ × ℕ)))
    (fuel comm : ℕ) (b : List ℕ) (s : S)
    → Full cut
    → length b ≡ 4
    → AreChunks uss
    → length uss ≤ fuel
    → comm < 2 ^ 32
    → read_frames cut apply fuel b (concat_all (frames uss)) comm s
      ≡ Option.map (λ s'. (s', (comm + length (concat_all uss)) % 2 ^ 32)) (each_frame apply uss s)
unfolding read_frames
read_frames-frames cut apply [] fuel comm b s full h c le small =
    ap (λ c. some (s, c)) (omega arith)
read_frames-frames cut apply (us ∷ uss) zero comm b s full h c le small = absurd (omega arith)
read_frames-frames cut apply (us ∷ uss) (suc fuel) comm b s full h c le small =
    let (b', h', e) = read_frame_lem cut us b (concat_all (frames uss)) full h c.0.0 c.0.1 in
    let step = read_frames-step cut apply us (concat_all (frames uss)) b b' fuel comm s e in
    elim (Option-cases (apply (flat us) s)) [
      | inl g ↦ step ∙ rw g refl
      | inr (s', g) ↦
          let more =
            read_frames-frames cut apply uss fuel ((comm + length us) % 2 ^ 32) b' s' full h' c.1
              (omega arith) (omega arith) in
          let total : ((comm + length us) % 2 ^ 32 + length (concat_all uss)) % 2 ^ 32
              ≡ (comm + length (us ++ concat_all uss)) % 2 ^ 32 =
            omega (arith, length-append us (concat_all uss)) in
          step ∙ rw g (more ∙ rw total refl)
    ]
