-- ===== src/Wire/Tests.antt =====
-- Runs of the sender of the kernels in app/graph and of the readers of src/lambda_executor/src/main.go
-- and src/local_manager/src/main.go.
use mathlib.Core.Option
use mathlib.Core.List.{Permᴰ}
use mathlib.Core.List.Permᴰ
use faa_sgraph.Base.{ℕ, ◌==◌, if◌then◌else◌, ◌^◌, ◌≡◌, refl, true, some, List, [], ◌∷◌, ◌++◌}
use faa_sgraph.Bytes.{
  uint32_slice_to_byte_slice, uint32_to_bytes, bytes_to_uint32, byte_slice_to_uint32_slice,
}
use faa_sgraph.Kernel.Updates.{opened, push, flush, send}
use faa_sgraph.Wire.{read_frames, read_frame, read_at, read_into, fill, each_pair}
use faa_sgraph.Wire.RoundTrip.{concat_all}
use faa_sgraph.Wire.Sent.{push_all}

-- The pairs that a reader is given.
abbrev collect : ℕ → ℕ → List (ℕ × ℕ) → Option.Option (List (ℕ × ℕ))
collect v val s = some (s ++ (v, val) ∷ [])

abbrev ups : List (ℕ × ℕ)
ups = (7, 300) ∷ (2 ^ 31, 1) ∷ []

sent_run :
    flush true (push_all ups opened)
    ≡ (2 ∷ 0 ∷ 0 ∷ 0 ∷ 7 ∷ 0 ∷ 0 ∷ 0 ∷ 44 ∷ 1 ∷ 0 ∷ 0 ∷ 0 ∷ 0 ∷ 0 ∷ 128 ∷ 1 ∷ 0 ∷ 0 ∷ 0 ∷ []) ∷ []
unfolding flush push opened send uint32_slice_to_byte_slice uint32_to_bytes
sent_run = refl

-- The two frames of two calls, the second first.
abbrev body : List (List ℕ)
body =
    (1 ∷ 0 ∷ 0 ∷ 0 ∷ 9 ∷ 0 ∷ 0 ∷ 0 ∷ 4 ∷ 0 ∷ 0 ∷ 0 ∷ [])
    ∷ (2 ∷ 0 ∷ 0 ∷ 0 ∷ 7 ∷ 0 ∷ 0 ∷ 0 ∷ 44 ∷ 1 ∷ 0 ∷ 0 ∷ 0 ∷ 0 ∷ 0 ∷ 128 ∷ 1 ∷ 0 ∷ 0 ∷ 0 ∷ [])
    ∷ []

read_run :
    read_frames (λ n. 4096) (each_pair collect) 3 (0 ∷ 0 ∷ 0 ∷ 0 ∷ []) (concat_all body) 0 []
    ≡ some ((9, 4) ∷ ups, 3)
unfolding read_frames read_frame read_at read_into fill bytes_to_uint32 byte_slice_to_uint32_slice
read_run = refl

-- A read that gives two bytes of four shifts all that follows: vertex 7 gets another value than 300.
short_run :
    read_frames
      (λ n. if n == 8 then 2 else 4096)
      (each_pair collect)
      3
      (0 ∷ 0 ∷ 0 ∷ 0 ∷ [])
      (1 ∷ 0 ∷ 0 ∷ 0 ∷ 7 ∷ 0 ∷ 0 ∷ 0 ∷ 44 ∷ 1 ∷ 0 ∷ 0 ∷ [])
      0
      []
    ≡ some ((7, 19660800) ∷ [], 1)
unfolding read_frames read_frame read_at read_into fill bytes_to_uint32 byte_slice_to_uint32_slice
short_run = refl
