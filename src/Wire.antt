-- ===== src/Wire.antt =====
-- The two readers of frames of updates: `SetVertexInfo` of src/lambda_executor/src/main.go and
-- `setVertexInfo` of src/local_manager/src/main.go. A call of `request.Body.Read` may return
-- fewer bytes than were asked for and are left: of a body with n bytes left it returns at most `cut n`,
-- which the transport chooses. The code does not look at the number. `none` is a panic.
pub mod Fill
pub mod RoundTrip
pub mod Sent
pub mod Order
pub mod Tests
use faa_sgraph.Base.{
  ℕ, zero, suc, ◌+◌, ◌*◌, ◌%◌, ◌^◌, Bool, true, false, Option, none, some, List, [], ◌∷◌, ◌++◌, leb,
  if◌then◌else◌, ◌>>=◌, min, length, take, drop, replicate,
}
use faa_sgraph.Bytes.{bytes_to_uint32, byte_slice_to_uint32_slice}

-- `Read(b)` on what is left of the body: the bytes read go to the front of b and leave its end as it
-- was; the rest of the body is still to be read.
unfoldable pub read_into : (ℕ → ℕ) → List ℕ → List ℕ → List ℕ × List ℕ
read_into cut b stream =
    let n = min (length b) (min (cut (length stream)) (length stream)) in
    (take n stream ++ drop n b, drop n stream)

-- `Read(data[off : off+4])`
unfoldable pub read_at : (ℕ → ℕ) → ℕ → List ℕ → List ℕ → Option (List ℕ × List ℕ)
read_at cut off bytes stream =
    let r = read_into cut (take 4 (drop off bytes)) stream in
    if leb (off + 4) (length bytes)
    then some (take off bytes ++ (r.0 ++ drop (off + 4) bytes), r.1)
    else none

-- The loop that reads the pairs from number i on; the index is a uint32.
unfoldable pub fill : (ℕ → ℕ) → ℕ → ℕ → List ℕ → List ℕ → Option (List ℕ × List ℕ)
unfolding read_at
fill cut zero i bytes stream = some (bytes, stream)
fill cut (suc k) i bytes stream = do
  r ← read_at cut (8 * i % 2 ^ 32) bytes stream
  r' ← read_at cut (8 * i % 2 ^ 32 + 4) r.0 r.1
  fill cut k (suc i) r'.0 r'.1

-- One frame: its count, into the buffer of four bytes, then its pairs.
unfoldable pub read_frame : (ℕ → ℕ) → List ℕ → List ℕ → Option (ℕ × List ℕ × List ℕ × List ℕ)
unfolding fill bytes_to_uint32 byte_slice_to_uint32_slice
read_frame cut b stream =
    let first = read_into cut b stream in
    let num = bytes_to_uint32 first.0 in
    (do
      r ← fill cut num 0 (replicate (num * 8 % 2 ^ 32) 0) first.1
      some (num, byte_slice_to_uint32_slice r.0, first.0, r.1))

-- The loop over the body, on fuel: each frame is applied, and counted in a uint32.
unfoldable pub read_frames {ℓ} :
    {S : Type ℓ} → (ℕ → ℕ) → (List ℕ → S → Option S) → ℕ → List ℕ → List ℕ → ℕ → S → Option (S × ℕ)
unfolding read_frame
read_frames cut apply fuel b [] comm s = some (s, comm)
read_frames cut apply zero b (x ∷ stream) comm s = none
read_frames cut apply (suc fuel) b (x ∷ stream) comm s = do
  (num, updates, b', rest) ← read_frame cut b (x ∷ stream)
  s' ← apply updates s
  read_frames cut apply fuel b' rest ((comm + num) % 2 ^ 32) s'

-- `for i := 0; i < len(data); i += 2`, with `data[i]` and `data[i+1]`.
abbrev pub each_pair {ℓ} : {S : Type ℓ} → (ℕ → ℕ → S → Option S) → List ℕ → S → Option S
each_pair f [] s = some s
each_pair f (v ∷ []) s = none
each_pair f (v ∷ val ∷ rest) s = do s' ← f v val s; each_pair f rest s'
