-- ===== src/Bytes/RoundTrip.antt =====
-- The conversions of src/lambda_executor/src/common/util.go undo one another.
use faa_sgraph.Base.{ℕ, zero, suc, ◌*◌, ◌^◌, ◌<◌, ◌≡◌, refl, ap₂, List, [], ◌∷◌, arith, length}
use faa_sgraph.Bytes.{
  uint32_to_bytes, bytes_to_uint32, uint32_slice_to_byte_slice, byte_slice_to_uint32_slice,
  byte_slice_to_int64_slice, int64_slice_to_byte_slice,
}

abbrev pub AreWords : List ℕ → Type 0
AreWords [] = Unit {0}
AreWords (w ∷ ws) = (w < 2 ^ 32) × AreWords ws

abbrev pub AreBytes : List ℕ → Type 0
AreBytes [] = Unit {0}
AreBytes (b ∷ bs) = (b < 256) × AreBytes bs

-- Four bytes hold every word.
pub bytes_to_uint32-uint32_to_bytes : (n : ℕ) → n < 2 ^ 32 → bytes_to_uint32 (uint32_to_bytes n) ≡ n
unfolding bytes_to_uint32 uint32_to_bytes
bytes_to_uint32-uint32_to_bytes n h = omega arith

-- A slice of words sent as bytes is read back as it was.
pub words-bytes :
    (ws : List ℕ) → AreWords ws → byte_slice_to_uint32_slice (uint32_slice_to_byte_slice ws) ≡ ws
unfolding uint32_slice_to_byte_slice byte_slice_to_uint32_slice
words-bytes [] h = refl
words-bytes (w ∷ ws) h = ap₂ ◌∷◌ (omega arith) (words-bytes ws h.1)

pub length-bytes : (ws : List ℕ) → length (uint32_slice_to_byte_slice ws) ≡ 4 * length ws
unfolding uint32_slice_to_byte_slice
length-bytes [] = refl
length-bytes (w ∷ ws) = omega (arith, length-bytes ws)

-- Bytes of a whole number of words are the bytes of the words read from them.
pub bytes-words :
    (bs : List ℕ) (n : ℕ)
    → AreBytes bs
    → length bs ≡ 4 * n
    → uint32_slice_to_byte_slice (byte_slice_to_uint32_slice bs) ≡ bs
unfolding uint32_slice_to_byte_slice byte_slice_to_uint32_slice
bytes-words [] n h l = refl
bytes-words (a ∷ []) n h l = absurd (omega arith)
bytes-words (a ∷ b ∷ []) n h l = absurd (omega arith)
bytes-words (a ∷ b ∷ c ∷ []) n h l = absurd (omega arith)
bytes-words (a ∷ b ∷ c ∷ d ∷ rest) zero h l = absurd (omega arith)
bytes-words (a ∷ b ∷ c ∷ d ∷ rest) (suc n) h l =
    let tail = bytes-words rest n h.1.1.1.1 (omega arith) in
    ap₂ ◌∷◌ (omega arith)
      (ap₂ ◌∷◌ (omega arith) (ap₂ ◌∷◌ (omega arith) (ap₂ ◌∷◌ (omega arith) tail)))

abbrev pub AreOffsets : List ℕ → Type 0
AreOffsets [] = Unit {0}
AreOffsets (n ∷ ns) = (n < 2 ^ 63) × AreOffsets ns

-- The offsets that util/txt2csr.go writes are read back as they were.
pub offsets-bytes :
    (ns : List ℕ) → AreOffsets ns → byte_slice_to_int64_slice (int64_slice_to_byte_slice ns) ≡ ns
unfolding int64_slice_to_byte_slice byte_slice_to_int64_slice
offsets-bytes [] h = refl
offsets-bytes (n ∷ ns) h = ap₂ ◌∷◌ (omega arith) (offsets-bytes ns h.1)

pub length-offset_bytes : (ns : List ℕ) → length (int64_slice_to_byte_slice ns) ≡ 8 * length ns
unfolding int64_slice_to_byte_slice
length-offset_bytes [] = refl
length-offset_bytes (n ∷ ns) = omega (arith, length-offset_bytes ns)
