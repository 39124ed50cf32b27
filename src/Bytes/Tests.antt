-- ===== src/Bytes/Tests.antt =====
-- Runs of src/lambda_executor/src/common/util.go, and instances of its theorems.
use faa_sgraph.Base.{◌≡◌, refl, [], ◌∷◌, arith}
use faa_sgraph.Bytes.{
  uint32_slice_to_byte_slice, byte_slice_to_uint32_slice, byte_slice_to_int64_slice,
  int64_slice_to_byte_slice,
}
use faa_sgraph.Bytes.RoundTrip.{bytes-words, offsets-bytes}

little_endian : uint32_slice_to_byte_slice (0x01020304 ∷ []) ≡ 4 ∷ 3 ∷ 2 ∷ 1 ∷ []
unfolding uint32_slice_to_byte_slice
little_endian = refl

bytes-words_example :
    uint32_slice_to_byte_slice (byte_slice_to_uint32_slice (1 ∷ 2 ∷ 3 ∷ 255 ∷ []))
    ≡ 1 ∷ 2 ∷ 3 ∷ 255 ∷ []
bytes-words_example = bytes-words (1 ∷ 2 ∷ 3 ∷ 255 ∷ []) 1 (omega arith) (omega arith)

offsets-bytes_example :
    byte_slice_to_int64_slice (int64_slice_to_byte_slice (0 ∷ 5000000000 ∷ []))
    ≡ 0 ∷ 5000000000 ∷ []
offsets-bytes_example = offsets-bytes (0 ∷ 5000000000 ∷ []) (omega arith)
