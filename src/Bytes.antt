-- ===== src/Bytes.antt =====
-- src/lambda_executor/src/common/util.go: words as little-endian bytes, and slices of one seen as
-- slices of the other. The casts reinterpret memory, which amd64 lays out little-endian.
pub mod RoundTrip
pub mod Cut
pub mod Tests
use faa_sgraph.Base.{ℕ, ◌+◌, ◌*◌, ◌/◌, ◌%◌, ◌^◌, ◌<◌, List, [], ◌∷◌, ◌++◌}

-- What `Uint32ToBytes` writes into its four-byte buffer.
unfoldable pub uint32_to_bytes : ℕ → List ℕ
uint32_to_bytes n = n % 256 ∷ n / 256 % 256 ∷ n / 65536 % 256 ∷ n / 16777216 % 256 ∷ []

-- Four bytes as a word.
abbrev pub word_of : ℕ → ℕ → ℕ → ℕ → ℕ
word_of a b c d = a + 256 * b + 65536 * c + 16777216 * d

-- `BytesToUint32`; a shorter slice panics in Go, and is never passed.
unfoldable pub bytes_to_uint32 : List ℕ → ℕ
bytes_to_uint32 (a ∷ b ∷ c ∷ d ∷ rest) = word_of a b c d
bytes_to_uint32 _ = 0

unfoldable pub uint32_slice_to_byte_slice : List ℕ → List ℕ
unfolding uint32_to_bytes
uint32_slice_to_byte_slice [] = []
uint32_slice_to_byte_slice (w ∷ ws) = uint32_to_bytes w ++ uint32_slice_to_byte_slice ws

-- The length is divided by four, so that up to three bytes at the end are dropped.
unfoldable pub byte_slice_to_uint32_slice : List ℕ → List ℕ
byte_slice_to_uint32_slice (a ∷ b ∷ c ∷ d ∷ rest) =
    word_of a b c d ∷ byte_slice_to_uint32_slice rest
byte_slice_to_uint32_slice _ = []

-- The bit patterns of an int64 slice.
unfoldable pub byte_slice_to_int64_slice : List ℕ → List ℕ
byte_slice_to_int64_slice (a ∷ b ∷ c ∷ d ∷ e ∷ f ∷ g ∷ h ∷ rest) =
    (word_of a b c d + 2 ^ 32 * word_of e f g h) ∷ byte_slice_to_int64_slice rest
byte_slice_to_int64_slice _ = []

-- `Int64Slice2ByteSlice` of util/txt2csr.go, on offsets that are not negative.
unfoldable pub int64_slice_to_byte_slice : List ℕ → List ℕ
unfolding uint32_to_bytes
int64_slice_to_byte_slice [] = []
int64_slice_to_byte_slice (n ∷ ns) =
    uint32_to_bytes n ++ (uint32_to_bytes (n / 2 ^ 32) ++ int64_slice_to_byte_slice ns)
