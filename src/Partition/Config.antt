-- ===== src/Partition/Config.antt =====
-- The file that util/split.go writes, as `LoadGraphConfig` of
-- src/faas_controller/src/common/config.go reads it.
use mathlib.Core.List.{append-nil}
use faa_sgraph.Base.{
  take-append_left, length-append, sym, ℕ, ◌+◌, ◌^◌, ◌<◌, ◌≡◌, refl, ap, ap₂, ◌∙◌, List, [], ◌∷◌,
  ◌++◌, arith, length, sum_by,
}
use faa_sgraph.Bytes.{uint32_slice_to_byte_slice, uint32_to_bytes, bytes_to_uint32}
use faa_sgraph.Bytes.RoundTrip.{bytes_to_uint32-uint32_to_bytes}
use faa_sgraph.Wire.Fill.{drop-all}
use faa_sgraph.Partition.{build_split, read_start, read_starts, sizes, load_graph_config}
use faa_sgraph.Partition.Balance.{Ascends, Ascends-le}

read_start_lem :
    (b head rest : List ℕ) → length b ≡ length head → read_start b (head ++ rest) ≡ head
read_start_lem b head rest h =
    ap₂ ◌++◌ (take-append_left (length b) head rest (sym h))
      (drop-all (length (head ++ rest)) b (omega (arith, length-append head rest)))
    ∙ append-nil head

read_starts-written :
    (r ys : List ℕ) (start stop : ℕ) (b : List ℕ)
    → Ascends start r stop
    → stop < 2 ^ 32
    → length b ≡ 4
    → read_starts (length r) b (uint32_slice_to_byte_slice (r ++ ys)) ≡ r
unfolding read_starts uint32_slice_to_byte_slice uint32_to_bytes
read_starts-written [] ys start stop b a h four = refl
read_starts-written (x ∷ xs) ys start stop b a h four =
    let (e, (next, less, up)) = a in
    let below = Ascends-le next xs stop up in
    let word : x < 2 ^ 32 = omega arith in
    let buffer : read_start b (uint32_to_bytes x ++ uint32_slice_to_byte_slice (xs ++ ys))
        ≡ uint32_to_bytes x =
      read_start_lem b (uint32_to_bytes x) (uint32_slice_to_byte_slice (xs ++ ys)) four in
    let value : bytes_to_uint32 (uint32_to_bytes x) ≡ x = bytes_to_uint32-uint32_to_bytes x word in
    let more = read_starts-written xs ys next stop (uint32_to_bytes x) up h refl in
    rw buffer (ap₂ ◌∷◌ value more)

sizes-sum :
    (total_node x : ℕ) (xs : List ℕ) (start : ℕ)
    → Ascends start (x ∷ xs) total_node
    → x + sum_by (λ p. p.1) (sizes total_node (x ∷ xs)) ≡ total_node
unfolding sizes
sizes-sum total_node x [] start (e, (next, less, up)) = omega arith
sizes-sum total_node x (y ∷ ys) start (e, (next, less, up)) =
    let more = sizes-sum total_node y ys next up in let (same, rest) = up in omega (arith, more)

-- Where the file has as many partitions as the configuration says, the controller reads the start
-- nodes that `split` found, and the sizes of the partitions add up to the number of nodes.
pub load_graph_config-split :
    (n : ℕ) (r : List ℕ)
    → Ascends 0 r n
    → 0 < n
    → n < 2 ^ 32
    → (load_graph_config (length r) n (build_split (r ++ n ∷ []))).0 ≡ r
      × (sum_by (λ p. p.1) (load_graph_config (length r) n (build_split (r ++ n ∷ []))).1 ≡ n)
unfolding load_graph_config build_split
load_graph_config-split n [] up some_nodes small = absurd (omega arith)
load_graph_config-split n (x ∷ xs) up some_nodes small =
    let read = read_starts-written (x ∷ xs) (n ∷ []) 0 n (0 ∷ 0 ∷ 0 ∷ 0 ∷ []) up small refl in
    let sums = sizes-sum n x xs 0 up in
    let first = up.0 in
    let total : sum_by (λ p. p.1) (sizes n (x ∷ xs)) ≡ n = omega arith in
    (read, ap (λ q. sum_by (λ p. p.1) (sizes n q)) read ∙ total)
