-- ===== src/MemPool.antt =====
-- src/lambda_executor/src/graphutil/mem.go: the vertex arrays of one request. An array is a list of
-- 32-bit words; `none` is an access outside the array, which the pointer arithmetic does not stop.
-- The segments that `NewSharedMemPool` maps are these arrays too, shared by the executors of a host.
pub mod Cas
pub mod Access
pub mod Tests
use mathlib.Core.Option
use faa_sgraph.Base.{
  ℕ, ◌+◌, ◌*◌, ◌/◌, ◌%◌, ◌^◌, Bool, true, false, Option, none, some, List, [], ◌∷◌, ◌>>=◌, leb,
  if◌then◌else◌, get_elem?, set, replicate,
}

pub record MemPool : Type 0 where
  pub vertex_val : List (List ℕ)
  pub in_d : List ℕ
  pub out_d : List ℕ

-- `vertexValAddr[tag]`, `inDAddr` and `outDAddr`.
pub data Addr : Type 0 where
  val_addr : ℕ → Addr
  in_d_addr out_d_addr : Addr

unfoldable pub new_mem_pool : ℕ → ℕ → MemPool
new_mem_pool total_node cnt = record {
  vertex_val = replicate cnt (replicate total_node 0);
  in_d = replicate total_node 0;
  out_d = replicate total_node 0;
}

-- `addr + uintptr(vertex*4)`: the product is a uint32, and an entry is four bytes.
unfoldable pub slot : ℕ → ℕ
slot vertex = vertex * 4 % 2 ^ 32 / 4

abbrev pub array_at : MemPool → Addr → Option (List ℕ)
array_at m (val_addr tag) = get_elem? m.vertex_val tag
array_at m in_d_addr = some m.in_d
array_at m out_d_addr = some m.out_d

abbrev pub with_array : MemPool → Addr → List ℕ → MemPool
with_array m (val_addr tag) xs = record m { vertex_val = set m.vertex_val tag xs }
with_array m in_d_addr xs = record m { in_d = xs }
with_array m out_d_addr xs = record m { out_d = xs }

unfoldable pub get : MemPool → ℕ → Addr → Option ℕ
get m vertex a = do xs ← array_at m a; get_elem? xs (slot vertex)

unfoldable pub store : MemPool → ℕ → ℕ → Addr → Option MemPool
store m vertex val a = do
  xs ← array_at m a
  old ← get_elem? xs (slot vertex)
  some (with_array m a (set xs (slot vertex) val))

-- The loop where no other thread writes between the load and the swap; `Cas` has the general case.
unfoldable pub min_cas : MemPool → ℕ → ℕ → Addr → Option (MemPool × Bool)
unfolding store get
min_cas m vertex val a = do
  old ← get m vertex a
  if leb old val then some (m, false) else Option.map (λ m'. (m', true)) (store m vertex val a)

-- `fadd` adds two float32 values given and returned by their bits.
unfoldable pub float_add : (ℕ → ℕ → ℕ) → MemPool → ℕ → ℕ → Addr → Option (MemPool × Bool)
unfolding store get
float_add fadd m vertex val a = do
  old ← get m vertex a
  Option.map (λ m'. (m', true)) (store m vertex (fadd old val) a)
