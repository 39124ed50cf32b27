-- ===== src/SharedMem/Os.antt =====
-- What the callers in src/local_manager/src/mem.go and src/lambda_executor/src/graphutil/mem.go rely
-- on of `shmget` with IPC_CREAT and of `shmctl` with IPC_RMID, and a system that does it.
use mathlib.Core.Option.{some-injective}
use faa_sgraph.Base.{
  ℕ, ◌^◌, suc, ◌≤◌, ◌<◌, ◌≡◌, ◌≢◌, refl, inl, inr, true, false, Option, none, some, arith, ltb,
  ◌==◌, ==_iff, ap, subst, zero, if◌then◌else◌, Bool-cases,
}

-- `get key length` gives the id of a segment or an error.
pub record Shm (State : Type 0) : Type 0 where
  pub get : ℕ → ℕ → State → Option ℕ × State
  pub rmid : ℕ → State → State

-- The numbers that name a segment: a key_t has 32 bits and a sign, and 0 is IPC_PRIVATE, which names
-- none.
abbrev pub IsKey : ℕ → Type 0
IsKey key = (0 < key) × (key < 2 ^ 31)

-- The documented behaviour on such keys, with the view of a state that it is told in: the id and the
-- length of the segment that a key has. There is always room for one more segment.
pub record ShmLaws {State : Type 0} (os : Shm State) : Type 0 where
  pub segment : State → ℕ → Option (ℕ × ℕ)
  pub get_old :
      (s : State) (key id n len : ℕ)
      → IsKey key
      → segment s key ≡ some (id, n)
      → len ≤ n
      → os.get key len s ≡ (some id, s)
  pub get_short :
      (s : State) (key id n len : ℕ)
      → IsKey key
      → segment s key ≡ some (id, n)
      → n < len
      → os.get key len s ≡ (none, s)
  pub get_new :
      (s : State) (key len : ℕ)
      → IsKey key
      → segment s key ≡ none
      → 0 < len
      → (id : ℕ) × (s' : State) × (os.get key len s ≡ (some id, s'))
        × (segment s' key ≡ some (id, len))
        × ((k : ℕ) → IsKey k → k ≢ key → segment s' k ≡ segment s k)
  pub rmid_key :
      (s : State) (key id n : ℕ)
      → IsKey key
      → segment s key ≡ some (id, n)
      → (segment (os.rmid id s) key ≡ none)
        × ((k : ℕ) → IsKey k → k ≢ key → segment (os.rmid id s) k ≡ segment s k)
  pub positive : (s : State) (key id n : ℕ) → segment s key ≡ some (id, n) → 0 < n

-- A system whose state is the length of each key's segment, less one, and whose ids are the keys.
abbrev pub Lengths : Type 0
Lengths = ℕ → Option ℕ

abbrev pub updated : ℕ → Option ℕ → Lengths → Lengths
updated key v s = λ k. if k == key then v else s k

abbrev get_from : ℕ → ℕ → Lengths → Option ℕ → Option ℕ × Lengths
get_from key zero s none = (none, s)
get_from key (suc len) s none = (some key, updated key (some len) s)
get_from key len s (some n) = (if ltb (suc n) len then none else some key, s)

abbrev pub by_lengths : Shm Lengths
by_lengths = record {
  get = λ key len s. get_from key len s (s key);
  rmid = λ id s. updated id none s;
}

abbrev view : ℕ → Option ℕ → Option (ℕ × ℕ)
view key none = none
view key (some n) = some (key, suc n)

view_found :
    (key id n : ℕ) (o : Option ℕ)
    → view key o ≡ some (id, n)
    → (m : ℕ) × (o ≡ some m) × (key ≡ id) × (suc m ≡ n)
view_found key id n none h = absurd (ground arith)
view_found key id n (some m) h =
    let same = some-injective _ _ h in (m, refl, ap (λ q. q.0) same, ap (λ q. q.1) same)

view_missing : (key : ℕ) (o : Option ℕ) → view key o ≡ none → o ≡ none
view_missing key none h = refl
view_missing key (some m) h = absurd (ground arith)

updated_self : (key : ℕ) (v : Option ℕ) (s : Lengths) → updated key v s key ≡ v
updated_self key v s = rw ((==_iff key key).1 refl) refl

updated_else : (key k : ℕ) (v : Option ℕ) (s : Lengths) → k ≢ key → updated key v s k ≡ s k
updated_else key k v s h = elim (Bool-cases (k == key)) [
  | inl same ↦ absurd (h ((==_iff k key).0 same))
  | inr other ↦ rw other refl
]

get_old_lem :
    (s : Lengths) (key id n len : ℕ)
    → IsKey key
    → view key (s key) ≡ some (id, n)
    → len ≤ n
    → get_from key len s (s key) ≡ (some id, s)
get_old_lem s key id n len valid h le =
    let (m, e, same, size) = view_found key id n (s key) h in
    let enough : ltb (suc m) len ≡ false = ground arith in
    rw (e, enough) (ap (λ k. (some k, s)) same)

get_short_lem :
    (s : Lengths) (key id n len : ℕ)
    → IsKey key
    → view key (s key) ≡ some (id, n)
    → n < len
    → get_from key len s (s key) ≡ (none, s)
get_short_lem s key id n len valid h less =
    let (m, e, same, size) = view_found key id n (s key) h in
    let short : ltb (suc m) len ≡ true = ground arith in rw (e, short) refl

get_new_lem :
    (s : Lengths) (key len : ℕ)
    → IsKey key
    → view key (s key) ≡ none
    → 0 < len
    → (id : ℕ) × (s' : Lengths) × (get_from key len s (s key) ≡ (some id, s'))
      × (view key (s' key) ≡ some (id, len))
      × ((k : ℕ) → IsKey k → k ≢ key → view k (s' k) ≡ view k (s k))
get_new_lem s key zero valid h le = absurd (omega arith)
get_new_lem s key (suc len) valid h le =
    let e = view_missing key (s key) h in
    (
      key,
      updated key (some len) s,
      ap (get_from key (suc len) s) e,
      ap (view key) (updated_self key (some len) s),
      λ k k_valid g. ap (view k) (updated_else key k (some len) s g),
    )

rmid_lem :
    (s : Lengths) (key id n : ℕ)
    → IsKey key
    → view key (s key) ≡ some (id, n)
    → (view key (updated id none s key) ≡ none)
      × ((k : ℕ) → IsKey k → k ≢ key → view k (updated id none s k) ≡ view k (s k))
rmid_lem s key id n valid h =
    let (m, e, same, size) = view_found key id n (s key) h in
    subst
      (λ j.
        (view key (updated j none s key) ≡ none)
        × ((k : ℕ) → IsKey k → k ≢ key → view k (updated j none s k) ≡ view k (s k)))
      same
      (
        ap (view key) (updated_self key none s),
        λ k k_valid g. ap (view k) (updated_else key k none s g),
      )

positive_lem : (s : Lengths) (key id n : ℕ) → view key (s key) ≡ some (id, n) → 0 < n
positive_lem s key id n h =
    let (m, e, same, size) = view_found key id n (s key) h in omega (arith, size)

pub by_lengths-ShmLaws : ShmLaws by_lengths
by_lengths-ShmLaws = record {
  segment = λ s k. view k (s k);
  get_old = get_old_lem;
  get_short = get_short_lem;
  get_new = get_new_lem;
  rmid_key = rmid_lem;
  positive = positive_lem;
}
