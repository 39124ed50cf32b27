-- ===== src/SharedMem/Pools.antt =====
-- The local manager of src/local_manager/src/mem.go and the executors of
-- src/lambda_executor/src/graphutil/mem.go meet on the same segments.
use faa_sgraph.Base.{
  Apart, ℕ, zero, suc, ◌%◌, ap, ◌+◌, ◌*◌, ◌^◌, ◌≤◌, ◌<◌, ◌≡◌, ◌≢◌, refl, sym, ◌∙◌, subst, inl, inr,
  none, some, List, [], ◌∷◌, map, arith, ltb, Bool-cases, Option-cases, All,
}
use faa_sgraph.SharedMem.{
  pool_keys, shm_get, get_segments, new_mem_pool, attach_segments, new_shared_mem_pool, clear_mem,
  or_again, or_panic, int32_length,
}
use faa_sgraph.SharedMem.Os.{Shm, ShmLaws, IsKey}
use faa_sgraph.SharedMem.Keys.{numbers, pool_keys-numbers, numbers-Apart}

numbers-IsKey : (n k : ℕ) → 0 < k → k + n < 2 ^ 31 + 1 → All IsKey (numbers n k)
numbers-IsKey zero k h le = tt
numbers-IsKey (suc n) k h le =
    ((h, omega arith), numbers-IsKey n (suc k) (omega arith) (omega arith))

module _ {State : Type 0} (os : Shm State) (laws : ShmLaws os) where
  -- The key has the segment, which is long enough.
  abbrev pub Segment : State → ℕ → ℕ → ℕ → Type 0
  Segment s len key id = (n : ℕ) × (laws.segment s key ≡ some (id, n)) × (len ≤ n)

  abbrev pub Segments : State → ℕ → List ℕ → List ℕ → Type 0
  Segments s len [] [] = Unit
  Segments s len (k ∷ ks) (id ∷ ids) = Segment s len k id × Segments s len ks ids
  Segments s len ks ids = ⊥

  abbrev SameElse : State → State → ℕ → Type 0
  SameElse s s' key = (k : ℕ) → IsKey k → k ≢ key → laws.segment s' k ≡ laws.segment s k

  shm_get_lem :
      (key len : ℕ) (s : State)
      → IsKey key
      → 0 < len
      → (id : ℕ) × (s' : State) × (shm_get os key len s ≡ (some id, s'))
        × Segment s' len key id
        × SameElse s s' key
  unfolding shm_get
  shm_get_lem key len s valid some_len = elim (Option-cases (laws.segment s key)) [
    | inl missing ↦
        let (id, s', e, f, same) = laws.get_new s key len valid missing some_len in
        (id, s', rw e refl, (len, f, omega arith), same)
    | inr ((id, n), found) ↦ elim (Bool-cases (ltb n len)) [
      | inr enough ↦
          let le : len ≤ n = ground arith in
          (
            id,
            s,
            rw (laws.get_old s key id n len valid found le) refl,
            (n, found, le),
            λ k k_valid h. refl,
          )
      | inl short ↦
          let less : n < len = ground arith in
          let again =
            laws.get_old s key id n 1 valid found (omega (arith, laws.positive s key id n found)) in
          let (gone, kept) = laws.rmid_key s key id n valid found in
          let (id', s', e, f, same) = laws.get_new (os.rmid id s) key len valid gone some_len in
          (
            id',
            s',
            rw (laws.get_short s key id n len valid found less, or_again, again) e,
            (len, f, omega arith),
            λ k k_valid h. same k k_valid h ∙ kept k k_valid h,
          )
    ]
  ]

  get_segments_lem :
      (len : ℕ) (keys : List ℕ) (s : State)
      → All IsKey keys
      → 0 < len
      → Apart keys
      → (ids : List ℕ) × (s' : State) × (get_segments os len keys s ≡ (map some ids, s'))
        × Segments s' len keys ids
        × ((k : ℕ) → IsKey k → All (λ j. j ≢ k) keys → laws.segment s' k ≡ laws.segment s k)
  unfolding get_segments
  get_segments_lem len [] s valid some_len apart = ([], s, refl, tt, λ k k_valid a. refl)
  get_segments_lem len (key ∷ keys) s valid some_len (others, apart) =
      let (id, s1, e, (n, f, le), same) = shm_get_lem key len s valid.0 some_len in
      let (ids, s2, g, segs, kept) = get_segments_lem len keys s1 valid.1 some_len apart in
      (
        id ∷ ids,
        s2,
        rw (e, g) refl,
        ((n, kept key valid.0 others ∙ f, le), segs),
        λ k k_valid (h, a). kept k k_valid a ∙ same k k_valid (λ r. h (sym r)),
      )

  -- An executor that asks for the same segments gets those that are there.
  attach_segments_lem :
      (len : ℕ) (keys ids : List ℕ) (s : State)
      → All IsKey keys
      → Segments s len keys ids
      → attach_segments os len keys s ≡ some (ids, s)
  unfolding attach_segments
  attach_segments_lem len [] [] s valid g = refl
  attach_segments_lem len [] (id ∷ ids) s valid g = absurd g
  attach_segments_lem len (k ∷ ks) [] s valid g = absurd g
  attach_segments_lem len (k ∷ ks) (id ∷ ids) s valid ((n, e, le), g) =
      rw
        (
          laws.get_old s k id n len valid.0 e le,
          or_panic,
          attach_segments_lem len ks ids s valid.1 g,
        )
        refl

  Segments-rmid :
      (s s' : State) (len key : ℕ) (ks ids : List ℕ)
      → SameElse s s' key
      → All IsKey ks
      → All (λ j. j ≢ key) ks
      → Segments s len ks ids
      → Segments s' len ks ids
  Segments-rmid s s' len key [] [] same valid a g = tt
  Segments-rmid s s' len key [] (id ∷ ids) same valid a g = absurd g
  Segments-rmid s s' len key (k ∷ ks) [] same valid a g = absurd g
  Segments-rmid s s' len key (k ∷ ks) (id ∷ ids) same valid (h, a) ((n, e, le), g) =
      ((n, same k valid.0 h ∙ e, le), Segments-rmid s s' len key ks ids same valid.1 a g)

  clear_mem_lem :
      (len : ℕ) (keys ids : List ℕ) (s : State)
      → All IsKey keys
      → Apart keys
      → Segments s len keys ids
      → All (λ k. laws.segment (clear_mem os ids s) k ≡ none) keys
        × ((k : ℕ)
            → IsKey k
            → All (λ j. j ≢ k) keys
            → laws.segment (clear_mem os ids s) k ≡ laws.segment s k)
  unfolding clear_mem
  clear_mem_lem len [] [] s valid apart g = (tt, λ k k_valid a. refl)
  clear_mem_lem len [] (id ∷ ids) s valid apart g = absurd g
  clear_mem_lem len (k ∷ ks) [] s valid apart g = absurd g
  clear_mem_lem len (k ∷ ks) (id ∷ ids) s valid (others, apart) ((n, e, le), g) =
      let (gone, kept) = laws.rmid_key s k id n valid.0 e in
      let (rest, same) =
        clear_mem_lem len ks ids (os.rmid id s) valid.1 apart
          (Segments-rmid s (os.rmid id s) len k ks ids kept valid.1 others g) in
      (
        (same k valid.0 others ∙ gone, rest),
        λ j j_valid (h, a). same j j_valid a ∙ kept j j_valid (λ r. h (sym r)),
      )

  -- What the local manager allocates for a request with a positive id and at least one node is
  -- what every executor of its host then attaches for the request, with the same number of nodes
  -- and arrays: the executor's calls succeed, give the same segments in the same order and change
  -- nothing. `ClearMem` leaves no key of the pool. The keys are below 2^31, as a key_t is, and
  -- there are fewer than 2^29 nodes, from where on the length of the executor, an int32 product,
  -- wraps.
  pub new_shared_mem_pool-new_mem_pool :
      (id total_node cnt : ℕ) (s : State)
      → 0 < total_node
      → total_node < 2 ^ 29
      → 0 < id
      → id * 10 + cnt + 1 < 2 ^ 31
      → (ids : List ℕ) × (s' : State) × (new_mem_pool os id total_node cnt s ≡ (map some ids, s'))
        × (new_shared_mem_pool os id total_node cnt s' ≡ some (ids, s'))
        × All (λ k. laws.segment (clear_mem os ids s') k ≡ none) (pool_keys id cnt)
  unfolding new_mem_pool new_shared_mem_pool
  new_shared_mem_pool-new_mem_pool id total_node cnt s some_node few positive small =
      let apart =
        subst Apart (sym (pool_keys-numbers id cnt (omega arith)))
          (numbers-Apart (cnt + 2) (id * 10)) in
      let valid : All IsKey (pool_keys id cnt) =
        subst (All IsKey) (sym (pool_keys-numbers id cnt (omega arith)))
          (numbers-IsKey (cnt + 2) (id * 10) (omega arith) (omega arith)) in
      let same_length : int32_length total_node ≡ total_node * 4 = ground arith in
      let no_wrap : total_node * 4 % 2 ^ 64 ≡ total_node * 4 = omega arith in
      let (ids, s', e, segs, kept) =
        get_segments_lem (total_node * 4) (pool_keys id cnt) s valid (omega arith) apart in
      (
        ids,
        s',
        ap (λ len. get_segments os len (pool_keys id cnt) s) no_wrap ∙ e,
        ap (λ len. attach_segments os len (pool_keys id cnt) s') same_length
            ∙ attach_segments_lem (total_node * 4) (pool_keys id cnt) ids s' valid segs,
        (clear_mem_lem (total_node * 4) (pool_keys id cnt) ids s' valid apart segs).0,
      )
