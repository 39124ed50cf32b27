-- ===== src/Hash/Dense.antt =====
-- The numbers that util/hash.go gives: each identifier gets the number of smaller ones that occur.
use mathlib.Core.Option
use faa_sgraph.Base.{
  ℕ, zero, suc, ◌+◌, ◌-◌, ◌*◌, ◌%◌, ◌^◌, ◌<◌, ◌≤◌, max, ◌≡◌, refl, ap, sym, ◌∙◌, subst, some, List,
  [], ◌∷◌, arith, >>=-eq-some, modify, get_elem?, replicate, length, length-replicate, map, take,
  sum_by, All, All-set, All-map, get-modify, length-modify, lt-length_of_get_elem?,
}
use faa_sgraph.Hash.{Marks, mark, add_up, count_down, rename, hash_edges}

-- The number of marks.
abbrev pub marked : List ℕ → ℕ
marked = sum_by (λ x. x)

abbrev pub AreMarks : List ℕ → Type 0
AreMarks = All (λ x. x ≤ 1)

marked-le : (xs : List ℕ) → AreMarks xs → marked xs ≤ length xs
marked-le [] a = omega arith
marked-le (x ∷ xs) a = omega (arith, a.0, marked-le xs a.1)

add_up-get :
    (before n i x : ℕ) (xs : List ℕ)
    → AreMarks xs
    → before + length xs < 2 ^ 32
    → i < n
    → get_elem? xs i ≡ some x
    → get_elem? (add_up before n xs) i ≡ some (before + marked (take i xs) + x)
unfolding add_up
add_up-get before zero i x xs a h k e = absurd (omega arith)
add_up-get before (suc n) i x [] a h k e = absurd (ground arith)
add_up-get before (suc n) zero x (y ∷ xs) a h k e =
    let same = Option.some-injective _ _ e in ap some (omega (arith, a.0))
add_up-get before (suc n) (suc i) x (y ∷ xs) a h k e =
    let sum : (y + before) % 2 ^ 32 ≡ before + y = omega (arith, a.0) in
    let rest = add_up-get (before + y) n i x xs a.1 (omega (arith, a.0)) (omega arith) e in
    ap (λ b. get_elem? (add_up b n xs) i) sum ∙ rest ∙ ap some (omega arith)

length-add_up : (before n : ℕ) (xs : List ℕ) → length (add_up before n xs) ≡ length xs
unfolding add_up
length-add_up before zero xs = refl
length-add_up before (suc n) [] = refl
length-add_up before (suc n) (x ∷ xs) = ap suc (length-add_up ((x + before) % 2 ^ 32) n xs)

count_down_total :
    (n : ℕ) (xs : List ℕ) → n ≤ length xs → (ys : List ℕ) × (count_down n xs ≡ some ys)
unfolding count_down
count_down_total zero xs h = (xs, refl)
count_down_total (suc n) [] h = absurd (omega arith)
count_down_total (suc n) (x ∷ xs) h =
    let (ys, e) = count_down_total n xs (omega arith) in
    ((x + (2 ^ 32 - 1)) % 2 ^ 32 ∷ ys, rw e refl)

count_down-get :
    (n i x : ℕ) (xs ys : List ℕ)
    → count_down n xs ≡ some ys
    → i < n
    → 0 < x
    → x < 2 ^ 32
    → get_elem? xs i ≡ some x
    → get_elem? ys i ≡ some (x - 1)
unfolding count_down
count_down-get zero i x xs ys d k p h e = absurd (omega arith)
count_down-get (suc n) i x [] ys d k p h e = absurd (ground arith)
count_down-get (suc n) zero x (y ∷ xs) ys d k p h e =
    let (zs, f, g) = >>=-eq-some (count_down n xs) _ d in
    let same = Option.some-injective _ _ e in
    ap (λ l. get_elem? l 0) (sym (Option.some-injective _ _ g)) ∙ ap some (omega arith)
count_down-get (suc n) (suc i) x (y ∷ xs) ys d k p h e =
    let (zs, f, g) = >>=-eq-some (count_down n xs) _ d in
    ap (λ l. get_elem? l (suc i)) (sym (Option.some-injective _ _ g))
    ∙ count_down-get n i x xs zs f (omega arith) p h e

marked-take : (i : ℕ) (xs : List ℕ) → AreMarks xs → marked (take i xs) ≤ i
marked-take zero xs a = omega arith
marked-take (suc i) [] a = omega arith
marked-take (suc i) (x ∷ xs) a = omega (arith, a.0, marked-take i xs a.1)

-- After the two loops over the marks up to the largest identifier, the entry of one that occurs is
-- the number of smaller ones that occur.
pub count_down-add_up :
    (n i : ℕ) (marks ys : List ℕ)
    → count_down n (add_up 0 n marks) ≡ some ys
    → AreMarks marks
    → length marks < 2 ^ 32
    → i < n
    → get_elem? marks i ≡ some 1
    → get_elem? ys i ≡ some (marked (take i marks))
count_down-add_up n i marks ys d a h k e =
    let below = lt-length_of_get_elem? marks i e in
    let few = marked-take i marks a in
    let sums = add_up-get 0 n i 1 marks a (omega arith) k e in
    let down =
      count_down-get n i (0 + marked (take i marks) + 1) (add_up 0 n marks) ys d k (omega arith)
        (omega arith) sums in
    down ∙ ap some (omega arith)

-- What one mark does.
modify-one :
    (xs ys : List ℕ) (i : ℕ)
    → modify (λ x. 1) xs i ≡ some ys
    → AreMarks xs
    → AreMarks ys
      × (length ys ≡ length xs)
      × (get_elem? ys i ≡ some 1)
      × ((j : ℕ) → get_elem? xs j ≡ some 1 → get_elem? ys j ≡ some 1)
modify-one xs ys i e a =
    let (x, f, k) = >>=-eq-some (get_elem? xs i) _ e in
    let same = Option.some-injective _ _ k in
    let read = get-modify (λ x. 1) xs ys i in
    (
      subst AreMarks same (All-set (λ x. x ≤ 1) xs i 1 a (omega arith)),
      length-modify (λ x. 1) xs ys i e,
      read i e ∙ rw f (ground arith),
      λ j g. read j e ∙ rw g (ground arith),
    )

-- The marks after some edges.
pub record IsMarked (es : List (ℕ × ℕ)) (s t : Marks) : Type 0 where
  pub marks : AreMarks t.hash
  pub size : length t.hash ≡ length s.hash
  pub keeps : (j : ℕ) → get_elem? s.hash j ≡ some 1 → get_elem? t.hash j ≡ some 1
  pub grows : s.mx ≤ t.mx
  pub ends :
      All
        (λ e.
          ((get_elem? t.hash e.0 ≡ some 1) × (e.0 ≤ t.mx))
          × ((get_elem? t.hash e.1 ≡ some 1) × (e.1 ≤ t.mx)))
        es

mark-IsMarked :
    (es : List (ℕ × ℕ)) (s t : Marks) → AreMarks s.hash → mark es s ≡ some t → IsMarked es s t
unfolding mark
mark-IsMarked [] s t a e =
    let same = Option.some-injective _ _ e in
    subst (IsMarked [] s) same
      (record { marks = a; size = refl; keeps = λ j g. g; grows = omega arith; ends = tt })
mark-IsMarked ((u, v) ∷ es) s t a e =
    let (h, f, k) = >>=-eq-some (modify (λ x. 1) s.hash u) _ e in
    let (h', g, l) = >>=-eq-some (modify (λ x. 1) h v) _ k in
    let (b, size, at_u, keeps) = modify-one s.hash h u f a in
    let (b', size', at_v, keeps') = modify-one h h' v g b in
    let r : Marks = record { mx = max (max s.mx u) v; hash = h' } in
    let m = mark-IsMarked es r t b' l in
    record {
      marks = m.marks;
      size = m.size ∙ size' ∙ size;
      keeps = λ j q. m.keeps j (keeps' j (keeps j q));
      grows = omega (arith, m.grows);
      ends = (
        (
          (m.keeps u (keeps' u at_u), omega (arith, m.grows)),
          (m.keeps v at_v, omega (arith, m.grows)),
        ),
        m.ends,
      );
    }

-- The number of an identifier: how many smaller ones have a mark.
abbrev pub rank : List ℕ → ℕ → ℕ
rank marks u = marked (take u marks)

rename-rank :
    (marks hash : List ℕ) (mx : ℕ) (es : List (ℕ × ℕ))
    → ((i : ℕ) → i ≤ mx → get_elem? marks i ≡ some 1 → get_elem? hash i ≡ some (rank marks i))
    → All
        (λ e.
          ((get_elem? marks e.0 ≡ some 1) × (e.0 ≤ mx))
          × ((get_elem? marks e.1 ≡ some 1) × (e.1 ≤ mx)))
        es
    → rename hash es ≡ some (map (λ e. (rank marks e.0, rank marks e.1)) es)
unfolding rename
rename-rank marks hash mx [] law a = refl
rename-rank marks hash mx ((u, v) ∷ es) law a =
    let ((p, q), rest) = a in
    let at_u = law u p.1 p.0 in
    let at_v = law v q.1 q.0 in rw (at_u, at_v, rename-rank marks hash mx es law rest) refl

marks-zero : (n : ℕ) → AreMarks (replicate n 0)
marks-zero zero = tt
marks-zero (suc n) = (omega arith, marks-zero n)

-- Two marked identifiers in order have numbers in order.
rank-lt :
    (marks : List ℕ) (i j : ℕ)
    → i < j
    → get_elem? marks i ≡ some 1
    → j ≤ length marks
    → rank marks i < rank marks j
rank-lt [] i j h e k = absurd (ground arith)
rank-lt (x ∷ xs) zero zero h e k = absurd (omega arith)
rank-lt (x ∷ xs) zero (suc j) h e k = let one = Option.some-injective _ _ e in omega arith
rank-lt (x ∷ xs) (suc i) zero h e k = absurd (omega arith)
rank-lt (x ∷ xs) (suc i) (suc j) h e k = omega (arith, rank-lt xs i j (omega arith) e (omega arith))

-- The largest identifier stays within the marks.
mark-mx :
    (es : List (ℕ × ℕ)) (s t : Marks)
    → mark es s ≡ some t
    → s.mx < length s.hash
    → t.mx < length t.hash
unfolding mark
mark-mx [] s t e h = subst (λ r. r.mx < length r.hash) (Option.some-injective _ _ e) h
mark-mx ((u, v) ∷ es) s t e h =
    let (a, f, g) = >>=-eq-some (modify (λ x. 1) s.hash u) _ e in
    let (b, p, q) = >>=-eq-some (modify (λ x. 1) a v) _ g in
    let one = length-modify (λ x. 1) s.hash a u f in
    let two = length-modify (λ x. 1) a b v p in
    let (x, at_u, c) = >>=-eq-some (get_elem? s.hash u) _ f in
    let (y, at_v, d) = >>=-eq-some (get_elem? a v) _ p in
    let u_in = lt-length_of_get_elem? s.hash u at_u in
    let v_in = lt-length_of_get_elem? a v at_v in
    mark-mx es (record { mx = max (max s.mx u) v; hash = b }) t q (omega arith)

-- Where the marks of a file's identifiers find room, for at least one vertex and in fewer than
-- 2^32 entries, the program writes each edge with the numbers of its ends: the numbers count the
-- smaller identifiers that are marked, so that of two marked identifiers the smaller gets the
-- smaller number; every end of an edge is marked.
pub hash_edges-rank :
    (vertex : ℕ) (es : List (ℕ × ℕ)) (t : Marks)
    → 0 < vertex
    → vertex * 3 < 2 ^ 32
    → mark es (record { mx = 0; hash = replicate (vertex * 3) 0 }) ≡ some t
    → (hash_edges vertex es ≡ some (map (λ e. (rank t.hash e.0, rank t.hash e.1)) es))
      × All (λ e. (get_elem? t.hash e.0 ≡ some 1) × (get_elem? t.hash e.1 ≡ some 1)) es
      × ((i j : ℕ)
          → i < j
          → get_elem? t.hash i ≡ some 1
          → get_elem? t.hash j ≡ some 1
          → rank t.hash i < rank t.hash j)
unfolding hash_edges
hash_edges-rank vertex es t some_room small e =
    let m =
      mark-IsMarked es (record { mx = 0; hash = replicate (vertex * 3) 0 }) t
        (marks-zero (vertex * 3)) e in
    let size : length t.hash ≡ vertex * 3 = m.size ∙ length-replicate (vertex * 3) 0 in
    let none_yet : List ℕ = replicate (vertex * 3) 0 in
    let room : length none_yet ≡ vertex * 3 = length-replicate (vertex * 3) 0 in
    let within =
      mark-mx es (record { mx = 0; hash = replicate (vertex * 3) 0 }) t e (omega (arith, room)) in
    let (hash, d) =
      count_down_total (suc t.mx) (add_up 0 (suc t.mx) t.hash)
        (omega (arith, length-add_up 0 (suc t.mx) t.hash)) in
    let law = λ (i : ℕ) (k : i ≤ t.mx) (g : get_elem? t.hash i ≡ some 1).
      count_down-add_up (suc t.mx) i t.hash hash d m.marks (omega arith) (omega arith) g in
    (
      rw (e, d) (rename-rank t.hash hash t.mx es law m.ends),
      All-map
          (λ e.
            ((get_elem? t.hash e.0 ≡ some 1) × (e.0 ≤ t.mx))
            × ((get_elem? t.hash e.1 ≡ some 1) × (e.1 ≤ t.mx)))
          (λ e. (get_elem? t.hash e.0 ≡ some 1) × (get_elem? t.hash e.1 ≡ some 1)) es
          (λ e p. (p.0.0, p.1.0)) m.ends,
      λ i j h p q. rank-lt t.hash i j h p (omega (arith, lt-length_of_get_elem? t.hash j q)),
    )
