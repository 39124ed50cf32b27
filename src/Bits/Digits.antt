-- ===== src/Bits/Digits.antt =====
-- One equation for the lowest binary digit of `|` and `&`, from the fuelled recursion on digits
-- for which the native operations stand.
use Prim.Native.Nat.{min, max, digits, bitwise, bit_and, bit_or, bit_and-bitwise, bit_or-bitwise}
use faa_sgraph.Base.{ℕ, zero, suc, ◌+◌, ◌*◌, ◌/◌, ◌%◌, ◌≤◌, ◌≡◌, refl, ap, arith}

module _ (rest : ℕ → ℕ) (op : ℕ → ℕ → ℕ) where
  -- Any fuel that covers the number gives one result.
  digits_enough : (k l : ℕ) (a b : ℕ) → a ≤ k → a ≤ l → digits rest op k a b ≡ digits rest op l a b
  digits_enough zero zero a b p q = refl
  digits_enough zero (suc l) zero b p q = refl
  digits_enough (suc k) zero zero b p q = refl
  digits_enough (suc k) (suc l) zero b p q = refl
  digits_enough zero l (suc a) b p q = elim p [ ]
  digits_enough (suc k) zero (suc a) b p q = elim q [ ]
  digits_enough (suc k) (suc l) (suc a) b p q =
      let shorter : suc a / 2 ≤ k = omega arith in
      ap (λ (t : ℕ). t * 2 + op (suc a % 2) (b % 2))
        (digits_enough k l (suc a / 2) (b / 2) shorter (omega arith))

  bitwise_lowest :
      (a b : ℕ)
      → bitwise rest op (suc a) b ≡ bitwise rest op (suc a / 2) (b / 2) * 2 + op (suc a % 2) (b % 2)
  bitwise_lowest a b =
      ap (λ (t : ℕ). t * 2 + op (suc a % 2) (b % 2))
        (digits_enough a (suc a / 2) (suc a / 2) (b / 2) (omega arith) (omega arith))

pub bit_or_lowest : (a b : ℕ) → bit_or a b ≡ bit_or (a / 2) (b / 2) * 2 + max (a % 2) (b % 2)
bit_or_lowest zero b = simp bit_or-bitwise (omega arith)
bit_or_lowest (suc a) b = simp bit_or-bitwise (bitwise_lowest (λ y. y) max a b)

pub bit_and_lowest : (a b : ℕ) → bit_and a b ≡ bit_and (a / 2) (b / 2) * 2 + min (a % 2) (b % 2)
bit_and_lowest zero b = simp bit_and-bitwise (omega arith)
bit_and_lowest (suc a) b = simp bit_and-bitwise (bitwise_lowest (λ _. 0) min a b)
