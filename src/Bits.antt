-- ===== src/Bits.antt =====
-- Single bits of a word: what Go's `|`, `&` and `1 << off` do to bit k.
mod Digits
use Digits.{bit_or_lowest, bit_and_lowest}
use Prim.Native.Nat.{bit_and, bit_or}
use native.Mathlib.Nat.{pow-suc, one-le-pow}
use faa_sgraph.Base.{
  ℕ, zero, suc, ◌+◌, ◌*◌, ◌/◌, ◌%◌, ◌^◌, ◌≤◌, ◌<◌, min, max, ◌≡◌, refl, ap, arith, ◌==◌, ℕ_discrete,
  ◌-◌, if◌then◌else◌,
}

-- Bit k of a, by halving k times.
abbrev pub bit_at : ℕ → ℕ → ℕ
bit_at a zero = a % 2
bit_at a (suc k) = bit_at (a / 2) k

pub bit_at-le : (a k : ℕ) → bit_at a k ≤ 1
bit_at-le a zero = omega arith
bit_at-le a (suc k) = bit_at-le (a / 2) k

pub bit_at-zero : (k : ℕ) → bit_at 0 k ≡ 0
bit_at-zero zero = refl
bit_at-zero (suc k) = bit_at-zero k

pub bit_at-bit_or : (a b k : ℕ) → bit_at (bit_or a b) k ≡ max (bit_at a k) (bit_at b k)
bit_at-bit_or a b zero = omega (arith, bit_or_lowest a b)
bit_at-bit_or a b (suc k) =
    let half : bit_or a b / 2 ≡ bit_or (a / 2) (b / 2) = omega (arith, bit_or_lowest a b) in
    rw half (bit_at-bit_or (a / 2) (b / 2) k)

pub bit_at-bit_and : (a b k : ℕ) → bit_at (bit_and a b) k ≡ min (bit_at a k) (bit_at b k)
bit_at-bit_and a b zero = omega (arith, bit_and_lowest a b)
bit_at-bit_and a b (suc k) =
    let half : bit_and a b / 2 ≡ bit_and (a / 2) (b / 2) = omega (arith, bit_and_lowest a b) in
    rw half (bit_at-bit_and (a / 2) (b / 2) k)

-- Bit k of 1 << j.
pub bit_at-pow : (j k : ℕ) → bit_at (2 ^ j) k ≡ (if j == k then 1 else 0)
bit_at-pow zero zero = refl
bit_at-pow zero (suc k) = ground (arith, bit_at-zero k)
bit_at-pow (suc j) zero = ground (arith, pow-suc 2 j)
bit_at-pow (suc j) (suc k) =
    let half : 2 ^ suc j / 2 ≡ 2 ^ j = omega (arith, pow-suc 2 j) in
    rw half (ground (arith, bit_at-pow j k))

bit_and-zero : (k a : ℕ) → a ≤ k → bit_and a 0 ≡ 0
bit_and-zero zero zero h = refl
bit_and-zero zero (suc a) h = elim h [ ]
bit_and-zero (suc k) a h = omega (arith, bit_and_lowest a 0, bit_and-zero k (a / 2) (omega arith))

-- The test `w & (1 << k)` picks out bit k.
pub bit_and-pow : (a k : ℕ) → bit_and a (2 ^ k) ≡ bit_at a k * 2 ^ k
bit_and-pow a zero = omega (arith, bit_and_lowest a 1, bit_and-zero (a / 2) (a / 2) (omega arith))
bit_and-pow a (suc k) =
    let half : 2 ^ suc k / 2 ≡ 2 ^ k = omega (arith, pow-suc 2 k) in
    omega (
      arith,
      bit_and_lowest a (2 ^ suc k),
      ap (bit_and (a / 2)) half,
      pow-suc 2 k,
      bit_and-pow (a / 2) k,
      ap (λ (t : ℕ). bit_at (a / 2) k * t) (pow-suc 2 k),
    )

-- A positive word below 2 ^ k has a bit set among its k lowest.
pub bit_found : (k a : ℕ) → a < 2 ^ k → 0 < a → (j : ℕ) × (j < k) × (bit_at a j ≡ 1)
bit_found zero a lt h = absurd (omega arith)
bit_found (suc k) a lt h = elim (ℕ_discrete (a % 2) 1) [
  | yes odd ↦ (0, omega arith, odd)
  | no even ↦
      let (j, below, e) = bit_found k (a / 2) (omega (arith, pow-suc 2 k)) (omega arith) in
      (suc j, omega arith, e)
]

-- The k lowest bits of 2 ^ k - 1 are set.
pub bit_at-ones : (k j : ℕ) → j < k → bit_at (2 ^ k - 1) j ≡ 1
bit_at-ones zero j h = elim h [ ]
bit_at-ones (suc k) zero h = omega (arith, pow-suc 2 k, one-le-pow k 2)
bit_at-ones (suc k) (suc j) h =
    let half : (2 ^ suc k - 1) / 2 ≡ 2 ^ k - 1 = omega (arith, pow-suc 2 k, one-le-pow k 2) in
    rw half (bit_at-ones k j (omega arith))
