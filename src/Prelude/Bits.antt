-- ===== src/Prelude/Bits.antt =====
-- `|` and `&` on the shapes that the sources use: a shifted field beside a low one, and masks of
-- ones. Each law is proved digit by digit, for every width.
use Prim.Native.Nat.{
  ℕ, zero, suc, ◌+◌, ◌-◌, ◌*◌, ◌/◌, ◌%◌, ◌^◌, ◌≤◌, ◌<◌, min, max, bit_and, bit_or, digits,
  bit_and-bitwise, bit_or-bitwise,
}
use mathlib.Core.Path.{◌≡◌, refl, ap, ap₂, sym}
use native.Mathlib.Omega.{arith}
use native.Mathlib.Nat.{pow-suc, one-le-pow}

-- More digits than the number has make no difference.
spare_digits :
    (z : ℕ → ℕ) (f : ℕ → ℕ → ℕ) (n m a b : ℕ) → a ≤ n → a ≤ m → digits z f n a b ≡ digits z f m a b
spare_digits z f zero m zero b p q = at_zero m
  where
    at_zero : (k : ℕ) → z b ≡ digits z f k zero b
    at_zero zero = refl
    at_zero (suc k) = refl
spare_digits z f (suc n) zero zero b p q = refl
spare_digits z f (suc n) (suc m) zero b p q = refl
spare_digits z f zero m (suc a) b p q = absurd (omega arith)
spare_digits z f (suc n) zero (suc a) b p q = absurd (omega arith)
spare_digits z f (suc n) (suc m) (suc a) b p q =
    ap (λ (t : ℕ). t * 2 + f (suc a % 2) (b % 2))
      (spare_digits z f n m (suc a / 2) (b / 2) (omega arith) (omega arith))

or_digit : (a b : ℕ) → bit_or a b ≡ bit_or (a / 2) (b / 2) * 2 + max (a % 2) (b % 2)
or_digit zero b = omega (arith, bit_or-bitwise zero b, bit_or-bitwise zero (b / 2))
or_digit (suc a) b = omega (
  arith,
  bit_or-bitwise (suc a) b,
  bit_or-bitwise (suc a / 2) (b / 2),
  spare_digits (λ y. y) max a (suc a / 2) (suc a / 2) (b / 2) (omega arith) (omega arith),
)

and_digit : (a b : ℕ) → bit_and a b ≡ bit_and (a / 2) (b / 2) * 2 + min (a % 2) (b % 2)
and_digit zero b = omega (arith, bit_and-bitwise zero b, bit_and-bitwise zero (b / 2))
and_digit (suc a) b = omega (
  arith,
  bit_and-bitwise (suc a) b,
  bit_and-bitwise (suc a / 2) (b / 2),
  spare_digits (λ y. 0) min a (suc a / 2) (suc a / 2) (b / 2) (omega arith) (omega arith),
)

double : (q k : ℕ) → q * 2 ^ suc k ≡ 2 * (q * 2 ^ k)
double q k = omega (arith, ap (λ (t : ℕ). q * t) (pow-suc 2 k))

or_none_upto : (n a : ℕ) → a ≤ n → bit_or a 0 ≡ a
or_none_upto n zero h = refl
or_none_upto zero (suc a) h = absurd (omega arith)
or_none_upto (suc n) (suc a) h =
    omega (arith, or_digit (suc a) 0, or_none_upto n (suc a / 2) (omega arith))

and_none_upto : (n a : ℕ) → a ≤ n → bit_and a 0 ≡ 0
and_none_upto n zero h = refl
and_none_upto zero (suc a) h = absurd (omega arith)
and_none_upto (suc n) (suc a) h =
    omega (arith, and_digit (suc a) 0, and_none_upto n (suc a / 2) (omega arith))

-- `(q << k) | r`, where `r` fits in `k` bits.
pub bit_or_beside : (k q r : ℕ) → r < 2 ^ k → bit_or (q * 2 ^ k) r ≡ q * 2 ^ k + r
bit_or_beside zero q r h = ground (arith, or_none_upto q q)
bit_or_beside (suc k) q r h = ground (
  arith,
  or_digit (q * 2 ^ suc k) r,
  double q k,
  pow-suc 2 k,
  bit_or_beside k q (r / 2) (omega (arith, pow-suc 2 k)),
)

-- The low `k` bits set.
pub bit_or_ones :
    (k q r : ℕ) → r < 2 ^ k → bit_or (q * 2 ^ k + r) (2 ^ k - 1) ≡ q * 2 ^ k + (2 ^ k - 1)
bit_or_ones zero q r h = ground (arith, or_none_upto q q)
bit_or_ones (suc k) q r h = ground (
  arith,
  or_digit (q * 2 ^ suc k + r) (2 ^ suc k - 1),
  double q k,
  pow-suc 2 k,
  one-le-pow k 2,
  bit_or_ones k q (r / 2) (omega (arith, pow-suc 2 k)),
)

-- A mask of ones over the whole width.
pub bit_and_ones : (n q : ℕ) → q < 2 ^ n → bit_and q (2 ^ n - 1) ≡ q
bit_and_ones zero q h = ground (arith, and_none_upto q q)
bit_and_ones (suc n) q h = ground (
  arith,
  and_digit q (2 ^ suc n - 1),
  pow-suc 2 n,
  one-le-pow n 2,
  bit_and_ones n (q / 2) (omega (arith, pow-suc 2 n)),
)

-- A mask that ends in `k` zeros.
pub bit_and_above :
    (k q r m : ℕ) → r < 2 ^ k → bit_and (q * 2 ^ k + r) (m * 2 ^ k) ≡ bit_and q m * 2 ^ k
bit_and_above zero q r m h = ground arith
bit_and_above (suc k) q r m h = ground (
  arith,
  and_digit (q * 2 ^ suc k + r) (m * 2 ^ suc k),
  double q k,
  double m k,
  double (bit_and q m) k,
  pow-suc 2 k,
  bit_and_above k q (r / 2) m (omega (arith, pow-suc 2 k)),
)

or_comm_upto : (n a b : ℕ) → a ≤ n → b ≤ n → bit_or a b ≡ bit_or b a
or_comm_upto zero a b p q = let e : a ≡ b = omega arith in ap₂ bit_or e (sym e)
or_comm_upto (suc n) a b p q =
    omega (
      arith,
      or_digit a b,
      or_digit b a,
      or_comm_upto n (a / 2) (b / 2) (omega arith) (omega arith),
    )

pub bit_or_comm : (a b : ℕ) → bit_or a b ≡ bit_or b a
bit_or_comm a b = or_comm_upto (a + b) a b (omega arith) (omega arith)

pub one_le_two_pow : (k : ℕ) → 1 ≤ 2 ^ k
one_le_two_pow k = one-le-pow k 2 (omega arith)
