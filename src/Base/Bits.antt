-- ===== src/Base/Bits.antt =====
-- Laws of `&` and `|` at every width: masks are remainders, disjoint fields add up, and a flag
-- that is set reads as set. Each is an induction that halves the first operand.
use Prim.Native.Nat.{ℕ, zero, suc, ◌+◌, ◌-◌, ◌*◌, ◌/◌, ◌%◌, ◌^◌, ◌≤◌, ◌<◌, bit_and, bit_or}
use mathlib.Core.Path.{◌≡◌, ap}
use native.Mathlib.Nat.{pow-suc, one-le-pow}
use native.Mathlib.Omega.{arith}
use hausboot.Base.Step.{zero-bit_and, zero-bit_or, bit_and_low, bit_or_low}

-- The fuel `n` bounds the first operand.
and_zero : (n a : ℕ) → a ≤ n → bit_and a 0 ≡ 0
and_zero n zero h = zero-bit_and 0
and_zero zero (suc a) h = absurd (omega arith)
and_zero (suc n) (suc a) h =
    omega (arith, bit_and_low (suc a) 0, and_zero n (suc a / 2) (omega arith))

pub bit_and-zero : (a : ℕ) → bit_and a 0 ≡ 0
bit_and-zero a = and_zero a a (omega arith)

or_zero : (n a : ℕ) → a ≤ n → bit_or a 0 ≡ a
or_zero n zero h = zero-bit_or 0
or_zero zero (suc a) h = absurd (omega arith)
or_zero (suc n) (suc a) h = omega (arith, bit_or_low (suc a) 0, or_zero n (suc a / 2) (omega arith))

pub bit_or-zero : (a : ℕ) → bit_or a 0 ≡ a
bit_or-zero a = or_zero a a (omega arith)

or_comm : (n a b : ℕ) → a ≤ n → bit_or a b ≡ bit_or b a
or_comm n zero b h = omega (arith, zero-bit_or b, bit_or-zero b)
or_comm zero (suc a) b h = absurd (omega arith)
or_comm (suc n) (suc a) b h =
    omega (
      arith,
      bit_or_low (suc a) b,
      bit_or_low b (suc a),
      or_comm n (suc a / 2) (b / 2) (omega arith),
    )

pub bit_or_comm : (a b : ℕ) → bit_or a b ≡ bit_or b a
bit_or_comm a b = or_comm a a b (omega arith)

and_self : (n a : ℕ) → a ≤ n → bit_and a a ≡ a
and_self n zero h = zero-bit_and 0
and_self zero (suc a) h = absurd (omega arith)
and_self (suc n) (suc a) h =
    omega (arith, bit_and_low (suc a) (suc a), and_self n (suc a / 2) (omega arith))

and_absorbs : (n a b : ℕ) → a ≤ n → bit_and (bit_or a b) b ≡ b
and_absorbs n zero b h = rw (zero-bit_or b) (and_self b b (omega arith))
and_absorbs zero (suc a) b h = absurd (omega arith)
and_absorbs (suc n) (suc a) b h =
    let o = bit_or (suc a / 2) (b / 2) in
    let half : bit_or (suc a) b / 2 ≡ o = omega (arith, bit_or_low (suc a) b) in
    omega (
      arith,
      bit_or_low (suc a) b,
      bit_and_low (bit_or (suc a) b) b,
      ap (λ (t : ℕ). bit_and t (b / 2)) half,
      and_absorbs n (suc a / 2) (b / 2) (omega arith),
    )

-- The bits of `b` are found again in `a | b`.
pub bit_and-bit_or : (a b : ℕ) → bit_and (bit_or a b) b ≡ b
bit_and-bit_or a b = and_absorbs a a b (omega arith)

double_pow : (q k : ℕ) → q * 2 ^ suc k ≡ 2 * (q * 2 ^ k)
double_pow q k = omega (arith, ap (λ (t : ℕ). q * t) (pow-suc 2 k))

-- `(q << k) | r` is a sum where `r` fits `k` bits.
pub bit_or_join : (k q r : ℕ) → r < 2 ^ k → bit_or (q * 2 ^ k) r ≡ q * 2 ^ k + r
bit_or_join zero q r h = ground (arith, bit_or-zero q)
bit_or_join (suc k) q r h = ground (
  arith,
  bit_or_low (q * 2 ^ suc k) r,
  double_pow q k,
  pow-suc 2 k,
  bit_or_join k q (r / 2) (omega (arith, pow-suc 2 k)),
)

and_ones_of_sum : (k q r : ℕ) → r < 2 ^ k → bit_and (q * 2 ^ k + r) (2 ^ k - 1) ≡ r
and_ones_of_sum zero q r h = ground (arith, bit_and-zero (q * 2 ^ 0 + r))
and_ones_of_sum (suc k) q r h = ground (
  arith,
  bit_and_low (q * 2 ^ suc k + r) (2 ^ suc k - 1),
  double_pow q k,
  pow-suc 2 k,
  one-le-pow k 2,
  and_ones_of_sum k q (r / 2) (omega (arith, pow-suc 2 k)),
)

-- A mask of `k` ones is the remainder by `2 ^ k`.
pub bit_and_ones : (k a : ℕ) → bit_and a (2 ^ k - 1) ≡ a % 2 ^ k
bit_and_ones k a = ground (arith, one-le-pow k 2, and_ones_of_sum k (a / 2 ^ k) (a % 2 ^ k))

and_shifted_of_sum :
    (k q r m : ℕ) → r < 2 ^ k → bit_and (q * 2 ^ k + r) (m * 2 ^ k) ≡ bit_and q m * 2 ^ k
and_shifted_of_sum zero q r m h =
    let e : q * 2 ^ 0 + r ≡ q = omega arith in
    let e' : m * 2 ^ 0 ≡ m = omega arith in rw (e, e') (omega arith)
and_shifted_of_sum (suc k) q r m h = ground (
  arith,
  bit_and_low (q * 2 ^ suc k + r) (m * 2 ^ suc k),
  double_pow q k,
  double_pow m k,
  double_pow (bit_and q m) k,
  pow-suc 2 k,
  and_shifted_of_sum k q (r / 2) m (omega (arith, pow-suc 2 k)),
)

-- A mask whose `k` low bits are 0 cuts them off.
pub bit_and_shifted : (k a m : ℕ) → bit_and a (m * 2 ^ k) ≡ bit_and (a / 2 ^ k) m * 2 ^ k
bit_and_shifted k a m =
    ground (arith, one-le-pow k 2, and_shifted_of_sum k (a / 2 ^ k) (a % 2 ^ k) m)

or_lt : (k a b : ℕ) → a < 2 ^ k → b < 2 ^ k → bit_or a b < 2 ^ k
or_lt zero a b ha hb = ground (arith, bit_or_join 0 a b hb)
or_lt (suc k) a b ha hb = omega (
  arith,
  bit_or_low a b,
  pow-suc 2 k,
  or_lt k (a / 2) (b / 2) (omega (arith, pow-suc 2 k)) (omega (arith, pow-suc 2 k)),
)

pub bit_or-lt : (k a b : ℕ) → a < 2 ^ k → b < 2 ^ k → bit_or a b < 2 ^ k
bit_or-lt = or_lt

and_distrib : (n a b c : ℕ) → a ≤ n → bit_and (bit_or a b) c ≡ bit_or (bit_and a c) (bit_and b c)
and_distrib n zero b c h = rw (zero-bit_or b, zero-bit_and c, zero-bit_or (bit_and b c))
and_distrib zero (suc a) b c h = absurd (omega arith)
and_distrib (suc n) (suc a) b c h = ground (
  arith,
  bit_or_low (suc a) b,
  bit_and_low (bit_or (suc a) b) c,
  bit_and_low (suc a) c,
  bit_and_low b c,
  bit_or_low (bit_and (suc a) c) (bit_and b c),
  and_distrib n (suc a / 2) (b / 2) (c / 2) (omega arith),
)

pub bit_and-bit_or_distrib :
    (a b c : ℕ) → bit_and (bit_or a b) c ≡ bit_or (bit_and a c) (bit_and b c)
bit_and-bit_or_distrib a b c = and_distrib a a b c (omega arith)

and_assoc : (n a b c : ℕ) → a ≤ n → bit_and (bit_and a b) c ≡ bit_and a (bit_and b c)
and_assoc n zero b c h = rw (zero-bit_and b, zero-bit_and c, zero-bit_and (bit_and b c))
and_assoc zero (suc a) b c h = absurd (omega arith)
and_assoc (suc n) (suc a) b c h = ground (
  arith,
  bit_and_low (suc a) b,
  bit_and_low (bit_and (suc a) b) c,
  bit_and_low b c,
  bit_and_low (suc a) (bit_and b c),
  and_assoc n (suc a / 2) (b / 2) (c / 2) (omega arith),
)

pub bit_and_assoc : (a b c : ℕ) → bit_and (bit_and a b) c ≡ bit_and a (bit_and b c)
bit_and_assoc a b c = and_assoc a a b c (omega arith)

-- A value and its complement in `k` bits have no bit in common.
pub bit_and-complement : (k f : ℕ) → f < 2 ^ k → bit_and (2 ^ k - 1 - f) f ≡ 0
bit_and-complement zero f h = ground (arith, bit_and-zero (2 ^ 0 - 1 - f))
bit_and-complement (suc k) f h = ground (
  arith,
  bit_and_low (2 ^ suc k - 1 - f) f,
  pow-suc 2 k,
  bit_and-complement k (f / 2) (omega (arith, pow-suc 2 k)),
)
