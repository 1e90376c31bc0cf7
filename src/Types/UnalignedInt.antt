-- ===== src/Types/UnalignedInt.antt =====
-- include/types/UnalignedInt.h: an unsigned integer kept as its bytes, lowest first.
-- `size` is sizeof(T). A read of a byte shifts it as an `int`, which has 32 bits.
use hausboot.Base.{
  ℕ, zero, suc, ◌+◌, ◌-◌, ◌*◌, ◌/◌, ◌%◌, ◌^◌, ◌<◌, bit_and, bit_or, ◌≡◌, refl, ap, ◌∙◌, Option,
  none, some, List, [], ◌∷◌, arith, ltb, if◌then◌else◌, length,
}
use hausboot.Base.Bits.{bit_and_ones, bit_or_join, bit_or_comm}
use hausboot.Base.Step.{zero-bit_or}

-- `Set`: the low byte, then `value >>= 8`.
pub set : ℕ → ℕ → List ℕ
set zero value = []
set (suc size) value = bit_and value 0xff ∷ set size (value / 2 ^ 8)

-- `x << k` on an `int`, as its bit pattern. It is undefined from 32 on.
pub shl_int : ℕ → ℕ → Option ℕ
shl_int x k = if ltb k 32 then some (x * 2 ^ k % 2 ^ 32) else none

-- The conversion of an `int`'s bit pattern to T repeats the sign above bit 31.
pub convert : ℕ → ℕ → ℕ
convert size p =
    if ltb p (2 ^ 31) then p % 2 ^ (8 * size) else (p + (2 ^ 64 - 2 ^ 32)) % 2 ^ (8 * size)

infixl 5 ◌>>=◌
abbrev ◌>>=◌ : Option ℕ → (ℕ → Option ℕ) → Option ℕ
none >>= k = none
some x >>= k = k x

pub read_loop : ℕ → List ℕ → ℕ → ℕ → Option ℕ
read_loop size [] i out = some out
read_loop size (x ∷ raw) i out = do
  shifted ← shl_int x (8 * i)
  read_loop size raw (i + 1) (bit_or out (convert size shifted))

-- `Read`. `none` is undefined behaviour.
pub read : ℕ → List ℕ → Option ℕ
unfolding read_loop shl_int convert
read size raw = read_loop size raw 0 0

-- The number that some bytes stand for, lowest first.
unfoldable pub le_value : List ℕ → ℕ
le_value [] = 0
le_value (x ∷ xs) = x + 256 * le_value xs

pub read_two : (a b : ℕ) → a < 256 → b < 256 → read 2 (a ∷ b ∷ []) ≡ some (le_value (a ∷ b ∷ []))
unfolding read convert le_value
read_two a b ha hb = ground (
  arith,
  zero-bit_or (convert 2 (a * 1 % 4294967296)),
  bit_or_comm a (b * 2 ^ 8),
  bit_or_join 8 b a ha,
)

pub read_four :
    (a b c d : ℕ)
    → a < 256
    → b < 256
    → c < 256
    → d < 256
    → read 4 (a ∷ b ∷ c ∷ d ∷ []) ≡ some (le_value (a ∷ b ∷ c ∷ d ∷ []))
unfolding read convert le_value
read_four a b c d ha hb hc hd = ground (
  arith,
  zero-bit_or (convert 4 (a * 1 % 4294967296)),
  bit_or_comm a (b * 2 ^ 8),
  bit_or_join 8 b a ha,
  bit_or_comm (b * 2 ^ 8 + a) (c * 2 ^ 16),
  bit_or_join 16 c (b * 2 ^ 8 + a) (omega arith),
  bit_or_comm (c * 2 ^ 16 + (b * 2 ^ 8 + a)) (d * 2 ^ 24),
  bit_or_join 24 d (c * 2 ^ 16 + (b * 2 ^ 8 + a)) (omega arith),
)

-- Set stores bytes.
abbrev pub IsBytes : List ℕ → Type 0
IsBytes [] = Unit {0}
IsBytes (x ∷ xs) = (x < 256) × IsBytes xs

pub set-two : (v : ℕ) → set 2 v ≡ v % 256 ∷ v / 256 % 256 ∷ []
unfolding set
set-two v = rw (bit_and_ones 8 v, bit_and_ones 8 (v / 256))

pub set-four :
    (v : ℕ)
    → set 4 v ≡ v % 256 ∷ v / 256 % 256 ∷ v / 256 / 256 % 256 ∷ v / 256 / 256 / 256 % 256 ∷ []
unfolding set
set-four v = rw (
  bit_and_ones 8 v,
  bit_and_ones 8 (v / 256),
  bit_and_ones 8 (v / 256 / 256),
  bit_and_ones 8 (v / 256 / 256 / 256),
)

pub length-set : (size v : ℕ) → length (set size v) ≡ size
unfolding set
length-set zero v = refl
length-set (suc size) v = ap suc (length-set size (v / 256))

-- The bytes that `Set` stores stand for the value.
pub le_value-set : (size v : ℕ) → v < 256 ^ size → le_value (set size v) ≡ v
unfolding set le_value
le_value-set zero v h = omega arith
le_value-set (suc size) v h =
    let low = bit_and_ones 8 v in
    let high = le_value-set size (v / 256) (omega arith) in omega (arith, low, high)

-- A 16-bit value stored by `Set` is what `Read` gives back, and no shift is undefined.
pub read-set_two : (v : ℕ) → v < 2 ^ 16 → read 2 (set 2 v) ≡ some v
unfolding le_value
read-set_two v h =
    rw (set-two v)
      (read_two (v % 256) (v / 256 % 256) (omega arith) (omega arith) ∙ ap some (omega arith))

-- A 32-bit value stored by `Set` is what `Read` gives back, and no shift is undefined.
pub read-set_four : (v : ℕ) → v < 2 ^ 32 → read 4 (set 4 v) ≡ some v
unfolding le_value
read-set_four v h = rw (set-four v) (
    read_four (v % 256) (v / 256 % 256) (v / 256 / 256 % 256) (v / 256 / 256 / 256 % 256)
      (omega arith) (omega arith) (omega arith) (omega arith)
    ∙ ap some (omega arith))

-- Whatever the eight bytes are, `Read` of a 64-bit value shifts an `int` by 32, which is undefined.
pub read-eight : (a b c d e f g h : ℕ) → read 8 (a ∷ b ∷ c ∷ d ∷ e ∷ f ∷ g ∷ h ∷ []) ≡ none
unfolding read
read-eight a b c d e f g h = refl
