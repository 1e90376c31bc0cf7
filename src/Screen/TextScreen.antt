-- ===== src/Screen/TextScreen.antt =====
-- include/device/TextScreen.h: numbers as text. A number's buffer is filled from its end, so it
-- is the list of the characters from the pointer on.
use hausboot.Base.{
  ℕ, zero, suc, ◌+◌, ◌-◌, ◌*◌, ◌/◌, ◌%◌, ◌^◌, ◌≤◌, ◌<◌, bit_and, ◌≡◌, refl, sym, ap, ◌∙◌, inl, inr,
  true, false, Option, none, some, List, [], ◌∷◌, arith, ltb, ◌==◌, if◌then◌else◌, Bool-cases,
}
use hausboot.Base.Bits.{bit_and_ones}
use native.Mathlib.Nat.{one-le-pow}

-- `digit < 10 ? (digit + '0') : (digit - 10 + 'A')`
pub hex_digit : ℕ → ℕ
hex_digit d = if ltb d 10 then d + b'0' else d - 10 + b'A'

-- The loop of `WriteHex`, for `left` digits more.
pub hex_loop : ℕ → ℕ → List ℕ → List ℕ
hex_loop zero x text = text
hex_loop (suc left) x text = hex_loop left (x / 2 ^ 4) (hex_digit (bit_and x 0x0F) ∷ text)

-- The text of `WriteHex`: two digits for each byte of a `uint64_t`.
pub write_hex : ℕ → List ℕ
write_hex x = hex_loop 16 x []

-- The loop of `WriteDecimal` with room for `room` characters more; `none` for a write in front of
-- the buffer.
pub decimal_loop : ℕ → ℕ → List ℕ → Option (List ℕ)
decimal_loop zero x text = if x == 0 then some text else none
decimal_loop (suc room) x text =
    let rest = decimal_loop room (x / 10) ((x % 10 + b'0') ∷ text) in
    if x == 0 then some text else rest

-- The text of `WriteDecimal`: a buffer of ten bytes has room for nine digits and the terminator.
pub write_decimal : ℕ → Option (List ℕ)
write_decimal x = if ltb 0 x then decimal_loop 9 x [] else some (b'0' ∷ [])

-- The number that digits stand for, behind a number `a` that was read before.
abbrev pub digits_value : (ℕ → ℕ) → ℕ → ℕ → List ℕ → ℕ
digits_value value base a [] = a
digits_value value base a (c ∷ cs) = digits_value value base (a * base + value c) cs

-- What a hexadecimal digit stands for.
abbrev pub hex_value : ℕ → ℕ
hex_value c = if ltb c b'A' then c - b'0' else c - b'A' + 10

abbrev pub decimal_value : ℕ → ℕ
decimal_value c = c - b'0'

hex_value-hex_digit : (d : ℕ) → d < 16 → hex_value (hex_digit d) ≡ d
unfolding hex_digit
hex_value-hex_digit d h = ground arith

hex_loop-digits :
    (left x : ℕ) (text : List ℕ)
    → x < 16 ^ left
    → digits_value hex_value 16 0 (hex_loop left x text) ≡ digits_value hex_value 16 x text
unfolding hex_loop
hex_loop-digits zero x text h = ap (λ a. digits_value hex_value 16 a text) (omega arith)
hex_loop-digits (suc left) x text h =
    let low = bit_and_ones 4 x in
    let d = hex_value-hex_digit (bit_and x 0x0F) (omega (arith, low)) in
    hex_loop-digits left (x / 2 ^ 4) (hex_digit (bit_and x 0x0F) ∷ text) (omega arith)
    ∙ ap (λ a. digits_value hex_value 16 a text) (omega (arith, low, d))

-- The digits of `WriteHex` stand for the number, whatever its 64 bits are.
pub write_hex-digits : (x : ℕ) → x < 2 ^ 64 → digits_value hex_value 16 0 (write_hex x) ≡ x
unfolding write_hex
write_hex-digits x h = hex_loop-digits 16 x [] h

decimal_loop-digits :
    (room x : ℕ) (text : List ℕ)
    → x < 10 ^ room
    → (out : List ℕ) × (decimal_loop room x text ≡ some out)
      × (digits_value decimal_value 10 0 out ≡ digits_value decimal_value 10 x text)
unfolding decimal_loop
decimal_loop-digits zero x text h =
    let e : x ≡ 0 = omega arith in
    (text, rw e refl, ap (λ a. digits_value decimal_value 10 a text) (sym e))
decimal_loop-digits (suc room) x text h =
    let (out, ran, d) = decimal_loop-digits room (x / 10) ((x % 10 + b'0') ∷ text) (omega arith) in
    elim (Bool-cases (x == 0)) [
      | inl z ↦
          let e : x ≡ 0 = ground arith in
          (text, rw z refl, ap (λ a. digits_value decimal_value 10 a text) (sym e))
      | inr nz ↦ (out, rw nz ran, d ∙ ap (λ a. digits_value decimal_value 10 a text) (omega arith))
    ]

decimal_loop_overruns :
    (room x : ℕ) (text : List ℕ) → 10 ^ room ≤ x → decimal_loop room x text ≡ none
unfolding decimal_loop
decimal_loop_overruns zero x text h = let e : (x == 0) ≡ false = ground arith in rw e refl
decimal_loop_overruns (suc room) x text h =
    let e : (x == 0) ≡ false = ground (arith, one-le-pow room 10) in
    rw e (decimal_loop_overruns room (x / 10) ((x % 10 + b'0') ∷ text) (omega arith))

-- Below 10 ^ 9, `WriteDecimal` stays in its buffer and its digits stand for the number.
pub write_decimal-digits :
    (x : ℕ)
    → x < 10 ^ 9
    → (text : List ℕ) × (write_decimal x ≡ some text) × (digits_value decimal_value 10 0 text ≡ x)
unfolding write_decimal
write_decimal-digits x h = elim (Bool-cases (ltb 0 x)) [
  | inl pos ↦ let (out, ran, d) = decimal_loop-digits 9 x [] h in (out, rw pos ran, d)
  | inr z ↦ (b'0' ∷ [], rw z refl, ground arith)
]

-- From 10 ^ 9 on, `WriteDecimal` writes in front of its buffer.
pub write_decimal_overruns : (x : ℕ) → 10 ^ 9 ≤ x → write_decimal x ≡ none
unfolding write_decimal
write_decimal_overruns x h =
    let pos : ltb 0 x ≡ true = ground arith in rw pos (decimal_loop_overruns 9 x [] h)
