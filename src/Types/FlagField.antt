-- ===== src/Types/FlagField.antt =====
-- include/types/FlagField.h: flags as the bits of an unsigned integer of `w` bits.
use hausboot.Base.{
  ℕ, ◌-◌, ◌^◌, ◌<◌, bit_and, bit_or, ◌≡◌, ◌≢◌, Bool, true, false, List, [], ◌∷◌, arith, ◌==◌,
  if◌then◌else◌, ==_iff,
}
use hausboot.Base.Bits.{
  bit_and-bit_or, bit_and-bit_or_distrib, bit_and_assoc, bit_and-complement, bit_and-zero,
  bit_or-zero, bit_or-lt,
}

-- `FlagField(const std::initializer_list<T> &)`: the loop from `value`.
pub of_list : ℕ → List ℕ → ℕ
of_list value [] = value
of_list value (flag ∷ init) = of_list (bit_or value flag) init

-- `Set(T)`
unfoldable pub set : ℕ → ℕ → ℕ
set value flag = bit_or value flag

-- `Clear(T)`: `~flag` has the `w` bits of the type.
pub clear : ℕ → ℕ → ℕ → ℕ
clear w value flag = bit_and value (2 ^ w - 1 - flag)

-- `Set(T, bool)`
pub set_to : ℕ → ℕ → ℕ → Bool → ℕ
set_to w value flag setval = if setval then set value flag else clear w value flag

-- `IsSet`
unfoldable pub is_set : ℕ → ℕ → Bool
is_set value flag = bit_and value flag == flag

-- After `Set` the flag reads as set.
pub is_set-set : (value flag : ℕ) → is_set (set value flag) flag ≡ true
unfolding is_set set
is_set-set value flag = (==_iff _ flag).1 (bit_and-bit_or value flag)

-- After `Clear` a flag that has a bit reads as not set.
pub is_set-clear :
    (w value flag : ℕ) → flag < 2 ^ w → flag ≢ 0 → is_set (clear w value flag) flag ≡ false
unfolding is_set clear
is_set-clear w value flag fits ne =
    rw
      (
        bit_and_assoc value (2 ^ w - 1 - flag) flag,
        bit_and-complement w flag fits,
        bit_and-zero value,
      )
      (ground arith)

-- `Set` of a flag leaves a flag with no common bit as it was.
pub is_set-set_apart :
    (value flag other : ℕ)
    → bit_and flag other ≡ 0
    → is_set (set value flag) other ≡ is_set value other
unfolding is_set set
is_set-set_apart value flag other apart =
    rw (bit_and-bit_or_distrib value flag other, apart, bit_or-zero (bit_and value other))

-- So does `Clear`.
pub is_set-clear_apart :
    (w value flag other : ℕ)
    → bit_and (2 ^ w - 1 - flag) other ≡ other
    → is_set (clear w value flag) other ≡ is_set value other
unfolding is_set clear
is_set-clear_apart w value flag other apart =
    rw (bit_and_assoc value (2 ^ w - 1 - flag) other, apart)

-- Both keep the value within its width.
pub set-lt : (w value flag : ℕ) → value < 2 ^ w → flag < 2 ^ w → set value flag < 2 ^ w
unfolding set
set-lt = bit_or-lt
