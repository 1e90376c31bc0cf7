-- ===== src/StringUtil.antt =====
-- include/StringUtil.h. A C string is the list of its bytes, up to the first NUL or the list's
-- end, where the terminator stands.
use hausboot.Base.{
  ℕ, ◌≡◌, refl, ◌↔◌, Bool, true, false, not, ◌&&◌, ◌||◌, List, [], ◌∷◌, arith, leb, ◌==◌,
  if◌then◌else◌,
}
use hausboot.Types.FixedLengthString.{cstr}

-- `StrEqual`: the loop compares byte by byte and stops behind a common NUL.
unfoldable pub str_equal : List ℕ → List ℕ → Bool
str_equal [] [] = true
str_equal [] (b ∷ bs) = b == 0
str_equal (a ∷ as') [] = a == 0
str_equal (a ∷ as') (b ∷ bs) =
    let rest = str_equal as' bs in if not (a == b) then false else if a == 0 then true else rest

unfoldable pub is_space : ℕ → Bool
is_space x = x == b' ' || x == b'\t'

unfoldable pub is_alnum : ℕ → Bool
is_alnum x = (leb b'A' x && leb x b'Z') || (leb b'a' x && leb x b'z') || (leb b'0' x && leb x b'9')

-- `StrEqual` tells whether the two strings have the same bytes before their terminators.
pub str_equal_iff : (a b : List ℕ) → (str_equal a b ≡ true) ↔ (cstr a ≡ cstr b)
unfolding str_equal cstr
str_equal_iff [] [] = ((λ _. refl), (λ _. refl))
str_equal_iff [] (b ∷ bs) = ground arith
str_equal_iff (a ∷ as') [] = ground arith
str_equal_iff (a ∷ as') (b ∷ bs) = ground (arith, str_equal_iff as' bs)
