-- ===== src/Types/FixedLengthString.antt =====
-- include/types/FixedLengthString.h: a string of `count` bytes, padded with `fill`.
-- A C string is the list of its bytes: it ends at the first NUL, or at the end of the list,
-- where the terminator stands.
use hausboot.Base.{
  ℕ, zero, suc, ◌-◌, ◌≡◌, refl, ap, ◌∙◌, inl, inr, List, [], ◌∷◌, ◌++◌, arith, ltb, ◌==◌,
  if◌then◌else◌, Bool-cases, length, get_or, take, replicate, length-replicate,
}

-- The bytes of a C string before its terminator.
unfoldable pub cstr : List ℕ → List ℕ
cstr [] = []
cstr (c ∷ s) = let rest = cstr s in if c == 0 then [] else c ∷ rest

-- `Set`: the two loops, with `count` bytes left to write.
unfoldable pub set : ℕ → ℕ → List ℕ → List ℕ
set zero fill value = []
set (suc count) fill [] = replicate (suc count) fill
set (suc count) fill (c ∷ value) =
    let rest = set count fill value in if c == 0 then replicate (suc count) fill else c ∷ rest

-- `At`
unfoldable pub at : ℕ → ℕ → List ℕ → ℕ → ℕ
at count fill raw i = if ltb i count then get_or raw i fill else fill

pub length-set : (count fill : ℕ) (value : List ℕ) → length (set count fill value) ≡ count
unfolding set
length-set zero fill value = refl
length-set (suc n) fill [] = length-replicate (suc n) fill
length-set (suc n) fill (c ∷ value) =
    ground (arith, length-set n fill value, length-replicate (suc n) fill)

-- `Set` keeps the string's bytes, cut off at `count`, and pads with the fill byte.
pub set-cstr :
    (count fill : ℕ) (value : List ℕ)
    → set count fill value ≡ take count (cstr value) ++ replicate (count - length (cstr value)) fill
unfolding set cstr
set-cstr zero fill value = ap (λ (k : ℕ). replicate k fill) {x = 0} (omega arith)
set-cstr (suc n) fill [] = ap (λ (k : ℕ). replicate k fill) {x = suc n} (omega arith)
set-cstr (suc n) fill (c ∷ value) = elim (Bool-cases (c == 0)) [
  | inl end ↦ rw end (ap (λ (k : ℕ). replicate k fill) {x = suc n} (omega arith))
  | inr more ↦ rw more (
      ap (λ (r : List ℕ). c ∷ r)
        (set-cstr n fill value
          ∙ ap (λ (k : ℕ). take n (cstr value) ++ replicate k fill) {x = n - length (cstr value)}
              (omega arith)))
]
