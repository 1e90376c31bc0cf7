-- ===== src/Base/Lists.antt =====
-- Lists measured and indexed by native numbers, under the library's names.
use Prim.Native.Nat.{ℕ, zero, suc, ◌+◌, ◌-◌, ◌≤◌, ◌<◌, min}
use mathlib.Core.Path.{◌≡◌, refl, ap, ◌∙◌}
use mathlib.Core.Logic.{◌≢◌}
use mathlib.Core.List.{List, [], ◌∷◌, ◌++◌, map}
use mathlib.Core.Option.{Option, none, some}
use native.Mathlib.Omega.{arith}

module _ {ℓ} {A : Type ℓ} where
  abbrev pub length : List A → ℕ
  length [] = 0
  length (x ∷ xs) = suc (length xs)

  abbrev pub get_elem? : List A → ℕ → Option A
  get_elem? [] i = none
  get_elem? (x ∷ xs) zero = some x
  get_elem? (x ∷ xs) (suc i) = get_elem? xs i

  -- A write out of bounds changes nothing.
  abbrev pub set : List A → ℕ → A → List A
  set [] i v = []
  set (x ∷ xs) zero v = v ∷ xs
  set (x ∷ xs) (suc i) v = x ∷ set xs i v

  pub length-append : (xs ys : List A) → length (xs ++ ys) ≡ length xs + length ys
  length-append [] ys = omega arith
  length-append (x ∷ xs) ys = omega (arith, length-append xs ys)

module _ {ℓ} {A : Type ℓ} where
  pub length-set : (xs : List A) (i : ℕ) (v : A) → length (set xs i v) ≡ length xs
  length-set [] i v = refl
  length-set (x ∷ xs) zero v = refl
  length-set (x ∷ xs) (suc i) v = ap suc (length-set xs i v)

  pub get_elem?-set_self :
      (xs : List A) (i : ℕ) (v : A) → i < length xs → get_elem? (set xs i v) i ≡ some v
  get_elem?-set_self [] i v h = elim h [ ]
  get_elem?-set_self (x ∷ xs) zero v h = refl
  get_elem?-set_self (x ∷ xs) (suc i) v h = get_elem?-set_self xs i v (omega arith)

  pub get_elem?-set_ne :
      (xs : List A) {i j : ℕ} (v : A) → i ≢ j → get_elem? (set xs i v) j ≡ get_elem? xs j
  get_elem?-set_ne [] v h = refl
  get_elem?-set_ne (x ∷ xs) {i = zero} {j = zero} v h = absurd (h refl)
  get_elem?-set_ne (x ∷ xs) {i = zero} {j = suc j} v h = refl
  get_elem?-set_ne (x ∷ xs) {i = suc i} {j = zero} v h = refl
  get_elem?-set_ne (x ∷ xs) {i = suc i} {j = suc j} v h = get_elem?-set_ne xs v (λ e. h (ap suc e))

module _ {ℓ} {A : Type ℓ} where
  abbrev pub get_or : List A → ℕ → A → A
  get_or [] i d = d
  get_or (x ∷ xs) zero d = x
  get_or (x ∷ xs) (suc i) d = get_or xs i d

  abbrev pub take : ℕ → List A → List A
  take zero xs = []
  take (suc n) [] = []
  take (suc n) (x ∷ xs) = x ∷ take n xs

  abbrev pub drop : ℕ → List A → List A
  drop zero xs = xs
  drop (suc n) [] = []
  drop (suc n) (x ∷ xs) = drop n xs

  abbrev pub replicate : ℕ → A → List A
  replicate zero a = []
  replicate (suc n) a = a ∷ replicate n a

  pub take-append-drop : (n : ℕ) (xs : List A) → take n xs ++ drop n xs ≡ xs
  take-append-drop zero xs = refl
  take-append-drop (suc n) [] = refl
  take-append-drop (suc n) (x ∷ xs) = rw (take-append-drop n xs)

  pub length-take : (n : ℕ) (xs : List A) → length (take n xs) ≡ min n (length xs)
  length-take zero xs = omega arith
  length-take (suc n) [] = omega arith
  length-take (suc n) (x ∷ xs) = omega (arith, length-take n xs)

  pub length-drop : (n : ℕ) (xs : List A) → length (drop n xs) ≡ length xs - n
  length-drop zero xs = omega arith
  length-drop (suc n) [] = omega arith
  length-drop (suc n) (x ∷ xs) = omega (arith, length-drop n xs)

  pub length-replicate : (n : ℕ) (a : A) → length (replicate n a) ≡ n
  length-replicate zero a = refl
  length-replicate (suc n) a = ap suc (length-replicate n a)

  pub length-map {κ} : {B : Type κ} (xs : List A) (f : A → B) → length (map f xs) ≡ length xs
  length-map [] f = refl
  length-map (x ∷ xs) f = ap suc (length-map xs f)

module _ {ℓ} {A : Type ℓ} where
  pub get_or-append_right :
      (s r : List A) (j : ℕ) (d : A) → get_or (s ++ r) (length s + j) d ≡ get_or r j d
  get_or-append_right [] r j d = ap (λ k. get_or r k d) (omega arith)
  get_or-append_right (x ∷ s) r j d =
      ap (λ k. get_or (x ∷ (s ++ r)) k d) {y = suc (length s + j)} (omega arith)
      ∙ get_or-append_right s r j d

  pub get_or-append_left :
      (s r : List A) (j : ℕ) (d : A) → j < length s → get_or (s ++ r) j d ≡ get_or s j d
  get_or-append_left [] r j d h = absurd (omega arith)
  get_or-append_left (x ∷ s) r zero d h = refl
  get_or-append_left (x ∷ s) r (suc j) d h = get_or-append_left s r j d (omega arith)

  pub get_or-replicate :
      (m : ℕ) (a : A) (r : List A) (j : ℕ) (d : A) → j < m → get_or (replicate m a ++ r) j d ≡ a
  get_or-replicate zero a r j d h = absurd (omega arith)
  get_or-replicate (suc m) a r zero d h = refl
  get_or-replicate (suc m) a r (suc j) d h = get_or-replicate m a r j d (omega arith)

  pub get_or_past : (s : List A) (j : ℕ) (d : A) → length s ≤ j → get_or s j d ≡ d
  get_or_past [] j d h = refl
  get_or_past (x ∷ s) zero d h = absurd (omega arith)
  get_or_past (x ∷ s) (suc j) d h = get_or_past s j d (omega arith)

  pub set-append : (s r : List A) (x v : A) → set (s ++ x ∷ r) (length s) v ≡ s ++ v ∷ r
  set-append [] r x v = refl
  set-append (y ∷ s) r x v = ap (λ (t : List A). y ∷ t) (set-append s r x v)

  pub take-length-append : (s r : List A) → take (length s) (s ++ r) ≡ s
  take-length-append [] r = refl
  take-length-append (x ∷ s) r = ap (λ (t : List A). x ∷ t) (take-length-append s r)

  pub drop-length-append : (s r : List A) → drop (length s) (s ++ r) ≡ r
  drop-length-append [] r = refl
  drop-length-append (x ∷ s) r = drop-length-append s r

  pub take_all : (n : ℕ) (s : List A) → length s ≤ n → take n s ≡ s
  take_all zero [] h = refl
  take_all zero (x ∷ s) h = absurd (omega arith)
  take_all (suc n) [] h = refl
  take_all (suc n) (x ∷ s) h = ap (λ (t : List A). x ∷ t) (take_all n s (omega arith))

  pub get_or_default : (s : List A) (j : ℕ) (d d' : A) → j < length s → get_or s j d ≡ get_or s j d'
  get_or_default [] j d d' h = absurd (omega arith)
  get_or_default (x ∷ s) zero d d' h = refl
  get_or_default (x ∷ s) (suc j) d d' h = get_or_default s j d d' (omega arith)

  pub drop_all : (n : ℕ) (s : List A) → length s ≤ n → drop n s ≡ []
  drop_all zero [] h = refl
  drop_all zero (x ∷ s) h = absurd (omega arith)
  drop_all (suc n) [] h = refl
  drop_all (suc n) (x ∷ s) h = drop_all n s (omega arith)

  pub drop-cons :
      (n : ℕ) (s : List A) (d : A) → n < length s → drop n s ≡ get_or s n d ∷ drop (suc n) s
  drop-cons n [] d h = absurd (omega arith)
  drop-cons zero (x ∷ s) d h = refl
  drop-cons (suc n) (x ∷ s) d h = drop-cons n s d (omega arith)

  pub drop-append_right : (s r : List A) (n : ℕ) → drop (length s + n) (s ++ r) ≡ drop n r
  drop-append_right [] r n = ap (λ k. drop k r) (omega arith)
  drop-append_right (x ∷ s) r n =
      ap (λ k. drop k (x ∷ (s ++ r))) {y = suc (length s + n)} (omega arith)
      ∙ drop-append_right s r n

  pub take-append_left : (s r : List A) (n : ℕ) → n ≤ length s → take n (s ++ r) ≡ take n s
  take-append_left s r zero h = refl
  take-append_left [] r (suc n) h = absurd (omega arith)
  take-append_left (x ∷ s) r (suc n) h =
      ap (λ (t : List A). x ∷ t) (take-append_left s r n (omega arith))

  pub drop-append_left : (s r : List A) (n : ℕ) → n ≤ length s → drop n (s ++ r) ≡ drop n s ++ r
  drop-append_left s r zero h = refl
  drop-append_left [] r (suc n) h = absurd (omega arith)
  drop-append_left (x ∷ s) r (suc n) h = drop-append_left s r n (omega arith)

  pub take-append_right : (s r : List A) (n : ℕ) → take (length s + n) (s ++ r) ≡ s ++ take n r
  take-append_right [] r n = ap (λ k. take k r) (omega arith)
  take-append_right (x ∷ s) r n =
      ap (λ k. take k (x ∷ (s ++ r))) {y = suc (length s + n)} (omega arith)
      ∙ ap (λ (t : List A). x ∷ t) (take-append_right s r n)

  pub get_elem?-some : (xs : List A) (i : ℕ) → i < length xs → (x : A) × (get_elem? xs i ≡ some x)
  get_elem?-some [] i h = absurd (omega arith)
  get_elem?-some (x ∷ xs) zero h = (x, refl)
  get_elem?-some (x ∷ xs) (suc i) h = get_elem?-some xs i (omega arith)
