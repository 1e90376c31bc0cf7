-- ===== src/Base/Slice.antt =====
-- Parts of a list: `size` elements from a place on.
use hausboot.Base.{
  ℕ, zero, suc, ◌+◌, ◌-◌, ◌≤◌, ◌≡◌, sym, ap, ap₂, ◌∙◌, List, [], ◌∷◌, ◌++◌, append_assoc, arith,
  length, length-append, take, drop, length-take, length-drop, take-length-append, take_all,
  drop_all, drop-append_right, take-append_left, drop-append_left,
}

abbrev pub slice : ℕ → ℕ → List ℕ → List ℕ
slice start size bytes = take size (drop start bytes)

pub slice-append_left :
    (a r : List ℕ) (start size : ℕ)
    → start + size ≤ length a
    → slice start size (a ++ r) ≡ slice start size a
slice-append_left a r start size h =
    ap (λ (l : List ℕ). take size l) (drop-append_left a r start (omega arith))
    ∙ take-append_left (drop start a) r size (omega (arith, length-drop start a))

pub slice-append_right :
    (a r : List ℕ) (start size : ℕ)
    → length a ≤ start
    → slice start size (a ++ r) ≡ slice (start - length a) size r
slice-append_right a r start size h =
    ap (λ (n : ℕ). slice n size (a ++ r)) {y = length a + (start - length a)} (omega arith)
    ∙ ap (λ (l : List ℕ). take size l) (drop-append_right a r (start - length a))

-- The part behind `a` that is all of `b`.
pub slice-middle :
    (a b r : List ℕ) (start size : ℕ)
    → length a ≡ start
    → length b ≡ size
    → slice start size (a ++ (b ++ r)) ≡ b
slice-middle a b r start size len len' =
    slice-append_right a (b ++ r) start size (omega arith)
    ∙ ap (λ (n : ℕ). slice n size (b ++ r)) {y = 0} (omega arith)
    ∙ ap (λ (n : ℕ). take n (b ++ r)) (sym len')
    ∙ take-length-append b r

-- Behind `a`.
pub slice-skip :
    (a r : List ℕ) (k start size : ℕ)
    → length a ≡ k
    → slice (k + start) size (a ++ r) ≡ slice start size r
slice-skip a r k start size len =
    slice-append_right a r (k + start) size (omega arith)
    ∙ ap (λ (n : ℕ). slice n size r) {y = start} (omega arith)

-- All of `a`.
pub slice-front : (a r : List ℕ) (size : ℕ) → length a ≡ size → slice 0 size (a ++ r) ≡ a
slice-front a r size len = ap (λ (n : ℕ). take n (a ++ r)) (sym len) ∙ take-length-append a r

pub slice_all : (a : List ℕ) (size : ℕ) → length a ≡ size → slice 0 size a ≡ a
slice_all a size len = take_all size a (omega arith)

pub length-slice :
    (start size : ℕ) (a : List ℕ) → start + size ≤ length a → length (slice start size a) ≡ size
length-slice start size a h = omega (arith, length-take size (drop start a), length-drop start a)

take_add : (n m : ℕ) (a : List ℕ) → take (n + m) a ≡ take n a ++ take m (drop n a)
take_add zero m a = ap (λ (k : ℕ). take k a) {y = m} (omega arith)
take_add (suc n) m [] =
    ap (λ (k : ℕ). take k []) {y = suc (n + m)} (omega arith) ∙ sym (take_all m [] (omega arith))
take_add (suc n) m (x ∷ a) =
    ap (λ (k : ℕ). take k (x ∷ a)) {y = suc (n + m)} (omega arith)
    ∙ ap (λ (l : List ℕ). x ∷ l) (take_add n m a)

drop-drop : (n k : ℕ) (a : List ℕ) → drop n (drop k a) ≡ drop (k + n) a
drop-drop n zero a = ap (λ (j : ℕ). drop j a) {x = n} (omega arith)
drop-drop n (suc k) [] = drop_all n [] (omega arith) ∙ sym (drop_all (suc k + n) [] (omega arith))
drop-drop n (suc k) (x ∷ a) =
    drop-drop n k a ∙ ap (λ (j : ℕ). drop j (x ∷ a)) {x = suc (k + n)} (omega arith)

pub slice-add :
    (start n m : ℕ) (a : List ℕ) → slice start (n + m) a ≡ slice start n a ++ slice (start + n) m a
slice-add start n m a =
    take_add n m (drop start a)
    ∙ ap (λ (l : List ℕ). take n (drop start a) ++ take m l) (drop-drop n start a)

-- `b` in place of what is there.
abbrev pub overwrite : List ℕ → ℕ → List ℕ → List ℕ
overwrite bytes offset b = take offset bytes ++ (b ++ drop (offset + length b) bytes)

pub length-overwrite :
    (bytes : List ℕ) (offset : ℕ) (b : List ℕ)
    → offset + length b ≤ length bytes
    → length (overwrite bytes offset b) ≡ length bytes
length-overwrite bytes offset b h = omega (
  arith,
  length-append (take offset bytes) (b ++ drop (offset + length b) bytes),
  length-append b (drop (offset + length b) bytes),
  length-take offset bytes,
  length-drop (offset + length b) bytes,
)

-- Two adjacent pieces, written one after the other.
pub overwrite-overwrite :
    (m : List ℕ) (o : ℕ) (b c : List ℕ)
    → o + length b + length c ≤ length m
    → overwrite (overwrite m o b) (o + length b) c ≡ overwrite m o (b ++ c)
overwrite-overwrite m o b c h =
    let front = take o m ++ b in
    let k = o + length b in
    let len : length front ≡ k = omega (arith, length-append (take o m) b, length-take o m) in
    let shape : overwrite m o b ≡ front ++ drop k m = sym (append_assoc (take o m) b (drop k m)) in
    let head : take k (overwrite m o b) ≡ front =
      ap (λ (l : List ℕ). take k l) shape
      ∙ ap (λ (n : ℕ). take n (front ++ drop k m)) (sym len)
      ∙ take-length-append front (drop k m) in
    let tail : drop (k + length c) (overwrite m o b) ≡ drop (k + length c) m =
      ap (λ (l : List ℕ). drop (k + length c) l) shape
      ∙ ap (λ (n : ℕ). drop (n + length c) (front ++ drop k m)) (sym len)
      ∙ drop-append_right front (drop k m) (length c)
      ∙ drop-drop (length c) k m in
    let sum : k + length c ≡ o + length (b ++ c) = omega (arith, length-append b c) in
    ap₂ (λ (x y : List ℕ). x ++ (c ++ y)) head (tail ∙ ap (λ (n : ℕ). drop n m) sum)
    ∙ append_assoc (take o m) b (c ++ drop (o + length (b ++ c)) m)
    ∙ ap (λ (l : List ℕ). take o m ++ l) (sym (append_assoc b c (drop (o + length (b ++ c)) m)))
