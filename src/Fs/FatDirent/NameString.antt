-- ===== src/Fs/FatDirent/NameString.antt =====
-- What `NameToString` writes.
use hausboot.Base.{
  ℕ, zero, suc, ◌+◌, ◌≤◌, ◌<◌, ◌≡◌, refl, ap, ◌∙◌, inl, inr, not, some, List, arith, ◌==◌,
  Bool-cases, length, set, length-set,
}
use hausboot.Fs.FatDirent.{
  FatDirent, put, copy_chars, trim_end, put_extension, name_to_string, name_at, extension_at,
}

-- Writes within the buffer succeed and keep its length.
put_lem :
    (buffer : List ℕ) (i c : ℕ)
    → i < length buffer
    → (out : List ℕ) × (put buffer i c ≡ some out) × (length out ≡ length buffer)
unfolding put
put_lem buffer i c h = (set buffer i c, ground arith, length-set buffer i c)

copy_chars_lem :
    (char : ℕ → ℕ) (left i idx : ℕ) (buffer : List ℕ)
    → idx + left ≤ length buffer
    → (out : List ℕ) × (copy_chars char left i idx buffer ≡ some (idx + left, out))
      × (length out ≡ length buffer)
unfolding copy_chars
copy_chars_lem char zero i idx buffer h =
    (buffer, ap (λ (k : ℕ). some (k, buffer)) (omega arith), refl)
copy_chars_lem char (suc left) i idx buffer h =
    let (mid, wrote, len) = put_lem buffer idx (char i) (omega arith) in
    let (out, rest, len') = copy_chars_lem char left (i + 1) (idx + 1) mid (omega arith) in
    (out, rw wrote (rest ∙ ap (λ (k : ℕ). some (k, out)) (omega arith)), omega arith)

trim_end-le : (buffer : List ℕ) (idx : ℕ) → trim_end buffer idx ≤ idx
unfolding trim_end
trim_end-le buffer zero = omega arith
trim_end-le buffer (suc idx) = ground (arith, trim_end-le buffer idx)

put_extension_lem :
    (e : FatDirent) (idx : ℕ) (buffer : List ℕ)
    → idx + 4 ≤ length buffer
    → (k : ℕ) × (out : List ℕ) × (put_extension e idx buffer ≡ some (k, out))
      × (k ≤ idx + 4)
      × (length out ≡ length buffer)
unfolding put_extension
put_extension_lem e idx buffer h = elim (Bool-cases (extension_at e 0 == b' ')) [
  | inl no_ext ↦ (idx, buffer, rw no_ext refl, omega arith, refl)
  | inr ext ↦
      let (mid, wrote, len) = put_lem buffer idx b'.' (omega arith) in
      let (out, rest, len') = copy_chars_lem (extension_at e) 3 0 (idx + 1) mid (omega arith) in
      let low = trim_end-le out (idx + 1 + 3) in
      (trim_end out (idx + 1 + 3), out, rw (ext, wrote, rest) refl, omega arith, omega arith)
]

-- `NameToString` stays within the 13 bytes that its parameter's type names, for any entry, and
-- returns whether the name begins with a character other than a space.
pub name_to_string_fits :
    (e : FatDirent) (buffer : List ℕ)
    → length buffer ≡ 13
    → (out : List ℕ) × (name_to_string e buffer ≡ some (not (name_at e 0 == b' '), out))
      × (length out ≡ 13)
unfolding name_to_string
name_to_string_fits e buffer h = elim (Bool-cases (name_at e 0 == b' ')) [
  | inl empty ↦ (buffer, rw empty refl, h)
  | inr named ↦
      let (b1, r1, l1) = copy_chars_lem (name_at e) 8 0 0 buffer (omega arith) in
      let low = trim_end-le b1 8 in
      let (k, b2, r2, hk, l2) = put_extension_lem e (trim_end b1 8) b1 (omega arith) in
      let (b3, r3, l3) = put_lem b2 k 0 (omega arith) in
      (b3, rw (named, r1, r2, r3) refl, omega arith)
]
