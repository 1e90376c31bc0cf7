-- ===== src/Fatedit/Memory.antt =====
-- A file in memory, of a size that does not change: it keeps what the editor relies on.
use hausboot.Base.{
  ℕ, ◌+◌, ◌-◌, ◌≤◌, ◌≡◌, refl, sym, ap, ap₂, ◌∙◌, subst, ◌⊎◌, inl, inr, true, Option, none, some,
  List, ◌++◌, append_assoc, arith, leb, if◌then◌else◌, leb→le, Bool-cases, length, length-append,
  take, drop, take-append-drop, length-take, length-drop, take-length-append, drop-length-append,
}
use hausboot.Base.Slice.{
  overwrite, length-overwrite, slice, slice-add, slice-append_left, slice-append_right,
}
use hausboot.Fatedit.Outcome.{Image, IsLawful}

unfoldable pub read_memory : List ℕ → ℕ → ℕ → Option (List ℕ)
read_memory bytes offset size =
    if leb (offset + size) (length bytes) then some (slice offset size bytes) else none

unfoldable pub write_memory : List ℕ → ℕ → List ℕ → Option (List ℕ)
write_memory bytes offset b =
    if leb (offset + length b) (length bytes) then some (overwrite bytes offset b) else none

abbrev pub memory : Image
memory = record { State = List ℕ; read_at = read_memory; write_at = write_memory }

read_memory-some :
    (bytes : List ℕ) (offset size : ℕ) (b : List ℕ)
    → read_memory bytes offset size ≡ some b
    → (offset + size ≤ length bytes) × (slice offset size bytes ≡ b)
unfolding read_memory
read_memory-some bytes offset size b e = elim (Bool-cases (leb (offset + size) (length bytes))) [
  | inl fits ↦
      let q : some (slice offset size bytes) ≡ some b = rw fits at e in (leb→le _ _ fits, cc)
  | inr past ↦ let q : none ≡ some b = rw past at e in cc
]

write_memory-some :
    (bytes bytes' : List ℕ) (offset : ℕ) (b : List ℕ)
    → write_memory bytes offset b ≡ some bytes'
    → (offset + length b ≤ length bytes) × (overwrite bytes offset b ≡ bytes')
unfolding write_memory
write_memory-some bytes bytes' offset b e =
    elim (Bool-cases (leb (offset + length b) (length bytes))) [
      | inl fits ↦
          let q : some (overwrite bytes offset b) ≡ some bytes' = rw fits at e in
          (leb→le _ _ fits, cc)
      | inr past ↦ let q : none ≡ some bytes' = rw past at e in cc
    ]

read_memory_run :
    (bytes : List ℕ) (offset size : ℕ)
    → offset + size ≤ length bytes
    → read_memory bytes offset size ≡ some (slice offset size bytes)
unfolding read_memory
read_memory_run bytes offset size h =
    let fits : leb (offset + size) (length bytes) ≡ true = ground arith in
    rw (fits, read_memory) refl

-- What stands at the place of a write.
slice-overwrite :
    (bytes : List ℕ) (offset : ℕ) (b : List ℕ)
    → offset + length b ≤ length bytes
    → slice offset (length b) (overwrite bytes offset b) ≡ b
slice-overwrite bytes offset b h =
    let front : length (take offset bytes) ≡ offset = omega (arith, length-take offset bytes) in
    let tail = b ++ drop (offset + length b) bytes in
    let dropped : drop offset (take offset bytes ++ tail) ≡ tail =
      subst (λ (n : ℕ). drop n (take offset bytes ++ tail) ≡ tail) front
        (drop-length-append (take offset bytes) tail) in
    ap (λ (l : List ℕ). take (length b) l) dropped
    ∙ take-length-append b (drop (offset + length b) bytes)

slice-overwrite_apart :
    (bytes : List ℕ) (offset start size : ℕ) (b : List ℕ)
    → offset + length b ≤ length bytes
    → (start + size ≤ offset) ⊎ (offset + length b ≤ start)
    → slice start size (overwrite bytes offset b) ≡ slice start size bytes
slice-overwrite_apart bytes offset start size b h (inl before) =
    let front = take offset bytes in
    let len : length front ≡ offset = omega (arith, length-take offset bytes) in
    slice-append_left front (b ++ drop (offset + length b) bytes) start size (omega arith)
    ∙ sym (slice-append_left front (drop offset bytes) start size (omega arith))
    ∙ ap (λ (l : List ℕ). slice start size l) (take-append-drop offset bytes)
slice-overwrite_apart bytes offset start size b h (inr behind) =
    let k = offset + length b in
    let front = take offset bytes ++ b in
    let len : length front ≡ k =
      omega (arith, length-append (take offset bytes) b, length-take offset bytes) in
    let len' : length (take k bytes) ≡ k = omega (arith, length-take k bytes) in
    ap (λ (l : List ℕ). slice start size l)
      (sym (append_assoc (take offset bytes) b (drop k bytes)))
    ∙ slice-append_right front (drop k bytes) start size (omega arith)
    ∙ ap (λ (n : ℕ). slice n size (drop k bytes)) {y = start - length (take k bytes)} (omega arith)
    ∙ sym (slice-append_right (take k bytes) (drop k bytes) start size (omega arith))
    ∙ ap (λ (l : List ℕ). slice start size l) (take-append-drop k bytes)

pub write_memory_run :
    (bytes : List ℕ) (offset : ℕ) (b : List ℕ)
    → offset + length b ≤ length bytes
    → write_memory bytes offset b ≡ some (overwrite bytes offset b)
unfolding write_memory
write_memory_run bytes offset b h =
    let fits : leb (offset + length b) (length bytes) ≡ true = ground arith in
    rw (fits, write_memory) refl

pub memory-IsLawful : IsLawful memory
memory-IsLawful = record {
  read_at-length = λ f offset size b e.
      (let (fits, same) = read_memory-some f offset size b e in
        omega (arith, ap length same, length-take size (drop offset f), length-drop offset f));
  read_at-append = λ f offset b c e e'.
      (let (fits, same) = read_memory-some f offset (length b) b e in
        let (fits', same') = read_memory-some f (offset + length b) (length c) c e' in
        read_memory_run f offset (length b + length c) (omega arith)
        ∙ ap some (slice-add offset (length b) (length c) f ∙ ap₂ ◌++◌ same same'));
  read_at-write_at = λ f f' offset b e.
      (let (fits, same) = write_memory-some f f' offset b e in
        let len = length-overwrite f offset b fits in
        subst (λ (g : List ℕ). read_memory g offset (length b) ≡ some b) same
          (read_memory_run (overwrite f offset b) offset (length b) (omega arith)
            ∙ ap some (slice-overwrite f offset b fits)));
  read_at-write_at_apart = λ f f' offset start size b old e apart r.
      (let (fits, same) = write_memory-some f f' offset b e in
        let (inside, is_old) = read_memory-some f start size old r in
        let len = length-overwrite f offset b fits in
        subst (λ (g : List ℕ). read_memory g start size ≡ some old) same
          (read_memory_run (overwrite f offset b) start size (omega arith)
            ∙ ap some (slice-overwrite_apart f offset start size b fits apart ∙ is_old)));
}
