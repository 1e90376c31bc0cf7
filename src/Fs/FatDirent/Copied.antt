-- ===== src/Fs/FatDirent/Copied.antt =====
-- include/fs/FatDirent.h, `NameToString`: the parts that are copied into the buffer.
use hausboot.Base.{
  ℕ, zero, suc, ◌+◌, ◌-◌, ◌≤◌, ◌<◌, ◌≡◌, refl, sym, ap, ap₂, ◌∙◌, ◌≢◌, inl, inr, false, some, List,
  [], ◌∷◌, ◌++◌, append_assoc, arith, ◌==◌, ==_iff, Bool-cases, length, length-append, get_or, drop,
  replicate, length-replicate, get_or-append_right, get_or-append_left, get_or-replicate,
  set-append, take_all, get_or_default, drop_all, drop-cons,
}
use hausboot.Fs.FatDirent.{put, copy_chars, trim_end}
use hausboot.Fs.FatName.{is_valid_fat_char}
use hausboot.Fs.ShortName.{IsPart}
use hausboot.Types.FixedLengthString.{cstr, set-cstr}
use hausboot.Types.FixedLengthString

-- The characters that a copying loop reads.
abbrev chars : (ℕ → ℕ) → ℕ → ℕ → List ℕ
chars char zero i = []
chars char (suc left) i = char i ∷ chars char left (i + 1)

pub put-append : (s r : List ℕ) (x c : ℕ) → put (s ++ x ∷ r) (length s) c ≡ some (s ++ c ∷ r)
unfolding put
put-append s r x c = ground (arith, length-append s (x ∷ r), set-append s r x c)

copy_chars-append :
    (char : ℕ → ℕ) (left i k : ℕ) (s r t : List ℕ)
    → length r ≡ left
    → k ≡ length s
    → copy_chars char left i k (s ++ (r ++ t)) ≡ some (k + left, s ++ (chars char left i ++ t))
unfolding copy_chars
copy_chars-append char zero i k s [] t h e = ap (λ (j : ℕ). some (j, s ++ t)) (omega arith)
copy_chars-append char zero i k s (x ∷ r) t h e = absurd (omega arith)
copy_chars-append char (suc left) i k s [] t h e = absurd (omega arith)
copy_chars-append char (suc left) i k s (x ∷ r) t h e =
    let c = char i in
    let step = put-append s (r ++ t) x c in
    let rest =
      copy_chars-append char left (i + 1) (k + 1) (s ++ c ∷ []) r t (omega arith)
        (omega (arith, length-append s (c ∷ []))) in
    let regroup = append_assoc s (c ∷ []) (r ++ t) in
    let regroup' = append_assoc s (c ∷ []) (chars char left (i + 1) ++ t) in
    rw (e, step, ← e, ← regroup)
      (rest ∙ ap₂ (λ (j : ℕ) (u : List ℕ). some (j, u)) (omega arith) regroup')

trim_end-pad :
    (buffer : List ℕ) (k m : ℕ)
    → ((j : ℕ) → j < m → get_or buffer (k + j) 0 ≡ b' ')
    → trim_end buffer (k + m) ≡ trim_end buffer k
unfolding trim_end
trim_end-pad buffer k zero h = ap (λ (j : ℕ). trim_end buffer j) (omega arith)
trim_end-pad buffer k (suc m) h =
    let e : k + suc m ≡ suc (k + m) = omega arith in
    rw (e, h m (omega arith)) (trim_end-pad buffer k m (λ j p. h j (omega arith)))

-- A part that does not end in a space.
abbrev IsBare : List ℕ → Type 0
IsBare s = get_or s (length s - 1) b' ' ≢ b' '

trim_end-stop : (s r : List ℕ) → IsBare s → trim_end (s ++ r) (length s) ≡ length s
unfolding trim_end
trim_end-stop [] r bare = refl
trim_end-stop (x ∷ s) r bare =
    let last : get_or (x ∷ (s ++ r)) (length s) 0 ≡ get_or (x ∷ s) (length s) b' ' =
      get_or-append_left (x ∷ s) r (length s) 0 (omega arith)
      ∙ get_or_default (x ∷ s) (length s) 0 b' ' (omega arith) in
    let e : suc (length s) - 1 ≡ length s = omega arith in
    let bare' : get_or (x ∷ s) (length s) b' ' ≢ b' ' = rw e at bare in ground arith

-- A padded part loses its padding.
trim_end-part :
    (s r : List ℕ) (m : ℕ)
    → IsBare s
    → trim_end (s ++ (replicate m b' ' ++ r)) (length s + m) ≡ length s
trim_end-part s r m bare =
    trim_end-pad (s ++ (replicate m b' ' ++ r)) (length s) m
      (λ j p. get_or-append_right s (replicate m b' ' ++ r) j 0 ∙ get_or-replicate m b' ' r j 0 p)
    ∙ trim_end-stop s (replicate m b' ' ++ r) bare

-- A part has no NUL in it.
cstr_part : (s : List ℕ) → IsPart s → cstr s ≡ s
unfolding cstr
cstr_part [] p = refl
cstr_part (c ∷ s) ((v, nd), p) = elim (Bool-cases (c == 0)) [
  | inl nul ↦
      let no : is_valid_fat_char 0 ≡ false = unfold is_valid_fat_char in refl in
      cc (rw ((==_iff c 0).0 nul, no) at v)
  | inr char ↦ rw char (ap (λ (t : List ℕ). c ∷ t) (cstr_part s p))
]

padded :
    (count : ℕ) (s : List ℕ)
    → IsPart s
    → length s ≤ count
    → FixedLengthString.set count b' ' s ≡ s ++ replicate (count - length s) b' '
padded count s p h =
    set-cstr count b' ' s
    ∙ rw (cstr_part s p)
        (ap (λ (t : List ℕ). t ++ replicate (count - length s) b' ') (take_all count s h))

-- The loop over a field of `count` bytes reads the field.
chars_field :
    (count left i : ℕ) (raw : List ℕ)
    → length raw ≡ count
    → i + left ≡ count
    → chars (λ j. FixedLengthString.at count b' ' raw j) left i ≡ drop i raw
unfolding FixedLengthString.at
chars_field count zero i raw len e = sym (drop_all i raw (omega arith))
chars_field count (suc left) i raw len e =
    let here : FixedLengthString.at count b' ' raw i ≡ get_or raw i b' ' = ground arith in
    let next : i + 1 ≡ suc i = omega arith in
    rw (here, next, drop-cons i raw b' ' (omega arith))
      (ap (λ (t : List ℕ). get_or raw i b' ' ∷ t)
        (chars_field count left (suc i) raw len (omega arith)))

-- A part that neither begins nor ends in a space.
abbrev pub IsTight : List ℕ → Type 0
IsTight s = (get_or s 0 b' ' ≢ b' ') × IsBare s

bare_pos : (s : List ℕ) → IsBare s → 0 < length s
bare_pos [] bare = absurd (bare refl)
bare_pos (x ∷ s) bare = omega arith

IsBare-append : (s part : List ℕ) → IsBare part → IsBare (s ++ part)
IsBare-append s part bare =
    let pos = bare_pos part bare in
    let at : length (s ++ part) - 1 ≡ length s + (length part - 1) =
      omega (arith, length-append s part) in
    rw (at, get_or-append_right s part (length part - 1) b' ') bare

-- One padded part, copied to index `k` and trimmed.
pub copy_part :
    (count k : ℕ) (part s r t : List ℕ)
    → IsPart part
    → IsTight part
    → length part ≤ count
    → length r ≡ count
    → k ≡ length s
    → (u : List ℕ) × (copy_chars
          (λ j. FixedLengthString.at count b' ' (FixedLengthString.set count b' ' part) j)
          count
          0
          k
          (s ++ (r ++ t))
        ≡ some (k + count, (s ++ part) ++ u))
      × (length u ≡ count - length part + length t)
      × (trim_end ((s ++ part) ++ u) (k + count) ≡ length s + length part)
copy_part count k part s r t p tight le len e =
    let pad : List ℕ = replicate (count - length part) b' ' in
    let raw = FixedLengthString.set count b' ' part in
    let char = λ (j : ℕ). FixedLengthString.at count b' ' raw j in
    let read : chars char count 0 ≡ part ++ pad =
      chars_field count count 0 raw (FixedLengthString.length-set count b' ' part) (omega arith)
      ∙ padded count part p le in
    let group : s ++ ((part ++ pad) ++ t) ≡ (s ++ part) ++ (pad ++ t) = simp append_assoc in
    (
      pad ++ t,
      (copy_chars-append char count 0 k s r t len e
          ∙ ap (λ (v : List ℕ). some (k + count, s ++ (v ++ t))) read
          ∙ ap (λ (v : List ℕ). some (k + count, v)) group),
      length-append pad t ∙ ap (λ n. n + length t) (length-replicate (count - length part) b' '),
      (let at : k + count ≡ length (s ++ part) + (count - length part) =
            omega (arith, length-append s part) in
          ap (λ n. trim_end ((s ++ part) ++ (pad ++ t)) n) at
          ∙ (trim_end-part (s ++ part) t (count - length part) (IsBare-append s part tight.1)
              ∙ length-append s part)),
    )

pub starts :
    (count : ℕ) (part : List ℕ)
    → IsPart part
    → IsTight part
    → 0 < count
    → length part ≤ count
    → (FixedLengthString.at count b' ' (FixedLengthString.set count b' ' part) 0 == b' ') ≡ false
unfolding FixedLengthString.at
starts count part p tight pos le =
    let first : get_or (FixedLengthString.set count b' ' part) 0 b' ' ≡ get_or part 0 b' ' =
      ap (λ (t : List ℕ). get_or t 0 b' ') (padded count part p le)
      ∙ (get_or-append_left part _ 0 b' ' (bare_pos part tight.1)) in
    ground (arith, tight.0)
