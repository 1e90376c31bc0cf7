-- ===== src/Fs/ShortName.antt =====
-- `IsShortName` against a description of the names: a base of one to eight characters, alone or
-- followed by a dot and an extension of one to three.
use hausboot.Base.{
  ℕ, suc, ◌+◌, ◌≤◌, ◌<◌, ◌≡◌, refl, sym, ap, ◌∙◌, ◌≢◌, ◌↔◌, inl, inr, true, false, List, [], ◌∷◌,
  ◌++◌, append-nil, arith, ◌==◌, ==_iff, Bool-cases, length, length-append,
}
use hausboot.Types.FixedLengthString.{cstr}
use hausboot.Fs.FatName.{is_valid_fat_char, Scan, bad, no_dot, dot_at, scan, judge, is_short_name}

-- A character of a name's part.
abbrev pub IsPartChar : ℕ → Type 0
IsPartChar c = (is_valid_fat_char c ≡ true) × ((c == b'.') ≡ false)

abbrev pub IsPart : List ℕ → Type 0
IsPart [] = Unit {0}
IsPart (c ∷ s) = IsPartChar c × IsPart s

-- `name` is `base`, or `base` and an extension with a dot between them.
abbrev pub join : List ℕ → List ℕ → List ℕ
join base [] = base
join base (c ∷ ext) = base ++ b'.' ∷ c ∷ ext

pub record Splits (name base ext : List ℕ) : Type 0 where
  pub joined : name ≡ join base ext
  pub base_part : IsPart base
  pub ext_part : IsPart ext
  pub base_pos : 0 < length base
  pub base_le : length base ≤ 8
  pub ext_le : length ext ≤ 3

-- The loop over a part moves on and keeps what it knows of the dot.
pub scan-part :
    (b r : List ℕ) (i : ℕ) (dot : Scan) → IsPart b → scan (b ++ r) i dot ≡ scan r (i + length b) dot
unfolding scan
scan-part [] r i dot p = ap (λ k. scan r k dot) (omega arith)
scan-part (c ∷ b) r i dot ((v, nd), p) =
    rw (v, nd) (scan-part b r (i + 1) dot p ∙ ap (λ k. scan r k dot) (omega arith))

-- After a dot only a part is accepted.
scan_after_dot :
    (s : List ℕ) (i d : ℕ) (r : Scan)
    → scan s i (dot_at d) ≡ r
    → r ≢ bad
    → (r ≡ dot_at d) × IsPart s
unfolding scan
scan_after_dot [] i d r e ne = (sym e, tt)
scan_after_dot (c ∷ s) i d r e ne = ground (arith, scan_after_dot s (i + 1) d r)

scan_no_dot : (s : List ℕ) (i : ℕ) → scan s i no_dot ≡ no_dot → IsPart s
unfolding scan
scan_no_dot [] i e = tt
scan_no_dot (c ∷ s) i e = elim (Bool-cases (is_valid_fat_char c)) [
  | inr no_char ↦ cc (rw no_char at e)
  | inl char ↦ elim (Bool-cases (c == b'.')) [
    | inl dot ↦
        let e' : scan s (i + 1) (dot_at i) ≡ no_dot = rw (char, dot) at e in
        cc (scan_after_dot s (i + 1) i no_dot e' (λ (w : no_dot ≡ bad). cc)).0
    | inr other ↦
        let e' : scan s (i + 1) no_dot ≡ no_dot = rw (char, other) at e in
        ((char, other), scan_no_dot s (i + 1) e')
  ]
]

-- A dot that was found splits the name.
scan_dot :
    (s : List ℕ) (i d : ℕ)
    → scan s i no_dot ≡ dot_at d
    → (b e : List ℕ) × (s ≡ b ++ b'.' ∷ e) × IsPart b × IsPart e × (d ≡ i + length b)
unfolding scan
scan_dot [] i d e = cc
scan_dot (c ∷ s) i d e = elim (Bool-cases (is_valid_fat_char c)) [
  | inr no_char ↦ cc (rw no_char at e)
  | inl char ↦ elim (Bool-cases (c == b'.')) [
    | inl dot ↦
        let e' : scan s (i + 1) (dot_at i) ≡ dot_at d = rw (char, dot) at e in
        let (at, part) = scan_after_dot s (i + 1) i (dot_at d) e' (λ (w : dot_at d ≡ bad). cc) in
        ([], s, ap (λ (x : ℕ). x ∷ s) ((==_iff c b'.').0 dot), tt, part, ground arith)
    | inr other ↦
        let e' : scan s (i + 1) no_dot ≡ dot_at d = rw (char, other) at e in
        let (b, x, joined, before, after, at) = scan_dot s (i + 1) d e' in
        (c ∷ b, x, ap (λ (t : List ℕ). c ∷ t) joined, ((char, other), before), after, omega arith)
  ]
]

scan_whole : (s : List ℕ) (i : ℕ) (dot : Scan) → IsPart s → scan s i dot ≡ dot
scan_whole s i dot p =
    ap (λ (t : List ℕ). scan t i dot) (sym (append-nil s)) ∙ (scan-part s [] i dot p ∙ ends)
  where
    ends : scan [] (i + length s) dot ≡ dot
    ends = unfold scan in refl

-- What the loop finds in a name made of two parts.
abbrev dot_of : List ℕ → List ℕ → Scan
dot_of base [] = no_dot
dot_of base (c ∷ ext) = dot_at (length base)

scan-join :
    (base ext : List ℕ) → IsPart base → IsPart ext → scan (join base ext) 0 no_dot ≡ dot_of base ext
scan-join base [] p q = scan_whole base 0 no_dot p
scan-join base (c ∷ ext) p q =
    scan-part base (b'.' ∷ c ∷ ext) 0 no_dot p
    ∙ (at_dot
        ∙ (scan_whole (c ∷ ext) (0 + length base + 1) (dot_at (0 + length base)) q
            ∙ ap dot_at (omega arith)))
  where
    at_dot :
        scan (b'.' ∷ c ∷ ext) (0 + length base) no_dot
        ≡ scan (c ∷ ext) (0 + length base + 1) (dot_at (0 + length base))
    at_dot = unfold scan in refl

-- A name that splits passes the tests.
pub is_short_name-Splits :
    (name base ext : List ℕ) → Splits (cstr name) base ext → is_short_name name ≡ true
unfolding is_short_name
is_short_name-Splits name base [] h =
    rw (h.joined, scan-join base [] h.base_part h.ext_part) (ground arith)
is_short_name-Splits name base (c ∷ ext) h =
    rw (h.joined, scan-join base (c ∷ ext) h.base_part h.ext_part)
      (ground (arith, length-append base (b'.' ∷ c ∷ ext)))

Splits-of_parts :
    (s b x : List ℕ) (d : ℕ)
    → s ≡ b ++ b'.' ∷ x
    → d ≡ length b
    → IsPart b
    → IsPart x
    → judge (length s) (dot_at d) ≡ true
    → (base ext : List ℕ) × Splits s base ext
unfolding judge
Splits-of_parts s b [] d joined at before after j =
    let len : length s ≡ length b + 1 = ap length joined ∙ length-append b (b'.' ∷ []) in
    cc (let no : judge (length s) (dot_at d) ≡ false = ground arith in sym no ∙ j)
Splits-of_parts s b (c ∷ x) d joined at before after j =
    let len : length s ≡ length b + suc (suc (length x)) =
      ap length joined ∙ length-append b (b'.' ∷ c ∷ x) in
    (
      b,
      c ∷ x,
      record {
        joined = joined;
        base_part = before;
        ext_part = after;
        base_pos = ground arith;
        base_le = ground arith;
        ext_le = ground arith;
      },
    )

Splits-of_scan :
    (s : List ℕ) (found : Scan)
    → scan s 0 no_dot ≡ found
    → (length s == 0) ≡ false
    → judge (length s) found ≡ true
    → (base ext : List ℕ) × Splits s base ext
unfolding judge
Splits-of_scan s bad e ne j = cc
Splits-of_scan s no_dot e ne j = (
  s,
  [],
  record {
    joined = refl;
    base_part = scan_no_dot s 0 e;
    ext_part = tt;
    base_pos = ground arith;
    base_le = ground arith;
    ext_le = omega arith;
  },
)
Splits-of_scan s (dot_at d) e ne j =
    let (b, x, joined, before, after, at) = scan_dot s 0 d e in
    Splits-of_parts s b x d joined (omega arith) before after j

-- A name that passes the tests splits.
pub Splits-is_short_name :
    (name : List ℕ) → is_short_name name ≡ true → (base ext : List ℕ) × Splits (cstr name) base ext
unfolding is_short_name
Splits-is_short_name name h =
    Splits-of_scan (cstr name) (scan (cstr name) 0 no_dot) refl (ground arith) (ground arith)

-- `IsShortName` accepts exactly the names that are one to eight valid characters, alone or
-- followed by a dot and one to three valid characters, with no other dot.
pub is_short_name_iff :
    (name : List ℕ)
    → (is_short_name name ≡ true) ↔ ((base ext : List ℕ) × Splits (cstr name) base ext)
is_short_name_iff name = (Splits-is_short_name name, λ s. is_short_name-Splits name s.0 s.1 s.2)
