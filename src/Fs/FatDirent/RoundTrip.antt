-- ===== src/Fs/FatDirent/RoundTrip.antt =====
-- A short name that `SetName` and `SetExtension` store is what `NameToString` gives back.
use hausboot.Base.{
  ℕ, suc, ◌+◌, ◌-◌, ◌≤◌, ◌<◌, ◌≡◌, refl, sym, ap, ◌∙◌, true, false, some, List, [], ◌∷◌, ◌++◌,
  append_assoc, arith, ◌==◌, length, length-append, take, drop, take-append-drop, length-take,
  length-drop,
}
use hausboot.Fs.FatDirent.{
  FatDirent, put, copy_chars, trim_end, put_extension, name_to_string, name_at, set_name,
  set_extension,
}
use hausboot.Fs.ShortName.{IsPart, join}
use hausboot.Types.FixedLengthString.{cstr, set-cstr}
use hausboot.Types.FixedLengthString
use hausboot.Fs.FatDirent.Copied.{put-append, IsTight, copy_part, starts}

-- An extension as the name's part behind the dot.
abbrev IsExtension : List ℕ → Type 0
IsExtension [] = Unit {0}
IsExtension (c ∷ ext) = IsPart (c ∷ ext) × IsTight (c ∷ ext) × (length (c ∷ ext) ≤ 3)

module _ (e : FatDirent) (base : List ℕ) (buffer : List ℕ) where
  -- The buffer once the base is copied and trimmed.
  after_base :
      IsPart base
      → IsTight base
      → length base ≤ 8
      → length buffer ≡ 13
      → (u : List ℕ) × (copy_chars
            (λ j. FixedLengthString.at 8 b' ' (FixedLengthString.set 8 b' ' base) j)
            8
            0
            0
            buffer
          ≡ some (8, base ++ u))
        × (length u ≡ 13 - length base)
        × (trim_end (base ++ u) 8 ≡ length base)
  after_base p tight le len =
      let head = length-take 8 buffer in
      let rest = length-drop 8 buffer in
      let (u, copied, left, trimmed) =
        copy_part 8 0 base [] (take 8 buffer) (drop 8 buffer) p tight le (omega arith) refl in
      (
        u,
        ap
              (λ (b : List ℕ).
                copy_chars (λ j. FixedLengthString.at 8 b' ' (FixedLengthString.set 8 b' ' base) j)
                  8 0 0 b)
              (sym (take-append-drop 8 buffer))
            ∙ copied,
        omega arith,
        trimmed ∙ omega arith,
      )

  finish :
      (s u : List ℕ)
      → 0 < length u
      → (rest : List ℕ) × (put (s ++ u) (length s) 0 ≡ some (s ++ 0 ∷ rest))
        × (length s + suc (length rest) ≡ length s + length u)
  finish s [] h = absurd (omega arith)
  finish s (x ∷ u) h = (u, put-append s u x 0, refl)

  -- The dot and the extension behind `s`, in a buffer with room for them.
  put_extension-append :
      (d : FatDirent) (s u : List ℕ) (c : ℕ) (ext : List ℕ)
      → d.extension ≡ FixedLengthString.set 3 b' ' (c ∷ ext)
      → IsExtension (c ∷ ext)
      → 5 ≤ length u
      → (v : List ℕ) × (put_extension d (length s) (s ++ u)
          ≡ some (length (s ++ b'.' ∷ c ∷ ext), (s ++ b'.' ∷ c ∷ ext) ++ v))
        × (0 < length v)
  put_extension-append d s [] c ext stored ok h = absurd (omega arith)
  put_extension-append d s (x ∷ u) c ext stored (p, tight, le) h =
      let s' : List ℕ = s ++ b'.' ∷ [] in
      let idx : length s + 1 ≡ length s' = omega (arith, length-append s (b'.' ∷ [])) in
      let head = length-take 3 u in
      let rest = length-drop 3 u in
      let (v, copied, left, trimmed) =
        copy_part 3 (length s + 1) (c ∷ ext) s' (take 3 u) (drop 3 u) p tight le (omega arith)
          idx in
      let group : s' ++ (c ∷ ext) ≡ s ++ b'.' ∷ c ∷ ext = append_assoc s (b'.' ∷ []) (c ∷ ext) in
      let whole : s ++ b'.' ∷ u ≡ s' ++ (take 3 u ++ drop 3 u) =
        sym (append_assoc s (b'.' ∷ []) u)
        ∙ ap (λ (t : List ℕ). s' ++ t) (sym (take-append-drop 3 u)) in
      let len : length s' + suc (length ext) ≡ length (s ++ b'.' ∷ c ∷ ext) =
        omega (arith, length-append s (b'.' ∷ []), length-append s (b'.' ∷ c ∷ ext)) in
      (
        v,
        (unfold put_extension in
            rw
              (
                stored,
                starts 3 (c ∷ ext) p tight (omega arith) le,
                put-append s u x b'.',
                whole,
                copied,
                trimmed,
                len,
                group,
              )
              refl),
        omega arith,
      )

-- The run of `NameToString` from the runs of its parts.
name_to_string_run :
    (d : FatDirent) (buffer b1 b2 out : List ℕ) (i k : ℕ)
    → (name_at d 0 == b' ') ≡ false
    → copy_chars (name_at d) 8 0 0 buffer ≡ some (8, b1)
    → trim_end b1 8 ≡ i
    → put_extension d i b1 ≡ some (k, b2)
    → put b2 k 0 ≡ some out
    → name_to_string d buffer ≡ some (true, out)
unfolding name_to_string
name_to_string_run d buffer b1 b2 out i k named copied trimmed extended wrote =
    rw (named, copied, trimmed, extended, wrote) refl

-- A base of one to eight valid characters other than the dot, stored by `SetName`, and an
-- extension of up to three, stored by `SetExtension`, are given back by `NameToString` as the
-- base, or the base, a dot and the extension, with a NUL behind; this is for parts that neither
-- begin nor end in a space, and a buffer of 13 bytes.
pub name_to_string-set_name :
    (e : FatDirent) (base ext buffer : List ℕ)
    → IsPart base
    → IsTight base
    → length base ≤ 8
    → IsExtension ext
    → length buffer ≡ 13
    → (rest : List ℕ) × (name_to_string (set_extension (set_name e base) ext) buffer
        ≡ some (true, join base ext ++ 0 ∷ rest))
unfolding set_name set_extension
name_to_string-set_name e base [] buffer p tight le ok len =
    let (u, copied, left, trimmed) = after_base e base buffer p tight le len in
    let (rest, wrote, size) = finish e base buffer base u (omega arith) in
    let plain : put_extension (set_extension (set_name e base) []) (length base) (base ++ u)
        ≡ some (length base, base ++ u) =
      unfold put_extension FixedLengthString.set FixedLengthString.at in refl in
    (
      rest,
      name_to_string_run (set_extension (set_name e base) []) buffer (base ++ u) (base ++ u)
          (base ++ 0 ∷ rest) (length base) (length base) (starts 8 base p tight (omega arith) le)
          copied trimmed plain wrote,
    )
name_to_string-set_name e base (c ∷ ext) buffer p tight le ok len =
    let d = set_extension (set_name e base) (c ∷ ext) in
    let (u, copied, left, trimmed) = after_base e base buffer p tight le len in
    let (v, extended, pos) =
      put_extension-append e base buffer d base u c ext refl ok (omega arith) in
    let (rest, wrote, size) = finish e base buffer (base ++ b'.' ∷ c ∷ ext) v pos in
    (
      rest,
      name_to_string_run d buffer (base ++ u) ((base ++ b'.' ∷ c ∷ ext) ++ v)
          ((base ++ b'.' ∷ c ∷ ext) ++ 0 ∷ rest) (length base) (length (base ++ b'.' ∷ c ∷ ext))
          (starts 8 base p tight (omega arith) le) copied trimmed extended wrote,
    )
