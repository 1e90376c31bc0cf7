-- ===== src/Installfat/ReadAll.antt =====
-- tools/installfat.cpp: whole files.
use hausboot.Base.{
  ℕ, zero, suc, ◌+◌, ◌-◌, ◌≤◌, ◌<◌, min, ◌≡◌, refl, ap, ap₂, ◌∙◌, inl, inr, true, false, Option,
  some, List, [], ◌∷◌, ◌++◌, append_assoc, append-nil, arith, ltb, leb, if◌then◌else◌, ltb→lt,
  Bool-cases, length, length-append, take, drop, take-append-drop, length-take, length-drop,
}
use hausboot.Fatedit.Outcome.{ok, refused, or_throw}
use hausboot.Installfat.{read_loop, read_all}

leb_past : (a b : ℕ) → b < a → leb a b ≡ false
leb_past a b h = ground arith

ltb_under : (a b : ℕ) → ltb a b ≡ false → b ≤ a
ltb_under a b h = ground arith

read_loop_lem :
    (fuel : ℕ) (contents out : List ℕ) (limit : ℕ)
    → length contents < fuel
    → length out ≤ limit
    → read_loop fuel contents out limit
      ≡ (if leb (length out + length contents) limit then ok (out ++ contents) else refused)
unfolding read_loop
read_loop_lem zero contents out limit h le = absurd (omega arith)
read_loop_lem (suc fuel) [] out limit h le =
    let fits : leb (length out + 0) limit ≡ true = ground arith in rw (fits, append-nil out) refl
read_loop_lem (suc fuel) (c ∷ contents) out limit h le =
    let all = c ∷ contents in
    let more = out ++ take 1024 all in
    let len : length more ≡ length out + min 1024 (length all) =
      omega (arith, length-append out (take 1024 all), length-take 1024 all) in
    let left : length (drop 1024 all) ≡ length all - 1024 = length-drop 1024 all in
    elim (Bool-cases (ltb limit (length more))) [
      | inl over ↦
          let past : leb (length out + length all) limit ≡ false =
            leb_past _ limit (omega (arith, ltb→lt limit (length more) over)) in
          rw (over, past) refl
      | inr under ↦
          let rest =
            read_loop_lem fuel (drop 1024 all) more limit (omega arith)
              (ltb_under limit (length more) under) in
          let sum : length more + length (drop 1024 all) ≡ length out + length all = omega arith in
          let whole : more ++ drop 1024 all ≡ out ++ all =
            append_assoc out (take 1024 all) (drop 1024 all)
            ∙ ap (λ (l : List ℕ). out ++ l) (take-append-drop 1024 all) in
          rw (under)
            (rest ∙ ap₂ (λ (n : ℕ) (l : List ℕ). if leb n limit then ok l else refused) sum whole)
    ]

read_all_run :
    (files : List ℕ → Option (List ℕ)) (name contents : List ℕ) (limit : ℕ)
    → files name ≡ some contents
    → read_all files name limit ≡ read_loop (suc (length contents)) contents [] limit
unfolding read_all or_throw
read_all_run files name contents limit e = rw (e, read_all, or_throw) refl

-- `ReadAll` of a file that can be read gives the whole of it where it has at most `limit` bytes,
-- and the result is `false` where it has more; it always ends.
pub read_all_lem :
    (files : List ℕ → Option (List ℕ)) (name contents : List ℕ) (limit : ℕ)
    → files name ≡ some contents
    → read_all files name limit ≡ (if leb (length contents) limit then ok contents else refused)
read_all_lem files name contents limit e =
    read_all_run files name contents limit e
    ∙ read_loop_lem (suc (length contents)) contents [] limit (omega arith) (omega arith)
    ∙ ap (λ (n : ℕ). if leb n limit then ok contents else refused) (omega arith)
