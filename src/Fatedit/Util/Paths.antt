-- ===== src/Fatedit/Util/Paths.antt =====
-- tools/util.h, `SplitPath`: its components, and the way back from a path.
use hausboot.Base.{
  ℕ, zero, suc, ◌+◌, ◌≤◌, ◌<◌, ◌≡◌, refl, inl, inr, true, false, Option, some, List, [], ◌∷◌, ◌++◌,
  arith, Bool-cases, length, length-append,
}
use hausboot.Fatedit.Util.{
  is_separator, skip_separators, component, push, next_component, split_loop, split_path,
}

-- Characters of a component.
abbrev pub Plain : List ℕ → Type 0
Plain [] = Unit {0}
Plain (c ∷ cs) = (is_separator c ≡ false) × Plain cs

abbrev pub IsComponent : List ℕ → Type 0
IsComponent part = (0 < length part) × Plain part

abbrev pub AllComponents : List (List ℕ) → Type 0
AllComponents [] = Unit {0}
AllComponents (p ∷ ps) = IsComponent p × AllComponents ps

-- The components with a slash between each two.
abbrev pub join : List (List ℕ) → List ℕ
join [] = []
join (p ∷ []) = p
join (p ∷ q ∷ ps) = p ++ b'/' ∷ join (q ∷ ps)

component_all : (part : List ℕ) → Plain part → component part ≡ (part, [])
unfolding component
component_all [] h = refl
component_all (c ∷ cs) (n, h) = rw (component_all cs h, n) refl

component-append :
    (part rest : List ℕ) (c : ℕ)
    → Plain part
    → is_separator c ≡ true
    → component (part ++ c ∷ rest) ≡ (part, c ∷ rest)
unfolding component
component-append [] rest c h s = rw s refl
component-append (p ∷ part) rest c (n, h) s = rw (component-append part rest c h s, n) refl

skip_plain : (c : ℕ) (str : List ℕ) → is_separator c ≡ false → skip_separators (c ∷ str) ≡ c ∷ str
unfolding skip_separators
skip_plain c str h = rw h refl

split_loop_last :
    (fuel : ℕ) (part : List ℕ) → IsComponent part → split_loop (suc fuel) part ≡ some (part ∷ [])
unfolding split_loop next_component push
split_loop_last fuel [] (lt, h) = absurd (omega arith)
split_loop_last fuel (c ∷ cs) (lt, (n, h)) =
    rw (skip_plain c cs n, component_all (c ∷ cs) (n, h)) refl

split_loop_more :
    (fuel : ℕ) (part rest : List ℕ) (out : List (List ℕ))
    → IsComponent part
    → split_loop fuel rest ≡ some out
    → split_loop (suc fuel) (part ++ b'/' ∷ rest) ≡ some (part ∷ out)
unfolding split_loop next_component push is_separator
split_loop_more fuel [] rest out (lt, h) e = absurd (omega arith)
split_loop_more fuel (c ∷ cs) rest out (lt, (n, h)) e =
    rw (skip_plain c (cs ++ b'/' ∷ rest) n, component-append (c ∷ cs) rest b'/' (n, h) refl, e) refl

split_loop-join :
    (fuel : ℕ) (parts : List (List ℕ))
    → AllComponents parts
    → length (join parts) < fuel
    → split_loop fuel (join parts) ≡ some parts
unfolding split_loop next_component skip_separators
split_loop-join zero parts h lt = absurd (omega arith)
split_loop-join (suc fuel) [] h lt = refl
split_loop-join (suc fuel) (p ∷ []) (h, hs) lt = split_loop_last fuel p h
split_loop-join (suc fuel) (p ∷ q ∷ ps) (h, hs) lt =
    split_loop_more fuel p (join (q ∷ ps)) (q ∷ ps) h
      (split_loop-join fuel (q ∷ ps) hs (omega (arith, length-append p (b'/' ∷ join (q ∷ ps)))))

component-Plain :
    (str : List ℕ)
    → Plain (component str).0 × (length (component str).0 + length (component str).1 ≡ length str)
unfolding component
component-Plain [] = (tt, refl)
component-Plain (c ∷ str) =
    let (plain, len) = component-Plain str in
    elim (Bool-cases (is_separator c)) [
      | inl e ↦ rw e (tt, omega arith)
      | inr e ↦ rw e ((e, plain), omega (arith, len))
    ]

component_first :
    (c : ℕ) (str : List ℕ) → is_separator c ≡ false → 0 < length (component (c ∷ str)).0
unfolding component
component_first c str h = rw h (omega arith)

-- What is left behind the separators: nothing, or a string that starts with a component.
abbrev Starts : List ℕ → Type 0
Starts [] = Unit {0}
Starts (c ∷ str) = is_separator c ≡ false

skip_separators-Starts :
    (str : List ℕ) → Starts (skip_separators str) × (length (skip_separators str) ≤ length str)
unfolding skip_separators
skip_separators-Starts [] = (tt, omega arith)
skip_separators-Starts (c ∷ str) =
    let (st, len) = skip_separators-Starts str in
    elim (Bool-cases (is_separator c)) [
      | inl e ↦ rw e (st, omega (arith, len))
      | inr e ↦ rw e (e, omega arith)
    ]

-- Results that are components throughout.
abbrev Splits : Option (List (List ℕ)) → Type 0
Splits o = (parts : List (List ℕ)) × (o ≡ some parts) × AllComponents parts

push-Splits :
    (part rest : List ℕ) (again : List ℕ → Option (List (List ℕ))) (bound : ℕ)
    → IsComponent part
    → length rest ≤ bound
    → ((more : List ℕ) → length more < bound → Splits (again more))
    → Splits (push part rest again)
unfolding push
push-Splits part [] again bound h le k = (part ∷ [], refl, (h, tt))
push-Splits part (c ∷ more) again bound h le k =
    let (parts, e, all) = k more (omega arith) in (part ∷ parts, rw e refl, (h, all))

next_component-Splits :
    (str : List ℕ) (again : List ℕ → Option (List (List ℕ))) (bound : ℕ)
    → Starts str
    → length str ≤ bound
    → ((more : List ℕ) → length more < bound → Splits (again more))
    → Splits (next_component str again)
unfolding next_component
next_component-Splits [] again bound st le k = ([], refl, tt)
next_component-Splits (c ∷ str) again bound st le k =
    let (plain, len) = component-Plain (c ∷ str) in
    let first = component_first c str st in
    push-Splits (component (c ∷ str)).0 (component (c ∷ str)).1 again bound (first, plain)
      (omega (arith, len)) k

split_loop-Splits : (fuel : ℕ) (str : List ℕ) → length str < fuel → Splits (split_loop fuel str)
unfolding split_loop
split_loop-Splits zero str h = absurd (omega arith)
split_loop-Splits (suc fuel) str h =
    let (st, len) = skip_separators-Starts str in
    next_component-Splits (skip_separators str) (split_loop fuel) fuel st (omega (arith, len))
      (λ more lt. split_loop-Splits fuel more lt)

-- `SplitPath` ends on every string, with components that are not empty and hold no separator.
pub split_path-AllComponents :
    (str : List ℕ) → (parts : List (List ℕ)) × (split_path str ≡ some parts) × AllComponents parts
unfolding split_path
split_path-AllComponents str = split_loop-Splits (suc (length str)) str (omega arith)

-- A path that is built from components splits into them again.
pub split_path-join :
    (parts : List (List ℕ)) → AllComponents parts → split_path (join parts) ≡ some parts
unfolding split_path
split_path-join parts h = split_loop-join (suc (length (join parts))) parts h (omega arith)
