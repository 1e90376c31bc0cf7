-- ===== src/Fatedit/Util.antt =====
-- tools/util.h: the trimming of a line and the splitting of a path.
pub mod Paths
use hausboot.Base.{
  ℕ, zero, suc, Bool, ◌&&◌, ◌||◌, Option, none, some, List, [], ◌∷◌, leb, ◌==◌, if◌then◌else◌,
  length,
}
use hausboot.Base.Options.{◌>>=◌}

-- `isspace` in the C locale.
pub isspace : ℕ → Bool
isspace c = c == 32 || leb 9 c && leb c 13

-- `while (!line.empty() && isspace(line.back())) line.pop_back();`
pub trim_back : List ℕ → List ℕ
trim_back [] = []
trim_back (c ∷ line) =
    let rest = trim_back line in
    elim rest [ [] ↦ if isspace c then [] else c ∷ [] | d ∷ more ↦ c ∷ d ∷ more ]

-- The spaces in front, dropped.
pub trim_front : List ℕ → List ℕ
trim_front [] = []
trim_front (c ∷ line) = let rest = trim_front line in if isspace c then rest else c ∷ line

-- `trim`
pub trim : List ℕ → List ℕ
trim line = trim_front (trim_back line)

unfoldable pub is_separator : ℕ → Bool
is_separator c = c == b'/' || c == b'\\'

-- The leading separators, dropped.
pub skip_separators : List ℕ → List ℕ
skip_separators [] = []
skip_separators (c ∷ str) =
    let rest = skip_separators str in if is_separator c then rest else c ∷ str

-- The component up to the first separator, and what is left from there on.
pub component : List ℕ → List ℕ × List ℕ
component [] = ([], [])
component (c ∷ str) =
    let (part, rest) = component str in if is_separator c then ([], c ∷ str) else (c ∷ part, rest)

-- What `SplitPath` does with a component and what is left behind it.
pub push : List ℕ → List ℕ → (List ℕ → Option (List (List ℕ))) → Option (List (List ℕ))
push part [] again = some (part ∷ [])
push part (c ∷ more) again = do out ← again more; some (part ∷ out)

pub next_component : List ℕ → (List ℕ → Option (List (List ℕ))) → Option (List (List ℕ))
next_component [] again = some []
next_component (c ∷ str) again = let (part, rest) = component (c ∷ str) in push part rest again

-- The loop of `SplitPath`; `none` where the fuel runs out.
pub split_loop : ℕ → List ℕ → Option (List (List ℕ))
split_loop zero str = none
split_loop (suc fuel) str = next_component (skip_separators str) (split_loop fuel)

-- `SplitPath`: every component takes at least one character.
pub split_path : List ℕ → Option (List (List ℕ))
split_path str = split_loop (suc (length str)) str
