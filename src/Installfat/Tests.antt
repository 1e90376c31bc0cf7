-- ===== src/Installfat/Tests.antt =====
-- Tests of the installer.
use hausboot.Base.{ℕ, ◌≡◌, refl, Option, some, List, [], ◌∷◌, leb, if◌then◌else◌}
use hausboot.Fatedit.Outcome.{ok, refused}
use hausboot.Installfat.{read_all}
use hausboot.Installfat.ReadAll.{read_all_lem}

abbrev files : List ℕ → Option (List ℕ)
files name = some (1 ∷ 2 ∷ 3 ∷ [])

read_all_lem_example : read_all files [] 420 ≡ (if leb 3 420 then ok (1 ∷ 2 ∷ 3 ∷ []) else refused)
read_all_lem_example = read_all_lem files [] (1 ∷ 2 ∷ 3 ∷ []) 420 refl
