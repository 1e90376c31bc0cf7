-- ===== src/Fatedit/Tests.antt =====
-- Tests of the image editor's table and paths.
use hausboot.Base.{
  ℕ, ◌≡◌, refl, sym, ap, ◌∙◌, Option, some, List, [], ◌∷◌, arith, length, replicate,
  length-replicate,
}
use hausboot.Fs.FatSuper.{FatSuper}
use hausboot.Fatedit.FatReader.{allocate_cluster}
use hausboot.Fatedit.FatReader.Allocate.{Allocates, HasClusters, allocate_cluster-Allocates}
use hausboot.Fatedit.Util.{is_separator, split_path}
use hausboot.Fatedit.Util.Paths.{AllComponents, split_path-join, split_path-AllComponents}
use hausboot.Fatedit.FileReader.{open_reader, read}
use hausboot.Fatedit.FileReader.Reads.{IsImage, Delivers, read-Delivers}

-- A table of three entries, of which the last is free.
abbrev table : List ℕ
table = 0xF8 ∷ 255 ∷ 255 ∷ 15 ∷ 255 ∷ 255 ∷ 255 ∷ 15 ∷ 0 ∷ 0 ∷ 0 ∷ 0 ∷ []

abbrev super : FatSuper
super = record {
  jump = 0;
  code_offset = 0;
  nop = 0;
  oem_name = [];
  bytes_per_sector = 512;
  sectors_per_cluster = 1;
  num_reserved_sectors = 1;
  num_fats = 1;
  total_sector_count = 5;
  sectors_per_fat = 1;
  root_dir_index = 2;
  fs_info_index = 0;
  boot_sec_copy_index = 0;
  boot_code = [];
}

super-HasClusters : HasClusters super 3
super-HasClusters = record {
  sectors_pos = omega arith;
  tables_lt = omega arith;
  fit = omega arith;
  no_more = omega arith;
}

allocate_cluster-Allocates_example : Allocates table 3 (allocate_cluster table super)
allocate_cluster-Allocates_example =
    allocate_cluster-Allocates table super 3 super-HasClusters (omega arith) (omega arith)

abbrev parts : List (List ℕ)
parts = (b'A' ∷ []) ∷ (b'B' ∷ b'C' ∷ []) ∷ []

parts-AllComponents : AllComponents parts
unfolding is_separator
parts-AllComponents = ((omega arith, (refl, tt)), ((omega arith, (refl, (refl, tt))), tt))

split_path-join_example : split_path (b'A' ∷ b'/' ∷ b'B' ∷ b'C' ∷ []) ≡ some parts
split_path-join_example = split_path-join parts parts-AllComponents

split_path-AllComponents_example :
    (out : List (List ℕ)) × (split_path (b'/' ∷ b'A' ∷ b'/' ∷ []) ≡ some out) × AllComponents out
split_path-AllComponents_example = split_path-AllComponents (b'/' ∷ b'A' ∷ b'/' ∷ [])

abbrev image : ℕ → ℕ → Option (List ℕ)
image offset size = some (replicate size 7)

image-IsImage : IsImage image
image-IsImage = λ offset size b e.
    (let q : replicate size 7 ≡ b = cc in ap length (sym q) ∙ length-replicate size 7)

read-Delivers_example :
    Delivers (open_reader 2 600) 700 (read table super image (open_reader 2 600) 700)
read-Delivers_example = read-Delivers table super image image-IsImage (open_reader 2 600) 700
