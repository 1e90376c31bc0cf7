-- ===== src/Installfat.antt =====
-- tools/installfat.cpp: the installer of the boot loader. The host's files are a parameter: from a
-- name to the contents, `none` where a file cannot be opened or read. Of the three ends of `main`,
-- `ok` is `EXIT_SUCCESS`, `refused` is `EXIT_FAILURE` and `thrown` is an exception, which is
-- caught and reported.
pub mod ReadAll
mod Tests
use hausboot.Base.{
  ℕ, zero, suc, ◌+◌, ◌-◌, ◌*◌, ◌%◌, ◌^◌, max, Bool, true, false, not, ◌&&◌, Option, none, some,
  List, [], ◌∷◌, ◌++◌, ltb, leb, ◌==◌, if◌then◌else◌, length, set, get_or, take, drop, replicate,
}
use hausboot.Types.UnalignedInt
use hausboot.Types.UnalignedInt.{le_value}
use hausboot.StringUtil.{str_equal}
use hausboot.Fs.FatSuper.{
  FatSuper, set_backup_index, set_fs_info_index, set_oem_name, set_boot_code,
}
use hausboot.Fs.FatSuper.Layout.{decode_super, encode_super}
use hausboot.Boot.Stage2Header.{
  Words, stage2_magic, sector_count, set_sector_count, update_checksum, verify,
}
use hausboot.Fatedit.Table.{is_place}
use hausboot.Fatedit.Outcome.{Outcome, ok, refused, thrown, overrun, stuck, ◌>>=◌, or_throw, Image}

-- The files that the options name.
pub record Options : Type 0 where
  pub vbr_file : Option (List ℕ)
  pub stage2_file : Option (List ℕ)
  pub out_file : Option (List ℕ)

-- "--stage2", "-v" and "-o"
abbrev pub stage2_option : List ℕ
stage2_option = b'-' ∷ b'-' ∷ b's' ∷ b't' ∷ b'a' ∷ b'g' ∷ b'e' ∷ b'2' ∷ []

abbrev pub vbr_option : List ℕ
vbr_option = b'-' ∷ b'v' ∷ []

abbrev pub out_option : List ℕ
out_option = b'-' ∷ b'o' ∷ []

-- What an argument is.
pub data Argument : Type 0 where
  stage2_arg vbr_arg out_arg other_arg : Argument

pub argument_of : List ℕ → Argument
argument_of arg =
    if str_equal arg stage2_option
    then stage2_arg
    else if str_equal arg vbr_option
    then vbr_arg
    else if str_equal arg out_option
    then out_arg
    else other_arg

-- `argv[i][2]`, the test for a value in the same argument.
pub has_value : List ℕ → Bool
has_value arg = not (get_or arg 2 0 == 0)

-- An option's value.
pub set_option : Argument → Options → List ℕ → Options
set_option stage2_arg o value = record o { stage2_file = some value }
set_option vbr_arg o value = record o { vbr_file = some value }
set_option out_arg o value = record o { out_file = some value }
set_option other_arg o value = o

-- Whether an option may have its value in the same argument.
pub is_short : Argument → Bool
is_short stage2_arg = false
is_short vbr_arg = true
is_short out_arg = true
is_short other_arg = false

-- The loop over the arguments; `none` where one is missing. An argument that is no option is
-- passed over.
pub parse : Options → List (List ℕ) → Option Options
parse o [] = some o
parse o (arg ∷ []) = elim (argument_of arg) [
  | other_arg ↦ some o
  | a ↦ if is_short a && has_value arg then some (set_option a o (drop 2 arg)) else none
]
parse o (arg ∷ value ∷ args) =
    let here = parse o (value ∷ args) in
    elim (argument_of arg) [
      | other_arg ↦ here
      | a ↦
          if is_short a && has_value arg
          then parse (set_option a o (drop 2 arg)) (value ∷ args)
          else parse (set_option a o value) args
    ]

-- The loop of `ReadAll`: at most 1024 bytes at a time, and no more once the size is past `max`.
pub read_loop : ℕ → List ℕ → List ℕ → ℕ → Outcome (List ℕ)
read_loop zero contents out max = stuck
read_loop (suc fuel) [] out max = ok out
read_loop (suc fuel) (c ∷ contents) out max =
    let out = out ++ take 1024 (c ∷ contents) in
    let rest = read_loop fuel (drop 1024 (c ∷ contents)) out max in
    if ltb max (length out) then refused else rest

-- `ReadAll`: every round but the last takes at least one byte.
pub read_all : (List ℕ → Option (List ℕ)) → List ℕ → ℕ → Outcome (List ℕ)
read_all files name max = do
  contents ← or_throw (files name)
  read_loop (suc (length contents)) contents [] max

-- `new (stage2.data()) Stage2Header()`: the header's 28 bytes, over the first ones.
pub place_header : List ℕ → List ℕ
place_header stage2 = UnalignedInt.set 4 stage2_magic ++ (replicate 24 0 ++ drop 28 stage2)

-- The words in memory; behind the vector's end stands what `junk` gives.
pub words_of : Words → List ℕ → Words
words_of junk b i =
    if leb (i * 4 + 4) (length b) then le_value (take 4 (drop (i * 4) b)) else junk i

-- The two words that the installer changes, written back.
pub store_words : Words → List ℕ → List ℕ
store_words w b = take 4 b ++ (UnalignedInt.set 4 (w 1) ++ (UnalignedInt.set 4 (w 2) ++ drop 12 b))

-- The header of stage 2 with its size and checksum, as words.
pub finish_header : Words → List ℕ → Words
finish_header junk stage2 =
    update_checksum (set_sector_count (words_of junk (place_header stage2)) (length stage2))

-- A refusal where a test fails.
pub require : Bool → Outcome (Unit {0})
require true = ok tt
require false = refused

module _ (I : Image) (files : List ℕ → Option (List ℕ)) (junk : Words) where
  -- `SetBackupIndex(0)`, `SetFsInfoIndex(1)`, `SetOEMName` and `SetBootCode`, whose entry is 0.
  pub patch_super : FatSuper → List ℕ → FatSuper
  patch_super s vbr =
      set_boot_code
        (set_oem_name (set_fs_info_index (set_backup_index s 0) 1)
          (b'G' ∷ b'o' ∷ b'l' ∷ b'i' ∷ b'a' ∷ b't' ∷ b'h' ∷ []))
        vbr 0

  -- The room for stage 2, an `int` that is converted to `size_t`.
  pub stage2_room : FatSuper → ℕ
  stage2_room s =
      if leb 2 s.num_reserved_sectors
      then (s.num_reserved_sectors - 2) * s.bytes_per_sector
      else 2 ^ 64 - (2 - s.num_reserved_sectors) * s.bytes_per_sector

  -- The body of `main`.
  pub install : I.State → List ℕ → List ℕ → Outcome I.State
  install image vbr_file stage2_file = do
    block ← or_throw (I.read_at image 0 512)
    let old = decode_super block
    let at = old.fs_info_index * old.bytes_per_sector % 2 ^ 32
    info ← or_throw (if is_place at 512 then I.read_at image at 512 else none)
    vbr ← read_all files vbr_file 420
    let s = patch_super old vbr
    image ← or_throw (I.write_at image 0 (encode_super s block))
    image ← or_throw (I.write_at image s.bytes_per_sector info)
    stage2 ← read_all files stage2_file (stage2_room s)
    let w = finish_header junk stage2
    _ ← require (verify w (sector_count w))
    or_throw (I.write_at image (2 * s.bytes_per_sector) (store_words w (place_header stage2)))

  -- `main` behind the arguments; the image is opened by the caller.
  pub install_main : I.State → List (List ℕ) → Outcome I.State
  install_main image args =
      elim (parse (record { vbr_file = none; stage2_file = none; out_file = none }) args) [
        | none ↦ refused
        | some o ↦ elim o.out_file [
          | none ↦ refused
          | some out ↦ elim o.vbr_file [
            | none ↦ refused
            | some vbr ↦ elim o.stage2_file [
              | none ↦ refused
              | some stage2 ↦ install image vbr stage2
            ]
          ]
        ]
      ]

-- The program's exit code: an exception is reported, but the code is that of a success.
pub exit_code : {A : Type 0} → Outcome A → Option ℕ
exit_code (ok a) = some 0
exit_code refused = some 1
exit_code thrown = some 0
exit_code overrun = none
exit_code stuck = none
