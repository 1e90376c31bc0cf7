-- ===== src/Fatedit/Session.antt =====
-- tools/fatedit.cpp, `main`: the commands from standard input, and what is written at the end.
use hausboot.Base.{ℕ, ◌*◌, ◌%◌, ◌^◌, ◌&&◌, Option, none, some, List, [], ◌∷◌, ltb, if◌then◌else◌}
use hausboot.Fs.FatSuper.{FatSuper}
use hausboot.Fs.FatSuper.Layout.{decode_super}
use hausboot.Fatedit.Outcome.{Outcome, ok, refused, thrown, overrun, stuck, ◌>>=◌, or_throw, Image}
use hausboot.Fatedit.Util.{trim}
use hausboot.Fatedit.FileReader.{match_command}
use hausboot.Fatedit.FileWriter.{World}
use hausboot.Fatedit.Directory.{DirEntry}
use hausboot.Fatedit.Commands.{list_directory, dump_file, create_directory, pack_file}
use hausboot.Fatedit.Table.{Loaded, is_place, load_from_image, write_to_image}

-- What goes to standard output.
pub data Output : Type 0 where
  entries : List DirEntry → Output
  bytes : List ℕ → Output
  message : Output

-- `commands[]`
pub data Command : Type 0 where
  dir type_of mkdir pack : Command

pub command_name : Command → List ℕ
command_name dir = b'd' ∷ b'i' ∷ b'r' ∷ []
command_name type_of = b't' ∷ b'y' ∷ b'p' ∷ b'e' ∷ []
command_name mkdir = b'm' ∷ b'k' ∷ b'd' ∷ b'i' ∷ b'r' ∷ []
command_name pack = b'p' ∷ b'a' ∷ b'c' ∷ b'k' ∷ []

abbrev pub commands : List Command
commands = dir ∷ type_of ∷ mkdir ∷ pack ∷ []

abbrev pub remark : List ℕ
remark = b'r' ∷ b'e' ∷ b'm' ∷ []

-- The first command that the line starts with, and its arguments.
pub find_command : List Command → List ℕ → Option (Command × List ℕ)
find_command [] line = none
find_command (c ∷ rest) line = elim (match_command line (command_name c)) [
  | none ↦ find_command rest line
  | some args ↦ some (c, args)
]

module _ (I : Image) (s : FatSuper) (infile : List ℕ → Option (List ℕ)) where
  -- The call of a handler.
  pub call : Command → World I → List ℕ → Outcome (Output × World I)
  call dir w args = do list ← list_directory I s w args; ok (entries list, w)
  call type_of w args = do out ← dump_file I s w args; ok (bytes out, w)
  call mkdir w args = do w ← create_directory I s w args; ok (message, w)
  call pack w args = do w ← pack_file I s infile w args; ok (message, w)

  -- A handler that returns early leaves everything as it was.
  pub settle : World I → Outcome (Output × World I) → Outcome (Output × World I)
  settle w (ok p) = ok p
  settle w refused = ok (message, w)
  settle w thrown = thrown
  settle w overrun = overrun
  settle w stuck = stuck

  -- A line that has something on it and is no remark.
  pub run_command : World I → Option (Command × List ℕ) → Outcome (Output × World I)
  run_command w none = ok (message, w)
  run_command w (some (c, args)) = settle w (call c w args)

  -- One line of the input.
  pub run_line : World I → List ℕ → Outcome (Output × World I)
  run_line w line = elim (trim line) [
    | [] ↦ ok (message, w)
    | c ∷ more ↦ elim (match_command (c ∷ more) remark) [
      | some args ↦ ok (message, w)
      | none ↦ run_command w (find_command commands (c ∷ more))
    ]
  ]

  -- The loop over the lines of the input.
  pub run_lines : World I → List (List ℕ) → Outcome (List Output × World I)
  run_lines w [] = ok ([], w)
  run_lines w (line ∷ lines) = do
    (out, w) ← run_line w line
    (outs, w) ← run_lines w lines
    ok (out ∷ outs, w)

module _ (I : Image) where
  -- The copy of the super block.
  pub write_backup : FatSuper → List ℕ → I.State → Option I.State
  write_backup s block image =
      if ltb 0 s.boot_sec_copy_index && ltb s.boot_sec_copy_index s.num_reserved_sectors
      then (let offset = s.boot_sec_copy_index * s.bytes_per_sector % 2 ^ 32 in
          if is_place offset 512 then I.write_at image offset block else none)
      else some image

  -- What `main` writes behind the loop: the tables, and the super block at its places.
  pub finish : FatSuper → List ℕ → Loaded → I.State → Outcome I.State
  finish s block l image = do
    image ← or_throw (write_to_image I s l image)
    image ← or_throw (I.write_at image 0 block)
    or_throw (write_backup s block image)

  -- `main`, from the image's state to the one it leaves and what it prints.
  pub edit : (List ℕ → Option (List ℕ)) → I.State → List (List ℕ) → Outcome (List Output × I.State)
  edit infile image lines = do
    block ← or_throw (I.read_at image 0 512)
    let s = decode_super block
    l ← or_throw (load_from_image I s image)
    (outs, w) ← run_lines I s infile (record { raw = l.raw; image = image }) lines
    image ← finish s block (record l { raw = w.raw }) w.image
    ok (outs, image)
