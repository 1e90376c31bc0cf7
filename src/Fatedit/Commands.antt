-- ===== src/Fatedit/Commands.antt =====
-- tools/fatedit.cpp: the commands and what they are made of. `infile` is the directory of the host:
-- from a file's name to its contents, `none` where it cannot be opened or read.
use hausboot.Base.{
  ℕ, zero, suc, ◌%◌, ◌^◌, Bool, true, false, not, ◌||◌, Option, none, some, List, [], ◌∷◌, ◌++◌,
  ltb, ◌==◌, if◌then◌else◌, length, take, drop, replicate,
}
use hausboot.Types.FlagField
use hausboot.Fs.FatSuper.{FatSuper}
use hausboot.Fs.FatName.{is_short_name}
use hausboot.Fs.FatDirent.{
  FatDirent, blank, directory, set_name, set_extension, set_cluster_index, set_entry_flags,
  set_size,
}
use hausboot.Fs.FatDirent.Layout.{encode}
use hausboot.Fatedit.Outcome.{Outcome, ok, refused, thrown, stuck, ◌>>=◌, or_throw, Image}
use hausboot.Fatedit.Util.{isspace, split_path}
use hausboot.Fatedit.FileReader.{FileReader, open_reader, read}
use hausboot.Fatedit.FileWriter.{FileWriter, World, open_writer, create_writer, append}
use hausboot.Fatedit.Directory.{
  DirEntry, of_read, find_entry, scan_directory, no_limit, find_loop, root,
}

-- The path's components; `SplitPath` always ends.
pub components : List ℕ → Outcome (List (List ℕ))
components args = elim (split_path args) [ none ↦ stuck | some path ↦ ok path ]

-- A refusal where the answer is `false`.
pub require : Bool → Outcome (Unit {0})
require true = ok tt
require false = refused

-- One more character of the name.
pub in_front : ℕ → Option (List ℕ × List ℕ) → Option (List ℕ × List ℕ)
in_front c none = none
in_front c (some (pre, post)) = some (c ∷ pre, post)

-- The name in front of the first dot and what stands behind it.
pub split_dot : List ℕ → Option (List ℕ × List ℕ)
split_dot [] = none
split_dot (c ∷ name) =
    let rest = in_front c (split_dot name) in if c == b'.' then some ([], name) else rest

-- The name that `AppendDirectoryEntry` gives an entry.
pub set_names : FatDirent → List ℕ → Option (List ℕ × List ℕ) → FatDirent
set_names e name none = set_name e name
set_names e name (some (pre, post)) = set_extension (set_name e pre) post

-- The entry that `AppendDirectoryEntry` writes.
pub new_entry : Bool → List ℕ → ℕ → ℕ → FatDirent
new_entry is_dir name cluster size =
    let e = set_cluster_index (set_names blank name (split_dot name)) cluster in
    if is_dir then set_entry_flags e (FlagField.set 0 directory) else set_size e size

-- `name.find('.')` finds a dot.
pub has_dot : List ℕ → Bool
has_dot [] = false
has_dot (c ∷ name) = c == b'.' || has_dot name

-- The command ends where a value is missing.
pub or_refuse {ℓ} : {A : Type ℓ} → Option A → Outcome A
or_refuse none = refused
or_refuse (some a) = ok a

-- The path without its last component, with slashes between the rest.
pub prefix_of : List (List ℕ) → List ℕ
prefix_of [] = []
prefix_of (name ∷ []) = []
prefix_of (name ∷ last ∷ []) = name
prefix_of (name ∷ next ∷ last ∷ path) = name ++ b'/' ∷ prefix_of (next ∷ last ∷ path)

-- The last component, `none` for an empty path.
pub last_of : List (List ℕ) → Option (List ℕ)
last_of [] = none
last_of (name ∷ []) = some name
last_of (name ∷ next ∷ path) = last_of (next ∷ path)

-- The word in front of the first space.
pub word : List ℕ → List ℕ
word [] = []
word (c ∷ args) = let rest = word args in if isspace c then [] else c ∷ rest

-- What stands behind it, from the space on.
pub behind_word : List ℕ → List ℕ
behind_word [] = []
behind_word (c ∷ args) = let rest = behind_word args in if isspace c then c ∷ args else rest

-- `while (isspace(args.at(count))) ++count;`: `at` throws at the end.
pub skip_spaces : List ℕ → Outcome (List ℕ)
skip_spaces [] = thrown
skip_spaces (c ∷ args) = let rest = skip_spaces args in if isspace c then rest else ok (c ∷ args)

module _ (I : Image) (s : FatSuper) where
  -- `FindFile`
  pub find_file : World I → List ℕ → Outcome DirEntry
  find_file w args = do path ← components args; find_loop w.raw s (I.read_at w.image) (root s) path

  -- `ListDirectory`: the entries that it prints.
  pub list_directory : World I → List ℕ → Outcome (List DirEntry)
  list_directory w args = do
    ent ← find_file w args
    _ ← require ent.is_directory
    (list, _) ← scan_directory w.raw s (I.read_at w.image) (open_reader ent.first_cluster no_limit)
    ok list

  -- The loop of `DumpFile`: it stops where a read gives no byte.
  pub dump_loop : World I → ℕ → FileReader → List ℕ → Outcome (List ℕ)
  dump_loop w zero r out = stuck
  dump_loop w (suc fuel) r out = do
    (b, r) ← of_read (read w.raw s (I.read_at w.image) r 512)
    elim b [ [] ↦ ok out | c ∷ more ↦ dump_loop w fuel r (out ++ c ∷ more) ]

  -- `DumpFile`: the bytes that it prints. A round takes at least one byte of the size.
  pub dump_file : World I → List ℕ → Outcome (List ℕ)
  dump_file w args = do
    ent ← find_file w args
    _ ← require (not ent.is_directory)
    dump_loop w (suc ent.size) (open_reader ent.first_cluster ent.size) []

  -- `InitializeEmptyDirectory`: the cluster of the new directory.
  pub initialize_empty_directory : World I → ℕ → Outcome (ℕ × World I)
  initialize_empty_directory w parent = do
    (f, w) ← create_writer I s w
    let flags = FlagField.set 0 directory
    let dot = set_cluster_index (set_entry_flags (set_name blank (b'.' ∷ [])) flags) f.first_cluster
    let dotdot =
        set_cluster_index (set_entry_flags (set_name blank (b'.' ∷ b'.' ∷ [])) flags) parent
    (f, w) ← append I s f w (encode dot)
    (f, w) ← append I s f w (encode dotdot)
    (f, w) ← append I s f w (replicate 32 0)
    ok (f.first_cluster, w)

  -- `FindParent`
  pub find_parent : World I → List (List ℕ) → Outcome DirEntry
  find_parent w path =
      if ltb 1 (length path)
      then (do parent ← find_file w (prefix_of path); _ ← require parent.is_directory; ok parent)
      else ok (root s)

  -- `AppendDirectoryEntry`: the entry, and an empty one that ends the list.
  pub append_directory_entry : World I → ℕ → ℕ → Bool → List ℕ → ℕ → ℕ → Outcome (World I)
  append_directory_entry w cluster size is_dir name file_cluster file_size = do
    f ← open_writer w.raw s cluster (size % 2 ^ 32)
    (f, w) ← append I s f w (encode (new_entry is_dir name file_cluster file_size))
    (f, w) ← append I s f w (replicate 32 0)
    ok w

  -- `CheckEntryNotInDir`: the size that the entries take.
  pub check_entry_not_in_dir : World I → ℕ → List ℕ → Outcome ℕ
  check_entry_not_in_dir w cluster name = do
    (list, total) ← scan_directory w.raw s (I.read_at w.image) (open_reader cluster no_limit)
    elim (find_entry name list) [ none ↦ ok total | some e ↦ refused ]

  -- `CreateDirectory`
  pub create_directory : World I → List ℕ → Outcome (World I)
  create_directory w args = do
    path ← components args
    name ← or_refuse (last_of path)
    _ ← require (is_short_name name)
    _ ← require (not (has_dot name))
    parent ← find_parent w path
    size ← check_entry_not_in_dir w parent.first_cluster name
    (index, w) ← initialize_empty_directory w parent.first_cluster
    append_directory_entry w parent.first_cluster size true name index 0

  -- The loop of `PackDirectory`: at most 512 bytes at a time.
  pub pack_loop : ℕ → FileWriter → World I → List ℕ → Outcome (FileWriter × World I)
  pack_loop zero f w contents = stuck
  pack_loop (suc fuel) f w [] = ok (f, w)
  pack_loop (suc fuel) f w (c ∷ contents) = do
    (f, w) ← append I s f w (take 512 (c ∷ contents))
    pack_loop fuel f w (drop 512 (c ∷ contents))

  -- `PackDirectory`
  pub pack_file : (List ℕ → Option (List ℕ)) → World I → List ℕ → Outcome (World I)
  pack_file infile w args = do
    let input = word args
    _ ← require (ltb (length input) (length args))
    target ← skip_spaces (behind_word args)
    path ← components target
    name ← or_refuse (last_of path)
    _ ← require (is_short_name name)
    parent ← find_parent w path
    size ← check_entry_not_in_dir w parent.first_cluster name
    contents ← or_throw (infile input)
    (f, w) ← create_writer I s w
    (f, w) ← pack_loop (suc (length contents)) f w contents
    append_directory_entry w parent.first_cluster size false name f.first_cluster f.total_size
