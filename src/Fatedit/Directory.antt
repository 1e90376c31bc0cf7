-- ===== src/Fatedit/Directory.antt =====
-- tools/fatedit.cpp: the directories of the image. `ScanDirectory` reads the entries of one,
-- `FindFile` follows a path. Messages are left out.
pub mod Scan
use hausboot.Base.{
  ℕ, zero, suc, ◌+◌, ◌-◌, ◌/◌, Bool, true, false, not, ◌&&◌, ◌||◌, Option, none, some, List, [],
  ◌∷◌, ◌++◌, ltb, ◌==◌, if◌then◌else◌, length, replicate,
}
use hausboot.Types.FlagField
use hausboot.Types.FixedLengthString.{cstr}
use hausboot.Fs.FatSuper.{FatSuper}
use hausboot.Fs.FatDirent.{
  FatDirent, directory, long_file_name, name_to_string, is_last_in_list, is_dummied_out,
  cluster_index, checksum,
}
use hausboot.Fs.FatDirent.Layout.{decode}
use hausboot.Fs.FatDirentLong.{
  FatDirentLong, decode_long, is_last, sequence_number, long_name_to_string,
}
use hausboot.Fatedit.Outcome.{Outcome, ok, refused, thrown, overrun, stuck, ◌>>=◌}
use hausboot.Fatedit.FileReader.{FileReader, open_reader, Read, got, read}
use hausboot.Fatedit.FileReader

pub record DirEntry : Type 0 where
  pub short_name : List ℕ
  pub long_name : List ℕ
  pub size : ℕ
  pub first_cluster : ℕ
  pub is_directory : Bool

-- The root directory; its names are empty.
pub root : FatSuper → DirEntry
root s = record {
  short_name = [];
  long_name = [];
  size = 0;
  first_cluster = s.root_dir_index;
  is_directory = true;
}

-- A directory is read with this size.
abbrev pub no_limit : ℕ
no_limit = 0xFFFFFFFF

-- `==` on two strings.
pub same_string : List ℕ → List ℕ → Bool
same_string [] [] = true
same_string [] (d ∷ t) = false
same_string (c ∷ s) [] = false
same_string (c ∷ s) (d ∷ t) = c == d && same_string s t

-- The loop that looks an entry up by either of its names.
pub find_entry : List ℕ → List DirEntry → Option DirEntry
find_entry name [] = none
find_entry name (e ∷ list) =
    let rest = find_entry name list in
    if same_string e.long_name name || same_string e.short_name name then some e else rest

-- A read that ends, and how an exception goes on.
pub of_read : Read → Outcome (List ℕ × FileReader)
of_read (got b r) = ok (b, r)
of_read FileReader.thrown = thrown
of_read FileReader.stuck = stuck

-- A part of a long name has this flag, at the place where an entry has it.
unfoldable pub is_long : FatDirentLong → Bool
is_long e = FlagField.is_set e.attrib long_file_name

-- The list in order has the numbers from `i` on and one checksum.
pub in_sequence : ℕ → ℕ → List FatDirentLong → Bool
in_sequence chksum i [] = true
in_sequence chksum i (e ∷ list) =
    sequence_number e == i && e.short_checksum == chksum && in_sequence chksum (i + 1) list

-- The names of the parts, joined; a part with an empty name is refused.
pub join_names : List ℕ → List FatDirentLong → Outcome (List ℕ)
join_names name [] = ok name
join_names name (e ∷ list) = elim (long_name_to_string e (replicate 14 0)) [
  | none ↦ overrun
  | some buffer ↦
      let rest = join_names (name ++ cstr buffer) list in
      if length (cstr buffer) == 0 then refused else rest
]

-- The buffer's terminated string, as the short name of an entry.
pub short_name_of : Option (Bool × List ℕ) → Outcome (List ℕ)
short_name_of none = overrun
short_name_of (some (false, buffer)) = refused
short_name_of (some (true, buffer)) = ok (cstr buffer)

-- The entry with the parts of its long name; `shortName` has 12 bytes.
pub make_entry : FatDirent → List FatDirentLong → Outcome DirEntry
make_entry e parts = do
  short ← short_name_of (name_to_string e (replicate 12 0))
  long ← join_names (if length parts == 0 then short else []) parts
  ok (record {
    short_name = short;
    long_name = long;
    size = e.size;
    first_cluster = cluster_index e;
    is_directory = FlagField.is_set e.flags directory;
  })

-- What the bytes that were read hold.
pub data Slot : Type 0 where
  at_end dummied_out used : Slot

pub slot_of : List ℕ → Slot
slot_of b =
    if ltb (length b) 32
    then at_end
    else if is_dummied_out (decode b)
    then dummied_out
    else if is_last_in_list (decode b)
    then at_end
    else used

module _ (raw : List ℕ) (s : FatSuper) (image : ℕ → ℕ → Option (List ℕ)) where
  -- The parts that follow the first one, put in front of what is there: the list gets reversed.
  pub read_parts : ℕ → FileReader → List FatDirentLong → Outcome (List FatDirentLong × FileReader)
  read_parts zero r parts = ok (parts, r)
  read_parts (suc left) r parts = do
    (b, r) ← of_read (read raw s image r 32)
    (if ltb (length b) 32
        then refused
        else if not (is_long (decode_long b)) || is_last (decode_long b)
        then refused
        else read_parts left r (decode_long b ∷ parts))

  -- The entry behind the parts of its long name.
  pub read_short :
      ℕ → FileReader → List FatDirentLong → Outcome (FatDirent × List FatDirentLong × FileReader)
  read_short chksum r parts = do
    (b, r) ← of_read (read raw s image r 32)
    (if ltb (length b) 32
        then refused
        else if FlagField.is_set (decode b).flags long_file_name
        then refused
        else if not (checksum (decode b) == chksum)
        then refused
        else ok (decode b, parts, r))

  -- The parts of a long name, from the first that was read, and the entry.
  pub read_long : FatDirentLong → FileReader → Outcome (FatDirent × List FatDirentLong × FileReader)
  read_long e r =
      let count = sequence_number e in
      if not (is_last e) || ltb count 1 then refused else (do
        (parts, r) ← read_parts (count - 1) r (e ∷ [])
        (if in_sequence e.short_checksum 1 parts
            then read_short e.short_checksum r parts
            else refused))

  -- The entry in the bytes that were read, with the parts of its name.
  pub read_entry : List ℕ → FileReader → Outcome (FatDirent × List FatDirentLong × FileReader)
  read_entry b r =
      if FlagField.is_set (decode b).flags long_file_name
      then read_long (decode_long b) r
      else ok (decode b, [], r)

  -- What a round of `ScanDirectory` does with the bytes that it read: it returns the entries and
  -- the number of bytes in front of the list's end, or goes on.
  pub take_slot :
      Slot
      → List ℕ
      → FileReader
      → List DirEntry
      → (FileReader → List DirEntry → Outcome (List DirEntry × ℕ))
      → Outcome (List DirEntry × ℕ)
  take_slot at_end b r out again = ok (out, r.total_read - length b)
  take_slot dummied_out b r out again = again r out
  take_slot used b r out again = do
    (e, parts, r) ← read_entry b r
    entry ← make_entry e parts
    again r (out ++ entry ∷ [])

  -- The loop of `ScanDirectory`, with the entries so far in order.
  pub scan_loop : ℕ → FileReader → List DirEntry → Outcome (List DirEntry × ℕ)
  scan_loop zero r out = stuck
  scan_loop (suc fuel) r out = do
    (b, r) ← of_read (read raw s image r 32)
    take_slot (slot_of b) b r out (scan_loop fuel)

  -- `ScanDirectory`: every round takes 32 bytes off the reader's size.
  pub scan_directory : FileReader → Outcome (List DirEntry × ℕ)
  scan_directory r = scan_loop (suc (r.size / 32)) r []

  -- The loop of `FindFile`.
  pub find_loop : DirEntry → List (List ℕ) → Outcome DirEntry
  find_loop ent [] = ok ent
  find_loop ent (name ∷ path) = if not ent.is_directory then refused else (do
    (list, total) ← scan_directory (open_reader ent.first_cluster no_limit)
    elim (find_entry name list) [ none ↦ refused | some e ↦ find_loop e path ])
