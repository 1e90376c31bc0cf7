-- ===== src/Fs/FatDirent.antt =====
-- include/fs/FatDirent.h: a directory entry of 32 bytes. A packed integer is held by its value,
-- which `Types.UnalignedInt` shows to be what `Set` followed by `Read` gives.
pub mod Layout
pub mod Codec
pub mod NameString
pub mod Copied
pub mod RoundTrip
use hausboot.Base.{
  ℕ, zero, suc, ◌+◌, ◌*◌, ◌/◌, ◌%◌, ◌^◌, bit_and, bit_or, Bool, true, false, not, Option, none,
  some, List, ltb, ◌==◌, if◌then◌else◌, length, set, get_or, replicate,
}
use hausboot.Types.UnalignedInt
use hausboot.Types.UnalignedInt.{le_value}
use hausboot.Types.FlagField
use hausboot.Types.FixedLengthString

pub record FatDirent : Type 0 where
  pub name : List ℕ
  pub extension : List ℕ
  pub flags : ℕ
  pub unused : List ℕ
  pub ctime_hms : ℕ
  pub ctime_ymd : ℕ
  pub atime_ymd : ℕ
  pub cluster_index_high : ℕ
  pub mtime_hms : ℕ
  pub mtime_ymd : ℕ
  pub cluster_index_low : ℕ
  pub size : ℕ

-- `enum class Flags`
abbrev pub volume_id : ℕ
volume_id = 0x08

abbrev pub directory : ℕ
directory = 0x10

abbrev pub long_file_name : ℕ
long_file_name = 0x0f

-- The value that the member initialisers give.
abbrev pub blank : FatDirent
blank = record {
  name = replicate 8 b' ';
  extension = replicate 3 b' ';
  flags = 0;
  unused = replicate 2 0;
  ctime_hms = 0;
  ctime_ymd = 0;
  atime_ymd = 0;
  cluster_index_high = 0;
  mtime_hms = 0;
  mtime_ymd = 0;
  cluster_index_low = 0;
  size = 0;
}

unfoldable pub cluster_index : FatDirent → ℕ
cluster_index e = bit_or (e.cluster_index_high * 2 ^ 16 % 2 ^ 32) e.cluster_index_low

pub set_cluster_index : FatDirent → ℕ → FatDirent
set_cluster_index e index = record e {
  cluster_index_low = bit_and index 0x0ffff;
  cluster_index_high = bit_and (index / 2 ^ 16) 0x0ffff;
}

abbrev pub set_size : FatDirent → ℕ → FatDirent
set_size e size = record e { size = size % 2 ^ 32 }

abbrev pub set_entry_flags : FatDirent → ℕ → FatDirent
set_entry_flags e flags = record e { flags = flags }

-- `_name.At(i)` and `_extension.At(i)`
abbrev pub name_at : FatDirent → ℕ → ℕ
name_at e i = FixedLengthString.at 8 b' ' e.name i

abbrev pub extension_at : FatDirent → ℕ → ℕ
extension_at e i = FixedLengthString.at 3 b' ' e.extension i

-- `SetName` and `SetExtension`
pub set_name : FatDirent → List ℕ → FatDirent
set_name e name = record e { name = FixedLengthString.set 8 b' ' name }

pub set_extension : FatDirent → List ℕ → FatDirent
set_extension e ext = record e { extension = FixedLengthString.set 3 b' ' ext }

unfoldable pub is_dummied_out : FatDirent → Bool
unfolding FixedLengthString.at
is_dummied_out e = name_at e 0 == 0xe5

unfoldable pub is_last_in_list : FatDirent → Bool
unfolding FixedLengthString.at
is_last_in_list e = name_at e 0 == 0x00

-- One round of `Checksum`: rotate right and add, in a `uint8_t`.
pub checksum_step : ℕ → ℕ → ℕ
checksum_step sum c = (bit_and sum 1 * 2 ^ 7 + sum / 2 + c) % 2 ^ 8

-- A loop of `Checksum`, with `left` rounds to go from index `i`.
pub checksum_loop : (ℕ → ℕ) → ℕ → ℕ → ℕ → ℕ
checksum_loop char zero i sum = sum
checksum_loop char (suc left) i sum = checksum_loop char left (i + 1) (checksum_step sum (char i))

pub checksum : FatDirent → ℕ
unfolding FixedLengthString.at checksum_step checksum_loop
checksum e = checksum_loop (extension_at e) 3 0 (checksum_loop (name_at e) 8 0 0)

-- A write to a `char` array, `none` past its end.
unfoldable pub put : List ℕ → ℕ → ℕ → Option (List ℕ)
put buffer i c = if ltb i (length buffer) then some (set buffer i c) else none

infixl 5 ◌>>=◌
abbrev pub ◌>>=◌ : {A B : Type 0} → Option A → (A → Option B) → Option B
none >>= k = none
some x >>= k = k x

-- `buffer[idx++] = char(i)` for `left` rounds.
unfoldable pub copy_chars : (ℕ → ℕ) → ℕ → ℕ → ℕ → List ℕ → Option (ℕ × List ℕ)
unfolding put
copy_chars char zero i idx buffer = some (idx, buffer)
copy_chars char (suc left) i idx buffer = do
  buffer ← put buffer idx (char i)
  copy_chars char left (i + 1) (idx + 1) buffer

-- `while (idx > 0 && buffer[idx - 1] == ' ') --idx;`
unfoldable pub trim_end : List ℕ → ℕ → ℕ
trim_end buffer zero = zero
trim_end buffer (suc idx) =
    let rest = trim_end buffer idx in if get_or buffer idx 0 == b' ' then rest else suc idx

-- The extension's part, from index `idx`.
unfoldable pub put_extension : FatDirent → ℕ → List ℕ → Option (ℕ × List ℕ)
unfolding put copy_chars trim_end
put_extension e idx buffer =
    if not (extension_at e 0 == b' ')
    then (do
      buffer ← put buffer idx b'.'
      (idx, buffer) ← copy_chars (extension_at e) 3 0 (idx + 1) buffer
      some (trim_end buffer idx, buffer))
    else some (idx, buffer)

-- `NameToString`: the result and the buffer, `none` for a write past the buffer's end.
unfoldable pub name_to_string : FatDirent → List ℕ → Option (Bool × List ℕ)
unfolding FixedLengthString.at put copy_chars trim_end put_extension
name_to_string e buffer = if name_at e 0 == b' ' then some (false, buffer) else (do
  (idx, buffer) ← copy_chars (name_at e) 8 0 0 buffer
  (idx, buffer) ← put_extension e (trim_end buffer idx) buffer
  buffer ← put buffer idx 0
  some (true, buffer))
