-- ===== src/Fs/FatDirentLong.antt =====
-- include/fs/FatDirentLong.h and include/fs/FatFsInfo.h: a part of a long name, and the sector
-- with the free clusters. A packed integer is held by its value.
use hausboot.Base.{
  ℕ, zero, suc, ◌+◌, ◌≤◌, bit_and, ◌≡◌, refl, ap, ◌∙◌, Bool, true, not, ◌&&◌, ◌||◌, Option, none,
  some, List, [], ◌∷◌, arith, ltb, leb, ◌==◌, if◌then◌else◌, length, set, length-set,
}
use hausboot.Types.UnalignedInt.{le_value}
use hausboot.Fs.FatDirent.Layout.{field}
use hausboot.Base.Options.{◌>>=◌}

pub record FatDirentLong : Type 0 where
  pub seq_number : ℕ
  pub name_part : List ℕ
  pub attrib : ℕ
  pub entry_type : ℕ
  pub short_checksum : ℕ
  pub name_part2 : List ℕ
  pub unused : ℕ
  pub name_part3 : List ℕ

-- `count` packed integers of 16 bits, from byte `i` on.
pub decode_part : List ℕ → ℕ → ℕ → List ℕ
decode_part raw i zero = []
decode_part raw i (suc count) = le_value (field raw i 2) ∷ decode_part raw (i + 2) count

-- The part in 32 bytes.
pub decode_long : List ℕ → FatDirentLong
decode_long raw = record {
  seq_number = le_value (field raw 0 1);
  name_part = decode_part raw 1 5;
  attrib = le_value (field raw 11 1);
  entry_type = le_value (field raw 12 1);
  short_checksum = le_value (field raw 13 1);
  name_part2 = decode_part raw 14 6;
  unused = le_value (field raw 26 2);
  name_part3 = decode_part raw 28 2;
}

-- `IsLast`
pub is_last : FatDirentLong → Bool
is_last e = not (bit_and e.seq_number 0x40 == 0)

-- `SequenceNumber`
pub sequence_number : FatDirentLong → ℕ
sequence_number e = bit_and e.seq_number 0x3F

-- The character that stands for one of 16 bits.
pub narrow : ℕ → ℕ
narrow x = if (ltb 0 x && ltb x 0x20) || leb 0x7F x then b'?' else x

-- `Stringify`, from index `i` of the buffer on; `none` for a write past its end.
pub stringify : List ℕ → ℕ → List ℕ → Option (ℕ × List ℕ)
stringify [] i buffer = some (i, buffer)
stringify (x ∷ part) i buffer =
    let rest = stringify part (i + 1) (set buffer i (narrow x)) in
    if ltb i (length buffer) then rest else none

-- The terminator.
pub terminate : Option (ℕ × List ℕ) → Option (List ℕ)
terminate none = none
terminate (some (i, buffer)) = if ltb i (length buffer) then some (set buffer i 0) else none

-- `NameToString`
pub long_name_to_string : FatDirentLong → List ℕ → Option (List ℕ)
long_name_to_string e buffer = terminate (do
  (i, buffer) ← stringify e.name_part 0 buffer
  (i, buffer) ← stringify e.name_part2 i buffer
  stringify e.name_part3 i buffer)

pub record FatFsInfo : Type 0 where
  pub magic1 : ℕ
  pub magic2 : ℕ
  pub free_clusters : ℕ
  pub next_free_cluster : ℕ
  pub magic3 : ℕ

-- `IsValid`
unfoldable pub fs_info_is_valid : FatFsInfo → Bool
fs_info_is_valid f = f.magic1 == 0x41615252 && f.magic2 == 0x61417272 && f.magic3 == 0xAA550000

-- `SetNextFreeCluster`
unfoldable pub set_next_free_cluster : FatFsInfo → ℕ → FatFsInfo
set_next_free_cluster f index = record f { next_free_cluster = index }

-- `SetNumFreeCluster`
unfoldable pub set_num_free_cluster : FatFsInfo → ℕ → FatFsInfo
set_num_free_cluster f count = record f { free_clusters = count }

stringify_fits :
    (part : List ℕ) (i : ℕ) (buffer : List ℕ)
    → i + length part ≤ length buffer
    → (out : List ℕ) × (stringify part i buffer ≡ some (i + length part, out))
      × (length out ≡ length buffer)
unfolding stringify
stringify_fits [] i buffer h = (buffer, ap (λ j. some (j, buffer)) (omega arith), refl)
stringify_fits (x ∷ part) i buffer h =
    let room : ltb i (length buffer) ≡ true = ground arith in
    let len = length-set buffer i (narrow x) in
    let (out, ran, size) = stringify_fits part (i + 1) (set buffer i (narrow x)) (omega arith) in
    (out, rw room (ran ∙ ap (λ j. some (j, out)) (omega arith)), size ∙ len)

-- A buffer of 14 bytes holds the 13 characters of a part and the terminator.
pub long_name_to_string_fits :
    (e : FatDirentLong) (buffer : List ℕ)
    → length e.name_part ≡ 5
    → length e.name_part2 ≡ 6
    → length e.name_part3 ≡ 2
    → length buffer ≡ 14
    → (out : List ℕ) × (long_name_to_string e buffer ≡ some out) × (length out ≡ 14)
unfolding long_name_to_string terminate
long_name_to_string_fits e buffer h1 h2 h3 h =
    let (b1, r1, l1) = stringify_fits e.name_part 0 buffer (omega arith) in
    let (b2, r2, l2) = stringify_fits e.name_part2 (0 + length e.name_part) b1 (omega arith) in
    let (b3, r3, l3) =
      stringify_fits e.name_part3 (0 + length e.name_part + length e.name_part2) b2 (omega arith) in
    let room : ltb (0 + length e.name_part + length e.name_part2 + length e.name_part3) (length b3)
        ≡ true =
      ground arith in
    (
      set b3 (0 + length e.name_part + length e.name_part2 + length e.name_part3) 0,
      rw (r1, r2, r3, room) refl,
      length-set b3 _ 0 ∙ omega arith,
    )
