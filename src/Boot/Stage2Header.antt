-- ===== src/Boot/Stage2Header.antt =====
-- include/Stage2Header.h: the header at the start of stage 2. The image in memory is a function
-- from the index of a 32-bit word to the word; the header's fields are parts of the first seven
-- words. Reads past the image give what the function gives there.
use hausboot.Base.{
  ℕ, zero, suc, ◌+◌, ◌-◌, ◌*◌, ◌/◌, ◌%◌, ◌^◌, ◌≤◌, ◌<◌, ◌≡◌, refl, ap, ◌∙◌, fun_ext, ◌≢◌, ◌↔◌, Bool,
  true, false, not, ◌&&◌, ◌||◌, arith, ltb, ◌==◌, if◌then◌else◌,
}

abbrev pub Words : Type 0
Words = ℕ → ℕ

unfoldable pub put_word : Words → ℕ → ℕ → Words
put_word w at v i = if i == at then v else w i

abbrev pub stage2_magic : ℕ
stage2_magic = 0xD0D0CACA

-- `_magic`
abbrev pub magic : Words → ℕ
magic w = w 0

-- `_checksum`
abbrev pub checksum : Words → ℕ
checksum w = w 1

-- `SectorCount`
unfoldable pub sector_count : Words → ℕ
sector_count w = w 2 % 2 ^ 16

-- `SetSectorCount`: both assignments cut to 16 bits.
pub set_sector_count : Words → ℕ → Words
set_sector_count w size =
    let whole = size / 512 % 2 ^ 16 in
    let count = if size % 512 == 0 then whole else (whole + 1) % 2 ^ 16 in
    put_word w 2 (w 2 / 2 ^ 16 * 2 ^ 16 + count)

-- The loop of `ComputeChecksum`.
unfoldable pub sum_loop : Words → ℕ → ℕ → ℕ → ℕ
sum_loop w zero ptr acc = acc
sum_loop w (suc count) ptr acc = sum_loop w count (suc ptr) ((acc + w ptr) % 2 ^ 32)

-- `ComputeChecksum`
unfoldable pub compute_checksum : Words → ℕ
compute_checksum w = sum_loop w (sector_count w * 128) 0 0

-- `UpdateChecksum`: `~x + 1` in 32 bits.
pub update_checksum : Words → Words
update_checksum w =
    let w' = put_word w 1 0 in put_word w' 1 ((2 ^ 32 - 1 - compute_checksum w' + 1) % 2 ^ 32)

-- `Verify`
unfoldable pub verify : Words → ℕ → Bool
verify w max_sectors =
    if not (magic w == stage2_magic)
    then false
    else if sector_count w == 0 || ltb max_sectors (sector_count w)
    then false
    else not (checksum w == 0) && compute_checksum w == 0

-- `SetBiosBootDrive`: byte 10 of the header.
unfoldable pub set_bios_boot_drive : Words → ℕ → Words
set_bios_boot_drive w drive =
    put_word w 2 (w 2 / 2 ^ 24 * 2 ^ 24 + drive % 2 ^ 8 * 2 ^ 16 + w 2 % 2 ^ 16)

-- `BiosBootDrive`
unfoldable pub bios_boot_drive : Words → ℕ
bios_boot_drive w = w 2 / 2 ^ 16 % 2 ^ 8

-- `SetBootMBREntry`: the four words from byte 12 on.
unfoldable pub set_boot_mbr_entry : Words → (ℕ → ℕ) → Words
set_boot_mbr_entry w entry =
    put_word (put_word (put_word (put_word w 3 (entry 0)) 4 (entry 1)) 5 (entry 2)) 6 (entry 3)

-- The sum of words without wrap-around.
abbrev total : Words → ℕ → ℕ → ℕ
total w zero ptr = 0
total w (suc count) ptr = w ptr + total w count (suc ptr)

sum_loop-total :
    (w : Words) (count ptr acc : ℕ)
    → acc < 2 ^ 32
    → sum_loop w count ptr acc ≡ (acc + total w count ptr) % 2 ^ 32
unfolding sum_loop
sum_loop-total w zero ptr acc h = omega arith
sum_loop-total w (suc count) ptr acc h =
    sum_loop-total w count (suc ptr) ((acc + w ptr) % 2 ^ 32) (omega arith) ∙ omega arith

put_word_ne : (w : Words) (at v i : ℕ) → i ≢ at → put_word w at v i ≡ w i
unfolding put_word
put_word_ne w at v i ne = ground arith

put_word_self : (w : Words) (at v : ℕ) → put_word w at v at ≡ v
unfolding put_word
put_word_self w at v = ground arith

-- The sum behind a word does not see it.
total-put_word_past :
    (w : Words) (v count ptr : ℕ) → 1 < ptr → total (put_word w 1 v) count ptr ≡ total w count ptr
total-put_word_past w v zero ptr h = refl
total-put_word_past w v (suc count) ptr h = omega (
  arith,
  put_word_ne w 1 v ptr (λ e. absurd (omega arith)),
  total-put_word_past w v count (suc ptr) (omega arith),
)

total-put_word :
    (w : Words) (v count : ℕ)
    → 2 ≤ count
    → total (put_word w 1 v) count 0 ≡ v + total (put_word w 1 0) count 0
total-put_word w v zero h = absurd (omega arith)
total-put_word w v (suc zero) h = absurd (omega arith)
total-put_word w v (suc (suc count)) h = omega (
  arith,
  put_word_self w 1 v,
  put_word_self w 1 0,
  put_word_ne w 1 v 0 (λ e. absurd (omega arith)),
  put_word_ne w 1 0 0 (λ e. absurd (omega arith)),
  total-put_word_past w v count 2 (omega arith),
  total-put_word_past w 0 count 2 (omega arith),
)

sector_count-put_word : (w : Words) (v : ℕ) → sector_count (put_word w 1 v) ≡ sector_count w
unfolding sector_count
sector_count-put_word w v = ap (λ x. x % 2 ^ 16) (put_word_ne w 1 v 2 (λ e. absurd (omega arith)))

compute_checksum-total :
    (w : Words) (count : ℕ)
    → sector_count w ≡ count
    → compute_checksum w ≡ total w (count * 128) 0 % 2 ^ 32
unfolding compute_checksum
compute_checksum-total w count e =
    rw e (sum_loop-total w (count * 128) 0 0 (omega arith) ∙ omega arith)

put_word_twice : (w : Words) (u v i : ℕ) → put_word (put_word w 1 u) 1 v i ≡ put_word w 1 v i
unfolding put_word
put_word_twice w u v i = ground arith

update_checksum_run :
    (w : Words)
    → update_checksum w
      ≡ put_word w 1 ((2 ^ 32 - 1 - compute_checksum (put_word w 1 0) + 1) % 2 ^ 32)
unfolding update_checksum
update_checksum_run w = fun_ext (λ i. put_word_twice w 0 _ i)

-- After `UpdateChecksum` the words of a header that names at least one sector sum to zero.
pub compute_checksum-update_checksum :
    (w : Words) → 0 < sector_count w → compute_checksum (update_checksum w) ≡ 0
compute_checksum-update_checksum w h =
    let count = sector_count w in
    let v = (2 ^ 32 - 1 - compute_checksum (put_word w 1 0) + 1) % 2 ^ 32 in
    let before = compute_checksum-total (put_word w 1 0) count (sector_count-put_word w 0) in
    let after = compute_checksum-total (put_word w 1 v) count (sector_count-put_word w v) in
    ap compute_checksum (update_checksum_run w)
    ∙ omega (arith, before, after, total-put_word w v (count * 128) (omega arith))

-- `Verify` accepts exactly a header with the magic number, of 1 to `max_sectors` sectors, whose
-- checksum is not zero and makes the words sum to zero.
pub verify_iff :
    (w : Words) (max_sectors : ℕ)
    → (verify w max_sectors ≡ true)
      ↔ (magic w ≡ stage2_magic)
        × (0 < sector_count w)
        × (sector_count w ≤ max_sectors)
        × (checksum w ≢ 0)
        × (compute_checksum w ≡ 0)
unfolding verify
verify_iff w max_sectors = (
  λ e. (ground arith, ground arith, ground arith, (λ z. ground arith), ground arith),
  λ (a, b, c, d, e). ground arith,
)

-- The sectors that `SetSectorCount` counts hold `size` bytes, and no sector is counted in vain,
-- for less than 2 ^ 25 - 512 bytes.
pub set_sector_count_covers :
    (w : Words) (size : ℕ)
    → size ≤ 2 ^ 25 - 512
    → (size ≤ 512 * sector_count (set_sector_count w size))
      × (512 * sector_count (set_sector_count w size) < size + 512)
unfolding sector_count set_sector_count put_word
set_sector_count_covers w size h = ground arith
