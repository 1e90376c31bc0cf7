-- ===== src/Stage2/Kernel.antt =====
-- stage2/stage2.cpp, `MBFindHeader` and `MBLoadKernel`. The reads of the file are a parameter:
-- from a state, an offset and a size to a result and the state behind it. The allocation of the
-- buffer is taken to succeed.
pub mod Finds
pub mod Sound
use hausboot.Base.{
  ℕ, zero, suc, ◌+◌, ◌-◌, ◌*◌, ◌/◌, ◌%◌, ◌^◌, ◌≤◌, ◌<◌, ◌≡◌, refl, ap, false, ◌&&◌, none, some,
  List, [], ◌∷◌, ◌++◌, arith, ltb, leb, ◌==◌, if◌then◌else◌, length, get_or, take, drop,
}
use hausboot.Types.UnalignedInt.{le_value}
use hausboot.Fs.FatFs.{ReadResult, bytes, io_error, out_of_fuel}
use hausboot.MultiBoot.Header.{
  MultiBootHeader, header_magic, is_valid, MemLayout, extract_mem_layout, bss_size,
}
use hausboot.Pm86.Copy.{Memory, copy_memory32, clear_memory32}

abbrev pub max_search : ℕ
max_search = 8192

-- The 32-bit word with index `i`.
unfoldable pub word : List ℕ → ℕ → ℕ
word buffer i = le_value (take 4 (drop (i * 4) buffer))

unfoldable pub header_of : List ℕ → MultiBootHeader
header_of b = record {
  magic = word b 0;
  flags = word b 1;
  checksum = word b 2;
  hdr_addr = word b 3;
  load_addr = word b 4;
  load_end_addr = word b 5;
  bss_end_addr = word b 6;
  entry_addr = word b 7;
}

-- What a search ends with: the header's offset and bytes, a failure, or, for the words of one
-- buffer, the value of `ret` and the bytes of `hdr` behind the loop.
pub data Search : Type 0 where
  found : ℕ → List ℕ → Search
  failed : Search
  passed : ℕ → List ℕ → Search
  stuck : Search

-- What `MBLoadKernel` ends with: the memory and the address behind the last byte copied, or a
-- failed read.
pub data Load : Type 0 where
  loaded : Memory → ℕ → Load
  read_failed : Memory → Load
  layout_broken : Load
  load_stuck : Load

-- The bytes of a buffer in memory.
pub write_bytes : Memory → ℕ → List ℕ → Memory
write_bytes m at b i = if leb at i && ltb i (at + length b) then get_or b (i - at) 0 else m i

module _ {S : Type 0} (read : S → ℕ → ℕ → ReadResult × S) where
  -- Behind a word that is the magic number: the header is read into `hdr` and looked at.
  unfoldable pub look : ReadResult × S → ℕ → List ℕ → (ℕ → List ℕ → S → Search × S) → Search × S
  look (io_error b, s) at hdr again = (failed, s)
  look (out_of_fuel, s) at hdr again = (stuck, s)
  look (bytes [], s) at hdr again = (failed, s)
  look (bytes (x ∷ b), s) at hdr again =
      let hdr' : List ℕ = x ∷ b ++ drop (length (x ∷ b)) hdr in
      if is_valid (header_of hdr') then (found at hdr', s) else again (length (x ∷ b)) hdr' s

  -- The loop over the words of a buffer; `ret` bounds it, and is overwritten by the read of a
  -- header.
  unfoldable pub scan_words : ℕ → S → List ℕ → List ℕ → ℕ → ℕ → ℕ → Search × S
  scan_words zero s hdr buffer offset i ret = (stuck, s)
  scan_words (suc fuel) s hdr buffer offset i ret =
      let skip = scan_words fuel s hdr buffer offset (i + 1) ret in
      let hit =
        look (read s (offset + i * 4) 32) (offset + i * 4) hdr
          (λ ret hdr s. scan_words fuel s hdr buffer offset (i + 1) ret) in
      if leb (ret / 4) i
      then (passed ret hdr, s)
      else if word buffer i == header_magic
      then hit
      else skip

  -- Behind one buffer.
  unfoldable pub go_on : Search × S → (ℕ → List ℕ → S → Search × S) → Search × S
  go_on (passed ret hdr, s) again = again ret hdr s
  go_on (found at hdr, s) again = (found at hdr, s)
  go_on (failed, s) again = (failed, s)
  go_on (stuck, s) again = (stuck, s)

  -- Behind the read of a buffer.
  unfoldable pub scan_buffer :
      ReadResult × S → ℕ → List ℕ → (ℕ → List ℕ → S → Search × S) → Search × S
  scan_buffer (io_error b, s) offset hdr again = (failed, s)
  scan_buffer (out_of_fuel, s) offset hdr again = (stuck, s)
  scan_buffer (bytes [], s) offset hdr again = (failed, s)
  scan_buffer (bytes (x ∷ b), s) offset hdr again =
      go_on (scan_words 257 s hdr (x ∷ b) offset 0 (length (x ∷ b))) again

  -- The outer loop of `MBFindHeader`.
  unfoldable pub search_loop : ℕ → S → List ℕ → ℕ → ℕ → Search × S
  search_loop zero s hdr offset scan_size = (stuck, s)
  search_loop (suc fuel) s hdr offset scan_size =
      let next =
        scan_buffer (read s offset 1024) offset hdr
          (λ ret hdr s. search_loop fuel s hdr (offset + ret) scan_size) in
      if ltb offset scan_size then next else (failed, s)

  -- `MBFindHeader`, for a file of `size` bytes and what is in `hdr` before.
  unfoldable pub mb_find_header : ℕ → S → ℕ → List ℕ → Search × S
  mb_find_header fuel s size hdr =
      search_loop fuel s hdr 0 (if ltb max_search size then max_search else size)

  -- Behind the read of a part of the kernel. The buffer is at address `buf`.
  unfoldable pub copy_part :
      ReadResult × S → Memory → ℕ → ℕ → (Memory → ℕ → S → Load × S) → Load × S
  copy_part (io_error b, s) m buf mem_start again = (read_failed m, s)
  copy_part (out_of_fuel, s) m buf mem_start again = (load_stuck, s)
  copy_part (bytes [], s) m buf mem_start again = (loaded m mem_start, s)
  copy_part (bytes (x ∷ b), s) m buf mem_start again =
      again (copy_memory32 (write_bytes m buf (x ∷ b)) mem_start buf (length (x ∷ b)))
        (length (x ∷ b)) s

  -- The loop of `MBLoadKernel`.
  unfoldable pub copy_loop : ℕ → S → Memory → ℕ → ℕ → ℕ → ℕ → Load × S
  copy_loop zero s m buf offset mem_start bound = (load_stuck, s)
  copy_loop (suc fuel) s m buf offset mem_start bound =
      let next =
        copy_part (read s offset 1024) m buf mem_start
          (λ m ret s. copy_loop fuel s m buf (offset + ret) (mem_start + ret) bound) in
      if ltb offset bound then next else (loaded m mem_start, s)

  -- The end of `MBLoadKernel`.
  unfoldable pub clear_bss : MultiBootHeader → Load × S → Load × S
  clear_bss h (loaded m at, s) = (loaded (clear_memory32 m at (bss_size h)) at, s)
  clear_bss h (read_failed m, s) = (read_failed m, s)
  clear_bss h (layout_broken, s) = (layout_broken, s)
  clear_bss h (load_stuck, s) = (load_stuck, s)

  -- `MBLoadKernel`. The bound of its loop is `count - fileStart` as a `uint32_t`.
  unfoldable pub mb_load_kernel : ℕ → S → Memory → ℕ → MultiBootHeader → ℕ → ℕ → Load × S
  mb_load_kernel fuel s m buf h file_offset size = elim (extract_mem_layout h file_offset size) [
    | none ↦ (layout_broken, s)
    | some l ↦ clear_bss h (
        copy_loop fuel s m buf l.file_start l.mem_start
          ((l.count + 2 ^ 32 - l.file_start) % 2 ^ 32))
  ]

  copy_loop_done :
      (fuel : ℕ) (s : S) (m : Memory) (buf offset mem_start bound : ℕ)
      → bound ≤ offset
      → copy_loop (suc fuel) s m buf offset mem_start bound ≡ (loaded m mem_start, s)
  unfolding copy_loop
  copy_loop_done fuel s m buf offset mem_start bound h =
      let past : ltb offset bound ≡ false = ground arith in rw past refl

  -- A kernel whose segment starts at least half its size behind the start of the file, but not
  -- more than its size, is not loaded: the memory is only cleared behind the load address, and
  -- the result is that of a success.
  pub mb_load_kernel_skips :
      (fuel : ℕ) (s : S) (m : Memory) (buf : ℕ) (h : MultiBootHeader) (file_offset size : ℕ)
      (l : MemLayout)
      → extract_mem_layout h file_offset size ≡ some l
      → l.count < 2 ^ 32
      → l.file_start ≤ l.count
      → l.count ≤ 2 * l.file_start
      → mb_load_kernel (suc fuel) s m buf h file_offset size
        ≡ (loaded (clear_memory32 m l.mem_start (bss_size h)) l.mem_start, s)
  unfolding mb_load_kernel clear_bss
  mb_load_kernel_skips fuel s m buf h file_offset size l e lt le half =
      rw (e, mb_load_kernel)
        (ap (clear_bss h) (
          copy_loop_done fuel s m buf l.file_start l.mem_start
            ((l.count + 2 ^ 32 - l.file_start) % 2 ^ 32) (omega arith)))
