-- ===== src/MultiBoot/Header.antt =====
-- include/kernel/MultiBootHeader.h: the header that is searched for in a kernel's file, and the
-- memory that it asks for. The arithmetic is that of `uint32_t`.
use hausboot.Base.{
  ℕ, ◌+◌, ◌-◌, ◌%◌, ◌^◌, ◌≤◌, ◌<◌, ◌≡◌, ◌↔◌, Bool, true, ◌&&◌, ◌||◌, Option, none, some, arith, ltb,
  leb, ◌==◌, if◌then◌else◌,
}

pub record MultiBootHeader : Type 0 where
  pub magic : ℕ
  pub flags : ℕ
  pub checksum : ℕ
  pub hdr_addr : ℕ
  pub load_addr : ℕ
  pub load_end_addr : ℕ
  pub bss_end_addr : ℕ
  pub entry_addr : ℕ

abbrev pub header_magic : ℕ
header_magic = 0x1BADB002

-- `IsValid`
unfoldable pub is_valid : MultiBootHeader → Bool
is_valid h =
    h.magic == header_magic
    && h.checksum == (2 ^ 32 - 1 - (h.magic + h.flags) % 2 ^ 32 + 1) % 2 ^ 32

pub record MemLayout : Type 0 where
  pub file_start : ℕ
  pub mem_start : ℕ
  pub count : ℕ

-- The last steps of `ExtractMemLayout`, from where the load segment starts in the file.
unfoldable pub fit_in_file : MultiBootHeader → ℕ → ℕ → Option MemLayout
fit_in_file h file_start filesize =
    let count = h.load_end_addr - h.load_addr in
    if leb count ((filesize + 2 ^ 32 - file_start) % 2 ^ 32)
    then some (record { file_start = file_start; mem_start = h.load_addr; count = count })
    else none

-- `ExtractMemLayout`; `none` for its result `false`.
unfoldable pub extract_mem_layout : MultiBootHeader → ℕ → ℕ → Option MemLayout
extract_mem_layout h hdr_file_offset filesize =
    if leb h.load_end_addr h.load_addr
    then none
    else if ltb h.bss_end_addr h.load_addr
    then none
    else if ltb h.hdr_addr h.load_addr || leb h.load_end_addr h.hdr_addr
    then none
    else if ltb h.entry_addr h.load_addr || leb h.load_end_addr h.entry_addr
    then none
    else (let hdr_mem_offset = h.hdr_addr - h.load_addr in
        if ltb hdr_file_offset hdr_mem_offset
        then none
        else fit_in_file h
            (if ltb hdr_mem_offset hdr_file_offset then hdr_file_offset - hdr_mem_offset else 0)
            filesize)

-- `BSSSize`
unfoldable pub bss_size : MultiBootHeader → ℕ
bss_size h = if ltb h.load_end_addr h.bss_end_addr then h.bss_end_addr - h.load_end_addr else 0

-- `IsValid` holds exactly for a header with the magic number whose first three words sum to zero.
pub is_valid_iff :
    (h : MultiBootHeader)
    → h.checksum < 2 ^ 32
    → (is_valid h ≡ true)
      ↔ (h.magic ≡ header_magic) × ((h.magic + h.flags + h.checksum) % 2 ^ 32 ≡ 0)
unfolding is_valid
is_valid_iff h lt = (λ e. (ground arith, ground arith), λ (a, b). ground arith)

-- A layout that is sane: the segment starts and ends where the header says and lies in the file,
-- the address of the header lies in the segment at the place where it was found in the file, and
-- the entry point lies in the segment.
pub record IsSane (h : MultiBootHeader) (hdr_file_offset filesize : ℕ) (l : MemLayout)
    : Type 0 where
  pub start : l.mem_start ≡ h.load_addr
  pub stop : l.mem_start + l.count ≡ h.load_end_addr
  pub nonempty : 0 < l.count
  pub in_file : l.file_start + l.count ≤ filesize
  pub header_at : l.file_start + h.hdr_addr ≡ hdr_file_offset + l.mem_start
  pub header_from : l.mem_start ≤ h.hdr_addr
  pub header_to : h.hdr_addr < l.mem_start + l.count
  pub entry_from : l.mem_start ≤ h.entry_addr
  pub entry_to : h.entry_addr < l.mem_start + l.count

-- For a header that was found in a file of less than 4 GiB, the layout that `ExtractMemLayout`
-- gives is a segment that is not empty, starts and ends where the header says and lies in the
-- file. The first byte of the header lies in it, at the place where it was found, and so does the
-- entry point.
pub extract_mem_layout-IsSane :
    (h : MultiBootHeader) (hdr_file_offset filesize : ℕ) (l : MemLayout)
    → hdr_file_offset ≤ filesize
    → filesize < 2 ^ 32
    → extract_mem_layout h hdr_file_offset filesize ≡ some l
    → IsSane h hdr_file_offset filesize l
unfolding extract_mem_layout fit_in_file
extract_mem_layout-IsSane h off filesize l le lt e = record {
  start = ground arith;
  stop = ground arith;
  nonempty = ground arith;
  in_file = ground arith;
  header_at = ground arith;
  header_from = ground arith;
  header_to = ground arith;
  entry_from = ground arith;
  entry_to = ground arith;
}
