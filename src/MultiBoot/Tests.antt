-- ===== src/MultiBoot/Tests.antt =====
-- Tests of the kernel's header and of the memory map.
use hausboot.Base.{ℕ, ◌≡◌, refl, true, some, [], ◌∷◌, arith, ◌==◌, if◌then◌else◌}
use hausboot.MultiBoot.Header.{
  MultiBootHeader, MemLayout, fit_in_file, extract_mem_layout, IsSane, extract_mem_layout-IsSane,
}
use hausboot.MultiBoot.MemoryMap.{
  MemoryMapEntry, Answer, good, last, Reply, load, stops, goes_on, load-Hands,
}

abbrev header : MultiBootHeader
header = record {
  magic = 0x1BADB002;
  flags = 0x10000;
  checksum = 0xE4514FFE;
  hdr_addr = 0x100010;
  load_addr = 0x100000;
  load_end_addr = 0x100200;
  bss_end_addr = 0x100300;
  entry_addr = 0x100040;
}

abbrev layout : MemLayout
layout = record { file_start = 0x1000; mem_start = 0x100000; count = 0x200 }

extract_run : extract_mem_layout header 0x1010 0x2000 ≡ some layout
unfolding extract_mem_layout fit_in_file
extract_run = refl

extract_mem_layout-IsSane_example : IsSane header 0x1010 0x2000 layout
extract_mem_layout-IsSane_example =
    extract_mem_layout-IsSane header 0x1010 0x2000 layout (omega arith) (omega arith) extract_run

abbrev low_memory : MemoryMapEntry
low_memory = record { base = 0; size = 0x9FC00; kind = 1 }

-- One entry, then the end or a failure.
abbrev one_then : Answer → ℕ → Reply
one_then ans ebx =
    if ebx == 0
    then record { answer = good; ebx = 1; entry = low_memory }
    else record { answer = ans; ebx = 0; entry = low_memory }

load-Hands_example : load (one_then last) 32 ≡ (true, low_memory ∷ [])
load-Hands_example =
    load-Hands (one_then last) 32 (low_memory ∷ [])
      (goes_on refl (λ e. absurd (omega (arith, e))) (stops refl))

-- A machine whose shifts by 32 and more give the value of the upper bytes.
abbrev whole : ℕ → ℕ
whole n = n
