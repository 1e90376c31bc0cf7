-- ===== src/Stage2/Tests.antt =====
-- Tests of the main program.
use hausboot.Stage2.Kernel.Finds.{EndsIn, Finds, mb_find_header-Finds}
use hausboot.Base.{
  ℕ, ◌≡◌, refl, Bool, true, some, List, [], ◌∷◌, ◌++◌, arith, replicate, length-replicate,
}
use hausboot.Fs.FatFs.{ReadResult, bytes}
use hausboot.MultiBoot.Header.{
  MultiBootHeader, MemLayout, fit_in_file, extract_mem_layout, bss_size,
}
use hausboot.Pm86.Copy.{Memory, clear_memory32}
use hausboot.Stage2.Kernel.{mb_find_header, loaded, mb_load_kernel, mb_load_kernel_skips}
use hausboot.Stage2.Script.{Ends, run_script, run_script-Ends}

abbrev read : ℕ → ℕ → ℕ → ReadResult × ℕ
read s offset size = (bytes (replicate size 7), s)

abbrev memory : Memory
memory i = 0

abbrev header : MultiBootHeader
header = record {
  magic = 0x1BADB002;
  flags = 0x10000;
  checksum = 0xE4514FFE;
  hdr_addr = 0x100010;
  load_addr = 0x100000;
  load_end_addr = 0x100200;
  bss_end_addr = 0x100300;
  entry_addr = 0x100040;
}

abbrev layout : MemLayout
layout = record { file_start = 0x180; mem_start = 0x100000; count = 0x200 }

extract_run : extract_mem_layout header 0x190 0x1000 ≡ some layout
unfolding extract_mem_layout fit_in_file
extract_run = refl

-- 512 bytes from offset 384 on should be loaded.
nothing_loaded :
    mb_load_kernel read 9 5 memory 0x8000 header 0x190 0x1000
    ≡ (loaded (clear_memory32 memory 0x100000 (bss_size header)) 0x100000, 5)
nothing_loaded =
    mb_load_kernel_skips read 8 5 memory 0x8000 header 0x190 0x1000 layout extract_run (omega arith)
      (omega arith) (omega arith)

abbrev call : List ℕ → List ℕ → List ℕ → Bool × List ℕ
call cmd arg s = (true, s ++ arg)

abbrev script : List ℕ
script = b'e' ∷ b'c' ∷ b'h' ∷ b'o' ∷ b' ' ∷ b'x' ∷ b'\n' ∷ b'?' ∷ b'\n' ∷ []

run_script-Ends_example : Ends call (run_script call script [])
run_script-Ends_example = run_script-Ends call script []

read_ends : (s offset size : ℕ) → EndsIn size (read s offset size).0
read_ends s offset size = omega (arith, length-replicate {A = ℕ} size 7)

mb_find_header-Finds_example : Finds (mb_find_header read 8193 5 100 []).0
mb_find_header-Finds_example = mb_find_header-Finds read read_ends 5 100 []
