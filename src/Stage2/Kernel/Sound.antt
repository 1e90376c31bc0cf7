-- ===== src/Stage2/Kernel/Sound.antt =====
-- stage2/stage2.cpp, `MBFindHeader`: whatever the reads do, what it finds is a valid header.
use hausboot.Base.{
  ℕ, zero, suc, ◌+◌, ◌*◌, ◌/◌, ◌≡◌, inl, inr, Bool, true, false, List, [], ◌∷◌, ◌++◌, ltb, leb,
  ◌==◌, if◌then◌else◌, Bool-cases, length, drop,
}
use hausboot.Fs.FatFs.{ReadResult, bytes, io_error, out_of_fuel}
use hausboot.MultiBoot.Header.{header_magic, is_valid}
use hausboot.Stage2.Kernel.{
  word, header_of, Search, found, failed, passed, stuck, look, scan_words, go_on, scan_buffer,
  search_loop, mb_find_header,
}

abbrev pub IsSound : Search → Type 0
IsSound (found at b) = is_valid (header_of b) ≡ true
IsSound failed = Unit {0}
IsSound (passed ret b) = Unit {0}
IsSound stuck = Unit {0}

if-IsSound :
    {S : Type 0} (c : Bool) (a b : Search × S)
    → IsSound a.0
    → IsSound b.0
    → IsSound (if c then a else b).0
if-IsSound true a b h h' = h
if-IsSound false a b h h' = h'

module _ {S : Type 0} (read : S → ℕ → ℕ → ReadResult × S) where
  look-IsSound :
      (r : ReadResult × S) (at : ℕ) (hdr : List ℕ) (again : ℕ → List ℕ → S → Search × S)
      → ((ret : ℕ) (b : List ℕ) (s : S) → IsSound (again ret b s).0)
      → IsSound (look read r at hdr again).0
  unfolding look
  look-IsSound (io_error b, s) at hdr again k = tt
  look-IsSound (out_of_fuel, s) at hdr again k = tt
  look-IsSound (bytes [], s) at hdr again k = tt
  look-IsSound (bytes (x ∷ b), s) at hdr again k =
      let hdr' : List ℕ = x ∷ b ++ drop (length (x ∷ b)) hdr in
      elim (Bool-cases (is_valid (header_of hdr'))) [
        | inl valid ↦ rw valid valid
        | inr other ↦ rw other (k (length (x ∷ b)) hdr' s)
      ]

  scan_words-IsSound :
      (fuel : ℕ) (s : S) (hdr buffer : List ℕ) (offset i ret : ℕ)
      → IsSound (scan_words read fuel s hdr buffer offset i ret).0
  unfolding scan_words
  scan_words-IsSound zero s hdr buffer offset i ret = tt
  scan_words-IsSound (suc fuel) s hdr buffer offset i ret = if-IsSound (leb (ret / 4) i) _ _ tt (
      if-IsSound (word buffer i == header_magic) _ _
        (look-IsSound (read s (offset + i * 4) 32) (offset + i * 4) hdr _
          (λ ret' b s'. scan_words-IsSound fuel s' b buffer offset (i + 1) ret'))
        (scan_words-IsSound fuel s hdr buffer offset (i + 1) ret))

  go_on-IsSound :
      (r : Search × S) (again : ℕ → List ℕ → S → Search × S)
      → IsSound r.0
      → ((ret : ℕ) (b : List ℕ) (s : S) → IsSound (again ret b s).0)
      → IsSound (go_on read r again).0
  unfolding go_on
  go_on-IsSound (found at b, s) again h k = h
  go_on-IsSound (failed, s) again h k = tt
  go_on-IsSound (passed ret b, s) again h k = k ret b s
  go_on-IsSound (stuck, s) again h k = tt

  scan_buffer-IsSound :
      (r : ReadResult × S) (offset : ℕ) (hdr : List ℕ) (again : ℕ → List ℕ → S → Search × S)
      → ((ret : ℕ) (b : List ℕ) (s : S) → IsSound (again ret b s).0)
      → IsSound (scan_buffer read r offset hdr again).0
  unfolding scan_buffer
  scan_buffer-IsSound (io_error b, s) offset hdr again k = tt
  scan_buffer-IsSound (out_of_fuel, s) offset hdr again k = tt
  scan_buffer-IsSound (bytes [], s) offset hdr again k = tt
  scan_buffer-IsSound (bytes (x ∷ b), s) offset hdr again k =
      go_on-IsSound _ again (scan_words-IsSound 257 s hdr (x ∷ b) offset 0 (length (x ∷ b))) k

  search_loop-IsSound :
      (fuel : ℕ) (s : S) (hdr : List ℕ) (offset scan_size : ℕ)
      → IsSound (search_loop read fuel s hdr offset scan_size).0
  unfolding search_loop
  search_loop-IsSound zero s hdr offset scan_size = tt
  search_loop-IsSound (suc fuel) s hdr offset scan_size =
      if-IsSound (ltb offset scan_size) _ _
        (scan_buffer-IsSound (read s offset 1024) offset hdr _
          (λ ret b s'. search_loop-IsSound fuel s' b (offset + ret) scan_size))
        tt

  pub mb_find_header-IsSound :
      (fuel : ℕ) (s : S) (size : ℕ) (hdr : List ℕ) → IsSound (mb_find_header read fuel s size hdr).0
  unfolding mb_find_header
  mb_find_header-IsSound fuel s size hdr = search_loop-IsSound fuel s hdr 0 _
