-- ===== src/Stage2/Kernel/Finds.antt =====
-- stage2/stage2.cpp, `MBFindHeader`: it ends, and what it finds is a header.
use hausboot.Base.{
  ℕ, zero, suc, ◌+◌, ◌*◌, ◌/◌, ◌≤◌, ◌<◌, ◌≡◌, inl, inr, true, List, [], ◌∷◌, ◌++◌, arith, ltb, leb,
  ◌==◌, Bool-cases, length, drop,
}
use hausboot.Fs.FatFs.{ReadResult, bytes, io_error, out_of_fuel}
use hausboot.MultiBoot.Header.{header_magic, is_valid}
use hausboot.Stage2.Kernel.{
  max_search, word, header_of, Search, found, failed, passed, stuck, look, scan_words, go_on,
  scan_buffer, search_loop, mb_find_header,
}

-- A read that ends gives at most as many bytes as were asked for.
abbrev pub EndsIn : ℕ → ReadResult → Type 0
EndsIn n (bytes b) = length b ≤ n
EndsIn n (io_error b) = Unit {0}
EndsIn n out_of_fuel = ⊥

-- The search went well: a header that is found is valid, and a buffer is passed by at least a
-- byte.
abbrev pub Finds : Search → Type 0
Finds (found at b) = is_valid (header_of b) ≡ true
Finds failed = Unit {0}
Finds (passed ret b) = 0 < ret
Finds stuck = ⊥

module _ {S : Type 0} (read : S → ℕ → ℕ → ReadResult × S)
    (ends : (s : S) (offset size : ℕ) → EndsIn size (read s offset size).0) where
  look-Finds :
      (r : ReadResult) (s : S) (at : ℕ) (hdr : List ℕ) (again : ℕ → List ℕ → S → Search × S)
      → EndsIn 32 r
      → ((ret : ℕ) (b : List ℕ) (s' : S) → 0 < ret → ret ≤ 32 → Finds (again ret b s').0)
      → Finds (look read (r, s) at hdr again).0
  unfolding look
  look-Finds (io_error b) s at hdr again h k = tt
  look-Finds out_of_fuel s at hdr again h k = elim h [ ]
  look-Finds (bytes []) s at hdr again h k = tt
  look-Finds (bytes (x ∷ b)) s at hdr again h k =
      let hdr' : List ℕ = x ∷ b ++ drop (length (x ∷ b)) hdr in
      elim (Bool-cases (is_valid (header_of hdr'))) [
        | inl valid ↦ rw valid valid
        | inr other ↦ rw other (k (length (x ∷ b)) hdr' s (omega arith) h)
      ]

  scan_words-Finds :
      (fuel : ℕ) (s : S) (hdr buffer : List ℕ) (offset i ret : ℕ)
      → 256 < i + fuel
      → i ≤ 256
      → 0 < ret
      → ret ≤ 1024
      → Finds (scan_words read fuel s hdr buffer offset i ret).0
  unfolding scan_words
  scan_words-Finds zero s hdr buffer offset i ret h le pos lim = absurd (omega arith)
  scan_words-Finds (suc fuel) s hdr buffer offset i ret h le pos lim =
      elim (Bool-cases (leb (ret / 4) i)) [
        | inl over ↦ rw over pos
        | inr under ↦
            let below : i < 256 = ground arith in
            elim (Bool-cases (word buffer i == header_magic)) [
              | inr other ↦
                  rw (under, other)
                    (scan_words-Finds fuel s hdr buffer offset (i + 1) ret (omega arith)
                      (omega arith) pos lim)
              | inl magic ↦
                  rw (under, magic)
                    (look-Finds (read s (offset + i * 4) 32).0 (read s (offset + i * 4) 32).1
                      (offset + i * 4) hdr _ (ends s (offset + i * 4) 32)
                      (λ ret' b s' pos' small.
                        scan_words-Finds fuel s' b buffer offset (i + 1) ret' (omega arith)
                          (omega arith) pos' (omega arith)))
            ]
      ]

  go_on-Finds :
      (r : Search × S) (again : ℕ → List ℕ → S → Search × S)
      → Finds r.0
      → ((ret : ℕ) (b : List ℕ) (s : S) → 0 < ret → Finds (again ret b s).0)
      → Finds (go_on read r again).0
  unfolding go_on
  go_on-Finds (found at b, s) again h k = h
  go_on-Finds (failed, s) again h k = tt
  go_on-Finds (passed ret b, s) again h k = k ret b s h
  go_on-Finds (stuck, s) again h k = h

  scan_buffer-Finds :
      (r : ReadResult) (s : S) (offset : ℕ) (hdr : List ℕ) (again : ℕ → List ℕ → S → Search × S)
      → EndsIn 1024 r
      → ((ret : ℕ) (b : List ℕ) (s' : S) → 0 < ret → Finds (again ret b s').0)
      → Finds (scan_buffer read (r, s) offset hdr again).0
  unfolding scan_buffer
  scan_buffer-Finds (io_error b) s offset hdr again h k = tt
  scan_buffer-Finds out_of_fuel s offset hdr again h k = elim h [ ]
  scan_buffer-Finds (bytes []) s offset hdr again h k = tt
  scan_buffer-Finds (bytes (x ∷ b)) s offset hdr again h k =
      go_on-Finds _ again
        (scan_words-Finds 257 s hdr (x ∷ b) offset 0 (length (x ∷ b)) (omega arith) (omega arith)
          (omega arith) h)
        k

  search_loop-Finds :
      (fuel : ℕ) (s : S) (hdr : List ℕ) (offset scan_size : ℕ)
      → scan_size < offset + fuel
      → 0 < fuel
      → Finds (search_loop read fuel s hdr offset scan_size).0
  unfolding search_loop
  search_loop-Finds zero s hdr offset scan_size h pos = absurd (omega arith)
  search_loop-Finds (suc fuel) s hdr offset scan_size h pos =
      elim (Bool-cases (ltb offset scan_size)) [
        | inr past ↦ rw past tt
        | inl more ↦
            let below : offset < scan_size = ground arith in
            rw more (
              scan_buffer-Finds (read s offset 1024).0 (read s offset 1024).1 offset hdr _
                (ends s offset 1024)
                (λ ret b s' pos'.
                  search_loop-Finds fuel s' b (offset + ret) scan_size (omega arith) (omega arith)))
      ]

  -- On reads that end and give at most what was asked for, `MBFindHeader` ends within one round
  -- of its loop for each byte of the part that it searches. A header that it finds is valid, also
  -- where it was read behind others that were not.
  pub mb_find_header-Finds :
      (s : S) (size : ℕ) (hdr : List ℕ) → Finds (mb_find_header read (suc max_search) s size hdr).0
  unfolding mb_find_header
  mb_find_header-Finds s size hdr =
      search_loop-Finds (suc max_search) s hdr 0 _ (ground arith) (omega arith)
