-- ===== src/Host/File/ReadAt.antt =====
-- include/host/File.h, `ReadAt`: it gives the file's bytes, whatever pieces the system hands out.
use hausboot.Base.{
  ℕ, zero, suc, ◌+◌, ◌-◌, ◌≤◌, ◌<◌, ◌≡◌, refl, sym, ap, ap₂, ◌∙◌, List, [], ◌∷◌, ◌++◌, arith,
  length, length-append,
}
use hausboot.Base.Slice.{slice, slice-add}
use hausboot.Host.File.{
  Reply, bytes, interrupted, failed, Result, done, thrown, stuck, in_front, read_round, read_at,
}

-- What the system's documentation says of `pread`: it gives bytes of the file, as many as were
-- asked for at most; it leaves the file alone; and a signal that interrupts it is used up.
pub record IsPread {W : Type 0} (pread : W → ℕ → ℕ → Reply × W) (contents : W → List ℕ)
    (signals : W → ℕ) : Type 0 where
  pub keeps : (w : W) (size offset : ℕ) → contents (pread w size offset).1 ≡ contents w
  pub gives :
      (w : W) (size offset : ℕ) (b : List ℕ)
      → (pread w size offset).0 ≡ bytes b
      → (length b ≤ size)
        × (slice offset (length b) (contents w) ≡ b)
        × (signals (pread w size offset).1 ≤ signals w)
  pub uses_up :
      (w : W) (size offset : ℕ)
      → (pread w size offset).0 ≡ interrupted
      → signals (pread w size offset).1 < signals w

module _ {W : Type 0} (pread : W → ℕ → ℕ → Reply × W) (contents : W → List ℕ) (signals : W → ℕ)
    (sys : IsPread pread contents signals) where
  -- The bytes that were asked for, of an unchanged file, or an exception.
  abbrev pub Reads : W → ℕ → ℕ → Result W (List ℕ) → Type 0
  Reads w offset size (done b w') =
      (length b ≡ size) × (b ≡ slice offset size (contents w)) × (contents w' ≡ contents w)
  Reads w offset size (thrown w') = contents w' ≡ contents w
  Reads w offset size stuck = ⊥

  Reads-same :
      (w w' : W) (offset size : ℕ) (x : Result W (List ℕ))
      → contents w' ≡ contents w
      → Reads w' offset size x
      → Reads w offset size x
  Reads-same w w' offset size (done b v) e (len, same, kept) =
      (len, same ∙ ap (λ (l : List ℕ). slice offset size l) e, kept ∙ e)
  Reads-same w w' offset size (thrown v) e kept = kept ∙ e
  Reads-same w w' offset size stuck e h = h

  Reads-in_front :
      (w : W) (offset size n : ℕ) (b : List ℕ) (x : Result W (List ℕ))
      → length b ≡ n
      → n ≤ size
      → slice offset n (contents w) ≡ b
      → Reads w (offset + n) (size - n) x
      → Reads w offset size (in_front b x)
  unfolding in_front
  Reads-in_front w offset size n b (done c v) len le at (len', same, kept) = (
    omega (arith, length-append b c),
    ap₂ ◌++◌ (sym at) same
        ∙ sym (slice-add offset n (size - n) (contents w))
        ∙ ap (λ (k : ℕ). slice offset k (contents w)) {y = size} (omega arith),
    kept,
  )
  Reads-in_front w offset size n b (thrown v) len le at kept = kept
  Reads-in_front w offset size n b stuck len le at h = h

  read_round-Reads :
      (w v : W) (reply : Reply) (offset size : ℕ) (again : W → ℕ → ℕ → Result W (List ℕ))
      → pread w (suc size) offset ≡ (reply, v)
      → ((v' : W) (offset' size' : ℕ)
          → size' + signals v' < suc size + signals w
          → Reads v' offset' size' (again v' offset' size'))
      → Reads w offset (suc size) (read_round pread (reply, v) offset (suc size) again)
  unfolding read_round
  read_round-Reads w v interrupted offset size again e more =
      let kept : contents v ≡ contents w =
        ap (λ (p : Reply × W). contents p.1) (sym e) ∙ sys.keeps w (suc size) offset in
      let used : signals v < signals w =
        rw (ap (λ (p : Reply × W). signals p.1) (sym e))
          (sys.uses_up w (suc size) offset (ap (λ (p : Reply × W). p.0) e)) in
      Reads-same w v offset (suc size) (again v offset (suc size)) kept
        (more v offset (suc size) (omega arith))
  read_round-Reads w v failed offset size again e more =
      ap (λ (p : Reply × W). contents p.1) (sym e) ∙ sys.keeps w (suc size) offset
  read_round-Reads w v (bytes []) offset size again e more =
      ap (λ (p : Reply × W). contents p.1) (sym e) ∙ sys.keeps w (suc size) offset
  read_round-Reads w v (bytes (c ∷ b)) offset size again e more =
      let kept : contents v ≡ contents w =
        ap (λ (p : Reply × W). contents p.1) (sym e) ∙ sys.keeps w (suc size) offset in
      let (le, at, fewer) = sys.gives w (suc size) offset (c ∷ b) (ap (λ (p : Reply × W). p.0) e) in
      let fewer' : signals v ≤ signals w = rw (ap (λ (p : Reply × W). signals p.1) (sym e)) fewer in
      let n = length (c ∷ b) in
      Reads-in_front w offset (suc size) n (c ∷ b) (again v (offset + n) (suc size - n)) refl le at
        (Reads-same w v (offset + n) (suc size - n) (again v (offset + n) (suc size - n)) kept
          (more v (offset + n) (suc size - n) (omega arith)))

  read_at_loop-Reads :
      (fuel : ℕ) (w : W) (offset size : ℕ)
      → size + signals w < fuel
      → Reads w offset size (read_at pread fuel w offset size)
  unfolding read_at
  read_at_loop-Reads zero w offset size h = absurd (omega arith)
  read_at_loop-Reads (suc fuel) w offset zero h = (refl, refl, refl)
  read_at_loop-Reads (suc fuel) w offset (suc size) h =
      let (reply, v) = pread w (suc size) offset in
      read_round-Reads w v reply offset size (read_at pread fuel) refl
        (λ v' offset' size' lt. read_at_loop-Reads fuel v' offset' size' (omega arith))

  -- On a system whose `pread` does as documented, with one round for every byte and every signal
  -- that may interrupt it, `ReadAt` ends. It gives exactly the bytes that the file has from the
  -- offset on, as many as were asked for, however the system splits them up, or it throws; the
  -- file is left alone.
  pub read_at-Reads :
      (w : W) (offset size : ℕ)
      → Reads w offset size (read_at pread (suc (size + signals w)) w offset size)
  read_at-Reads w offset size =
      read_at_loop-Reads (suc (size + signals w)) w offset size (omega arith)
