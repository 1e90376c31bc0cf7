-- ===== src/Fatedit/FileReader/Reads.antt =====
-- tools/fatedit.cpp, `FileReader`: what a read leaves.
use hausboot.Base.{
  ℕ, zero, suc, ◌+◌, ◌-◌, ◌≤◌, ◌<◌, ◌≡◌, refl, sym, ap, ◌∙◌, ◌⊎◌, inl, inr, ◌||◌, Option, none,
  some, List, arith, ltb, leb, ◌==◌, if◌then◌else◌, Bool-cases, Option-cases, length, length-append,
}
use hausboot.Fs.FatSuper.{FatSuper}
use hausboot.Fatedit.FatReader.{next_cluster_in_file}
use hausboot.Fatedit.FileReader.{
  FileReader, cluster_file_offset, data_left_in_cluster, follow_entry, next_cluster, Read, got,
  thrown, stuck, prefix, transfer, advance, read_loop, count_read, read,
}

-- What the loop leaves is well: as many bytes as were asked for at most, and the reader's size
-- goes down by as many or to 0.
abbrev pub Reads : FileReader → ℕ → Read → Type 0
Reads r size (got b r') =
    (r'.total_read ≡ r.total_read)
    × (length b ≤ size)
    × (r'.size + length b ≤ r.size)
    × ((r'.size + length b ≡ r.size) ⊎ (r'.size ≡ 0))
Reads r size thrown = Unit {0}
Reads r size stuck = ⊥

-- The same of `Read`, which counts the bytes.
abbrev pub Delivers : FileReader → ℕ → Read → Type 0
Delivers r size (got b r') =
    (r'.total_read ≡ r.total_read + length b)
    × (length b ≤ size)
    × (r'.size + length b ≤ r.size)
    × ((r'.size + length b ≡ r.size) ⊎ (r'.size ≡ 0))
Delivers r size thrown = Unit {0}
Delivers r size stuck = ⊥

Reads-prefix :
    (r r' : FileReader) (size diff : ℕ) (b : List ℕ) (x : Read)
    → length b ≡ diff
    → diff ≤ size
    → diff ≤ r.size
    → r'.size ≡ r.size - diff
    → r'.total_read ≡ r.total_read
    → Reads r' (size - diff) x
    → Reads r size (prefix b x)
unfolding prefix
Reads-prefix r r' size diff b (got c r'') len le le' sz tot (all, short, fit, inl sum) = (
  all ∙ tot,
  omega (arith, length-append b c),
  omega (arith, length-append b c),
  inl (omega (arith, length-append b c)),
)
Reads-prefix r r' size diff b (got c r'') len le le' sz tot (all, short, fit, inr z) =
    (all ∙ tot, omega (arith, length-append b c), omega (arith, length-append b c), inr z)
Reads-prefix r r' size diff b thrown len le le' sz tot h = tt
Reads-prefix r r' size diff b stuck len le le' sz tot h = elim h [ ]

data_left_bounds : (s : FatSuper) (r : FileReader) → data_left_in_cluster s r ≤ r.size
unfolding data_left_in_cluster
data_left_bounds s r = ground arith

-- The image gives as many bytes as it is asked for.
abbrev pub IsImage : (ℕ → ℕ → Option (List ℕ)) → Type 0
IsImage image = (offset size : ℕ) (b : List ℕ) → image offset size ≡ some b → length b ≡ size

module _ (raw : List ℕ) (s : FatSuper) (image : ℕ → ℕ → Option (List ℕ))
    (good : IsImage image) where
  transfer-some :
      (r : FileReader) (size left : ℕ) (b : List ℕ) (again : FileReader → ℕ → Read)
      → let diff = if ltb size left then size else left in
        image (cluster_file_offset s r.cluster + r.offset) diff ≡ some b
        → transfer raw s image r size left again
          ≡ prefix b
              (again (record r { offset = r.offset + diff; size = r.size - diff }) (size - diff))
  unfolding transfer
  transfer-some r size left b again e = rw (transfer, e) refl

  transfer-none :
      (r : FileReader) (size left : ℕ) (again : FileReader → ℕ → Read)
      → let diff = if ltb size left then size else left in
        image (cluster_file_offset s r.cluster + r.offset) diff ≡ none
        → transfer raw s image r size left again ≡ thrown
  unfolding transfer
  transfer-none r size left again e = rw (transfer, e) refl

  transfer-Reads :
      (r : FileReader) (size left : ℕ) (again : FileReader → ℕ → Read)
      → 0 < left
      → 0 < size
      → left ≤ r.size
      → ((r' : FileReader) (size' : ℕ) → size' < size → Reads r' size' (again r' size'))
      → Reads r size (transfer raw s image r size left again)
  transfer-Reads r size left again pos pos' le k =
      let diff = if ltb size left then size else left in
      let d_pos : 0 < diff = ground arith in
      let d_le : diff ≤ size = ground arith in
      let d_le' : diff ≤ r.size = ground arith in
      let r' = record r { offset = r.offset + diff; size = r.size - diff } in
      elim (Option-cases (image (cluster_file_offset s r.cluster + r.offset) diff)) [
        | inl failed ↦ rw (transfer-none r size left again failed) tt
        | inr (b, e) ↦ rw (transfer-some r size left b again e) (
            Reads-prefix r r' size diff b (again r' (size - diff)) (good _ _ b e) d_le d_le' refl
              refl (k r' (size - diff) (omega arith)))
      ]

  follow_entry-size :
      (r r' : FileReader) (o : Option ℕ)
      → follow_entry r o ≡ some r'
      → (r'.total_read ≡ r.total_read) × ((r'.size ≡ r.size) ⊎ (r'.size ≡ 0))
  unfolding follow_entry
  follow_entry-size r r' none e = cc
  follow_entry-size r r' (some ent) e = elim (Bool-cases (ltb ent 2 || leb 0x0FFFFFF8 ent)) [
    | inl y ↦
        let q : some (record r { offset = 0; size = 0; cluster = 0 }) ≡ some r' = rw y at e in
        let q' : record r { offset = 0; size = 0; cluster = 0 } ≡ r' = cc in
        (
          sym (ap (λ (t : FileReader). t.total_read) q'),
          inr (sym (ap (λ (t : FileReader). t.size) q')),
        )
    | inr n ↦
        let q : some (record r { offset = 0; cluster = ent }) ≡ some r' = rw n at e in
        let q' : record r { offset = 0; cluster = ent } ≡ r' = cc in
        (
          sym (ap (λ (t : FileReader). t.total_read) q'),
          inl (sym (ap (λ (t : FileReader). t.size) q')),
        )
  ]

  next_cluster-size :
      (r r' : FileReader)
      → next_cluster raw r ≡ some r'
      → (r'.total_read ≡ r.total_read) × ((r'.size ≡ r.size) ⊎ (r'.size ≡ 0))
  unfolding next_cluster
  next_cluster-size r r' e = elim (Bool-cases (r.size == 0)) [
    | inl z ↦
        let q : some (record r { offset = 0; cluster = 0 }) ≡ some r' = rw z at e in
        let q' : record r { offset = 0; cluster = 0 } ≡ r' = cc in
        (
          sym (ap (λ (t : FileReader). t.total_read) q'),
          inl (sym (ap (λ (t : FileReader). t.size) q')),
        )
    | inr n ↦ follow_entry-size r r' (next_cluster_in_file raw r.cluster) (rw n at e)
  ]

  Reads-same :
      (r r' : FileReader) (size : ℕ) (x : Read)
      → (r'.total_read ≡ r.total_read) × ((r'.size ≡ r.size) ⊎ (r'.size ≡ 0))
      → Reads r' size x
      → Reads r size x
  Reads-same r r' size (got b r'') (tot, inl e) (all, short, fit, inl sum) =
      (all ∙ tot, short, omega arith, inl (sum ∙ e))
  Reads-same r r' size (got b r'') (tot, inr e) (all, short, fit, inl sum) =
      (all ∙ tot, short, omega arith, inr (omega arith))
  Reads-same r r' size (got b r'') (tot, inl e) (all, short, fit, inr z) =
      (all ∙ tot, short, omega arith, inr z)
  Reads-same r r' size (got b r'') (tot, inr e) (all, short, fit, inr z) =
      (all ∙ tot, short, omega arith, inr z)
  Reads-same r r' size thrown o h = tt
  Reads-same r r' size stuck o h = elim h [ ]

  advance-Reads :
      (r r' : FileReader) (size : ℕ) (again : FileReader → ℕ → Read)
      → 0 < size
      → next_cluster raw r ≡ some r'
      → ((r' : FileReader) (size' : ℕ) → size' < size → Reads r' size' (again r' size'))
      → Reads r' size (advance raw s image (some r') size again)
  unfolding advance
  advance-Reads r r' size again pos e k = elim (Bool-cases (data_left_in_cluster s r' == 0)) [
    | inl z ↦ rw (z, advance) (refl, omega arith, omega arith, inl (omega arith))
    | inr n ↦
        rw (n, advance)
          (transfer-Reads r' size (data_left_in_cluster s r') again (ground arith) pos
            (data_left_bounds s r') k)
  ]

  read_loop-Reads :
      (fuel : ℕ) (r : FileReader) (size : ℕ)
      → size < fuel
      → Reads r size (read_loop raw s image fuel r size)
  unfolding read_loop advance
  read_loop-Reads zero r size h = absurd (omega arith)
  read_loop-Reads (suc fuel) r size h =
      let again : (r' : FileReader) (size' : ℕ)
          → size' < size
          → Reads r' size' (read_loop raw s image fuel r' size') =
        λ r' size' lt. read_loop-Reads fuel r' size' (omega arith) in
      elim (Bool-cases (size == 0)) [
        | inl z ↦ rw (z, read_loop) (refl, omega arith, omega arith, inl (omega arith))
        | inr n ↦ elim (Bool-cases (data_left_in_cluster s r == 0)) [
          | inr some_left ↦
              rw (n, some_left, read_loop)
                (transfer-Reads r size (data_left_in_cluster s r) (read_loop raw s image fuel)
                  (ground arith) (ground arith) (data_left_bounds s r) again)
          | inl none_left ↦ elim (Option-cases (next_cluster raw r)) [
            | inl failed ↦ rw (n, none_left, failed, read_loop, advance) tt
            | inr (r', e) ↦
                rw (n, none_left, e, read_loop)
                  (Reads-same r r' size _ (next_cluster-size r r' e)
                    (advance-Reads r r' size (read_loop raw s image fuel) (ground arith) e again))
          ]
        ]
      ]

  Delivers-count_read :
      (r : FileReader) (size : ℕ) (x : Read)
      → Reads r size x
      → Delivers r size (count_read raw s image x)
  unfolding count_read
  Delivers-count_read r size (got b r') (all, short, fit, rest) =
      (ap (λ t. t + length b) all, short, fit, rest)
  Delivers-count_read r size thrown h = tt
  Delivers-count_read r size stuck h = elim h [ ]

  -- On an image that gives as many bytes as it is asked for, `Read` ends or throws. It returns at
  -- most as many bytes as were asked for and as the reader's size allows, and counts them. It
  -- takes exactly those off the size, unless the chain or the size has come to an end and the size
  -- is 0.
  pub read-Delivers : (r : FileReader) (size : ℕ) → Delivers r size (read raw s image r size)
  unfolding read
  read-Delivers r size =
      Delivers-count_read r size _ (read_loop-Reads (suc size) r size (omega arith))
