-- ===== src/Fatedit/FileWriter/Chain.antt =====
-- tools/fatedit.cpp: a file on the image, as the clusters of its chain and the bytes in them, and
-- what leaves it as it is.
use hausboot.Base.{
  ℕ, ◌+◌, ◌≤◌, ◌<◌, ◌≡◌, refl, sym, ap, ◌∙◌, subst, ◌≢◌, ◌⊎◌, inl, inr, Option, some, List, [],
  ◌++◌, append_assoc, arith, length,
}
use hausboot.Fs.FatSuper.{FatSuper}
use hausboot.Fatedit.FatReader.{next_cluster_in_file, searched}
use hausboot.Fatedit.FileReader.{cluster_file_offset, cluster_size}

-- A table entry that leads to a next cluster.
abbrev pub IsLink : FatSuper → ℕ → Type 0
IsLink s n = (2 ≤ n) × (n < searched s)

-- No two clusters share a byte of the image.
abbrev pub IsApart : FatSuper → Type 0
IsApart s =
    (m n : ℕ)
    → IsLink s m
    → IsLink s n
    → m ≢ n
    → (cluster_file_offset s m + cluster_size s ≤ cluster_file_offset s n)
      ⊎ (cluster_file_offset s n + cluster_size s ≤ cluster_file_offset s m)

-- The bytes from a place in a cluster up to another place, along the table and the image.
pub data Chain (raw : List ℕ) (s : FatSuper) (image : ℕ → ℕ → Option (List ℕ))
    : ℕ → ℕ → List ℕ → ℕ → ℕ → Type 0 where
  here : {c o : ℕ} → Chain raw s image c o [] c o
  piece :
      {c o c' o' : ℕ} (b d : List ℕ)
      → 0 < length b
      → o + length b ≤ cluster_size s
      → image (cluster_file_offset s c + o) (length b) ≡ some b
      → Chain raw s image c (o + length b) d c' o'
      → Chain raw s image c o (b ++ d) c' o'
  hop :
      {c o c' o' : ℕ} (n : ℕ) (d : List ℕ)
      → o ≡ cluster_size s
      → next_cluster_in_file raw c ≡ some n
      → IsLink s n
      → Chain raw s image n 0 d c' o'
      → Chain raw s image c o d c' o'

module _ (raw : List ℕ) (s : FatSuper) (image : ℕ → ℕ → Option (List ℕ)) where
  -- Two stretches, one behind the other.
  pub Chain-trans :
      {c o c' o' c'' o'' : ℕ} {d e : List ℕ}
      → Chain raw s image c o d c' o'
      → Chain raw s image c' o' e c'' o''
      → Chain raw s image c o (d ++ e) c'' o''
  Chain-trans here k = k
  Chain-trans {c'' = c''} {o'' = o''} {e = e} (piece {c} {o} {c'} {o'} b d pos fits r rest) k =
      subst (λ (l : List ℕ). Chain raw s image c o l c'' o'') (sym (append_assoc b d e))
        (piece b (d ++ e) pos fits r (Chain-trans rest k))
  Chain-trans {e = e} (hop n d at e' l rest) k = hop n (d ++ e) at e' l (Chain-trans rest k)

  -- A stretch ends in its first cluster, or leaves it along a link.
  pub Chain-first :
      {c o c' o' : ℕ} {d : List ℕ}
      → Chain raw s image c o d c' o'
      → ((c ≡ c') × (o ≤ o')) ⊎ ((n : ℕ) × (next_cluster_in_file raw c ≡ some n) × IsLink s n)
  Chain-first here = inl (refl, omega arith)
  Chain-first (piece b d pos fits r rest) = elim (Chain-first rest) [
    | inl (e, le) ↦ inl (e, omega arith)
    | inr l ↦ inr l
  ]
  Chain-first (hop n d at e l rest) = inr (n, e, l)

  -- A table that keeps the links keeps a stretch.
  pub Chain-raw :
      {c o c' o' : ℕ} {d : List ℕ} (raw' : List ℕ)
      → ((m n : ℕ)
          → IsLink s m
          → next_cluster_in_file raw m ≡ some n
          → IsLink s n
          → next_cluster_in_file raw' m ≡ some n)
      → IsLink s c
      → Chain raw s image c o d c' o'
      → Chain raw' s image c o d c' o'
  Chain-raw raw' keep lc here = here
  Chain-raw raw' keep lc (piece b d pos fits r rest) =
      piece b d pos fits r (Chain-raw raw' keep lc rest)
  Chain-raw raw' keep lc (hop {c} n d at e l rest) =
      hop n d at (keep c n lc e l) l (Chain-raw raw' keep l rest)

  -- The last cluster of a stretch is no other cluster that has a link.
  pub last_ne :
      (c c' n : ℕ)
      → searched s ≤ 0x0FFFFFF8
      → next_cluster_in_file raw c' ≡ some 0x0FFFFFF8
      → next_cluster_in_file raw c ≡ some n
      → IsLink s n
      → c ≢ c'
  last_ne c c' n le e e' (lo, hi) same =
      let q : some n ≡ some 0x0FFFFFF8 = sym e' ∙ ap (next_cluster_in_file raw) same ∙ e in
      let q' : n ≡ 0x0FFFFFF8 = cc in absurd (omega arith)

  -- So does an image that keeps what lies apart from a piece behind the stretch.
  pub Chain-image :
      {c o c' o' : ℕ} {d : List ℕ} (image' : ℕ → ℕ → Option (List ℕ)) (len : ℕ)
      → searched s ≤ 0x0FFFFFF8
      → IsApart s
      → next_cluster_in_file raw c' ≡ some 0x0FFFFFF8
      → IsLink s c'
      → o' + len ≤ cluster_size s
      → ((start size : ℕ) (old : List ℕ)
          → (start + size ≤ cluster_file_offset s c' + o')
            ⊎ (cluster_file_offset s c' + o' + len ≤ start)
          → image start size ≡ some old
          → image' start size ≡ some old)
      → IsLink s c
      → Chain raw s image c o d c' o'
      → Chain raw s image' c o d c' o'
  Chain-image image' len le apart end lc' room keep lc here = here
  Chain-image image' len le apart end lc' room keep lc
        (piece {c} {o} {c'} {o'} b d pos fits r rest) =
      let clear : (cluster_file_offset s c + o + length b ≤ cluster_file_offset s c' + o')
          ⊎ (cluster_file_offset s c' + o' + len ≤ cluster_file_offset s c + o) =
        elim (Chain-first rest) [
          | inl (same, before) ↦ inl (omega (arith, ap (cluster_file_offset s) same))
          | inr (n, e, l) ↦ elim (apart c c' lc lc' (last_ne c c' n le end e l)) [
            | inl below ↦ inl (omega arith)
            | inr above ↦ inr (omega arith)
          ]
        ] in
      piece b d pos fits (keep _ (length b) b clear r)
        (Chain-image image' len le apart end lc' room keep lc rest)
  Chain-image image' len le apart end lc' room keep lc (hop n d at e l rest) =
      hop n d at e l (Chain-image image' len le apart end lc' room keep l rest)
