-- ===== src/Fs/FatFs/ReadAt.antt =====
-- `ReadAt` against a description of a file: the bytes of its clusters, in the order of the chain.
use hausboot.Base.{
  ℕ, zero, suc, ◌+◌, ◌-◌, ◌*◌, ◌^◌, ◌≤◌, ◌<◌, min, ◌≡◌, refl, sym, ap, ap₂, ◌∙◌, inl, inr, true,
  false, ◌&&◌, some, List, [], ◌++◌, arith, ltb, leb, if◌then◌else◌, ltb→lt, leb→le, Bool-cases,
  length, take, drop, length-drop, take_all, drop_all, drop-append_right, take-append_left,
  drop-append_left, take-append_right,
}
use hausboot.Device.{BlockDevice, IsDevice}
use hausboot.Fs.FatSuper.{FatSuper, cluster_index_to_sector}
use hausboot.Fs.FatFs.{
  FatFs, FatFile, chain_end, bytes_per_cluster, ReadResult, bytes, prepend, read_loop, read_at,
  load_data_cluster, read_fat_index,
}
use hausboot.Fs.FatFs.Windows.{
  IsCoherent, cluster_bytes, fat_entry, load_data_cluster_lem, read_fat_index_lem, sectors-length,
}

-- The chain from `cluster` on reaches an end mark, and its clusters hold `content`.
pub data FileAt (dev : BlockDevice) (super : FatSuper) : ℕ → List ℕ → Type 0 where
  stop :
      {cluster : ℕ} {content : List ℕ}
      → chain_end ≤ cluster
      → content ≡ []
      → FileAt dev super cluster content
  step :
      {cluster : ℕ} {content : List ℕ} (next : ℕ) (d rest : List ℕ)
      → 2 ≤ cluster
      → cluster < chain_end
      → cluster_bytes dev super cluster ≡ some d
      → fat_entry dev super cluster ≡ some next
      → content ≡ d ++ rest
      → FileAt dev super next rest
      → FileAt dev super cluster content

-- A volume that the reader can work with.
pub record IsVolume (dev : BlockDevice) (super : FatSuper) : Type 0 where
  pub device : IsDevice dev
  pub cluster_pos : 0 < super.sectors_per_cluster * dev.sector_size
  pub fat_fits : super.sectors_per_fat < 2 ^ 32

-- The bytes from `offset` on, `size` of them at most.
abbrev pub slice : ℕ → ℕ → List ℕ → List ℕ
slice offset size content = take size (drop offset content)

slice-nil : (offset size : ℕ) → slice offset size [] ≡ []
slice-nil offset size =
    let none_left : drop {A = ℕ} offset [] ≡ [] = drop_all offset [] (omega arith) in
    rw none_left (take_all size [] (omega arith))

slice_within :
    (offset size : ℕ) (d rest : List ℕ)
    → offset + size ≤ length d
    → slice offset size (d ++ rest) ≡ slice offset size d
slice_within offset size d rest h =
    rw (drop-append_left d rest offset (omega arith))
      (take-append_left (drop offset d) rest size (omega (arith, length-drop offset d)))

slice_across :
    (offset size : ℕ) (d rest : List ℕ)
    → offset ≤ length d
    → length d - offset ≤ size
    → slice offset size (d ++ rest)
      ≡ slice offset (length d - offset) d ++ slice 0 (size - (length d - offset)) rest
slice_across offset size d rest h k =
    let n = length d - offset in
    let len : length (drop offset d) ≡ n = length-drop offset d in
    let whole : take n (drop offset d) ≡ drop offset d = take_all n (drop offset d) (omega arith) in
    let sum : size ≡ length (drop offset d) + (size - n) = omega arith in
    rw (drop-append_left d rest offset h, whole)
      (ap (λ k. take k (drop offset d ++ rest)) sum
        ∙ take-append_right (drop offset d) rest (size - n))

slice_beyond :
    (offset size : ℕ) (d rest : List ℕ)
    → length d ≤ offset
    → slice offset size (d ++ rest) ≡ slice (offset - length d) size rest
slice_beyond offset size d rest h =
    let sum : offset ≡ length d + (offset - length d) = omega arith in
    ap (take size) (ap (λ k. drop k (d ++ rest)) sum ∙ drop-append_right d rest (offset - length d))

-- One round of the loop of `ReadAt`, branch by branch.
module _ (dev : BlockDevice) (fuel : ℕ) (fs : FatFs) (cluster offset size : ℕ) where
  read_loop_done :
      (ltb 0 size && ltb cluster chain_end) ≡ false
      → read_loop dev (suc fuel) fs cluster offset size ≡ (bytes [], fs)
  unfolding read_loop
  read_loop_done t = rw t refl

  read_loop_skip :
      (n : ℕ) (fs' : FatFs)
      → 0 < size
      → cluster < chain_end
      → bytes_per_cluster dev fs.super ≤ offset
      → read_fat_index dev fs cluster ≡ (some n, fs')
      → read_loop dev (suc fuel) fs cluster offset size
        ≡ read_loop dev fuel fs' n (offset - bytes_per_cluster dev fs.super) size
  unfolding read_loop
  read_loop_skip n fs' s c o e =
      let t : ltb 0 size ≡ true = ground arith in
      let t' : ltb cluster chain_end ≡ true = ground arith in
      let t'' : ltb offset (bytes_per_cluster dev fs.super) ≡ false = ground arith in
      rw (t, t', t'', e) refl

  module _ (fs' : FatFs) (s : 0 < size) (c : cluster < chain_end)
      (o : offset < bytes_per_cluster dev fs.super)
      (loaded : load_data_cluster dev fs cluster ≡ (true, fs')) (kept : fs'.super ≡ fs.super) where
    t : ltb 0 size ≡ true
    t = ground arith

    t' : ltb cluster chain_end ≡ true
    t' = ground arith

    t'' : ltb offset (bytes_per_cluster dev fs.super) ≡ true
    t'' = ground arith

    size_kept : bytes_per_cluster dev fs'.super ≡ bytes_per_cluster dev fs.super
    size_kept = ap (bytes_per_cluster dev) kept

    read_loop_last :
        size ≤ bytes_per_cluster dev fs.super - offset
        → read_loop dev (suc fuel) fs cluster offset size
          ≡ (bytes (take size (drop offset fs'.data_window)), fs')
    unfolding read_loop
    read_loop_last h =
        let diff : min (bytes_per_cluster dev fs.super - offset) size ≡ size = omega arith in
        let left : ltb 0 (size - size) ≡ false = ground arith in
        rw (t, t', t'', loaded, size_kept, diff, left) refl

    read_loop_next :
        (n : ℕ) (fs'' end' : FatFs) (r : ReadResult)
        → bytes_per_cluster dev fs.super - offset < size
        → read_fat_index dev fs' cluster ≡ (some n, fs'')
        → read_loop dev fuel fs'' n 0 (size - (bytes_per_cluster dev fs.super - offset)) ≡ (r, end')
        → read_loop dev (suc fuel) fs cluster offset size ≡ (
          prepend (take (bytes_per_cluster dev fs.super - offset) (drop offset fs'.data_window)) r,
          end',
        )
    unfolding read_loop
    read_loop_next n fs'' end' r h link rest =
        let k = bytes_per_cluster dev fs.super - offset in
        let diff : min k size ≡ k = omega arith in
        let left : ltb 0 (size - k) ≡ true = ground arith in
        rw (t, t', t'', loaded, size_kept, diff, left, link, rest) refl

module _ (dev : BlockDevice) (super : FatSuper) (v : IsVolume dev super) where
  -- What a run of the loop has to show.
  abbrev Reads : ReadResult × FatFs → List ℕ → Type 0
  Reads run out = (fs : FatFs) × (run ≡ (bytes out, fs)) × (fs.super ≡ super) × IsCoherent dev fs

  module _ (fuel : ℕ) (fs : FatFs) (cluster next : ℕ) (d rest : List ℕ) (low : 2 ≤ cluster)
      (high : cluster < chain_end) (held : cluster_bytes dev super cluster ≡ some d)
      (link : fat_entry dev super cluster ≡ some next) (es : fs.super ≡ super)
      (good : IsCoherent dev fs)
      (ih : (fs' : FatFs) (offset size : ℕ)
        → fs'.super ≡ super
        → IsCoherent dev fs'
        → offset + size < fuel
        → Reads (read_loop dev fuel fs' next offset size) (slice offset size rest)) where
    len' : length d ≡ super.sectors_per_cluster * dev.sector_size
    len' =
        sectors-length dev v.device (cluster_index_to_sector super cluster)
          super.sectors_per_cluster 0 d held

    len : length d ≡ bytes_per_cluster dev fs.super
    len = len' ∙ sym (ap (bytes_per_cluster dev) es ∙ unfold bytes_per_cluster in refl)

    fits : fs.super.sectors_per_fat < 2 ^ 32
    fits = rw es v.fat_fits

    beyond :
        (offset size : ℕ)
        → 0 < size
        → length d ≤ offset
        → offset + size < suc fuel
        → Reads (read_loop dev (suc fuel) fs cluster offset size) (slice offset size (d ++ rest))
    beyond offset size s h enough =
        let pos : 0 < length d = rw len' v.cluster_pos in
        let (fs', read, kept, window, good') =
          read_fat_index_lem dev v.device fs good cluster next fits (rw es link) in
        let one =
          read_loop_skip dev fuel fs cluster offset size next fs' s high (omega (arith, len))
            read in
        let (end', ran, es', good'') =
          ih fs' (offset - length d) size (kept ∙ es) good' (omega arith) in
        (
          end',
          one
              ∙ ap (λ k. read_loop dev fuel fs' next (offset - k) size) (sym len)
              ∙ ran
              ∙ ap (λ (t : List ℕ). (bytes t, end')) (sym (slice_beyond offset size d rest h)),
          es',
          good'',
        )

    within :
        (offset size : ℕ)
        → 0 < size
        → offset < length d
        → offset + size < suc fuel
        → Reads (read_loop dev (suc fuel) fs cluster offset size) (slice offset size (d ++ rest))
    within offset size s h enough =
        let (fs1, loaded, kept, window, good1) =
          load_data_cluster_lem dev v.device fs good cluster d low (omega arith) (rw es held) in
        let o : offset < bytes_per_cluster dev fs.super = omega (arith, len) in
        elim (Bool-cases (leb size (length d - offset))) [
          | inl last ↦
              let short : size ≤ length d - offset = leb→le _ _ last in
              let one =
                read_loop_last dev fuel fs cluster offset size fs1 s high o loaded kept
                  (omega (arith, len)) in
              (
                fs1,
                one
                    ∙ ap (λ (w : List ℕ). (bytes (slice offset size w), fs1)) window
                    ∙ ap (λ (t : List ℕ). (bytes t, fs1))
                        (sym (slice_within offset size d rest (omega arith))),
                kept ∙ es,
                good1,
              )
          | inr more ↦
              let long : length d - offset < size = ground arith in
              let (fs2, read, kept2, window2, good2) =
                read_fat_index_lem dev v.device fs1 good1 cluster next (rw (kept, es) v.fat_fits)
                  (rw (kept, es) link) in
              let (end', ran, es', good') =
                ih fs2 0 (size - (length d - offset)) (kept2 ∙ kept ∙ es) good2 (omega arith) in
              let ran' : read_loop dev fuel fs2 next 0
                    (size - (bytes_per_cluster dev fs.super - offset))
                  ≡ (bytes (slice 0 (size - (length d - offset)) rest), end') =
                ap (λ k. read_loop dev fuel fs2 next 0 (size - (k - offset))) (sym len) ∙ ran in
              let one =
                read_loop_next dev fuel fs cluster offset size fs1 s high o loaded kept next fs2
                  end' (bytes (slice 0 (size - (length d - offset)) rest)) (omega (arith, len)) read
                  ran' in
              (
                end',
                one
                    ∙ ap₂
                        (λ k (w : List ℕ). (
                          bytes (
                              take (k - offset) (drop offset w)
                              ++ slice 0 (size - (length d - offset)) rest),
                          end',
                        ))
                        (sym len) window
                    ∙ ap (λ (t : List ℕ). (bytes t, end'))
                        (sym (slice_across offset size d rest (omega arith) (omega arith))),
                es',
                good',
              )
        ]

  read_loop_lem :
      (fuel : ℕ) (fs : FatFs) (cluster offset size : ℕ) (content : List ℕ)
      → FileAt dev super cluster content
      → fs.super ≡ super
      → IsCoherent dev fs
      → offset + size < fuel
      → Reads (read_loop dev fuel fs cluster offset size) (slice offset size content)
  read_loop_lem zero fs cluster offset size content f es good h = absurd (omega arith)
  read_loop_lem (suc fuel) fs cluster offset size content (stop past e) es good h =
      let t : (ltb 0 size && ltb cluster chain_end) ≡ false = ground arith in
      (
        fs,
        rw (read_loop_done dev fuel fs cluster offset size t, e, slice-nil offset size) refl,
        es,
        good,
      )
  read_loop_lem (suc fuel) fs cluster offset size content (step next d rest low high held link e f)
        es good h =
      let ih = λ (fs' : FatFs) (offset size : ℕ). read_loop_lem fuel fs' next offset size rest f in
      rw e (elim (Bool-cases (ltb 0 size)) [
        | inr none_left ↦
            let zero_size : size ≡ 0 = ground arith in
            (fs, rw zero_size (read_loop_done dev fuel fs cluster offset 0 refl), es, good)
        | inl some_left ↦
            let s : 0 < size = ltb→lt _ _ some_left in
            elim (Bool-cases (ltb offset (length d))) [
              | inl inside ↦
                  within fuel fs cluster next d rest low high held link es good ih offset size s
                    (ltb→lt _ _ inside) h
              | inr outside ↦
                  beyond fuel fs cluster next d rest low high held link es good ih offset size s
                    (ground arith) h
            ]
      ])

  -- What a read can give: up to `size` bytes from `offset` on, within the file's size where the
  -- entry gives one.
  abbrev pub readable : FatFile → ℕ → ℕ → List ℕ → List ℕ
  readable finfo offset size content =
      slice offset (if ltb 0 finfo.size then min size (finfo.size - offset) else size) content

  -- On a volume whose chain for the file is intact, and with windows that hold what their
  -- indices name, `ReadAt` succeeds: the buffer gets exactly the file's bytes from the offset on,
  -- as many as were asked for and are there, and the windows stay coherent. `offset + size + 1`
  -- rounds of its loop are enough.
  pub read_at_lem :
      (fuel : ℕ) (fs : FatFs) (finfo : FatFile) (offset size : ℕ) (content : List ℕ)
      → FileAt dev super finfo.cluster content
      → fs.super ≡ super
      → IsCoherent dev fs
      → offset + size < fuel
      → (fs' : FatFs) × (read_at dev fuel fs finfo offset size
          ≡ (bytes (readable finfo offset size content), fs'))
        × (fs'.super ≡ super)
        × IsCoherent dev fs'
  unfolding read_at
  read_at_lem fuel fs finfo offset size content f es good h = elim (Bool-cases (ltb 0 finfo.size)) [
    | inr open_end ↦
        rw open_end (read_loop_lem fuel fs finfo.cluster offset size content f es good h)
    | inl sized ↦ elim (Bool-cases (leb finfo.size offset)) [
      | inl past ↦
          let nothing : min size (finfo.size - offset) ≡ 0 = ground arith in
          rw (sized, past, nothing) (fs, refl, es, good)
      | inr inside ↦
          rw (sized, inside)
            (read_loop_lem fuel fs finfo.cluster offset (min size (finfo.size - offset)) content f
              es good (omega arith))
    ]
  ]
