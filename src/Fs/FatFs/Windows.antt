-- ===== src/Fs/FatFs/Windows.antt =====
-- The two windows hold what their indices name, and loading keeps them so.
use hausboot.Base.{
  ℕ, zero, suc, ◌+◌, ◌*◌, ◌/◌, ◌%◌, ◌^◌, ◌≤◌, ◌<◌, ◌≡◌, refl, sym, ap, ◌∙◌, ◌⊎◌, inl, inr, true,
  false, Option, none, some, List, [], ◌∷◌, ◌++◌, append_assoc, append-nil, arith, ltb, leb, ◌==◌,
  if◌then◌else◌, ==_iff, Bool-cases, Option-cases, length, length-append, take, drop,
  take-append-drop, length-take, length-drop, take-length-append, drop-length-append, drop_all,
  drop-append_right,
}
use hausboot.Device.{BlockDevice, IsDevice}
use hausboot.Fs.FatSuper.{FatSuper, cluster_index_to_sector}
use hausboot.Fs.FatFs.{
  FatFs, patch, no_index, load_loop, load_data_cluster, load_fat_sector, read_fat_index,
}
use hausboot.Types.UnalignedInt.{le_value}

module _ (dev : BlockDevice) where
  -- The bytes of `left` sectors from the `i`-th on behind sector `lba`.
  abbrev pub sectors : ℕ → ℕ → ℕ → Option (List ℕ)
  sectors lba zero i = some []
  sectors lba (suc left) i = elim (dev.load_sector ((lba + i) % 2 ^ 32)) [
    | none ↦ none
    | some d ↦ elim (sectors lba left (i + 1)) [ none ↦ none | some rest ↦ some (d ++ rest) ]
  ]

  -- What the disk holds for a cluster and for a sector of the table.
  abbrev pub cluster_bytes : FatSuper → ℕ → Option (List ℕ)
  cluster_bytes super index =
      sectors (cluster_index_to_sector super index) super.sectors_per_cluster 0

  abbrev pub fat_bytes : FatSuper → ℕ → Option (List ℕ)
  fat_bytes super sector =
      if leb super.sectors_per_fat sector
      then none
      else dev.load_sector ((super.num_reserved_sectors + sector) % 2 ^ 32)

  -- The table's entry for a cluster.
  abbrev pub fat_entry : FatSuper → ℕ → Option ℕ
  fat_entry super index = elim (fat_bytes super (index * 4 % 2 ^ 32 / dev.sector_size)) [
    | none ↦ none
    | some d ↦ some (le_value (take 4 (drop (index * 4 % 2 ^ 32 % dev.sector_size) d)))
  ]

  pub record IsCoherent (fs : FatFs) : Type 0 where
    pub fat_length : length fs.fat_window ≡ dev.sector_size
    pub data_length : length fs.data_window ≡ fs.super.sectors_per_cluster * dev.sector_size
    pub fat :
        (fs.current_fat_sector ≡ no_index)
        ⊎ (fat_bytes fs.super fs.current_fat_sector ≡ some fs.fat_window)
    pub data_ok :
        (fs.current_data_cluster ≡ no_index)
        ⊎ (cluster_bytes fs.super fs.current_data_cluster ≡ some fs.data_window)

  -- A run of sectors that load is the first sector and the rest.
  pub sectors-suc :
      (lba left i : ℕ) (d : List ℕ)
      → sectors lba (suc left) i ≡ some d
      → (s t : List ℕ) × (dev.load_sector ((lba + i) % 2 ^ 32) ≡ some s)
        × (sectors lba left (i + 1) ≡ some t)
        × (d ≡ s ++ t)
  sectors-suc lba left i d e = elim (Option-cases (dev.load_sector ((lba + i) % 2 ^ 32))) [
    | inl failed ↦ cc (rw (failed, sectors) at e)
    | inr (s, got) ↦ elim (Option-cases (sectors lba left (i + 1))) [
      | inl failed ↦ cc (rw (got, failed, sectors) at e)
      | inr (t, got') ↦
          (let e' : some (s ++ t) ≡ some d = rw (got, got', sectors) at e in (s, t, got, got', cc))
    ]
  ]

patch-append :
    (pre old rest s : List ℕ) (k : ℕ)
    → k ≡ length pre
    → length old ≡ length s
    → patch (pre ++ (old ++ rest)) k s ≡ pre ++ (s ++ rest)
patch-append pre old rest s k e h =
    let front : take k (pre ++ (old ++ rest)) ≡ pre = rw e (take-length-append pre _) in
    let back : drop (k + length s) (pre ++ (old ++ rest)) ≡ rest =
      rw (e, ← h)
        (drop-append_right pre (old ++ rest) (length old) ∙ drop-length-append old rest) in
    rw (front, back) refl

module _ (dev : BlockDevice) (is : IsDevice dev) where
  pub sectors-length :
      (lba left i : ℕ) (d : List ℕ)
      → sectors dev lba left i ≡ some d
      → length d ≡ left * dev.sector_size
  sectors-length lba zero i d e = let e' : d ≡ [] = cc in rw e' (omega arith)
  sectors-length lba (suc left) i d e =
      let (s, t, here, there, joined) = sectors-suc dev lba left i d e in
      rw joined (
        omega (
          arith,
          length-append s t,
          is.sector_length ((lba + i) % 2 ^ 32) s here,
          sectors-length lba left (i + 1) t there,
        ))

  -- The loop of `LoadDataCluster` puts the sectors in the window one behind the other.
  load_loop-sectors :
      (lba left i : ℕ) (pre rest : List ℕ) (d : List ℕ)
      → length pre ≡ i * dev.sector_size
      → length rest ≡ left * dev.sector_size
      → sectors dev lba left i ≡ some d
      → load_loop dev lba left i (pre ++ rest) ≡ (true, pre ++ d)
  unfolding load_loop
  load_loop-sectors lba zero i pre [] d hp hr e = let e' : d ≡ [] = cc in rw e' refl
  load_loop-sectors lba zero i pre (x ∷ rest) d hp hr e = absurd (omega arith)
  load_loop-sectors lba (suc left) i pre rest d hp hr e =
      let (s, t, here, there, joined) = sectors-suc dev lba left i d e in
      let one = is.sector_length ((lba + i) % 2 ^ 32) s here in
      let n = dev.sector_size in
      let old = length-take n rest in
      let new = length-drop n rest in
      let split : pre ++ rest ≡ pre ++ (take n rest ++ drop n rest) =
        ap (λ (r : List ℕ). pre ++ r) (sym (take-append-drop n rest)) in
      let patched : patch (pre ++ (take n rest ++ drop n rest)) (i * n) s
          ≡ pre ++ (s ++ drop n rest) =
        patch-append pre (take n rest) (drop n rest) s (i * n) (sym hp) (omega arith) in
      rw (here, load_loop)
        (ap (λ (w : List ℕ). load_loop dev lba left (i + 1) (patch w (i * n) s)) split
          ∙ ap (λ (w : List ℕ). load_loop dev lba left (i + 1) w)
              (patched ∙ sym (append_assoc pre s (drop n rest)))
          ∙ load_loop-sectors lba left (i + 1) (pre ++ s) (drop n rest) t
              (omega (arith, length-append pre s)) (omega arith) there
          ∙ ap (λ (w : List ℕ). (true, w))
              (append_assoc pre s t ∙ ap (λ (r : List ℕ). pre ++ r) (sym joined)))

-- The object after a load that succeeded: the same disk, the same table window or the same
-- cluster window as said, and windows that hold what their indices name.
module _ (dev : BlockDevice) (is : IsDevice dev) (fs : FatFs) (good : IsCoherent dev fs) where
  pub load_data_cluster_lem :
      (index : ℕ) (d : List ℕ)
      → 2 ≤ index
      → index < no_index
      → cluster_bytes dev fs.super index ≡ some d
      → (fs' : FatFs) × (load_data_cluster dev fs index ≡ (true, fs'))
        × (fs'.super ≡ fs.super)
        × (fs'.data_window ≡ d)
        × IsCoherent dev fs'
  unfolding load_data_cluster
  load_data_cluster_lem index d low high e = elim (Bool-cases (index == fs.current_data_cluster)) [
    | inl cached ↦
        let same : index ≡ fs.current_data_cluster = (==_iff _ _).0 cached in
        let held : cluster_bytes dev fs.super index ≡ some fs.data_window = elim good.data_ok [
          | inl none_yet ↦ absurd (omega arith)
          | inr held ↦ rw same held
        ] in
        let lo : ltb index 2 ≡ false = ground arith in (fs, rw (lo, cached) refl, refl, cc, good)
    | inr other ↦
        let lo : ltb index 2 ≡ false = ground arith in
        let lba = cluster_index_to_sector fs.super index in
        let ran =
          load_loop-sectors dev is lba fs.super.sectors_per_cluster 0 [] fs.data_window d
            (omega arith) good.data_length e in
        (
          record fs { data_window = d; current_data_cluster = index },
          rw (lo, other, ran) refl,
          refl,
          refl,
          record {
            fat_length = good.fat_length;
            data_length = sectors-length dev is lba fs.super.sectors_per_cluster 0 d e;
            fat = good.fat;
            data_ok = inr e;
          },
        )
  ]

  -- `LoadFatSector` of a sector of the table that loads puts it in the window.
  load_fat_sector_lem :
      (sector : ℕ) (d : List ℕ)
      → fs.super.sectors_per_fat < 2 ^ 32
      → fat_bytes dev fs.super sector ≡ some d
      → (fs' : FatFs) × (load_fat_sector dev fs sector ≡ (true, fs'))
        × (fs'.super ≡ fs.super)
        × (fs'.data_window ≡ fs.data_window)
        × (fs'.fat_window ≡ d)
        × IsCoherent dev fs'
  unfolding load_fat_sector
  load_fat_sector_lem sector d small e = elim (Bool-cases (leb fs.super.sectors_per_fat sector)) [
    | inl past ↦ cc (rw (past, fat_bytes) at e)
    | inr within ↦
        let e' : dev.load_sector ((fs.super.num_reserved_sectors + sector) % 2 ^ 32) ≡ some d =
          rw (within, fat_bytes) at e in
        elim (Bool-cases (sector == fs.current_fat_sector)) [
          | inl cached ↦
              let same : sector ≡ fs.current_fat_sector = (==_iff _ _).0 cached in
              let held : fat_bytes dev fs.super sector ≡ some fs.fat_window = elim good.fat [
                | inl none_yet ↦ absurd (ground arith)
                | inr held ↦ rw same held
              ] in
              (fs, rw (within, cached) refl, refl, refl, cc, good)
          | inr other ↦
              let len = is.sector_length _ d e' in
              let whole : patch fs.fat_window 0 d ≡ d =
                ap (λ (t : List ℕ). d ++ t)
                  (ap (λ (k : ℕ). drop k fs.fat_window) {x = 0 + length d} (omega arith)
                    ∙ drop_all (length d) fs.fat_window (omega (arith, good.fat_length)))
                ∙ append-nil d in
              (
                record fs { fat_window = d; current_fat_sector = sector },
                rw (within, other, e', whole) refl,
                refl,
                refl,
                refl,
                record {
                  fat_length = len;
                  data_length = good.data_length;
                  fat = inr (rw (within, fat_bytes) e');
                  data_ok = good.data_ok;
                },
              )
        ]
  ]

  pub read_fat_index_lem :
      (index n : ℕ)
      → fs.super.sectors_per_fat < 2 ^ 32
      → fat_entry dev fs.super index ≡ some n
      → (fs' : FatFs) × (read_fat_index dev fs index ≡ (some n, fs'))
        × (fs'.super ≡ fs.super)
        × (fs'.data_window ≡ fs.data_window)
        × IsCoherent dev fs'
  unfolding read_fat_index
  read_fat_index_lem index n small e =
      let sector = index * 4 % 2 ^ 32 / dev.sector_size in
      let offset = index * 4 % 2 ^ 32 % dev.sector_size in
      elim (Option-cases (fat_bytes dev fs.super sector)) [
        | inl failed ↦ cc (rw (failed, fat_entry) at e)
        | inr (d, got) ↦
            let e' : some (le_value (take 4 (drop offset d))) ≡ some n = rw (got, fat_entry) at e in
            let (fs', ran, super, kept, window, good') = load_fat_sector_lem sector d small got in
            (fs', rw (ran, window) (ap (λ (o : Option ℕ). (o, fs')) e'), super, kept, good')
      ]
