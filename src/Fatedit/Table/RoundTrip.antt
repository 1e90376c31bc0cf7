-- ===== src/Fatedit/Table/RoundTrip.antt =====
-- tools/fatedit.cpp, `WriteToImage` followed by `LoadFromImage`.
use hausboot.Base.{
  ℕ, zero, suc, ◌+◌, ◌*◌, ◌%◌, ◌^◌, ◌≤◌, ◌<◌, ◌≡◌, refl, sym, ap, ◌∙◌, subst, ◌⊎◌, inl, inr, Bool,
  true, false, some, List, arith, leb, length,
}
use hausboot.Base.Options.{bind-some}
use hausboot.Fs.FatSuper.{FatSuper}
use hausboot.Fs.FatDirentLong.{fs_info_is_valid, set_next_free_cluster, set_num_free_cluster}
use hausboot.Fatedit.Outcome.{Image, IsLawful}
use hausboot.Fatedit.FatReader.{find_free_cluster, num_free_clusters}
use hausboot.Fatedit.FatReader.Bounds.{find_free_cluster-lt, num_free_clusters-le}
use hausboot.Fatedit.Table.{
  decode_fs_info, encode_fs_info, table_offset, table_size, info_offset, Loaded, guard, is_place,
  load_from_image, write_copies, update_info, write_to_image,
}
use hausboot.Fatedit.Table.Codec.{InfoFits, decode-encode_fs_info, length-encode_fs_info}

guard-true : (b : Bool) (u : Unit {0}) → guard b ≡ some u → b ≡ true
unfolding guard
guard-true true u e = refl
guard-true false u e = cc

module _ (I : Image) (lawful : IsLawful I) (s : FatSuper) where
  -- A round that does not throw.
  pub write_copies_step :
      (left offset : ℕ) (raw : List ℕ) (image image' : I.State)
      → write_copies I s (suc left) offset raw image ≡ some image'
      → (is_place offset (length raw) ≡ true)
        × (mid : I.State) × (I.write_at image offset raw ≡ some mid)
        × (write_copies I s left ((offset + length raw) % 2 ^ 32) raw mid ≡ some image')
  unfolding write_copies
  write_copies_step left offset raw image image' e =
      let (u, inside, rest) = bind-some (guard (is_place offset (length raw))) _ image' e in
      let (mid, wrote, more) = bind-some (I.write_at image offset raw) _ image' rest in
      (guard-true _ u inside, mid, wrote, more)

  -- What lies apart from the copies is left alone.
  write_copies_apart :
      (left offset : ℕ) (raw : List ℕ) (image image' : I.State) (start size : ℕ) (old : List ℕ)
      → offset + left * length raw < 2 ^ 32
      → write_copies I s left offset raw image ≡ some image'
      → (start + size ≤ offset) ⊎ (offset + left * length raw ≤ start)
      → I.read_at image start size ≡ some old
      → I.read_at image' start size ≡ some old
  unfolding write_copies
  write_copies_apart zero offset raw image image' start size old lim e apart r =
      let q : image ≡ image' = cc in subst (λ (f : I.State). I.read_at f start size ≡ some old) q r
  write_copies_apart (suc left) offset raw image image' start size old lim e apart r =
      let (_, mid, wrote, more) = write_copies_step left offset raw image image' e in
      let whole : suc left * length raw ≡ length raw + left * length raw = omega arith in
      let next : (offset + length raw) % 2 ^ 32 ≡ offset + length raw = omega arith in
      write_copies_apart left ((offset + length raw) % 2 ^ 32) raw mid image' start size old
        (omega arith) more (ground arith)
        (lawful.read_at-write_at_apart image mid offset start size raw old wrote (ground arith) r)

  -- Every copy can be read back.
  pub write_copies-read_at :
      (left offset : ℕ) (raw : List ℕ) (image image' : I.State) (i : ℕ)
      → offset + left * length raw < 2 ^ 32
      → write_copies I s left offset raw image ≡ some image'
      → i < left
      → I.read_at image' (offset + i * length raw) (length raw) ≡ some raw
  unfolding write_copies
  write_copies-read_at zero offset raw image image' i lim e h = absurd (omega arith)
  write_copies-read_at (suc left) offset raw image image' zero lim e h =
      let (_, mid, wrote, more) = write_copies_step left offset raw image image' e in
      let whole : suc left * length raw ≡ length raw + left * length raw = omega arith in
      let next : (offset + length raw) % 2 ^ 32 ≡ offset + length raw = omega arith in
      write_copies_apart left ((offset + length raw) % 2 ^ 32) raw mid image'
        (offset + 0 * length raw) (length raw) raw (omega arith) more (inl (omega arith))
        (ap (λ (n : ℕ). I.read_at mid n (length raw)) {y = offset} (omega arith)
          ∙ lawful.read_at-write_at image mid offset raw wrote)
  write_copies-read_at (suc left) offset raw image image' (suc i) lim e h =
      let (_, mid, wrote, more) = write_copies_step left offset raw image image' e in
      let whole : suc left * length raw ≡ length raw + left * length raw = omega arith in
      let step : suc i * length raw ≡ length raw + i * length raw = omega arith in
      let next : (offset + length raw) % 2 ^ 32 ≡ offset + length raw = omega arith in
      ap (λ (n : ℕ). I.read_at image' n (length raw))
        {y = (offset + length raw) % 2 ^ 32 + i * length raw} (omega arith)
      ∙ write_copies-read_at left ((offset + length raw) % 2 ^ 32) raw mid image' i (omega arith)
          more (omega arith)

module _ (I : Image) (lawful : IsLawful I) (s : FatSuper) where
  -- A table and its sector that fit the image that the super block describes.
  pub record Fits (l : Loaded) : Type 0 where
    pub raw_size : length l.raw ≡ table_size s
    pub info_size : length l.info ≡ 512
    pub valid : fs_info_is_valid (decode_fs_info l.info) ≡ true
    pub info_fits : InfoFits (decode_fs_info l.info)
    pub some_copy : 0 < s.num_fats
    pub index_lt : s.fs_info_index < s.num_reserved_sectors
    pub apart : info_offset s + 512 ≤ table_offset s
    pub room : table_offset s + s.num_fats * table_size s < 2 ^ 32
    pub count_lt : s.total_sector_count < 2 ^ 32

  load_from_image_run :
      (image : I.State) (info raw : List ℕ)
      → s.fs_info_index < s.num_reserved_sectors
      → is_place (info_offset s) 512 ≡ true
      → is_place (table_offset s) (table_size s) ≡ true
      → I.read_at image (info_offset s) 512 ≡ some info
      → fs_info_is_valid (decode_fs_info info) ≡ true
      → I.read_at image (table_offset s) (table_size s) ≡ some raw
      → load_from_image I s image ≡ some (record { raw = raw; info = info })
  unfolding load_from_image guard
  load_from_image_run image info raw lt p p' r v r' =
      let inside : leb s.num_reserved_sectors s.fs_info_index ≡ false = ground arith in
      rw (inside, p, r, v, p', r', load_from_image) refl

  copies_placed :
      (left offset : ℕ) (raw : List ℕ) (image image' : I.State)
      → 0 < left
      → write_copies I s left offset raw image ≡ some image'
      → is_place offset (length raw) ≡ true
  copies_placed zero offset raw image image' pos e = absurd (omega arith)
  copies_placed (suc left) offset raw image image' pos e =
      (write_copies_step I lawful s left offset raw image image' e).0

  -- What the sector of a table holds behind `WriteToImage`.
  abbrev pub Updated : Loaded → Loaded → Type 0
  Updated l l' =
      (next : ℕ) × (count : ℕ) × (find_free_cluster l.raw s ≡ some next)
      × (num_free_clusters l.raw ≡ some count)
      × (l'.raw ≡ l.raw)
      × (decode_fs_info l'.info
          ≡ set_num_free_cluster (set_next_free_cluster (decode_fs_info l.info) next) count)

  updated-Fits :
      (l : Loaded) (next count : ℕ)
      → Fits l
      → find_free_cluster l.raw s ≡ some next
      → num_free_clusters l.raw ≡ some count
      → InfoFits (set_num_free_cluster (set_next_free_cluster (decode_fs_info l.info) next) count)
  unfolding set_num_free_cluster set_next_free_cluster table_size
  updated-Fits l next count fits found counted =
      let f = fits.info_fits in
      let size = fits.raw_size in
      record {
        magic1_lt = f.magic1_lt;
        magic2_lt = f.magic2_lt;
        free_clusters_lt = omega (arith, num_free_clusters-le l.raw count counted);
        next_free_cluster_lt = find_free_cluster-lt l.raw s next fits.count_lt found;
        magic3_lt = f.magic3_lt;
      }

  -- On an image that keeps what is written, and where the sector lies in front of the table and
  -- the copies end below 4 GiB, `LoadFromImage` behind a `WriteToImage` that does not throw gives
  -- the table back. The sector then has the cluster that `FindFreeCluster` finds and the number
  -- that `NumFreeClusters` counts, and its other fields are as before.
  pub load_from_image-write_to_image :
      (l : Loaded) (image image' : I.State)
      → Fits l
      → write_to_image I s l image ≡ some image'
      → (l' : Loaded) × (load_from_image I s image' ≡ some l') × Updated l l'
  unfolding write_to_image update_info fs_info_is_valid set_num_free_cluster set_next_free_cluster
  load_from_image-write_to_image l image image' fits e =
      let (copied, c, e1) =
        bind-some (write_copies I s s.num_fats (table_offset s) l.raw image) _ image' e in
      let (next, found, e2) = bind-some (find_free_cluster l.raw s) _ image' e1 in
      let (count, counted, e3) = bind-some (num_free_clusters l.raw) _ image' e2 in
      let (u, placed, wrote) = bind-some (guard (is_place (info_offset s) 512)) _ image' e3 in
      let table_placed : is_place (table_offset s) (table_size s) ≡ true =
        ap (λ (n : ℕ). is_place (table_offset s) n) (sym fits.raw_size)
        ∙ copies_placed s.num_fats (table_offset s) l.raw image copied fits.some_copy c in
      let f = set_num_free_cluster (set_next_free_cluster (decode_fs_info l.info) next) count in
      let info = encode_fs_info f l.info in
      let len : length info ≡ 512 = length-encode_fs_info f l.info fits.info_size in
      let back : decode_fs_info info ≡ f =
        decode-encode_fs_info f l.info fits.info_size
          (updated-Fits l next count fits found counted) in
      let lim : table_offset s + s.num_fats * length l.raw < 2 ^ 32 = rw fits.raw_size fits.room in
      let table : I.read_at copied (table_offset s + 0 * length l.raw) (length l.raw) ≡ some l.raw =
        write_copies-read_at I lawful s s.num_fats (table_offset s) l.raw image copied 0 lim c
          fits.some_copy in
      let table' : I.read_at copied (table_offset s) (table_size s) ≡ some l.raw =
        ap (λ (n : ℕ). I.read_at copied n (table_size s)) {y = table_offset s + 0 * length l.raw}
          (omega arith)
        ∙ ap (λ (n : ℕ). I.read_at copied (table_offset s + 0 * length l.raw) n) (sym fits.raw_size)
        ∙ table in
      let kept =
        lawful.read_at-write_at_apart copied image' (info_offset s) (table_offset s) (table_size s)
          info l.raw wrote (inr (omega (arith, fits.apart))) table' in
      let stored : I.read_at image' (info_offset s) 512 ≡ some info =
        ap (λ (n : ℕ). I.read_at image' (info_offset s) n) (sym len)
        ∙ lawful.read_at-write_at copied image' (info_offset s) info wrote in
      let ok : fs_info_is_valid (decode_fs_info info) ≡ true =
        ap fs_info_is_valid back ∙ fits.valid in
      (
        record { raw = l.raw; info = info },
        load_from_image_run image' info l.raw fits.index_lt (guard-true _ u placed) table_placed
            stored ok kept,
        (next, count, found, counted, refl, back),
      )
