-- ===== src/Fatedit/FileWriter/ReadBack.antt =====
-- tools/fatedit.cpp: what `FileWriter` writes is what `FileReader` reads.
use hausboot.Base.{
  ℕ, ◌^◌, ◌<◌, ◌≡◌, refl, sym, ap₂, ◌∙◌, subst, Option, none, some, List, [], ◌++◌, append_assoc,
  append-nil, arith, length,
}
use hausboot.Fs.FatSuper.{FatSuper}
use hausboot.Fatedit.Outcome.{ok, Image, IsLawful}
use hausboot.Fatedit.FatReader.{allocate_cluster}
use hausboot.Fatedit.FileReader.{FileReader, open_reader, got, read}
use hausboot.Fatedit.FileReader.Follows.{read-Chain}
use hausboot.Fatedit.FileWriter.{FileWriter, World, created, create_writer, append}
use hausboot.Fatedit.FileWriter.Appends.{
  Appends, done, linked, wrote, Ends, append-Appends, Appends-total,
}
use hausboot.Fatedit.FileWriter.Chain.{here}
use hausboot.Fatedit.FileWriter.Links.{IsDisk, IsTable, Took, Took-IsTable, allocate_cluster-Took}
use hausboot.Fatedit.FileWriter.Keeps.{IsOpen, extend-IsOpen, put-IsOpen}

module _ (I : Image) (lawful : IsLawful I) (s : FatSuper) (disk : IsDisk s) where
  -- The rounds of `Append` keep what was written and put the new bytes behind it.
  pub Appends-IsOpen :
      {f f' : FileWriter} {w w' : World I} {e : List ℕ} (first : ℕ) (d : List ℕ)
      → Appends I s f w e f' w'
      → IsOpen I lawful s disk first d f w
      → IsOpen I lawful s disk first (d ++ e) f' w'
  Appends-IsOpen {f} {f'} {w} {w'} first d done o =
      subst (λ (l : List ℕ). IsOpen I lawful s disk first l f w) (sym (append-nil d)) o
  Appends-IsOpen first d (linked {f} {f'} {f''} {w} {w'} {w''} full e step a) o =
      Appends-IsOpen first d a (extend-IsOpen I lawful s disk first d f f' w w' o full e)
  Appends-IsOpen first d (wrote {f} {f'} {f''} {w} {w'} {w''} b c pos fits e step a) o =
      subst (λ (l : List ℕ). IsOpen I lawful s disk first l f'' w'') (append_assoc d b c)
        (Appends-IsOpen first (d ++ b) a
          (put-IsOpen I lawful s disk first d b f f' w w' o pos fits e))

  -- A new writer is one of an empty file.
  new_IsOpen :
      (w : World I) (c : ℕ) (raw : List ℕ)
      → IsTable s w.raw
      → Took s w.raw c raw
      → IsOpen I lawful s disk c []
          (record { cluster = c; offset = 0; first_cluster = c; total_size = 0 })
          (record w { raw = raw })
  new_IsOpen w c raw table t = record {
    table = Took-IsTable s w.raw c raw table t;
    in_disk = t.fresh;
    first_in_disk = t.fresh;
    ends = t.ends;
    inside = omega arith;
    chain = here;
  }

  -- What a new writer has: an empty file of its own.
  pub record IsNew (f : FileWriter) (w : World I) : Type 0 where
    pub opened : IsOpen I lawful s disk f.first_cluster [] f w
    pub offset_zero : f.offset ≡ 0
    pub total_zero : f.total_size ≡ 0

  create_writer-cases :
      (w w' : World I) (f : FileWriter) (o : Option (ℕ × List ℕ))
      → IsTable s w.raw
      → allocate_cluster w.raw s ≡ o
      → created I s w o ≡ ok (f, w')
      → IsNew f w'
  unfolding created
  create_writer-cases w w' f none table took e = cc
  create_writer-cases w w' f (some (c, raw)) table took e =
      let f₀ : FileWriter = record { cluster = c; offset = 0; first_cluster = c; total_size = 0 } in
      let w₀ : World I = record w { raw = raw } in
      let is_new : IsNew f₀ w₀ = record {
        opened = new_IsOpen w c raw table (allocate_cluster-Took s w.raw c raw disk table took);
        offset_zero = refl;
        total_zero = refl;
      } in
      let same_f : f₀ ≡ f = cc in
      let same_w : w₀ ≡ w' = cc in
      subst (λ g. IsNew g w') same_f (subst (λ v. IsNew f₀ v) same_w is_new)

  pub create_writer-IsNew :
      (w w' : World I) (f : FileWriter)
      → IsTable s w.raw
      → create_writer I s w ≡ ok (f, w')
      → IsNew f w'
  unfolding create_writer
  create_writer-IsNew w w' f table e =
      create_writer-cases w w' f (allocate_cluster w.raw s) table refl e

  -- The bytes of a file that is open are read back with its first cluster and its size.
  pub read-IsOpen :
      (first : ℕ) (d : List ℕ) (f : FileWriter) (w : World I)
      → IsOpen I lawful s disk first d f w
      → (r : FileReader) × (read w.raw s
            (I.read_at w.image)
            (open_reader first (length d))
            (length d)
          ≡ got d r)
  read-IsOpen first d f w o =
      read-Chain w.raw s (I.read_at w.image) (lawful.read_at-append w.image) disk.in_range
        disk.size_pos first d f.cluster f.offset o.chain

  appended :
      (f f' : FileWriter) (w w' : World I) (e : List ℕ)
      → IsNew f w
      → append I s f w e ≡ ok (f', w')
      → Appends I s f w e f' w'
  appended f f' w w' e n ran =
      subst (Ends I s f w e) ran
        (append-Appends I s f w e disk.size_pos (omega (arith, n.offset_zero)))

  -- On a disk whose clusters have bytes of their own, with a table whose reserved entries are in
  -- use and that covers all clusters, and on an image that keeps what is written: when a new
  -- writer is created and appends less than 4 GiB, and neither throws, a reader with the writer's
  -- first cluster and number of bytes gives exactly the bytes that were appended.
  pub read-append :
      (w w₁ w₂ : World I) (f f' : FileWriter) (e : List ℕ)
      → IsTable s w.raw
      → length e < 2 ^ 32
      → create_writer I s w ≡ ok (f, w₁)
      → append I s f w₁ e ≡ ok (f', w₂)
      → (r : FileReader) × (read w₂.raw s
            (I.read_at w₂.image)
            (open_reader f'.first_cluster f'.total_size)
            f'.total_size
          ≡ got e r)
  read-append w w₁ w₂ f f' e table small made ran =
      let new = create_writer-IsNew w w₁ f table made in
      let rounds = appended f f' w₁ w₂ e new ran in
      let (_, total, first) =
        Appends-total I s rounds (omega (arith, new.offset_zero)) (omega (arith, new.total_zero)) in
      let size : f'.total_size ≡ length e = omega (arith, new.total_zero) in
      let (r, back) =
        read-IsOpen f.first_cluster e f' w₂ (Appends-IsOpen f.first_cluster [] rounds new.opened) in
      (r, ap₂ (λ c n. read w₂.raw s (I.read_at w₂.image) (open_reader c n) n) first size ∙ back)
