-- ===== src/Fatedit/FileWriter/Keeps.antt =====
-- tools/fatedit.cpp, `FileWriter`: what it has written so far stays a file of the image.
use hausboot.Base.{
  ℕ, ◌+◌, ◌%◌, ◌^◌, ◌≤◌, ◌<◌, ◌≡◌, refl, sym, ap, ◌∙◌, subst, Option, none, some, List, [], ◌++◌,
  append-nil, arith, length,
}
use hausboot.Fs.FatSuper.{FatSuper}
use hausboot.Fatedit.Outcome.{Image, IsLawful}
use hausboot.Fatedit.FatReader.{next_cluster_in_file, allocate_cluster_after}
use hausboot.Fatedit.FileReader.{cluster_file_offset, cluster_size}
use hausboot.Fatedit.FileWriter.{FileWriter, World, link, extend, count, put}
use hausboot.Fatedit.FileWriter.Appends.{cluster_size_lt}
use hausboot.Fatedit.FileWriter.Chain.{
  IsLink, Chain, here, piece, hop, Chain-trans, Chain-raw, Chain-image,
}
use hausboot.Fatedit.FileWriter.Links.{
  IsDisk, IsTable, Linked, some_ne, allocate_cluster_after-Linked,
}

module _ (I : Image) (lawful : IsLawful I) (s : FatSuper) (disk : IsDisk s) where
  -- The writer stands at the end of a file with these bytes.
  pub record IsOpen (first : ℕ) (d : List ℕ) (f : FileWriter) (w : World I) : Type 0 where
    pub table : IsTable s w.raw
    pub in_disk : IsLink s f.cluster
    pub first_in_disk : IsLink s first
    pub ends : next_cluster_in_file w.raw f.cluster ≡ some 0x0FFFFFF8
    pub inside : f.offset ≤ cluster_size s
    pub chain : Chain w.raw s (I.read_at w.image) first 0 d f.cluster f.offset

  extended :
      (first n : ℕ) (d raw' : List ℕ) (f : FileWriter) (w : World I)
      → IsOpen first d f w
      → f.offset ≡ cluster_size s
      → Linked s w.raw f.cluster n raw'
      → IsOpen first d (record f { cluster = n; offset = 0 }) (record w { raw = raw' })
  extended first n d raw' f w o at_end l =
      let keep : (i j : ℕ)
          → IsLink s i
          → next_cluster_in_file w.raw i ≡ some j
          → IsLink s j
          → next_cluster_in_file raw' i ≡ some j =
        λ i j (_, hi) e (lo, hi').
          l.others i (omega (arith, disk.in_range))
            (λ same.
              some_ne 0 j (omega arith)
                (sym l.was_free ∙ ap (next_cluster_in_file w.raw) (sym same) ∙ e))
            (λ same.
              some_ne j 0x0FFFFFF8 (omega (arith, disk.in_range))
                (sym e ∙ ap (next_cluster_in_file w.raw) same ∙ o.ends))
          ∙ e in
      record {
        table = l.table;
        in_disk = l.fresh;
        first_in_disk = o.first_in_disk;
        ends = l.ends;
        inside = omega arith;
        chain =
            subst (λ (b : List ℕ). Chain raw' s (I.read_at w.image) first 0 b n 0) (append-nil d)
              (Chain-trans raw' s (I.read_at w.image)
                (Chain-raw w.raw s (I.read_at w.image) raw' keep o.first_in_disk o.chain)
                (hop n [] at_end l.linked l.fresh here));
      }

  -- What was opened is open when its parts have other names.
  IsOpen-same :
      (first : ℕ) (d : List ℕ) (f f' : FileWriter) (w w' : World I)
      → f ≡ f'
      → w ≡ w'
      → IsOpen first d f w
      → IsOpen first d f' w'
  IsOpen-same first d f f' w w' e e' o =
      subst (λ g. IsOpen first d g w') e (subst (λ v. IsOpen first d f v) e' o)

  link-IsOpen :
      (first : ℕ) (d : List ℕ) (f f' : FileWriter) (w w' : World I) (p : Option (ℕ × List ℕ))
      → IsOpen first d f w
      → f.offset ≡ cluster_size s
      → allocate_cluster_after w.raw s f.cluster ≡ p
      → link I s f w p ≡ some (f', w')
      → IsOpen first d f' w'
  unfolding link
  link-IsOpen first d f f' w w' none o at_end got e = cc
  link-IsOpen first d f f' w w' (some (n, raw')) o at_end got e =
      IsOpen-same first d (record f { cluster = n; offset = 0 }) f' (record w { raw = raw' }) w'
        (cc) (cc)
        (extended first n d raw' f w o at_end (
          allocate_cluster_after-Linked s w.raw f.cluster n raw' disk o.table o.in_disk o.ends got))

  pub extend-IsOpen :
      (first : ℕ) (d : List ℕ) (f f' : FileWriter) (w w' : World I)
      → IsOpen first d f w
      → f.offset ≡ cluster_size s
      → extend I s f w ≡ some (f', w')
      → IsOpen first d f' w'
  unfolding extend
  extend-IsOpen first d f f' w w' o at_end e =
      link-IsOpen first d f f' w w' (allocate_cluster_after w.raw s f.cluster) o at_end refl e

  counted :
      (first : ℕ) (d b : List ℕ) (f : FileWriter) (w : World I) (image : I.State) (total : ℕ)
      → IsOpen first d f w
      → 0 < length b
      → f.offset + length b ≤ cluster_size s
      → I.write_at w.image (cluster_file_offset s f.cluster + f.offset) b ≡ some image
      → IsOpen first
          (d ++ b)
          (record f { offset = f.offset + length b; total_size = total })
          (record w { image = image })
  counted first d b f w image total o pos fits wrote =
      let small = disk.in_range in
      let old =
        Chain-image w.raw s (I.read_at w.image) (I.read_at image) (length b) (omega arith)
          disk.apart o.ends o.in_disk fits
          (λ start size was apart r.
            lawful.read_at-write_at_apart w.image image _ start size b was wrote apart r)
          o.first_in_disk o.chain in
      let new : Chain w.raw s (I.read_at image) f.cluster f.offset b f.cluster
          (f.offset + length b) =
        subst
          (λ (l : List ℕ).
            Chain w.raw s (I.read_at image) f.cluster f.offset l f.cluster (f.offset + length b))
          (append-nil b)
          (piece b [] pos fits (lawful.read_at-write_at w.image image _ b wrote) here) in
      record {
        table = o.table;
        in_disk = o.in_disk;
        first_in_disk = o.first_in_disk;
        ends = o.ends;
        inside = fits;
        chain = Chain-trans w.raw s (I.read_at image) old new;
      }

  count-IsOpen :
      (first : ℕ) (d b : List ℕ) (f f' : FileWriter) (w w' : World I) (p : Option I.State)
      → IsOpen first d f w
      → 0 < length b
      → f.offset + length b ≤ cluster_size s
      → cluster_size s < 2 ^ 32
      → I.write_at w.image (cluster_file_offset s f.cluster + f.offset) b ≡ p
      → count I s f w (length b) p ≡ some (f', w')
      → IsOpen first (d ++ b) f' w'
  unfolding count
  count-IsOpen first d b f f' w w' none o pos fits lt wrote e = cc
  count-IsOpen first d b f f' w w' (some image) o pos fits lt wrote e =
      let total = (f.total_size + length b) % 2 ^ 32 in
      let same : record f { offset = f.offset + length b; total_size = total } ≡ f' =
        ap (λ (n : ℕ). record f { offset = n; total_size = total })
          {y = (f.offset + length b) % 2 ^ 32} (omega arith)
        ∙ cc in
      IsOpen-same first (d ++ b) (record f { offset = f.offset + length b; total_size = total }) f'
        (record w { image = image }) w' same (cc)
        (counted first d b f w image total o pos fits wrote)

  pub put-IsOpen :
      (first : ℕ) (d b : List ℕ) (f f' : FileWriter) (w w' : World I)
      → IsOpen first d f w
      → 0 < length b
      → f.offset + length b ≤ cluster_size s
      → put I s f w b ≡ some (f', w')
      → IsOpen first (d ++ b) f' w'
  unfolding put
  put-IsOpen first d b f f' w w' o pos fits e =
      count-IsOpen first d b f f' w w'
        (I.write_at w.image (cluster_file_offset s f.cluster + f.offset) b) o pos fits
        (cluster_size_lt I s) refl e
