-- ===== src/Fatedit/FileWriter/Links.antt =====
-- tools/fatedit.cpp, `FatReader`: what the two `AllocateCluster` do to the chains of a table.
use hausboot.Base.{
  ℕ, ◌-◌, ◌*◌, ◌^◌, ◌≤◌, ◌<◌, ◌≡◌, sym, ap, ◌∙◌, subst, ◌≢◌, inl, inr, some, List, arith, ◌==◌,
  Bool-cases, length,
}
use hausboot.Base.Options.{bind-some}
use hausboot.Fs.FatSuper.{FatSuper}
use hausboot.Fatedit.FatReader.{
  next_cluster_in_file, set_entry, searched, allocate_cluster, allocate_cluster_after,
}
use hausboot.Fatedit.FatReader.Table.{
  length-set_entry, next_cluster_in_file-set_entry, next_cluster_in_file-set_entry_ne,
}
use hausboot.Fatedit.FatReader.Allocate.{Allocates, taken, searched-Allocates}
use hausboot.Fatedit.FileReader.{cluster_size}
use hausboot.Fatedit.FileWriter.Chain.{IsLink, IsApart}

-- A disk with clusters of at least one byte, no more of them than the table has numbers for, and
-- each with bytes of its own.
pub record IsDisk (s : FatSuper) : Type 0 where
  pub size_pos : 0 < cluster_size s
  pub in_range : searched s ≤ 2 ^ 28 - 8
  pub apart : IsApart s

-- A table that has an entry for every cluster, and whose two reserved entries are in use.
pub record IsTable (s : FatSuper) (raw : List ℕ) : Type 0 where
  pub covers : searched s * 4 ≤ length raw
  pub first_used : next_cluster_in_file raw 0 ≢ some 0
  pub second_used : next_cluster_in_file raw 1 ≢ some 0

-- What `AllocateCluster` did to the table.
pub record Took (s : FatSuper) (raw : List ℕ) (n : ℕ) (raw' : List ℕ) : Type 0 where
  pub fresh : IsLink s n
  pub same_size : length raw' ≡ length raw
  pub was_free : next_cluster_in_file raw n ≡ some 0
  pub ends : next_cluster_in_file raw' n ≡ some 0x0FFFFFF8
  pub others :
      (i : ℕ) → i < 2 ^ 30 → i ≢ n → next_cluster_in_file raw' i ≡ next_cluster_in_file raw i

Allocates-Took :
    (s : FatSuper) (raw : List ℕ) (n : ℕ) (raw' : List ℕ)
    → IsTable s raw
    → Allocates raw (searched s) (some (n, raw'))
    → Took s raw n raw'
Allocates-Took s raw n raw' table (taken {c = c} lt size free before ends others) =
    let not_first : c ≢ 0 = λ e. table.first_used (ap (next_cluster_in_file raw) (sym e) ∙ free) in
    let not_second : c ≢ 1 =
      λ e. table.second_used (ap (next_cluster_in_file raw) (sym e) ∙ free) in
    record {
      fresh = (ground (arith, not_first, not_second), lt);
      same_size = size;
      was_free = free;
      ends = ends;
      others = others;
    }

sectors_pos : (s : FatSuper) → IsDisk s → 0 < s.sectors_per_cluster
unfolding cluster_size
sectors_pos s disk = elim (Bool-cases (s.sectors_per_cluster == 0)) [
  | inl z ↦
      let none_ : s.sectors_per_cluster * s.bytes_per_sector ≡ 0 * s.bytes_per_sector =
        ap (λ (t : ℕ). t * s.bytes_per_sector) (ground arith) in
      absurd (omega (arith, disk.size_pos))
  | inr some_ ↦ ground arith
]

pub allocate_cluster-Took :
    (s : FatSuper) (raw : List ℕ) (n : ℕ) (raw' : List ℕ)
    → IsDisk s
    → IsTable s raw
    → allocate_cluster raw s ≡ some (n, raw')
    → Took s raw n raw'
allocate_cluster-Took s raw n raw' disk table e = Allocates-Took s raw n raw' table (
    subst (λ o. Allocates raw (searched s) o) e
      (searched-Allocates raw s (sectors_pos s disk) disk.in_range table.covers))

-- The table stays one.
pub Took-IsTable :
    (s : FatSuper) (raw : List ℕ) (n : ℕ) (raw' : List ℕ)
    → IsTable s raw
    → Took s raw n raw'
    → IsTable s raw'
Took-IsTable s raw n raw' table t = record {
  covers = omega (arith, t.same_size, table.covers);
  first_used =
      λ e. table.first_used (sym (t.others 0 (omega arith) (ground (arith, t.fresh.0))) ∙ e);
  second_used =
      λ e. table.second_used (sym (t.others 1 (omega arith) (ground (arith, t.fresh.0))) ∙ e);
}

-- The same of a cluster that is linked behind the last one of a file.
pub record Linked (s : FatSuper) (raw : List ℕ) (last n : ℕ) (raw' : List ℕ) : Type 0 where
  pub fresh : IsLink s n
  pub table : IsTable s raw'
  pub was_free : next_cluster_in_file raw n ≡ some 0
  pub linked : next_cluster_in_file raw' last ≡ some n
  pub ends : next_cluster_in_file raw' n ≡ some 0x0FFFFFF8
  pub others :
      (i : ℕ)
      → i < 2 ^ 30
      → i ≢ n
      → i ≢ last
      → next_cluster_in_file raw' i ≡ next_cluster_in_file raw i

pub some_ne : (a b : ℕ) → a < b → some a ≢ some b
some_ne a b lt e = let q : a ≡ b = cc in absurd (omega arith)

Took-Linked :
    (s : FatSuper) (raw : List ℕ) (last n : ℕ) (raw1 : List ℕ)
    → IsDisk s
    → IsTable s raw
    → IsLink s last
    → next_cluster_in_file raw last ≡ some 0x0FFFFFF8
    → Took s raw n raw1
    → Linked s raw last n (set_entry raw1 last n)
Took-Linked s raw last n raw1 disk table lk end t =
    let raw2 = set_entry raw1 last n in
    let table1 = Took-IsTable s raw n raw1 table t in
    let apart : n ≢ last = λ e.
      some_ne 0 0x0FFFFFF8 (omega arith) (sym t.was_free ∙ ap (next_cluster_in_file raw) e ∙ end) in
    let small = disk.in_range in
    let cover = table1.covers in
    let keep : (i : ℕ)
        → i < 2 ^ 30
        → i ≢ last
        → next_cluster_in_file raw2 i ≡ next_cluster_in_file raw1 i =
      λ i lt ne.
        next_cluster_in_file-set_entry_ne raw1 last i n (omega (arith, lk.1)) lt
          (omega (arith, lk.1)) ne in
    record {
      fresh = t.fresh;
      table = record {
        covers = omega (arith, length-set_entry raw1 last n);
        first_used = λ e. table1.first_used (sym (keep 0 (omega arith) (ground (arith, lk.0))) ∙ e);
        second_used =
            λ e. table1.second_used (sym (keep 1 (omega arith) (ground (arith, lk.0))) ∙ e);
      };
      was_free = t.was_free;
      linked =
          next_cluster_in_file-set_entry raw1 last n (omega (arith, lk.1)) (omega (arith, lk.1))
            (omega (arith, t.fresh.1));
      ends = keep n (omega (arith, t.fresh.1)) apart ∙ t.ends;
      others = λ i lt ne ne'. keep i lt ne' ∙ t.others i lt ne;
    }

pub allocate_cluster_after-Linked :
    (s : FatSuper) (raw : List ℕ) (last n : ℕ) (raw' : List ℕ)
    → IsDisk s
    → IsTable s raw
    → IsLink s last
    → next_cluster_in_file raw last ≡ some 0x0FFFFFF8
    → allocate_cluster_after raw s last ≡ some (n, raw')
    → Linked s raw last n raw'
unfolding allocate_cluster_after
allocate_cluster_after-Linked s raw last n raw' disk table lk end e =
    let ((c, raw1), got, rest) = bind-some (allocate_cluster raw s) _ (n, raw') e in
    let q : some (c, set_entry raw1 last c) ≡ some (n, raw') = rest in
    let q0 : c ≡ n = cc in
    let q1 : set_entry raw1 last c ≡ raw' = cc in
    subst (λ r. Linked s raw last n r) (ap (set_entry raw1 last) (sym q0) ∙ q1)
      (Took-Linked s raw last n raw1 disk table lk end
        (allocate_cluster-Took s raw n raw1 disk table (got ∙ ap (λ k. some (k, raw1)) q0)))
