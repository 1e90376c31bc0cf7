-- ===== src/Fatedit/FatReader/Allocate.antt =====
-- tools/fatedit.cpp, `FatReader`: free clusters, found and taken.
use hausboot.Base.{
  ℕ, zero, suc, ◌+◌, ◌-◌, ◌*◌, ◌/◌, ◌%◌, ◌^◌, ◌≤◌, ◌<◌, ◌≡◌, refl, sym, ap, ◌∙◌, subst, ◌≢◌, inl,
  inr, Bool, true, false, ◌&&◌, Option, none, some, List, arith, ltb, leb, ◌==◌, if◌then◌else◌,
  Bool-cases, length, get_elem?-some,
}
use native.Mathlib.Nat.{div-eq_of_lt-le}
use hausboot.Fs.FatSuper.{FatSuper}
use hausboot.Fatedit.FatReader.{
  next_cluster_in_file, set_entry, no_cluster, find_free_loop, searched, divides_by_zero,
  find_free_cluster, allocate_cluster, entry_value,
}
use hausboot.Fatedit.FatReader.Table.{
  length-set_entry, next_run, next_cluster_in_file-set_entry, next_cluster_in_file-set_entry_ne,
}

-- An entry within the table reads without an exception.
next_some :
    (raw : List ℕ) (n : ℕ)
    → n < 2 ^ 30
    → n * 4 + 3 < length raw
    → (v : ℕ) × (next_cluster_in_file raw n ≡ some v)
next_some raw n h k =
    let (a, ea) = get_elem?-some raw (n * 4) (omega arith) in
    let (b, eb) = get_elem?-some raw (n * 4 + 1) (omega arith) in
    let (c, ec) = get_elem?-some raw (n * 4 + 2) (omega arith) in
    let (d, ed) = get_elem?-some raw (n * 4 + 3) (omega arith) in
    (entry_value a b c d, next_run raw n (n * 4) a b c d (omega arith) ea eb ec ed)

-- What a search over the `left` entries from `i` finds: the first free one, or none.
pub data FirstFree (raw : List ℕ) (left i : ℕ) : ℕ → Type 0 where
  all_used :
      ((j : ℕ) → i ≤ j → j < i + left → next_cluster_in_file raw j ≢ some 0)
      → FirstFree raw left i no_cluster
  first_free :
      {c : ℕ}
      → i ≤ c
      → c < i + left
      → next_cluster_in_file raw c ≡ some 0
      → ((j : ℕ) → i ≤ j → j < c → next_cluster_in_file raw j ≢ some 0)
      → FirstFree raw left i c

find_free_loop_hit :
    (raw : List ℕ) (left i : ℕ)
    → next_cluster_in_file raw i ≡ some 0
    → find_free_loop raw (suc left) i ≡ some i
unfolding find_free_loop
find_free_loop_hit raw left i e = rw (e) refl

find_free_loop_miss :
    (raw : List ℕ) (left i v : ℕ)
    → next_cluster_in_file raw i ≡ some v
    → (v == 0) ≡ false
    → find_free_loop raw (suc left) i ≡ find_free_loop raw left (i + 1)
unfolding find_free_loop
find_free_loop_miss raw left i v e ne = rw (e, ne) refl

-- What is not free at `i` and behind it.
skip_first :
    (raw : List ℕ) (i v j : ℕ)
    → next_cluster_in_file raw i ≡ some v
    → (v == 0) ≡ false
    → i ≤ j
    → (i + 1 ≤ j → next_cluster_in_file raw j ≢ some 0)
    → next_cluster_in_file raw j ≢ some 0
skip_first raw i v j e ne le k e' = elim (Bool-cases (j == i)) [
  | inl at ↦
      let same : j ≡ i = ground arith in
      let z : some v ≡ some 0 = sym e ∙ ap (next_cluster_in_file raw) (sym same) ∙ e' in
      let z' : v ≡ 0 = cc in absurd (ground arith)
  | inr past ↦ k (ground arith) e'
]

FirstFree-later :
    (raw : List ℕ) (left i v c : ℕ)
    → next_cluster_in_file raw i ≡ some v
    → (v == 0) ≡ false
    → FirstFree raw left (i + 1) c
    → FirstFree raw (suc left) i c
FirstFree-later raw left i v _ e ne (all_used none_free) =
    all_used (λ j le lt. skip_first raw i v j e ne le (λ le'. none_free j le' (omega arith)))
FirstFree-later raw left i v _ e ne (first_free le lt at before) =
    first_free (omega arith) (omega arith) at
      (λ j le' lt'. skip_first raw i v j e ne le' (λ k. before j k lt'))

find_free_loop-FirstFree :
    (raw : List ℕ) (left i : ℕ)
    → i + left ≤ 2 ^ 30
    → (i + left) * 4 ≤ length raw
    → (c : ℕ) × (find_free_loop raw left i ≡ some c) × FirstFree raw left i c
unfolding find_free_loop
find_free_loop-FirstFree raw zero i h k =
    (no_cluster, refl, all_used (λ j le lt. absurd (omega arith)))
find_free_loop-FirstFree raw (suc left) i h k =
    let (v, e) = next_some raw i (omega arith) (omega arith) in
    elim (Bool-cases (v == 0)) [
      | inl free ↦
          let at : next_cluster_in_file raw i ≡ some 0 = e ∙ ap some (ground arith) in
          (
            i,
            find_free_loop_hit raw left i at,
            first_free (omega arith) (omega arith) at (λ j le lt. absurd (omega arith)),
          )
      | inr used ↦
          let (c, ran, f) = find_free_loop-FirstFree raw left (i + 1) (omega arith) (omega arith) in
          (
            c,
            find_free_loop_miss raw left i v e used ∙ ran,
            FirstFree-later raw left i v c e used f,
          )
    ]

find_free_cluster_run :
    (raw : List ℕ) (s : FatSuper)
    → 0 < s.sectors_per_cluster
    → find_free_cluster raw s ≡ find_free_loop raw (searched s) 0
unfolding find_free_cluster divides_by_zero
find_free_cluster_run raw s pos =
    let fat_sectors = s.sectors_per_fat * s.num_fats % 2 ^ 32 in
    let no_trap : (s.sectors_per_cluster == 0
          && ltb (fat_sectors + s.num_reserved_sectors) s.total_sector_count)
        ≡ false =
      ground arith in
    rw no_trap refl

-- Where the table covers every entry that is searched, the search ends without an exception with
-- the first free entry, or with `no_cluster` if none is free.
pub find_free_cluster-FirstFree :
    (raw : List ℕ) (s : FatSuper)
    → 0 < s.sectors_per_cluster
    → searched s ≤ 2 ^ 28 - 8
    → searched s * 4 ≤ length raw
    → (c : ℕ) × (find_free_cluster raw s ≡ some c) × FirstFree raw (searched s) 0 c
find_free_cluster-FirstFree raw s pos h k =
    let (c, ran, f) = find_free_loop-FirstFree raw (searched s) 0 (omega arith) (omega arith) in
    (c, find_free_cluster_run raw s pos ∙ ran, f)

-- What `AllocateCluster` promises of the entries below `n`.
pub data Allocates (raw : List ℕ) (n : ℕ) : Option (ℕ × List ℕ) → Type 0 where
  full : ((j : ℕ) → j < n → next_cluster_in_file raw j ≢ some 0) → Allocates raw n none
  taken :
      {c : ℕ} {raw' : List ℕ}
      → c < n
      → length raw' ≡ length raw
      → next_cluster_in_file raw c ≡ some 0
      → ((j : ℕ) → j < c → next_cluster_in_file raw j ≢ some 0)
      → next_cluster_in_file raw' c ≡ some 0x0FFFFFF8
      → ((i : ℕ) → i < 2 ^ 30 → i ≢ c → next_cluster_in_file raw' i ≡ next_cluster_in_file raw i)
      → Allocates raw n (some (c, raw'))

allocate_cluster_run :
    (raw : List ℕ) (s : FatSuper) (c : ℕ)
    → find_free_cluster raw s ≡ some c
    → allocate_cluster raw s
      ≡ (if leb 0x0FFFFFF8 c then none else some (c, set_entry raw c 0x0FFFFFF8))
unfolding allocate_cluster
allocate_cluster_run raw s c e = rw (e) refl

taken-Allocates :
    (raw : List ℕ) (n c : ℕ)
    → n ≤ 2 ^ 28 - 8
    → n * 4 ≤ length raw
    → FirstFree raw n 0 c
    → Allocates raw n (if leb 0x0FFFFFF8 c then none else some (c, set_entry raw c 0x0FFFFFF8))
taken-Allocates raw n _ h k (all_used none_free) =
    full (λ j lt. none_free j (omega arith) (omega arith))
taken-Allocates raw n _ h k (first_free {c = c} le lt at before) =
    let in_range : leb 0x0FFFFFF8 c ≡ false = ground arith in
    rw in_range (
      taken (omega arith) (length-set_entry raw c 0x0FFFFFF8) at
        (λ j lt'. before j (omega arith) lt')
        (next_cluster_in_file-set_entry raw c 0x0FFFFFF8 (omega arith) (omega arith) (omega arith))
        (λ i lt' ne.
          next_cluster_in_file-set_entry_ne raw c i 0x0FFFFFF8 (omega arith) lt' (omega arith) ne))

pub searched-Allocates :
    (raw : List ℕ) (s : FatSuper)
    → 0 < s.sectors_per_cluster
    → searched s ≤ 2 ^ 28 - 8
    → searched s * 4 ≤ length raw
    → Allocates raw (searched s) (allocate_cluster raw s)
searched-Allocates raw s pos h k =
    let (c, ran, f) = find_free_cluster-FirstFree raw s pos h k in
    rw (allocate_cluster_run raw s c ran) (taken-Allocates raw (searched s) c h k f)

-- The number of clusters that fit behind the reserved sectors and the tables.
pub record HasClusters (s : FatSuper) (n : ℕ) : Type 0 where
  pub sectors_pos : 0 < s.sectors_per_cluster
  pub tables_lt : s.sectors_per_fat * s.num_fats < 2 ^ 32
  pub fit :
      s.sectors_per_fat * s.num_fats + s.num_reserved_sectors + n * s.sectors_per_cluster
      ≤ s.total_sector_count
  pub no_more :
      s.total_sector_count
      < s.sectors_per_fat * s.num_fats + s.num_reserved_sectors + (n + 1) * s.sectors_per_cluster

if-num :
    (c : Bool) (a b n : ℕ) → (c ≡ true → a ≡ n) → (c ≡ false → b ≡ n) → (if c then a else b) ≡ n
if-num true a b n h h' = h refl
if-num false a b n h h' = h' refl

searched_lem : (s : FatSuper) (n : ℕ) → HasClusters s n → searched s ≡ n
unfolding searched
searched_lem s n has =
    let tables = s.sectors_per_fat * s.num_fats in
    let d = s.sectors_per_cluster in
    let pos = has.sectors_pos in
    let lt = has.tables_lt in
    let fit = has.fit in
    let no_more = has.no_more in
    let succ : (n + 1) * d ≡ n * d + d = omega arith in
    let none_left : s.total_sector_count ≤ tables + s.num_reserved_sectors → n * d ≡ 0 =
      λ le. omega arith in
    let whole : (s.total_sector_count - tables % 2 ^ 32 - s.num_reserved_sectors) / d ≡ n =
      div-eq_of_lt-le d (omega arith) (omega arith) in
    let zero_n : s.total_sector_count ≤ tables + s.num_reserved_sectors → 0 ≡ n = λ le.
      elim (Bool-cases (n == 0)) [
        | inl z ↦ ground arith
        | inr nz ↦ absurd (omega (arith, none_left le, mul_pos_ge n d (ground arith)))
      ] in
    let total = s.total_sector_count - tables % 2 ^ 32 in
    let few_le : leb s.total_sector_count (tables % 2 ^ 32) ≡ true
        → s.total_sector_count ≤ tables + s.num_reserved_sectors =
      λ few. ground arith in
    let rest_le : leb total s.num_reserved_sectors ≡ true
        → s.total_sector_count ≤ tables + s.num_reserved_sectors =
      λ few. ground arith in
    if-num (leb s.total_sector_count (tables % 2 ^ 32)) 0 _ n (λ few. zero_n (few_le few))
      (λ more.
        if-num (leb total s.num_reserved_sectors) 0 _ n (λ few. zero_n (rest_le few))
          (λ enough. whole))
  where
    mul_pos_ge : (a b : ℕ) → 0 < a → b ≤ a * b
    mul_pos_ge a b h =
        let gap : a ≡ 1 + (a - 1) = omega arith in omega (arith, ap (λ (t : ℕ). t * b) gap)

-- On a disk with room for `n` whole clusters behind the reserved sectors and the tables, and with
-- a table that has the entries below `n`: `AllocateCluster` throws only if none of these entries
-- is free; else it takes the first free one of them, marks it as the end of a chain and changes
-- no other and not the table's size. The entries `n` and `n + 1`, which belong to the last two
-- clusters since the first two entries are reserved, are not looked at.
pub allocate_cluster-Allocates :
    (raw : List ℕ) (s : FatSuper) (n : ℕ)
    → HasClusters s n
    → n ≤ 2 ^ 28 - 8
    → n * 4 ≤ length raw
    → Allocates raw n (allocate_cluster raw s)
allocate_cluster-Allocates raw s n has h k =
    let same = searched_lem s n has in
    subst (λ (m : ℕ). Allocates raw m (allocate_cluster raw s)) same
      (searched-Allocates raw s has.sectors_pos (omega arith) (omega arith))
