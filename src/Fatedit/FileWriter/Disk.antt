-- ===== src/Fatedit/FileWriter/Disk.antt =====
-- tools/fatedit.cpp, `ClusterFileOffset`: a disk of less than 4 GiB whose clusters lie apart.
use hausboot.Base.{ℕ, ◌+◌, ◌-◌, ◌*◌, ◌^◌, ◌≤◌, ◌<◌, ◌≡◌, ap, inl, inr, arith, ltb, Bool-cases}
use hausboot.Fs.FatSuper.{FatSuper, cluster_index_to_sector}
use hausboot.Fs.FatSuper.Clusters.{data_start}
use hausboot.Fatedit.FatReader.{searched}
use hausboot.Fatedit.FileReader.{cluster_file_offset, cluster_size}
use hausboot.Fatedit.FileWriter.Chain.{IsLink}
use hausboot.Fatedit.FileWriter.Links.{IsDisk}

-- The end of the last cluster has 32 bits, and a cluster has at least one byte.
pub record IsSmall (s : FatSuper) : Type 0 where
  pub sectors_pos : 0 < s.sectors_per_cluster
  pub bytes_pos : 0 < s.bytes_per_sector
  pub in_range : searched s ≤ 2 ^ 28 - 8
  pub end_lt : (data_start s + searched s * s.sectors_per_cluster) * s.bytes_per_sector < 2 ^ 32

mul_mono : (a b c : ℕ) → a ≤ b → a * c ≤ b * c
mul_mono a b c h =
    let gap : b ≡ a + (b - a) = omega arith in omega (arith, ap (λ (t : ℕ). t * c) gap)

mul_one_le : (a c : ℕ) → 0 < c → a ≤ a * c
mul_one_le a c h =
    let gap : c ≡ 1 + (c - 1) = omega arith in omega (arith, ap (λ (t : ℕ). a * t) gap)

mul_mono_sum : (a b c d : ℕ) → a + b ≤ d → a * c + b * c ≤ d * c
mul_mono_sum a b c d h = omega (arith, mul_mono (a + b) d c h)

module _ (s : FatSuper) (small : IsSmall s) where
  end_sector : data_start s + searched s * s.sectors_per_cluster < 2 ^ 32
  end_sector =
      let last = data_start s + searched s * s.sectors_per_cluster in
      omega (arith, mul_one_le last s.bytes_per_sector small.bytes_pos, small.end_lt)

  -- A cluster's sectors.
  sector_lem :
      (c : ℕ)
      → IsLink s c
      → (cluster_index_to_sector s c ≡ data_start s + (c - 2) * s.sectors_per_cluster)
        × (cluster_index_to_sector s c + s.sectors_per_cluster
            ≤ data_start s + searched s * s.sectors_per_cluster)
  unfolding cluster_index_to_sector
  sector_lem c (lo, hi) =
      let lim = end_sector in
      let below : (c - 2) * s.sectors_per_cluster + s.sectors_per_cluster
          ≤ searched s * s.sectors_per_cluster =
        omega (arith, mul_mono (c - 2 + 1) (searched s) s.sectors_per_cluster (omega arith)) in
      (ground arith, ground arith)

  cluster_size_lem :
      (c : ℕ) → IsLink s c → cluster_size s ≡ s.sectors_per_cluster * s.bytes_per_sector
  unfolding cluster_size
  cluster_size_lem c l =
      let (_, fits) = sector_lem c l in
      let all = data_start s + searched s * s.sectors_per_cluster in
      let le : s.sectors_per_cluster * s.bytes_per_sector ≤ all * s.bytes_per_sector =
        mul_mono s.sectors_per_cluster all s.bytes_per_sector (omega arith) in
      omega (arith, small.end_lt)

  offset_lem :
      (c : ℕ)
      → IsLink s c
      → cluster_file_offset s c ≡ cluster_index_to_sector s c * s.bytes_per_sector
  unfolding cluster_file_offset
  offset_lem c l =
      let (_, fits) = sector_lem c l in
      let all = data_start s + searched s * s.sectors_per_cluster in
      let le : cluster_index_to_sector s c * s.bytes_per_sector ≤ all * s.bytes_per_sector =
        mul_mono (cluster_index_to_sector s c) all s.bytes_per_sector (omega arith) in
      omega (arith, small.end_lt)

  in_front :
      (m n : ℕ)
      → IsLink s m
      → IsLink s n
      → m < n
      → cluster_file_offset s m + cluster_size s ≤ cluster_file_offset s n
  in_front m n lm ln lt =
      let (at_m, _) = sector_lem m lm in
      let (at_n, _) = sector_lem n ln in
      let gap : (m - 2) * s.sectors_per_cluster + s.sectors_per_cluster
          ≤ (n - 2) * s.sectors_per_cluster =
        omega (arith, mul_mono (m - 2 + 1) (n - 2) s.sectors_per_cluster (omega (arith, lm.0))) in
      let le =
        mul_mono_sum (cluster_index_to_sector s m) s.sectors_per_cluster s.bytes_per_sector
          (cluster_index_to_sector s n) (omega arith) in
      omega (arith, offset_lem m lm, offset_lem n ln, cluster_size_lem m lm)

  -- A disk of less than 4 GiB is one whose clusters have bytes of their own.
  pub IsSmall-IsDisk : 2 < searched s → IsDisk s
  IsSmall-IsDisk some_cluster = record {
    size_pos =
        (let size = cluster_size_lem 2 (omega arith, some_cluster) in
          omega (
            arith,
            mul_one_le s.sectors_per_cluster s.bytes_per_sector small.bytes_pos,
            small.sectors_pos,
          ));
    in_range = small.in_range;
    apart = λ m n lm ln ne. elim (Bool-cases (ltb m n)) [
      | inl below ↦ inl (in_front m n lm ln (ground arith))
      | inr above ↦ inr (in_front n m ln lm (ground (arith, ne)))
    ];
  }
