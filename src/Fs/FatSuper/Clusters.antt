-- ===== src/Fs/FatSuper/Clusters.antt =====
-- Where the clusters lie on the disk.
use hausboot.Base.{ℕ, ◌+◌, ◌-◌, ◌*◌, ◌^◌, ◌≤◌, ◌<◌, ◌≡◌, ap, arith}
use hausboot.Fs.FatSuper.{FatSuper, cluster_index_to_sector}

-- The sector behind the reserved sectors and the tables.
abbrev pub data_start : FatSuper → ℕ
data_start s = s.num_reserved_sectors + s.num_fats * s.sectors_per_fat

-- With sector numbers that fit 32 bits, a cluster from 2 on starts behind the reserved sectors
-- and all tables, each cluster begins where the one before it ends, so no two share a sector.
pub cluster_index_to_sector_layout :
    (s : FatSuper) (m n : ℕ)
    → 2 ≤ m
    → m < n
    → data_start s + (n - 2) * s.sectors_per_cluster < 2 ^ 32
    → (cluster_index_to_sector s 2 ≡ data_start s)
      × (cluster_index_to_sector s n ≡ data_start s + (n - 2) * s.sectors_per_cluster)
      × (cluster_index_to_sector s m + s.sectors_per_cluster ≤ cluster_index_to_sector s n)
unfolding cluster_index_to_sector
cluster_index_to_sector_layout s m n h lt fits =
    let start : data_start s < 2 ^ 32 = omega arith in
    let below : (m - 2) * s.sectors_per_cluster + s.sectors_per_cluster
        ≤ (n - 2) * s.sectors_per_cluster =
      let gap : n - 2 ≡ (m - 2) + 1 + (n - m - 1) = omega arith in
      omega (arith, ap (λ (t : ℕ). t * s.sectors_per_cluster) gap) in
    (ground arith, ground arith, ground arith)
