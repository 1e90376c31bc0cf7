-- ===== src/Fatedit/FatReader/Bounds.antt =====
-- tools/fatedit.cpp, `FatReader`: the cluster that is found and the number of free ones have 32
-- bits.
use hausboot.Base.{
  ℕ, zero, suc, ◌+◌, ◌-◌, ◌*◌, ◌/◌, ◌%◌, ◌^◌, ◌≤◌, ◌<◌, ◌≡◌, sym, ◌⊎◌, inl, inr, Bool, true, false,
  some, List, arith, ◌==◌, if◌then◌else◌, Bool-cases, length,
}
use native.Mathlib.Nat.{div-le_self}
use hausboot.Base.Options.{bind-some}
use hausboot.Fs.FatSuper.{FatSuper}
use hausboot.Fatedit.FatReader.{
  next_cluster_in_file, count_free, num_free_clusters, no_cluster, find_free_loop, searched,
  divides_by_zero, find_free_cluster,
}

count_free-le :
    (raw : List ℕ) (left i count n : ℕ) → count_free raw left i count ≡ some n → n ≤ count + left
unfolding count_free
count_free-le raw zero i count n e = let q : count ≡ n = cc in omega arith
count_free-le raw (suc left) i count n e =
    let (next, _, more) = bind-some (next_cluster_in_file raw i) _ n e in
    elim (Bool-cases (next == 0)) [
      | inl free ↦ omega (arith, count_free-le raw left (i + 1) (count + 1) n (rw free at more))
      | inr used ↦ omega (arith, count_free-le raw left (i + 1) count n (rw used at more))
    ]

pub num_free_clusters-le :
    (raw : List ℕ) (n : ℕ) → num_free_clusters raw ≡ some n → 4 * n ≤ length raw
unfolding num_free_clusters
num_free_clusters-le raw n e = omega (arith, count_free-le raw (length raw / 4) 0 0 n e)

find_free_loop-le :
    (raw : List ℕ) (left i c : ℕ)
    → find_free_loop raw left i ≡ some c
    → (c ≡ no_cluster) ⊎ (c < i + left)
unfolding find_free_loop
find_free_loop-le raw zero i c e = let q : no_cluster ≡ c = cc in inl (sym q)
find_free_loop-le raw (suc left) i c e =
    let (next, _, more) = bind-some (next_cluster_in_file raw i) _ c e in
    elim (Bool-cases (next == 0)) [
      | inl free ↦
          let q : some i ≡ some c = rw free at more in let q' : i ≡ c = cc in inr (omega arith)
      | inr used ↦ ground (arith, find_free_loop-le raw left (i + 1) c (rw used at more))
    ]

if_le : (c : Bool) (a b m : ℕ) → a ≤ m → b ≤ m → (if c then a else b) ≤ m
if_le true a b m h h' = h
if_le false a b m h h' = h'

searched-le : (s : FatSuper) → searched s ≤ s.total_sector_count
unfolding searched
searched-le s =
    let total = s.total_sector_count - s.sectors_per_fat * s.num_fats % 2 ^ 32 in
    let rest : (total - s.num_reserved_sectors) / s.sectors_per_cluster ≤ s.total_sector_count =
      omega (arith, div-le_self (total - s.num_reserved_sectors) s.sectors_per_cluster) in
    if_le _ 0 _ s.total_sector_count (omega arith)
      (if_le _ 0 _ s.total_sector_count (omega arith) rest)

pub find_free_cluster-lt :
    (raw : List ℕ) (s : FatSuper) (c : ℕ)
    → s.total_sector_count < 2 ^ 32
    → find_free_cluster raw s ≡ some c
    → c < 2 ^ 32
unfolding find_free_cluster
find_free_cluster-lt raw s c lt e = elim (Bool-cases (divides_by_zero s)) [
  | inl trap ↦ cc (rw trap at e)
  | inr runs ↦ ground (arith, find_free_loop-le raw (searched s) 0 c (rw runs at e), searched-le s)
]
