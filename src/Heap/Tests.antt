-- ===== src/Heap/Tests.antt =====
-- Tests of the heap.
use hausboot.Base.{ℕ, ◌≡◌, refl, true, false, some, List, [], ◌∷◌, arith, ◌==◌, if◌then◌else◌}
use hausboot.Types.FlagField
use hausboot.Heap.{Store, is_free, round_up, malloc, free}
use hausboot.Heap.Chain.{Block, span, Chain}
use hausboot.Heap.Malloc.{Allocates, malloc-Allocates}
use hausboot.Heap.Merge.{IsCoalesced, used}
use hausboot.Heap.Free.{free-Coalesces}

-- A block of 40 bytes in use at 1000, and a free one of 100 bytes behind it, up to 1156.
abbrev store : Store
store p = if p == 1000 then record { next = 1048; flags = 1 } else record { next = 1156; flags = 0 }

abbrev blocks : List Block
blocks = (40, false) ∷ (100, true) ∷ []

store-Chain : Chain store 1156 1000 blocks
unfolding is_free FlagField.is_set
store-Chain = (refl, refl, (refl, refl, refl))

malloc-Allocates_example :
    (r : ℕ × Store) × (malloc 3 store 1000 1156 30 ≡ some r)
    × Allocates (round_up 30) 1000 1156 blocks store r
malloc-Allocates_example =
    malloc-Allocates 3 store 1000 1156 30 blocks (omega arith) store-Chain (omega arith)

free-Coalesces_example :
    (m' : Store) × (free 2 store 1000 1156 1008 ≡ some m')
    × (bs : List Block) × Chain m' 1156 1000 bs
    × IsCoalesced bs
    × (used bs ≡ [])
    × (span bs ≡ 156)
free-Coalesces_example =
    free-Coalesces 2 store 1000 1156 1008 40 false [] ((100, true) ∷ []) store-Chain (omega arith)
      (omega arith)
