-- ===== src/Heap/Malloc.antt =====
-- `malloc` against the list of blocks: a best fit, split where the rest can hold an entry.
use hausboot.Base.{
  ℕ, ◌+◌, ◌-◌, ◌%◌, ◌^◌, ◌≤◌, ◌<◌, ◌≡◌, refl, sym, ap, ◌∙◌, subst, true, Option, none, some, List,
  [], ◌∷◌, ◌++◌, arith, length,
}
use hausboot.Heap.{Store, entry_size, reserve, find_loop, malloc, round_up}
use hausboot.Heap.Chain.{Block, span, Chain, Chain-append, Chain-split, Chain-below}
use hausboot.Heap.Search.{Best, NoneFits, Found, find_loop-Found}
use hausboot.Heap.Reserve.{carve, reserve-Chain}

-- What `malloc` promises for the rounded size `c`, on the blocks `bs` from address `heap`: the
-- null pointer only if no free block is big enough, and nothing changes; or the address of the
-- smallest free block that is big enough, which is carved, and the other blocks stay.
pub data Allocates (c heap stop : ℕ) (bs : List Block) (m : Store) : ℕ × Store → Type 0 where
  refused : NoneFits c bs → Allocates c heap stop bs m (0, m)
  granted :
      {m' : Store} (before : List Block) (sz : ℕ) (after : List Block) {ptr : ℕ}
      → bs ≡ before ++ (sz, true) ∷ after
      → ptr ≡ heap + span before + entry_size
      → c ≤ sz
      → Best c sz bs
      → Chain m' stop heap (before ++ (carve c sz ++ after))
      → Allocates c heap stop bs m (ptr, m')

-- The last line of `malloc`.
abbrev answer : Store → ℕ → Option ℕ → ℕ × Store
answer m c none = (0, m)
answer m c (some ent) = reserve m ent c

malloc_run :
    (fuel : ℕ) (m : Store) (heap stop count : ℕ) (out : Option ℕ)
    → find_loop fuel m stop (round_up count) heap none ≡ some out
    → malloc fuel m heap stop count ≡ some (answer m (round_up count) out)
unfolding malloc
malloc_run fuel m heap stop count none ran = rw (ran, malloc) refl
malloc_run fuel m heap stop count (some ent) ran = rw (ran, malloc) refl

malloc-Found :
    (m : Store) (heap stop c : ℕ) (bs : List Block) (out : Option ℕ)
    → stop < 2 ^ 32
    → Chain m stop heap bs
    → Found m c heap bs out
    → (r : ℕ × Store) × (answer m c out ≡ r) × Allocates c heap stop bs m r
malloc-Found m heap stop c bs none lt ch f = ((0, m), refl, refused f)
malloc-Found m heap stop c bs (some ent) lt ch (p, es, best) =
    let whole : Chain m stop heap (p.before ++ (p.found_size, true) ∷ p.after) =
      rw p.joined at ch in
    let (front, back) = Chain-split m stop heap p.before ((p.found_size, true) ∷ p.after) whole in
    let back' : Chain m stop ent ((p.found_size, true) ∷ p.after) =
      subst (λ a. Chain m stop a ((p.found_size, true) ∷ p.after)) (sym p.at) back in
    let (m', ran, ch', same) = reserve-Chain m stop ent c p.found_size p.after lt p.enough back' in
    let front' : Chain m' (heap + span p.before) heap p.before =
      Chain-below m m' (heap + span p.before) heap p.before (λ x h. same x (rw p.at h)) front in
    (
      (ent + entry_size, m'),
      ran,
      granted p.before p.found_size p.after p.joined (omega (arith, p.at)) p.enough best (
          Chain-append m' (heap + span p.before) stop heap p.before
            (carve c p.found_size ++ p.after) front'
            (subst (λ a. Chain m' stop a (carve c p.found_size ++ p.after)) p.at ch')),
    )

-- On a heap that represents the blocks `bs`, `malloc` ends after one round for each block and
-- one more, and keeps its promise for the rounded size.
pub malloc-Allocates :
    (fuel : ℕ) (m : Store) (heap stop count : ℕ) (bs : List Block)
    → stop < 2 ^ 32
    → Chain m stop heap bs
    → length bs < fuel
    → (r : ℕ × Store) × (malloc fuel m heap stop count ≡ some r)
      × Allocates (round_up count) heap stop bs m r
malloc-Allocates fuel m heap stop count bs lt ch enough =
    let (out, ran, found) =
      find_loop-Found fuel m stop (round_up count) heap heap [] bs none enough lt ch (omega arith)
        tt in
    let (r, reserved', promise) = malloc-Found m heap stop (round_up count) bs out lt ch found in
    (r, malloc_run fuel m heap stop count out ran ∙ ap some reserved', promise)

-- The rounded size is a multiple of four, and holds what was asked for unless that is within
-- three bytes of 2 ^ 32.
pub round_up_bounds :
    (count : ℕ)
    → count ≤ 2 ^ 32 - 4
    → (count ≤ round_up count) × (round_up count ≤ count + 3) × (round_up count % 4 ≡ 0)
unfolding round_up
round_up_bounds count h = ground arith
