-- ===== src/Heap/Free.antt =====
-- `free` against the list of blocks: the block is free, and free neighbours are one block.
use hausboot.Base.{
  ℕ, zero, suc, ◌+◌, ◌-◌, ◌%◌, ◌≤◌, ◌<◌, ◌≡◌, refl, sym, ap, ◌∙◌, inl, inr, Bool, true, false, not,
  some, List, [], ◌∷◌, ◌++◌, arith, ◌==◌, if◌then◌else◌, Option-cases, length, length-append,
}
use hausboot.Types.FlagField
use hausboot.Heap.{
  HeapEntry, Store, write, is_free, entry_size, reserved, release, merge_pass, merge_loop, free,
  heap_init, init,
}
use hausboot.Heap.Chain.{
  Block, span, Chain, span-append, Chain-append, Chain-split, Chain-above, Chain-below,
}
use hausboot.Heap.Reserve.{write_self, write_ne, is_free_blank}
use hausboot.Heap.Merge.{
  merge_first, IsCoalesced, used, merge_first-some, merge_first-none, Passed, merge_pass-Passed,
}

merge_loop_end :
    (rounds fuel : ℕ) (m : Store) (heap stop : ℕ)
    → merge_pass fuel m stop heap ≡ some (false, m)
    → merge_loop (suc rounds) fuel m heap stop ≡ some m
unfolding merge_loop
merge_loop_end rounds fuel m heap stop e = rw (e, merge_loop) refl

merge_loop_step :
    (rounds fuel : ℕ) (m m' : Store) (heap stop : ℕ)
    → merge_pass fuel m stop heap ≡ some (true, m')
    → merge_loop (suc rounds) fuel m heap stop ≡ merge_loop rounds fuel m' heap stop
unfolding merge_loop
merge_loop_step rounds fuel m m' heap stop e = rw (e, merge_loop) refl

-- What the merging of the blocks `bs` leaves.
abbrev pub Coalesces : Store → ℕ → ℕ → List Block → Type 0
Coalesces m stop heap bs =
    (bs' : List Block) × Chain m stop heap bs'
    × IsCoalesced bs'
    × (used bs' ≡ used bs)
    × (span bs' ≡ span bs)

pair : (p q : Bool × Store) → p.0 ≡ q.0 → p.1 ≡ q.1 → p ≡ q
pair (a, m) (b, n) e f = rw (e, f) refl

merge_loop-Coalesces :
    (rounds fuel : ℕ) (m : Store) (stop heap : ℕ) (bs : List Block)
    → 0 < length bs
    → length bs ≤ rounds
    → length bs ≤ fuel
    → Chain m stop heap bs
    → (m' : Store) × (merge_loop rounds fuel m heap stop ≡ some m') × Coalesces m' stop heap bs
merge_loop-Coalesces rounds fuel m stop heap [] n h k c = absurd (omega arith)
merge_loop-Coalesces zero fuel m stop heap (b ∷ bs) n h k c = absurd (omega arith)
merge_loop-Coalesces (suc rounds) fuel m stop heap (b ∷ bs) n h k c =
    let ((merged, m'), ran, p) = merge_pass-Passed fuel m stop heap b bs (omega arith) c in
    elim (Option-cases (merge_first (b ∷ bs))) [
      | inl stuck ↦
          let (still, same) : (merged ≡ false) × (m' ≡ m) = rw stuck at p in
          (
            m,
            merge_loop_end rounds fuel m heap stop (ran ∙ ap some (pair _ _ still same)),
            (b ∷ bs, c, merge_first-none (b ∷ bs) stuck, refl, refl),
          )
      | inr (bs', got) ↦
          let (hit, c', low) : Passed m stop heap (b ∷ bs) (some bs') (merged, m') = rw got at p in
          let (sp, us, len, pos) = merge_first-some (b ∷ bs) bs' got in
          let (m'', ran', rest') =
            merge_loop-Coalesces rounds fuel m' stop heap bs' pos (omega arith) (omega arith) c' in
          (
            m'',
            merge_loop_step rounds fuel m m' heap stop (ran ∙ ap some (pair _ _ hit refl)) ∙ ran',
            (rest'.0, rest'.1, rest'.2, rest'.3 ∙ us, rest'.4 ∙ sp),
          )
    ]

release_run :
    (m : Store) (ent : ℕ)
    → release m ent
      ≡ write m ent (record (m ent) { flags = FlagField.clear 32 (m ent).flags reserved })
unfolding release
release_run m ent = refl

released-is_free :
    (m : Store) (ent : ℕ) (e : HeapEntry)
    → e.flags ≡ FlagField.clear 32 (m ent).flags reserved
    → is_free (write m ent e) ent ≡ true
unfolding is_free
released-is_free m ent e h =
    rw (write_self m ent e, h)
      (ap not (FlagField.is_set-clear 32 (m ent).flags reserved (omega arith) (omega arith)))

-- `Release` frees its block and changes no other.
release-Chain :
    (m : Store) (stop heap sz : ℕ) (fr : Bool) (before after : List Block)
    → Chain m stop heap (before ++ (sz, fr) ∷ after)
    → Chain (release m (heap + span before)) stop heap (before ++ (sz, true) ∷ after)
release-Chain m stop heap sz fr before after ch =
    let ent = heap + span before in
    let new = record (m ent) { flags = FlagField.clear 32 (m ent).flags reserved } in
    let (front, (e, f, back)) = Chain-split m stop heap before ((sz, fr) ∷ after) ch in
    rw (release_run m ent) (
      Chain-append (write m ent new) ent stop heap before ((sz, true) ∷ after)
        (Chain-below m (write m ent new) ent heap before
          (λ x h. write_ne m ent x new (λ w. absurd (omega arith))) front)
        (
          ap (λ (h : HeapEntry). h.next) (write_self m ent new) ∙ e,
          released-is_free m ent new refl,
          Chain-above m (write m ent new) stop (ent + entry_size + sz) after
              (λ x h. write_ne m ent x new (λ w. absurd (omega arith))) back,
        ))

free_run :
    (fuel : ℕ) (m : Store) (heap stop ptr ent : ℕ)
    → ptr ≡ ent + entry_size
    → free fuel m heap stop ptr ≡ merge_loop fuel fuel (release m ent) heap stop
unfolding free
free_run fuel m heap stop ptr ent e =
    let live : (ptr == 0) ≡ false = ground arith in
    let at : ptr - entry_size ≡ ent = omega arith in rw (live, at) refl

used-append : (xs ys : List Block) → used (xs ++ ys) ≡ used xs ++ used ys
used-append [] ys = refl
used-append ((s, true) ∷ xs) ys = used-append xs ys
used-append ((s, false) ∷ xs) ys = ap (λ t. s ∷ t) (used-append xs ys)

-- On a heap that represents the blocks `before`, one block at `ptr` and `after`, `free` of `ptr`
-- ends if the fuel is at least the number of blocks. The heap then represents blocks of which no
-- two free ones are neighbours, the blocks in use are those of `before` and `after` in the same
-- order, and the space of all blocks is as before.
pub free-Coalesces :
    (fuel : ℕ) (m : Store) (heap stop ptr sz : ℕ) (fr : Bool) (before after : List Block)
    → Chain m stop heap (before ++ (sz, fr) ∷ after)
    → ptr ≡ heap + span before + entry_size
    → length (before ++ (sz, fr) ∷ after) ≤ fuel
    → (m' : Store) × (free fuel m heap stop ptr ≡ some m')
      × (bs : List Block) × Chain m' stop heap bs
      × IsCoalesced bs
      × (used bs ≡ used before ++ used after)
      × (span bs ≡ span (before ++ (sz, fr) ∷ after))
free-Coalesces fuel m heap stop ptr sz fr before after ch at enough =
    let all = before ++ (sz, true) ∷ after in
    let count : length all ≡ length before + suc (length after) = length-append before _ in
    let count' : length (before ++ (sz, fr) ∷ after) ≡ length before + suc (length after) =
      length-append before _ in
    let (m', ran, rest) =
      merge_loop-Coalesces fuel fuel (release m (heap + span before)) stop heap all (omega arith)
        (omega arith) (omega arith) (release-Chain m stop heap sz fr before after ch) in
    (
      m',
      free_run fuel m heap stop ptr (heap + span before) at ∙ ran,
      rest.0,
      rest.1,
      rest.2,
      rest.3 ∙ used-append before ((sz, true) ∷ after),
      rest.4
          ∙ span-append before ((sz, true) ∷ after)
          ∙ sym (span-append before ((sz, fr) ∷ after)),
    )

-- `HeapInit` leaves one free block of what is left of a multiple of four bytes behind its entry.
pub heap_init-Chain :
    (m : Store) (base max_size : ℕ)
    → 8 ≤ max_size
    → (stop : ℕ) × (m' : Store) × (heap_init m base max_size ≡ (stop, m'))
      × (stop ≡ base + (max_size - max_size % 4))
      × Chain m' stop base ((max_size - max_size % 4 - entry_size, true) ∷ [])
unfolding heap_init init
heap_init-Chain m base max_size h =
    let size = max_size - max_size % 4 in
    let blank : HeapEntry = record { next = base + size; flags = 0 } in
    let same : (if max_size % 4 == 0 then max_size else size) ≡ size = ground arith in
    (
      base + size,
      write m base blank,
      rw same refl,
      refl,
      (
        ap (λ (h : HeapEntry). h.next) (write_self m base blank) ∙ omega arith,
        is_free_blank (write m base blank) base
            (ap (λ (h : HeapEntry). h.flags) (write_self m base blank)),
        omega arith,
      ),
    )
