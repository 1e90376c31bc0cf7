-- ===== src/Heap/Reserve.antt =====
-- `Reserve` against the list of blocks.
use hausboot.Base.{
  ℕ, ◌+◌, ◌-◌, ◌^◌, ◌≤◌, ◌<◌, ◌≡◌, refl, sym, ap, ◌∙◌, subst, ◌≢◌, inl, inr, Bool, true, false, not,
  List, [], ◌∷◌, ◌++◌, arith, ltb, leb, if◌then◌else◌, Bool-cases,
}
use hausboot.Types.FlagField
use hausboot.Heap.{
  HeapEntry, Store, write, is_free, size, entry_size, reserved, init, split, reserve,
}
use hausboot.Heap.Chain.{Block, Chain, Chain-span, Chain-above, size-chain}

-- What `Reserve` makes of a block.
abbrev pub carve : ℕ → ℕ → List Block
carve count sz =
    if leb (entry_size + 4) (sz - count)
    then (count, false) ∷ (sz - count - entry_size, true) ∷ []
    else (sz, false) ∷ []

-- Reserving without a split.
abbrev marked : Store → ℕ → Store
marked m ent = write m ent (record (m ent) { flags = FlagField.set (m ent).flags reserved })

reserve_run :
    (m : Store) (ent count sz : ℕ) (m' : Store)
    → is_free m ent ≡ true
    → size m ent ≡ sz
    → count ≤ sz
    → (if leb (entry_size + 4) (sz - count) then split m ent count else m) ≡ m'
    → reserve m ent count ≡ (ent + entry_size, marked m' ent)
unfolding reserve
reserve_run m ent count sz m' free es le e =
    let room : ltb sz count ≡ false = ground arith in rw (free, es, room, e) refl

pub write_self : (m : Store) (p : ℕ) (e : HeapEntry) → write m p e p ≡ e
unfolding write
write_self m p e = ground arith

pub write_ne : (m : Store) (p x : ℕ) (e : HeapEntry) → x ≢ p → write m p e x ≡ m x
unfolding write
write_ne m p x e ne = ground arith

marked-is_free : (m : Store) (ent : ℕ) → is_free (marked m ent) ent ≡ false
unfolding is_free
marked-is_free m ent =
    rw (write_self m ent (record (m ent) { flags = FlagField.set (m ent).flags reserved }))
      (ap not (FlagField.is_set-set (m ent).flags reserved))

-- Marking a block reserved leaves every other block as it was.
marked-Chain :
    (m : Store) (stop ent sz : ℕ) (fr : Bool) (after : List Block)
    → Chain m stop ent ((sz, fr) ∷ after)
    → Chain (marked m ent) stop ent ((sz, false) ∷ after)
      × ((x : ℕ) → x < ent → marked m ent x ≡ m x)
marked-Chain m stop ent sz fr after (e, free, c) =
    let new = record (m ent) { flags = FlagField.set (m ent).flags reserved } in
    (
      (
        ap (λ (h : HeapEntry). h.next) (write_self m ent new) ∙ e,
        marked-is_free m ent,
        Chain-above m (marked m ent) stop (ent + entry_size + sz) after
            (λ x h. write_ne m ent x new (λ w. absurd (omega arith))) c,
      ),
      λ x h. write_ne m ent x new (λ w. absurd (omega arith)),
    )

pub is_free-flags :
    (m m' : Store) (a b : ℕ) → (m' b).flags ≡ (m a).flags → is_free m' b ≡ is_free m a
unfolding is_free
is_free-flags m m' a b e = rw e refl

pub is_free_blank : (m : Store) (a : ℕ) → (m a).flags ≡ 0 → is_free m a ≡ true
unfolding is_free FlagField.is_set
is_free_blank m a e = rw e refl

-- The split puts a free entry behind the bytes that are kept.
split-Chain :
    (m : Store) (stop ent count sz : ℕ) (fr : Bool) (after : List Block)
    → entry_size + count ≤ sz
    → Chain m stop ent ((sz, fr) ∷ after)
    → Chain (split m ent count) stop ent ((count, fr) ∷ (sz - count - entry_size, true) ∷ after)
      × ((x : ℕ) → x < ent → split m ent count x ≡ m x)
unfolding split init
split-Chain m stop ent count sz fr after le (e, free, c) =
    let rest = ent + entry_size + count in
    let blank : HeapEntry = record { next = (m ent).next; flags = 0 } in
    let m1 = write m rest blank in
    let new = record (m1 ent) { next = rest } in
    let m2 = write m1 ent new in
    let old : m1 ent ≡ m ent = write_ne m rest ent blank (λ w. absurd (omega arith)) in
    let first : m2 ent ≡ new = write_self m1 ent new in
    let second : m2 rest ≡ blank =
      write_ne m1 ent rest new (λ w. absurd (omega arith)) ∙ write_self m rest blank in
    let end' : rest + entry_size + (sz - count - entry_size) ≡ ent + entry_size + sz =
      omega arith in
    let others : (x : ℕ) → x ≢ ent → x ≢ rest → m2 x ≡ m x =
      λ x n1 n2. write_ne m1 ent x new n1 ∙ write_ne m rest x blank n2 in
    (
      (
        ap (λ (h : HeapEntry). h.next) first,
        is_free-flags m m2 ent ent
              (ap (λ (h : HeapEntry). h.flags) first ∙ ap (λ (h : HeapEntry). h.flags) old)
            ∙ free,
        (
          ap (λ (h : HeapEntry). h.next) second ∙ e ∙ sym end',
          is_free_blank m2 rest (ap (λ (h : HeapEntry). h.flags) second),
          subst (λ a. Chain m2 stop a after) (sym end')
              (Chain-above m m2 stop (ent + entry_size + sz) after
                (λ x h. others x (λ w. absurd (omega arith)) (λ w. absurd (omega arith))) c),
        ),
      ),
      λ x h. others x (λ w. absurd (omega arith)) (λ w. absurd (omega arith)),
    )

-- `Reserve` of a free block that is big enough returns the address behind its entry, splits the
-- block where an entry and four bytes are left, and changes no other block.
pub reserve-Chain :
    (m : Store) (stop ent count sz : ℕ) (after : List Block)
    → stop < 2 ^ 32
    → count ≤ sz
    → Chain m stop ent ((sz, true) ∷ after)
    → (m' : Store) × (reserve m ent count ≡ (ent + entry_size, m'))
      × Chain m' stop ent (carve count sz ++ after)
      × ((x : ℕ) → x < ent → m' x ≡ m x)
reserve-Chain m stop ent count sz after lt le (e, free, c) =
    let total = Chain-span m stop (ent + entry_size + sz) after c in
    let es = size-chain m ent sz e (omega arith) in
    elim (Bool-cases (leb (entry_size + 4) (sz - count))) [
      | inr tight ↦
          let (ch, same) = marked-Chain m stop ent sz true after (e, free, c) in
          (marked m ent, reserve_run m ent count sz m free es le (rw tight refl), rw tight ch, same)
      | inl wide ↦
          let wide' : entry_size + count ≤ sz = ground arith in
          let (ch, same) = split-Chain m stop ent count sz true after wide' (e, free, c) in
          let (ch', same') =
            marked-Chain (split m ent count) stop ent count true
              ((sz - count - entry_size, true) ∷ after) ch in
          (
            marked (split m ent count) ent,
            reserve_run m ent count sz (split m ent count) free es le (rw wide refl),
            rw wide ch',
            λ x h. same' x h ∙ same x h,
          )
    ]
