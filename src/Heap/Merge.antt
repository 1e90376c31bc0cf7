-- ===== src/Heap/Merge.antt =====
-- The inner loop of `free` against the list of blocks: two free neighbours become one block.
use hausboot.Base.{
  ℕ, zero, suc, ◌+◌, ◌<◌, ◌≡◌, refl, sym, ap, ◌∙◌, subst, inl, inr, Bool, true, false, ◌&&◌, Option,
  none, some, List, [], ◌∷◌, arith, ◌==◌, ==_iff, Bool-cases, Option-cases, length,
}
use hausboot.Heap.{HeapEntry, Store, write, is_free, entry_size, try_consolidate, merge_pass}
use hausboot.Heap.Chain.{Block, span, Chain, Chain-span, Chain-above, is_free-entry}
use hausboot.Heap.Reserve.{write_self, write_ne, is_free-flags}

-- The first two free neighbours become one block; `none` where there are none.
abbrev pub merge_first : List Block → Option (List Block)
merge_first [] = none
merge_first (b ∷ []) = none
merge_first ((s, true) ∷ (t, true) ∷ bs) = some ((s + entry_size + t, true) ∷ bs)
merge_first ((s, true) ∷ (t, false) ∷ bs) = elim (merge_first ((t, false) ∷ bs)) [
  | none ↦ none
  | some r ↦ some ((s, true) ∷ r)
]
merge_first ((s, false) ∷ b ∷ bs) = elim (merge_first (b ∷ bs)) [
  | none ↦ none
  | some r ↦ some ((s, false) ∷ r)
]

-- No two free blocks stand side by side.
abbrev pub IsCoalesced : List Block → Type 0
IsCoalesced [] = Unit {0}
IsCoalesced (b ∷ []) = Unit {0}
IsCoalesced ((s, true) ∷ (t, true) ∷ bs) = ⊥
IsCoalesced ((s, true) ∷ (t, false) ∷ bs) = IsCoalesced ((t, false) ∷ bs)
IsCoalesced ((s, false) ∷ b ∷ bs) = IsCoalesced (b ∷ bs)

-- The blocks that are in use, in order.
abbrev pub used : List Block → List ℕ
used [] = []
used ((s, true) ∷ bs) = used bs
used ((s, false) ∷ bs) = s ∷ used bs

-- A merge keeps the space and the blocks in use, and leaves one block less.
pub merge_first-some :
    (bs bs' : List Block)
    → merge_first bs ≡ some bs'
    → (span bs' ≡ span bs)
      × (used bs' ≡ used bs)
      × (suc (length bs') ≡ length bs)
      × (0 < length bs')
merge_first-some [] bs' e = cc
merge_first-some (b ∷ []) bs' e = cc
merge_first-some ((s, true) ∷ (t, true) ∷ bs) bs' e =
    let q : (s + entry_size + t, true) ∷ bs ≡ bs' = cc in
    rw (← q) (omega arith, refl, refl, omega arith)
merge_first-some ((s, true) ∷ (t, false) ∷ bs) bs' e =
    elim (Option-cases (merge_first ((t, false) ∷ bs))) [
      | inl stuck ↦ cc (rw stuck at e)
      | inr (r, got) ↦
          let (sp, us, len, _) = merge_first-some ((t, false) ∷ bs) r got in
          let e' : some ((s, true) ∷ r) ≡ some bs' = rw got at e in
          let q : (s, true) ∷ r ≡ bs' = cc in
          rw (← q) (omega (arith, sp), us, omega (arith, len), omega arith)
    ]
merge_first-some ((s, false) ∷ b ∷ bs) bs' e = elim (Option-cases (merge_first (b ∷ bs))) [
  | inl stuck ↦ cc (rw stuck at e)
  | inr (r, got) ↦
      let (sp, us, len, _) = merge_first-some (b ∷ bs) r got in
      let e' : some ((s, false) ∷ r) ≡ some bs' = rw got at e in
      let q : (s, false) ∷ r ≡ bs' = cc in
      rw (← q) (omega (arith, sp), ap (λ t. s ∷ t) us, omega (arith, len), omega arith)
]

pub merge_first-none : (bs : List Block) → merge_first bs ≡ none → IsCoalesced bs
merge_first-none [] e = tt
merge_first-none (b ∷ []) e = tt
merge_first-none ((s, true) ∷ (t, true) ∷ bs) e = cc
merge_first-none ((s, true) ∷ (t, false) ∷ bs) e =
    elim (Option-cases (merge_first ((t, false) ∷ bs))) [
      | inl stuck ↦ merge_first-none ((t, false) ∷ bs) stuck
      | inr (r, got) ↦ cc (rw got at e)
    ]
merge_first-none ((s, false) ∷ b ∷ bs) e = elim (Option-cases (merge_first (b ∷ bs))) [
  | inl stuck ↦ merge_first-none (b ∷ bs) stuck
  | inr (r, got) ↦ cc (rw got at e)
]

try_consolidate_stays :
    (m : Store) (a b : ℕ)
    → (m a).next ≡ b
    → (is_free m a && is_free m b) ≡ false
    → try_consolidate m a ≡ (false, m)
unfolding try_consolidate
try_consolidate_stays m a b e h = rw (e, h) refl

-- The entry at `a` leads past the entry behind it.
abbrev joined : Store → ℕ → ℕ → Store
joined m a c = write m a (record (m a) { next = c })

try_consolidate_merges :
    (m : Store) (a b c : ℕ)
    → (m a).next ≡ b
    → (m b).next ≡ c
    → is_free m a ≡ true
    → is_free m b ≡ true
    → try_consolidate m a ≡ (true, joined m a c)
unfolding try_consolidate
try_consolidate_merges m a b c e f fa fb = rw (e, fa, fb, f) refl

joined-Chain :
    (m : Store) (stop a s t : ℕ) (bs : List Block)
    → Chain m stop a ((s, true) ∷ (t, true) ∷ bs)
    → Chain
        (joined m a (a + entry_size + s + entry_size + t))
        stop
        a
        ((s + entry_size + t, true) ∷ bs)
joined-Chain m stop a s t bs (e, fa, (f, fb, c)) =
    let b = a + entry_size + s + entry_size + t in
    let new = record (m a) { next = b } in
    let here = write_self m a new in
    let at : b ≡ a + entry_size + (s + entry_size + t) = omega arith in
    (
      ap (λ (h : HeapEntry). h.next) here ∙ at,
      is_free-flags m (joined m a b) a a (ap (λ (h : HeapEntry). h.flags) here) ∙ fa,
      subst (λ x. Chain (joined m a b) stop x bs) at
          (Chain-above m (joined m a b) stop b bs
            (λ x h. write_ne m a x new (λ w. absurd (omega arith))) c),
    )

merge_pass_end :
    (fuel : ℕ) (m : Store) (stop a : ℕ)
    → (m a).next ≡ stop
    → merge_pass (suc fuel) m stop a ≡ some (false, m)
unfolding merge_pass
merge_pass_end fuel m stop a e =
    let done : ((m a).next == stop) ≡ true = (==_iff (m a).next stop).1 e in rw done refl

merge_pass_step :
    (fuel : ℕ) (m : Store) (stop a b : ℕ)
    → (m a).next ≡ b
    → (b == stop) ≡ false
    → try_consolidate m a ≡ (false, m)
    → merge_pass (suc fuel) m stop a ≡ merge_pass fuel m stop b
unfolding merge_pass
merge_pass_step fuel m stop a b e more t = rw (e, more, t) refl

merge_pass_hit :
    (fuel : ℕ) (m m' : Store) (stop a b : ℕ)
    → (m a).next ≡ b
    → (b == stop) ≡ false
    → try_consolidate m a ≡ (true, m')
    → merge_pass (suc fuel) m stop a ≡ some (true, m')
unfolding merge_pass
merge_pass_hit fuel m m' stop a b e more t = rw (e, more, t) refl

-- What a pass over the blocks `bs` from `a` leaves.
abbrev pub Passed : Store → ℕ → ℕ → List Block → Option (List Block) → Bool × Store → Type 0
Passed m stop a bs none (merged, m') = (merged ≡ false) × (m' ≡ m)
Passed m stop a bs (some bs') (merged, m') =
    (merged ≡ true) × Chain m' stop a bs' × ((x : ℕ) → x < a → m' x ≡ m x)

abbrev under : Block → Option (List Block) → Option (List Block)
under b none = none
under b (some r) = some (b ∷ r)

under-Passed :
    (m : Store) (stop a s : ℕ) (fr : Bool) (bs : List Block) (o : Option (List Block))
    (r : Bool × Store)
    → Chain m stop a ((s, fr) ∷ bs)
    → Passed m stop (a + entry_size + s) bs o r
    → Passed m stop a ((s, fr) ∷ bs) (under (s, fr) o) r
under-Passed m stop a s fr bs none r c p = p
under-Passed m stop a s fr bs (some bs') (merged, m') (e, f, c) (hit, c', same) =
    let here : m' a ≡ m a = same a (omega arith) in
    (
      hit,
      (ap (λ (h : HeapEntry). h.next) here ∙ e, is_free-entry m m' a here ∙ f, c'),
      λ x h. same x (omega arith),
    )

-- Two blocks that are not both free: the pass goes on.
merge_first_apart :
    (s t : ℕ) (f g : Bool) (bs : List Block)
    → (f && g) ≡ false
    → merge_first ((s, f) ∷ (t, g) ∷ bs) ≡ under (s, f) (merge_first ((t, g) ∷ bs))
merge_first_apart s t true true bs e = cc
merge_first_apart s t true false bs e = elim (Option-cases (merge_first ((t, false) ∷ bs))) [
  | inl w ↦ rw w refl
  | inr (r, w) ↦ rw w refl
]
merge_first_apart s t false g bs e = elim (Option-cases (merge_first ((t, g) ∷ bs))) [
  | inl w ↦ rw w refl
  | inr (r, w) ↦ rw w refl
]

&&-true : (f g : Bool) → (f && g) ≡ true → (f ≡ true) × (g ≡ true)
&&-true true g e = (refl, e)
&&-true false g e = cc

-- A pass over a chain ends within as many rounds as there are blocks, and does what
-- `merge_first` says.
pub merge_pass-Passed :
    (fuel : ℕ) (m : Store) (stop a : ℕ) (b : Block) (bs : List Block)
    → length bs < fuel
    → Chain m stop a (b ∷ bs)
    → (r : Bool × Store) × (merge_pass fuel m stop a ≡ some r)
      × Passed m stop a (b ∷ bs) (merge_first (b ∷ bs)) r
merge_pass-Passed zero m stop a b bs h c = absurd (omega arith)
merge_pass-Passed (suc fuel) m stop a (s, f) [] h (e, fa, c) =
    ((false, m), merge_pass_end fuel m stop a (e ∙ c), (refl, refl))
merge_pass-Passed (suc fuel) m stop a (s, f) ((t, g) ∷ bs) h (e, fa, (e', fb, c)) =
    let n = a + entry_size + s in
    let total = Chain-span m stop (n + entry_size + t) bs c in
    let more : (n == stop) ≡ false = ground arith in
    elim (Bool-cases (f && g)) [
      | inr apart ↦
          let stays : try_consolidate m a ≡ (false, m) =
            try_consolidate_stays m a n e (rw (fa, fb) apart) in
          let (r, ran, p) = merge_pass-Passed fuel m stop n (t, g) bs (omega arith) (e', fb, c) in
          (
            r,
            merge_pass_step fuel m stop a n e more stays ∙ ran,
            subst (λ o. Passed m stop a ((s, f) ∷ (t, g) ∷ bs) o r)
                (sym (merge_first_apart s t f g bs apart))
                (under-Passed m stop a s f ((t, g) ∷ bs) (merge_first ((t, g) ∷ bs)) r
                  (e, fa, (e', fb, c)) p),
          )
      | inl both ↦
          let f_free : f ≡ true = (&&-true f g both).0 in
          let g_free : g ≡ true = (&&-true f g both).1 in
          let q = n + entry_size + t in
          (
            (true, joined m a q),
            merge_pass_hit fuel m (joined m a q) stop a n e more
                (try_consolidate_merges m a n q e e' (fa ∙ f_free) (fb ∙ g_free)),
            rw (f_free, g_free)
                (
                  refl,
                  joined-Chain m stop a s t bs (e, fa ∙ f_free, (e', fb ∙ g_free, c)),
                  λ x h. write_ne m a x (record (m a) { next = q }) (λ w. absurd (omega arith)),
                ),
          )
    ]
