-- ===== src/Heap/Search.antt =====
-- The search of `malloc`: the smallest free block that is big enough.
use hausboot.Base.{
  ℕ, zero, suc, ◌+◌, ◌^◌, ◌≤◌, ◌<◌, ◌≡◌, refl, ap, ◌∙◌, subst, inl, inr, Bool, true, false, Option,
  none, some, List, [], ◌∷◌, ◌++◌, append_assoc, append-nil, arith, ltb, leb, ◌==◌, leb→le, ==_iff,
  Bool-cases, length, le_trans,
}
use hausboot.Heap.{Store, is_free, size, entry_size, better, find_loop}
use hausboot.Heap.Chain.{Block, span, Chain, Chain-span, span-append, size-chain}

-- A block that was found: what stands before it, its size, and what stands behind it.
pub record Place (count a : ℕ) (bs : List Block) (ent : ℕ) : Type 0 where
  pub before : List Block
  pub found_size : ℕ
  pub after : List Block
  pub joined : bs ≡ before ++ (found_size, true) ∷ after
  pub at : ent ≡ a + span before
  pub enough : count ≤ found_size

-- No block that is free and big enough is smaller than `best`.
abbrev pub Best : ℕ → ℕ → List Block → Type 0
Best count best [] = Unit {0}
Best count best ((sz, fr) ∷ bs) = (fr ≡ true → count ≤ sz → best ≤ sz) × Best count best bs

abbrev pub NoneFits : ℕ → List Block → Type 0
NoneFits count [] = Unit {0}
NoneFits count ((sz, fr) ∷ bs) = (fr ≡ true → sz < count) × NoneFits count bs

-- What the search knows behind the blocks that it has seen.
abbrev pub Found : Store → ℕ → ℕ → List Block → Option ℕ → Type 0
Found m count a seen none = NoneFits count seen
Found m count a seen (some ent) =
    (p : Place count a seen ent) × (size m ent ≡ p.found_size) × Best count p.found_size seen

NoneFits-append :
    (count : ℕ) (xs : List Block) (b : Block)
    → NoneFits count xs
    → (b.1 ≡ true → b.0 < count)
    → NoneFits count (xs ++ b ∷ [])
NoneFits-append count [] b h k = (k, tt)
NoneFits-append count (x ∷ xs) b h k = (h.0, NoneFits-append count xs b h.1 k)

Best-append :
    (count best : ℕ) (xs : List Block) (b : Block)
    → Best count best xs
    → (b.1 ≡ true → count ≤ b.0 → best ≤ b.0)
    → Best count best (xs ++ b ∷ [])
Best-append count best [] b h k = (k, tt)
Best-append count best (x ∷ xs) b h k = (h.0, Best-append count best xs b h.1 k)

Best-lower :
    (count best best' : ℕ) (xs : List Block)
    → best' ≤ best
    → Best count best xs
    → Best count best' xs
Best-lower count best best' [] le h = tt
Best-lower count best best' (x ∷ xs) le h =
    ((λ f c. le_trans le (h.0 f c)), Best-lower count best best' xs le h.1)

Best-of_none : (count best : ℕ) (xs : List Block) → NoneFits count xs → Best count best xs
Best-of_none count best [] h = tt
Best-of_none count best (x ∷ xs) h =
    ((λ f c. absurd (omega (arith, h.0 f))), Best-of_none count best xs h.1)

grown-joined :
    (count a ent : ℕ) (seen : List Block) (b : Block) (p : Place count a seen ent)
    → seen ++ b ∷ [] ≡ p.before ++ (p.found_size, true) ∷ (p.after ++ b ∷ [])
grown-joined count a ent seen b p =
    ap (λ (t : List Block). t ++ b ∷ []) p.joined
    ∙ append_assoc p.before ((p.found_size, true) ∷ p.after) (b ∷ [])

-- A place stays one as more blocks come behind it.
abbrev grown :
    (count a ent : ℕ) (seen : List Block) (b : Block)
    → Place count a seen ent
    → Place count a (seen ++ b ∷ []) ent
grown count a ent seen b p = record {
  before = p.before;
  found_size = p.found_size;
  after = p.after ++ b ∷ [];
  joined = grown-joined count a ent seen b p;
  at = p.at;
  enough = p.enough;
}

-- One round of the search.
better-Found :
    (m : Store) (count a it sz : ℕ) (fr : Bool) (seen : List Block) (found : Option ℕ)
    → it ≡ a + span seen
    → size m it ≡ sz
    → is_free m it ≡ fr
    → Found m count a seen found
    → Found m count a (seen ++ (sz, fr) ∷ []) (better m count it found)
unfolding better
better-Found m count a it sz false seen none at es ef h =
    rw (ef) (NoneFits-append count seen (sz, false) h (λ f. cc))
better-Found m count a it sz true seen none at es ef h = elim (Bool-cases (leb count sz)) [
  | inl fits ↦
      rw (ef, es, fits)
        (
          record {
            before = seen;
            found_size = sz;
            after = [];
            joined = refl;
            at = at;
            enough = leb→le _ _ fits;
          },
          es,
          Best-append count sz seen (sz, true) (Best-of_none count sz seen h) (λ f c. omega arith),
        )
  | inr small ↦ rw (ef, es, small) (NoneFits-append count seen (sz, true) h (λ f. ground arith))
]
better-Found m count a it sz false seen (some e) at es ef (p, pe, best) = rw ef (
  grown count a e seen (sz, false) p,
  pe,
  Best-append count p.found_size seen (sz, false) best (λ f c. cc),
)
better-Found m count a it sz true seen (some e) at es ef (p, pe, best) =
    elim (Bool-cases (leb count sz)) [
      | inr small ↦
          rw (ef, es, small)
            (
              grown count a e seen (sz, true) p,
              pe,
              Best-append count p.found_size seen (sz, true) best (λ f c. absurd (ground arith)),
            )
      | inl fits ↦ elim (Bool-cases (ltb sz p.found_size)) [
        | inl less ↦
            rw (ef, es, fits, pe, less)
              (
                record {
                  before = seen;
                  found_size = sz;
                  after = [];
                  joined = refl;
                  at = at;
                  enough = leb→le _ _ fits;
                },
                es,
                Best-append count sz seen (sz, true)
                    (Best-lower count p.found_size sz seen (ground arith) best)
                    (λ f c. omega arith),
              )
        | inr more ↦
            rw (ef, es, fits, pe, more)
              (
                grown count a e seen (sz, true) p,
                pe,
                Best-append count p.found_size seen (sz, true) best (λ f c. ground arith),
              )
      ]
    ]

find_loop_step :
    (fuel : ℕ) (m : Store) (stop count it n : ℕ) (found : Option ℕ)
    → (it == stop) ≡ false
    → (m it).next ≡ n
    → find_loop (suc fuel) m stop count it found
      ≡ find_loop fuel m stop count n (better m count it found)
unfolding find_loop
find_loop_step fuel m stop count it n found more e = rw (more, e) refl

-- The whole search, over the blocks `bs` that are left.
pub find_loop-Found :
    (fuel : ℕ) (m : Store) (stop count a it : ℕ) (seen bs : List Block) (found : Option ℕ)
    → length bs < fuel
    → stop < 2 ^ 32
    → Chain m stop it bs
    → it ≡ a + span seen
    → Found m count a seen found
    → (out : Option ℕ) × (find_loop fuel m stop count it found ≡ some out)
      × Found m count a (seen ++ bs) out
unfolding find_loop
find_loop-Found zero m stop count a it seen bs found h lt c at f = absurd (omega arith)
find_loop-Found (suc fuel) m stop count a it seen [] found h lt c at f =
    let done : (it == stop) ≡ true = (==_iff it stop).1 c in
    (found, rw done refl, rw (append-nil seen) f)
find_loop-Found (suc fuel) m stop count a it seen ((sz, fr) ∷ bs) found h lt (e, free, c) at f =
    let total = Chain-span m stop (it + entry_size + sz) bs c in
    let more : (it == stop) ≡ false = ground arith in
    let es = size-chain m it sz e (omega arith) in
    let (out, ran, f') =
      find_loop-Found fuel m stop count a (it + entry_size + sz) (seen ++ (sz, fr) ∷ []) bs
        (better m count it found) (omega arith) lt c
        (omega (arith, span-append seen ((sz, fr) ∷ [])))
        (better-Found m count a it sz fr seen found at es free f) in
    (
      out,
      find_loop_step fuel m stop count it (it + entry_size + sz) found more e ∙ ran,
      subst (λ t. Found m count a t out) (append_assoc seen ((sz, fr) ∷ []) bs) f',
    )
