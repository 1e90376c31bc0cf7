-- ===== src/Heap/Chain.antt =====
-- A heap as a list of blocks, and the store that represents it.
use hausboot.Base.{
  ℕ, ◌+◌, ◌^◌, ◌≤◌, ◌<◌, ◌≡◌, refl, ap, ◌∙◌, subst, Bool, List, [], ◌∷◌, ◌++◌, arith,
}
use hausboot.Heap.{HeapEntry, Store, is_free, size, entry_size}

-- A block's size without its entry, and whether it is free.
abbrev pub Block : Type 0
Block = ℕ × Bool

-- The bytes that the blocks take, with their entries.
abbrev pub span : List Block → ℕ
span [] = 0
span ((sz, fr) ∷ bs) = entry_size + sz + span bs

-- From address `a` the entries lead through the blocks `bs` to `stop`.
abbrev pub Chain : Store → ℕ → ℕ → List Block → Type 0
Chain m stop a [] = a ≡ stop
Chain m stop a ((sz, fr) ∷ bs) =
    ((m a).next ≡ a + entry_size + sz) × (is_free m a ≡ fr) × Chain m stop (a + entry_size + sz) bs

pub Chain-span : (m : Store) (stop a : ℕ) (bs : List Block) → Chain m stop a bs → stop ≡ a + span bs
Chain-span m stop a [] c = omega arith
Chain-span m stop a ((sz, fr) ∷ bs) (e, f, c) =
    omega (arith, Chain-span m stop (a + entry_size + sz) bs c)

pub span-append : (xs ys : List Block) → span (xs ++ ys) ≡ span xs + span ys
span-append [] ys = omega arith
span-append ((sz, fr) ∷ xs) ys = omega (arith, span-append xs ys)

pub Chain-append :
    (m : Store) (mid stop a : ℕ) (xs ys : List Block)
    → Chain m mid a xs
    → Chain m stop mid ys
    → Chain m stop a (xs ++ ys)
Chain-append m mid stop a [] ys c d = rw c d
Chain-append m mid stop a ((sz, fr) ∷ xs) ys (e, f, c) d =
    (e, f, Chain-append m mid stop (a + entry_size + sz) xs ys c d)

pub Chain-split :
    (m : Store) (stop a : ℕ) (xs ys : List Block)
    → Chain m stop a (xs ++ ys)
    → Chain m (a + span xs) a xs × Chain m stop (a + span xs) ys
Chain-split m stop a [] ys c = let e : a ≡ a + 0 = omega arith in (e, rw (← e) c)
Chain-split m stop a ((sz, fr) ∷ xs) ys (e, f, c) =
    let (front, back) = Chain-split m stop (a + entry_size + sz) xs ys c in
    let at : a + entry_size + sz + span xs ≡ a + (entry_size + sz + span xs) = omega arith in
    (
      (e, f, subst (λ s. Chain m s (a + entry_size + sz) xs) at front),
      subst (λ s. Chain m stop s ys) at back,
    )

pub is_free-entry : (m m' : Store) (a : ℕ) → m' a ≡ m a → is_free m' a ≡ is_free m a
unfolding is_free
is_free-entry m m' a e = rw e refl

-- A store that agrees from `a` on represents the same blocks behind `a`.
pub Chain-above :
    (m m' : Store) (stop a : ℕ) (bs : List Block)
    → ((x : ℕ) → a ≤ x → m' x ≡ m x)
    → Chain m stop a bs
    → Chain m' stop a bs
Chain-above m m' stop a [] same c = c
Chain-above m m' stop a ((sz, fr) ∷ bs) same (e, f, c) = (
  ap (λ (h : HeapEntry). h.next) (same a (omega arith)) ∙ e,
  is_free-entry m m' a (same a (omega arith)) ∙ f,
  Chain-above m m' stop (a + entry_size + sz) bs (λ x h. same x (omega arith)) c,
)

-- A store that agrees below `stop` represents the same blocks before it.
pub Chain-below :
    (m m' : Store) (stop a : ℕ) (bs : List Block)
    → ((x : ℕ) → x < stop → m' x ≡ m x)
    → Chain m stop a bs
    → Chain m' stop a bs
Chain-below m m' stop a [] same c = c
Chain-below m m' stop a ((sz, fr) ∷ bs) same (e, f, c) =
    let here : m' a ≡ m a = same a (omega (arith, Chain-span m stop (a + entry_size + sz) bs c)) in
    (
      ap (λ (h : HeapEntry). h.next) here ∙ e,
      is_free-entry m m' a here ∙ f,
      Chain-below m m' stop (a + entry_size + sz) bs same c,
    )

-- The pointer difference in `Size` is the block's size, below 2 ^ 32.
pub size-chain :
    (m : Store) (a sz : ℕ)
    → (m a).next ≡ a + entry_size + sz
    → a + entry_size + sz < 2 ^ 32
    → size m a ≡ sz
unfolding size
size-chain m a sz e h = omega arith
