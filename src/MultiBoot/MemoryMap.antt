-- ===== src/MultiBoot/MemoryMap.antt =====
-- include/BIOS/MemoryMap.h: the memory map that the BIOS hands out entry by entry, and
-- include/kernel/MultiBootMmap.h. The interrupt is a parameter: from the value of EBX to its
-- result, the new value and the entry.
use hausboot.Base.{
  ℕ, zero, suc, ◌-◌, ◌<◌, ◌≡◌, refl, ap, ◌∙◌, ◌≢◌, Bool, true, false, Option, none, List, [], ◌∷◌,
  ◌++◌, append_assoc, append-nil, arith, ltb, ◌==◌, if◌then◌else◌, length, get_elem?, take,
  take_all,
}

pub record MemoryMapEntry : Type 0 where
  pub base : ℕ
  pub size : ℕ
  pub kind : ℕ

pub data MemType : Type 0 where
  usable reserved acpi preserve broken : MemType

-- `Type`
pub mem_type : MemoryMapEntry → MemType
mem_type e =
    if e.kind == 1
    then usable
    else if e.kind == 2
    then reserved
    else if e.kind == 3
    then acpi
    else if e.kind == 4
    then preserve
    else broken

-- The result of the interrupt: negative, positive or zero.
pub data Answer : Type 0 where
  failed last good : Answer

pub record Reply : Type 0 where
  pub answer : Answer
  pub ebx : ℕ
  pub entry : MemoryMapEntry

-- The loop of `Load` for at most `left` entries more, behind the entries `seen`. Its result and
-- the entries; after a failure there are none.
unfoldable pub load_loop : (ℕ → Reply) → ℕ → ℕ → List MemoryMapEntry → Bool × List MemoryMapEntry
load_loop bios zero ebx seen = (true, seen)
load_loop bios (suc left) ebx seen =
    let r = bios ebx in
    let more = seen ++ r.entry ∷ [] in
    let rest = load_loop bios left r.ebx more in
    elim r.answer [
      | failed ↦ (false, [])
      | last ↦ (true, seen)
      | good ↦ if r.ebx == 0 then (true, more) else rest
    ]

-- `Load`, for a map with room for at least one entry.
pub load : (ℕ → Reply) → ℕ → Bool × List MemoryMapEntry
load bios max_count = load_loop bios max_count 0 []

-- `At`: the last entry past the end; `none` where the map is empty, since the index is then -1.
unfoldable pub at : List MemoryMapEntry → ℕ → Option MemoryMapEntry
at entries i =
    if ltb i (length entries)
    then get_elem? entries i
    else (if length entries == 0 then none else get_elem? entries (length entries - 1))

-- What the interrupt hands out from one value of EBX on, up to the end of the map.
pub data Hands (bios : ℕ → Reply) : ℕ → List MemoryMapEntry → Bool → Type 0 where
  stops : {ebx : ℕ} → (bios ebx).answer ≡ last → Hands bios ebx [] true
  fails : {ebx : ℕ} → (bios ebx).answer ≡ failed → Hands bios ebx [] false
  ends :
      {ebx : ℕ}
      → (bios ebx).answer ≡ good
      → (bios ebx).ebx ≡ 0
      → Hands bios ebx ((bios ebx).entry ∷ []) true
  goes_on :
      {ebx : ℕ} {es : List MemoryMapEntry} {ok : Bool}
      → (bios ebx).answer ≡ good
      → (bios ebx).ebx ≢ 0
      → Hands bios (bios ebx).ebx es ok
      → Hands bios ebx ((bios ebx).entry ∷ es) ok

-- The first entries that fit, and whether the load was cut short.
load_loop-Hands :
    (bios : ℕ → Reply) (left ebx : ℕ) (seen es : List MemoryMapEntry)
    → Hands bios ebx es true
    → load_loop bios left ebx seen ≡ (true, seen ++ take left es)
unfolding load_loop
load_loop-Hands bios zero ebx seen es h = rw (append-nil seen) refl
load_loop-Hands bios (suc left) ebx seen _ (stops e) = rw (e, load_loop, append-nil seen) refl
load_loop-Hands bios (suc left) ebx seen _ (ends e z) =
    let at : ((bios ebx).ebx == 0) ≡ true = ground arith in
    rw (e, load_loop, at, take_all {A = MemoryMapEntry} left [] (omega arith)) refl
load_loop-Hands bios (suc left) ebx seen _ (goes_on {es = es} e z h) =
    let at : ((bios ebx).ebx == 0) ≡ false = ground arith in
    rw (e, load_loop, at)
      (load_loop-Hands bios left (bios ebx).ebx (seen ++ (bios ebx).entry ∷ []) es h
        ∙ ap (λ (t : List MemoryMapEntry). (true, t))
            (append_assoc seen ((bios ebx).entry ∷ []) (take left es)))

load_loop_fails :
    (bios : ℕ → Reply) (left ebx : ℕ) (seen es : List MemoryMapEntry)
    → Hands bios ebx es false
    → length es < left
    → load_loop bios left ebx seen ≡ (false, [])
unfolding load_loop
load_loop_fails bios zero ebx seen es h lt = absurd (omega arith)
load_loop_fails bios (suc left) ebx seen _ (fails e) lt = rw (e, load_loop) refl
load_loop_fails bios (suc left) ebx seen _ (goes_on {es = es} e z h) lt =
    let at : ((bios ebx).ebx == 0) ≡ false = ground arith in
    rw (e, load_loop, at)
      (load_loop_fails bios left (bios ebx).ebx (seen ++ (bios ebx).entry ∷ []) es h (omega arith))

-- Where the BIOS hands out the entries `es` and ends the map, by a zero EBX or by a positive
-- result, `Load` keeps as many of them as fit.
pub load-Hands :
    (bios : ℕ → Reply) (max_count : ℕ) (es : List MemoryMapEntry)
    → Hands bios 0 es true
    → load bios max_count ≡ (true, take max_count es)
unfolding load
load-Hands bios max_count es h = load_loop-Hands bios max_count 0 [] es h

-- Where the BIOS fails behind fewer entries than fit, `Load` fails and keeps none.
pub load_fails :
    (bios : ℕ → Reply) (max_count : ℕ) (es : List MemoryMapEntry)
    → Hands bios 0 es false
    → length es < max_count
    → load bios max_count ≡ (false, [])
unfolding load
load_fails bios max_count es h lt = load_loop_fails bios max_count 0 [] es h lt
