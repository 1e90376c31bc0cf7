-- ===== src/Pm86/Copy.antt =====
-- lib/pm86/copy.cpp: the copy and the clear of memory that run in protected mode. Memory is a
-- function from addresses to bytes; the ranges are taken not to wrap around.
use hausboot.Base.{
  ℕ, zero, suc, ◌+◌, ◌-◌, ◌≤◌, ◌<◌, ◌≡◌, refl, sym, ap, ◌∙◌, ◌≢◌, ◌⊎◌, inl, inr, true, false, ◌&&◌,
  ◌||◌, arith, ltb, leb, ◌==◌, if◌then◌else◌, Bool-cases,
}

abbrev pub Memory : Type 0
Memory = ℕ → ℕ

pub poke : Memory → ℕ → ℕ → Memory
poke m at v i = if i == at then v else m i

-- The loop upwards.
pub copy_up : Memory → ℕ → ℕ → ℕ → Memory
copy_up m d s zero = m
copy_up m d s (suc count) = copy_up (poke m d (m s)) (suc d) (suc s) count

-- The loop downwards, with the pointers one past the byte that comes next.
pub copy_down : Memory → ℕ → ℕ → ℕ → Memory
copy_down m d s zero = m
copy_down m d s (suc count) = copy_down (poke m (d - 1) (m (s - 1))) (d - 1) (s - 1) count

-- `CopyMemory32`
pub copy_memory32 : Memory → ℕ → ℕ → ℕ → Memory
copy_memory32 m dst src count =
    if dst == src || count == 0
    then m
    else if ltb dst src
    then copy_up m dst src count
    else copy_down m (dst + count) (src + count) count

-- `ClearMemory32`
pub clear_memory32 : Memory → ℕ → ℕ → Memory
clear_memory32 m ptr zero = m
clear_memory32 m ptr (suc size) = clear_memory32 (poke m ptr 0) (suc ptr) size

-- Memory `m` with `count` bytes at `dst` as they were at `src`.
abbrev pub moved : Memory → ℕ → ℕ → ℕ → Memory
moved m dst src count i = if leb dst i && ltb i (dst + count) then m (src + (i - dst)) else m i

poke_self : (m : Memory) (at v : ℕ) → poke m at v at ≡ v
unfolding poke
poke_self m at v = ground arith

poke_ne : (m : Memory) (at v i : ℕ) → i ≢ at → poke m at v i ≡ m i
unfolding poke
poke_ne m at v i ne = ground arith

moved_in :
    (m : Memory) (dst src count k i : ℕ)
    → k < count
    → i ≡ dst + k
    → moved m dst src count i ≡ m (src + k)
moved_in m dst src count k i h e =
    let inside : (leb dst i && ltb i (dst + count)) ≡ true = ground arith in
    rw inside (ap m (omega arith))

moved_out :
    (m : Memory) (dst src count i : ℕ)
    → (i < dst) ⊎ (dst + count ≤ i)
    → moved m dst src count i ≡ m i
moved_out m dst src count i (inl h) =
    let outside : (leb dst i && ltb i (dst + count)) ≡ false = ground arith in rw outside refl
moved_out m dst src count i (inr h) =
    let outside : (leb dst i && ltb i (dst + count)) ≡ false = ground arith in rw outside refl

copy_up-moved : (m : Memory) (d s count i : ℕ) → d < s → copy_up m d s count i ≡ moved m d s count i
unfolding copy_up
copy_up-moved m d s zero i h = elim (Bool-cases (ltb i d)) [
  | inl e ↦ sym (moved_out m d s zero i (inl (ground arith)))
  | inr e ↦ sym (moved_out m d s zero i (inr (ground arith)))
]
copy_up-moved m d s (suc count) i h =
    let m' = poke m d (m s) in
    let rest = copy_up-moved m' (suc d) (suc s) count i (omega arith) in
    elim (Bool-cases (ltb i d)) [
      | inl e ↦
          let low : i < d = ground arith in
          rest
          ∙ moved_out m' (suc d) (suc s) count i (inl (omega arith))
          ∙ poke_ne m d (m s) i (λ w. absurd (omega arith))
          ∙ sym (moved_out m d s (suc count) i (inl low))
      | inr e ↦ elim (Bool-cases (i == d)) [
        | inl e' ↦
            let at : i ≡ d = ground arith in
            rest
            ∙ moved_out m' (suc d) (suc s) count i (inl (omega arith))
            ∙ ap m' at
            ∙ poke_self m d (m s)
            ∙ sym (moved_in m d s (suc count) 0 i (omega arith) (omega arith) ∙ ap m (omega arith))
        | inr e' ↦ elim (Bool-cases (ltb i (d + suc count))) [
          | inl e'' ↦
              let k = i - suc d in
              let at : i ≡ suc d + k = ground arith in
              let less : k < count = ground arith in
              rest
              ∙ moved_in m' (suc d) (suc s) count k i less at
              ∙ poke_ne m d (m s) (suc s + k) (λ w. absurd (omega arith))
              ∙ sym (
                  moved_in m d s (suc count) (suc k) i (omega arith) (omega arith)
                  ∙ ap m (omega arith))
          | inr e'' ↦
              let past : suc d + count ≤ i = ground arith in
              rest
              ∙ moved_out m' (suc d) (suc s) count i (inr past)
              ∙ poke_ne m d (m s) i (λ w. absurd (omega arith))
              ∙ sym (moved_out m d s (suc count) i (inr (omega arith)))
        ]
      ]
    ]

copy_down_step :
    (m : Memory) (d s count : ℕ)
    → copy_down m (d + suc count) (s + suc count) (suc count)
      ≡ copy_down (poke m (d + count) (m (s + count))) (d + count) (s + count) count
unfolding copy_down
copy_down_step m d s count =
    let a : d + suc count - 1 ≡ d + count = omega arith in
    let b : s + suc count - 1 ≡ s + count = omega arith in rw (a, b) refl

copy_down_none : (m : Memory) (d s : ℕ) → copy_down m d s 0 ≡ m
unfolding copy_down
copy_down_none m d s = refl

copy_down-moved :
    (m : Memory) (d s count i : ℕ)
    → s < d
    → copy_down m (d + count) (s + count) count i ≡ moved m d s count i
copy_down-moved m d s zero i h =
    ap (λ (f : Memory). f i) (copy_down_none m _ _) ∙ elim (Bool-cases (ltb i d)) [
      | inl e ↦ sym (moved_out m d s zero i (inl (ground arith)))
      | inr e ↦ sym (moved_out m d s zero i (inr (ground arith)))
    ]
copy_down-moved m d s (suc count) i h =
    let m' = poke m (d + count) (m (s + count)) in
    let rest =
      ap (λ (f : Memory). f i) (copy_down_step m d s count) ∙ copy_down-moved m' d s count i h in
    elim (Bool-cases (ltb i d)) [
      | inl e ↦
          let low : i < d = ground arith in
          rest
          ∙ moved_out m' d s count i (inl low)
          ∙ poke_ne m (d + count) (m (s + count)) i (λ w. absurd (omega arith))
          ∙ sym (moved_out m d s (suc count) i (inl low))
      | inr e ↦ elim (Bool-cases (i == d + count)) [
        | inl e' ↦
            let at : i ≡ d + count = ground arith in
            rest
            ∙ moved_out m' d s count i (inr (omega arith))
            ∙ ap m' at
            ∙ poke_self m (d + count) (m (s + count))
            ∙ sym (moved_in m d s (suc count) count i (omega arith) (omega arith))
        | inr e' ↦ elim (Bool-cases (ltb i (d + suc count))) [
          | inl e'' ↦
              let k = i - d in
              let at : i ≡ d + k = ground arith in
              let less : k < count = ground arith in
              rest
              ∙ moved_in m' d s count k i less at
              ∙ poke_ne m (d + count) (m (s + count)) (s + k) (λ w. absurd (omega arith))
              ∙ sym (moved_in m d s (suc count) k i (omega arith) (omega arith))
          | inr e'' ↦
              let past : d + suc count ≤ i = ground arith in
              rest
              ∙ moved_out m' d s count i (inr (omega arith))
              ∙ poke_ne m (d + count) (m (s + count)) i (λ w. absurd (omega arith))
              ∙ sym (moved_out m d s (suc count) i (inr past))
        ]
      ]
    ]

moved_same : (m : Memory) (d count i : ℕ) → moved m d d count i ≡ m i
moved_same m d count i = elim (Bool-cases (leb d i && ltb i (d + count))) [
  | inl e ↦ let above : d ≤ i = ground arith in rw e (ap m (omega arith))
  | inr e ↦ rw e refl
]

copy_memory32_cases :
    (m : Memory) (dst src count : ℕ)
    → ((dst ≡ src) ⊎ (count ≡ 0) → copy_memory32 m dst src count ≡ m)
      × (dst < src → 0 < count → copy_memory32 m dst src count ≡ copy_up m dst src count)
      × (src < dst
          → 0 < count
          → copy_memory32 m dst src count ≡ copy_down m (dst + count) (src + count) count)
unfolding copy_memory32
copy_memory32_cases m dst src count = (λ e. ground arith, λ h k. ground arith, λ h k. ground arith)

-- `CopyMemory32` moves `count` bytes as they were before the call, whether or not the two ranges
-- overlap, and changes no other byte.
pub copy_memory32-moved :
    (m : Memory) (dst src count i : ℕ) → copy_memory32 m dst src count i ≡ moved m dst src count i
copy_memory32-moved m dst src count i =
    let (same, up, down) = copy_memory32_cases m dst src count in
    let apply = λ (f : Memory). f i in
    elim (Bool-cases (dst == src || count == 0)) [
      | inl e ↦ elim (Bool-cases (dst == src)) [
        | inl e' ↦
            let at : dst ≡ src = ground arith in
            ap apply (same (inl at)) ∙ sym (rw at (moved_same m src count i))
        | inr e' ↦
            let none' : count ≡ 0 = ground arith in
            let shut : (leb dst i && ltb i (dst + count)) ≡ false = ground arith in
            ap apply (same (inr none')) ∙ sym (rw shut refl)
      ]
      | inr e ↦
          let some' : 0 < count = ground arith in
          elim (Bool-cases (ltb dst src)) [
            | inl e' ↦
                let h : dst < src = ground arith in
                ap apply (up h some') ∙ copy_up-moved m dst src count i h
            | inr e' ↦
                let h : src < dst = ground arith in
                ap apply (down h some') ∙ copy_down-moved m dst src count i h
          ]
    ]

-- `ClearMemory32` sets the bytes of its range to zero and changes no other byte.
pub clear_memory32_lem :
    (m : Memory) (dst size i : ℕ)
    → clear_memory32 m dst size i ≡ (if leb dst i && ltb i (dst + size) then 0 else m i)
unfolding clear_memory32 poke
clear_memory32_lem m dst zero i = ground arith
clear_memory32_lem m dst (suc size) i =
    clear_memory32_lem (poke m dst 0) (suc dst) size i ∙ ground arith
