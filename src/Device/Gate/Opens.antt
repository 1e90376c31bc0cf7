-- ===== src/Device/Gate/Opens.antt =====
-- lib/pm86/a20.cpp: a test that succeeds is right.
use hausboot.Base.{
  ℕ, zero, suc, ◌+◌, ◌≤◌, ◌<◌, ◌≡◌, refl, sym, ap, ◌∙◌, ◌≢◌, inl, inr, Bool, true, false, not, ◌&&◌,
  arith, ◌==◌, ==_iff, Bool-cases, bit_xor,
}
use hausboot.Device.Gate.{
  Machine, enable_a20_gate, enable_fast_a20, low, high, poke_both, restore, test_loop, test_a20,
  try_next, test_if, enable_round, enable_loop, enable_a20,
}

-- The patterns of the rounds below `n` differ.
all_differ : ℕ → Bool
all_differ zero = true
all_differ (suc n) = not (bit_xor 0xAA n == bit_xor 0x55 n) && all_differ n

both : (a b : Bool) → a && b ≡ true → (a ≡ true) × (b ≡ true)
both true true e = (refl, refl)
both true false e = cc
both false b e = cc

not-true : (a : Bool) → not a ≡ true → a ≡ false
not-true true e = cc
not-true false e = refl

differ_below : (n i : ℕ) → all_differ n ≡ true → i < n → (bit_xor 0xAA i == bit_xor 0x55 i) ≡ false
unfolding all_differ
differ_below zero i e h = absurd (omega arith)
differ_below (suc n) i e h =
    let (here, rest) = both (not (bit_xor 0xAA n == bit_xor 0x55 n)) (all_differ n) e in
    elim (Bool-cases (i == n)) [
      | inl last ↦
          let same : i ≡ n = ground arith in
          ap (λ (k : ℕ). bit_xor 0xAA k == bit_xor 0x55 k) same
          ∙ not-true (bit_xor 0xAA n == bit_xor 0x55 n) here
      | inr other ↦ differ_below n i rest (ground arith)
    ]

patterns_ne : (i : ℕ) → i < 100 → bit_xor 0xAA i ≢ bit_xor 0x55 i
unfolding all_differ
patterns_ne i h e =
    let differ = differ_below 100 i refl h in
    let same = (==_iff (bit_xor 0xAA i) (bit_xor 0x55 i)).1 e in cc

-- While the gate is closed the two addresses are one byte, and a write to it leaves the gate
-- alone.
pub record IsWired (M : Machine) (is_open : M.State → Bool) : Type 0 where
  pub closed : (w : M.State) → is_open w ≡ false → M.peek w 0xffff 0x0510 ≡ M.peek w 0x0000 0x0500
  pub poke_keeps : (w : M.State) (value : ℕ) → is_open (M.poke w 0x0000 0x0500 value) ≡ is_open w

module _ (M : Machine) (is_open : M.State → Bool) (wired : IsWired M is_open) where
  -- A result `true` comes with an open gate.
  abbrev IsSound : Bool × M.State → Type 0
  IsSound r = r.0 ≡ true → is_open r.1 ≡ true

  seen_open :
      (w : M.State) (i : ℕ)
      → i < 100
      → (low M w == bit_xor 0xAA i && high M w == bit_xor 0x55 i) ≡ true
      → is_open w ≡ true
  unfolding low high
  seen_open w i h e =
      let (at_low, at_high) = both (low M w == bit_xor 0xAA i) (high M w == bit_xor 0x55 i) e in
      let low_same = (==_iff (low M w) (bit_xor 0xAA i)).0 at_low in
      let high_same = (==_iff (high M w) (bit_xor 0x55 i)).0 at_high in
      elim (Bool-cases (is_open w)) [
        | inl open_ ↦ open_
        | inr shut ↦
            elim (patterns_ne i h (sym low_same ∙ sym (wired.closed w shut) ∙ high_same)) [ ]
      ]

  test_loop-IsSound :
      (left i old : ℕ) (w : M.State) → i + left ≤ 100 → IsSound (test_loop M left i old w)
  unfolding test_loop restore
  test_loop-IsSound zero i old w h = λ e. cc
  test_loop-IsSound (suc left) i old w h =
      let w1 = poke_both M w i in
      elim (Bool-cases (low M w1 == bit_xor 0xAA i && high M w1 == bit_xor 0x55 i)) [
        | inl hit ↦ rw hit (λ e. wired.poke_keeps w1 old ∙ seen_open w1 i (omega arith) hit)
        | inr miss ↦ rw miss (test_loop-IsSound left (i + 1) old w1 (omega arith))
      ]

  test_a20-IsSound : (w : M.State) → IsSound (test_a20 M w)
  unfolding test_a20
  test_a20-IsSound w = test_loop-IsSound 100 0 (low M w) w (omega arith)

  try_next-IsSound :
      (r : Bool × M.State) (k : M.State → Bool × M.State)
      → IsSound r
      → ((w : M.State) → IsSound (k w))
      → IsSound (try_next M r k)
  unfolding try_next
  try_next-IsSound (true, w) k h h' = h
  try_next-IsSound (false, w) k h h' = h' w

  test_if-IsSound : (r : Bool × M.State) → IsSound (test_if M r)
  unfolding test_if
  test_if-IsSound (true, w) = test_a20-IsSound w
  test_if-IsSound (false, w) = λ e. cc

  enable_round-IsSound : (w : M.State) → IsSound (enable_round M w)
  unfolding enable_round
  enable_round-IsSound w =
      try_next-IsSound _ _
        (try_next-IsSound _ _
          (try_next-IsSound _ _ (test_a20-IsSound w) (λ w. test_a20-IsSound (M.bios_a20 w)))
          (λ w. test_if-IsSound (enable_a20_gate M w)))
        (λ w. test_a20-IsSound (enable_fast_a20 M w))

  enable_loop-IsSound : (left : ℕ) (w : M.State) → IsSound (enable_loop M left w)
  unfolding enable_loop
  enable_loop-IsSound zero w = λ e. cc
  enable_loop-IsSound (suc left) w =
      try_next-IsSound (enable_round M w) (enable_loop M left) (enable_round-IsSound w)
        (enable_loop-IsSound left)

  enable_a20-IsSound : (w : M.State) → IsSound (enable_a20 M w)
  unfolding enable_a20
  enable_a20-IsSound w = enable_loop-IsSound 256 w

  -- On a machine on which the closed gate makes one byte of the two addresses, and a write to the
  -- lower one leaves the gate alone, the gate is open where `EnableA20` returns true.
  pub enable_a20_opens :
      (w : M.State) → (enable_a20 M w).0 ≡ true → is_open (enable_a20 M w).1 ≡ true
  enable_a20_opens w e = enable_a20-IsSound w e
