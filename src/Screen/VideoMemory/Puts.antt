-- ===== src/Screen/VideoMemory/Puts.antt =====
-- include/device/VideoMemory.h: where `PutChar` leaves the place, and where it does not return.
use hausboot.Base.{
  ℕ, zero, suc, ◌+◌, ◌-◌, ◌*◌, ◌%◌, ◌≤◌, ◌<◌, ◌≡◌, refl, ◌∙◌, inl, inr, true, false, ◌&&◌, Option,
  none, some, arith, leb, ◌==◌, if◌then◌else◌, Bool-cases,
}
use hausboot.Screen.VideoMemory.{
  VideoMemory, width, height, set_cell_char, sync_cursor, shift_lines, blank_loop, scroll_up,
  next_line, put_visible, put_spaces, put_char,
}

blank_loop-none :
    (fuel : ℕ) (s : VideoMemory) (dst : ℕ)
    → (dst == width * height) ≡ false
    → blank_loop fuel s dst ≡ none
unfolding blank_loop
blank_loop-none zero s dst ne = refl
blank_loop-none (suc fuel) s dst ne = rw (ne, blank_loop) (blank_loop-none fuel _ dst ne)

-- `ScrollUp` never returns, whatever the fuel.
pub scroll_up-none : (fuel : ℕ) (s : VideoMemory) → scroll_up fuel s ≡ none
unfolding scroll_up
scroll_up-none fuel s =
    rw (blank_loop-none fuel (shift_lines s) (width * (height - 1)) refl, scroll_up) refl

-- The cursor's place is on the screen.
abbrev pub IsOnScreen : VideoMemory → Type 0
IsOnScreen s = (s.x < width) × (s.y < height)

-- A call that returns with the place on the screen, at most one line further down, and with the
-- cells outside the screen as they were.
abbrev pub Puts : VideoMemory → Option VideoMemory → Type 0
Puts s o =
    (s' : VideoMemory) × (o ≡ some s')
    × IsOnScreen s'
    × (s.y ≤ s'.y)
    × (s'.y ≤ s.y + 1)
    × ((i : ℕ) → width * height ≤ i → s'.cells i ≡ s.cells i)

next_line-Puts :
    (fuel : ℕ) (s : VideoMemory) → s.x < width → s.y + 1 < height → Puts s (next_line fuel s)
unfolding next_line sync_cursor
next_line-Puts fuel s hx hy =
    let above : leb height (s.y + 1) ≡ false = ground arith in
    (
      sync_cursor (record s { y = s.y + 1 }),
      rw above refl,
      (hx, hy),
      omega arith,
      omega arith,
      λ i h. refl,
    )

-- The state behind a character, before the end of the line is looked at.
abbrev shown : VideoMemory → ℕ → VideoMemory
shown s c = record s {
  cells = λ i.
      if i == s.y * width + s.x then set_cell_char (s.cells (s.y * width + s.x)) c else s.cells i;
  x = s.x + 1;
}

shown_outside :
    (s : VideoMemory) (c i : ℕ)
    → IsOnScreen s
    → width * height ≤ i
    → (shown s c).cells i ≡ s.cells i
shown_outside s c i (hx, hy) le =
    let apart : (i == s.y * width + s.x) ≡ false = ground arith in rw apart refl

put_visible_inside :
    (fuel : ℕ) (s : VideoMemory) (c : ℕ)
    → s.x + 1 < width
    → put_visible fuel s c ≡ some (sync_cursor (shown s c))
unfolding put_visible
put_visible_inside fuel s c h =
    let room : leb width (s.x + 1) ≡ false = ground arith in rw room refl

put_visible_last :
    (fuel : ℕ) (s : VideoMemory) (c : ℕ)
    → width ≤ s.x + 1
    → put_visible fuel s c ≡ next_line fuel (record (shown s c) { x = 0 })
unfolding put_visible
put_visible_last fuel s c h = let full : leb width (s.x + 1) ≡ true = ground arith in rw full refl

put_visible-Puts :
    (fuel : ℕ) (s : VideoMemory) (c : ℕ)
    → s.x < width
    → s.y + 1 < height
    → Puts s (put_visible fuel s c)
unfolding sync_cursor
put_visible-Puts fuel s c hx hy = elim (Bool-cases (leb width (s.x + 1))) [
  | inr room ↦ (
    sync_cursor (shown s c),
    put_visible_inside fuel s c (ground arith),
    (ground arith, omega arith),
    omega arith,
    omega arith,
    λ i h. shown_outside s c i (hx, omega arith) h,
  )
  | inl full ↦
      let (s', ran, on, lo, hi, same) =
        next_line-Puts fuel (record (shown s c) { x = 0 }) (omega arith) hy in
      (
        s',
        put_visible_last fuel s c (ground arith) ∙ ran,
        on,
        lo,
        hi,
        λ i h. same i h ∙ shown_outside s c i (hx, omega arith) h,
      )
]

put_spaces_step :
    (fuel left : ℕ) (s s' : VideoMemory)
    → put_visible fuel s b' ' ≡ some s'
    → put_spaces fuel (suc left) s ≡ put_spaces fuel left s'
unfolding put_spaces
put_spaces_step fuel left s s' e = rw (e, put_spaces) refl

put_spaces_none : (fuel : ℕ) (s : VideoMemory) → put_spaces fuel 0 s ≡ some s
unfolding put_spaces
put_spaces_none fuel s = refl

put_spaces-Puts :
    (fuel left : ℕ) (s : VideoMemory)
    → s.x + left ≤ width
    → s.x < width
    → s.y + 1 < height
    → Puts s (put_spaces fuel left s)
unfolding sync_cursor
put_spaces-Puts fuel zero s h hx hy =
    (s, put_spaces_none fuel s, (hx, omega arith), omega arith, omega arith, λ i le. refl)
put_spaces-Puts fuel (suc zero) s h hx hy =
    let (s', ran, on, lo, hi, same) = put_visible-Puts fuel s b' ' hx hy in
    (s', put_spaces_step fuel 0 s s' ran ∙ put_spaces_none fuel s', on, lo, hi, same)
put_spaces-Puts fuel (suc (suc left)) s h hx hy =
    let next = sync_cursor (shown s b' ') in
    let (s', ran, on, lo, hi, same) =
      put_spaces-Puts fuel (suc left) next (omega arith) (omega arith) hy in
    (
      s',
      put_spaces_step fuel (suc left) s next (put_visible_inside fuel s b' ' (omega arith)) ∙ ran,
      on,
      lo,
      hi,
      λ i le. same i le ∙ shown_outside s b' ' i (hx, omega arith) le,
    )

-- Above the last line, `PutChar` of any character returns, with the place on the screen and at
-- most one line further down, and writes no cell outside the screen.
pub put_char-Puts :
    (fuel : ℕ) (s : VideoMemory) (c : ℕ)
    → s.x < width
    → s.y + 1 < height
    → Puts s (put_char fuel s c)
unfolding put_char sync_cursor
put_char-Puts fuel s c hx hy = elim (Bool-cases (c == b'\r')) [
  | inl e ↦ rw e (
    sync_cursor (record s { x = 0 }),
    refl,
    (omega arith, omega arith),
    omega arith,
    omega arith,
    λ i le. refl,
  )
  | inr ne ↦ elim (Bool-cases (c == b'\n')) [
    | inl e ↦ rw (ne, e) (next_line-Puts fuel s hx hy)
    | inr ne' ↦ elim (Bool-cases (c == b'\t')) [
      | inl e ↦ rw (ne, ne', e) (put_spaces-Puts fuel (8 - s.x % 8) s (omega arith) hx hy)
      | inr ne'' ↦ elim (Bool-cases (leb 0x20 c && leb c 0x7E)) [
        | inl e ↦ rw (ne, ne', ne'', e) (put_visible-Puts fuel s c hx hy)
        | inr e ↦
            rw (ne, ne', ne'', e)
              (s, refl, (hx, omega arith), omega arith, omega arith, λ i le. refl)
      ]
    ]
  ]
]

-- On the last line, a line feed never returns.
pub put_char_last_line :
    (fuel : ℕ) (s : VideoMemory) → height ≤ s.y + 1 → put_char fuel s b'\n' ≡ none
unfolding put_char next_line
put_char_last_line fuel s h =
    let last : leb height (s.y + 1) ≡ true = ground arith in rw last (scroll_up-none fuel _)
