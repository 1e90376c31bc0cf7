-- ===== src/Screen/VideoMemory.antt =====
-- include/device/VideoMemory.h: the text mode's memory, as a function from a cell's index to its
-- 16 bits. The writes to the cursor's ports are kept as the position that they name.
pub mod Puts
use hausboot.Base.{
  ℕ, zero, suc, ◌+◌, ◌-◌, ◌*◌, ◌%◌, ◌^◌, bit_and, bit_or, ◌&&◌, Option, none, some, ltb, leb, ◌==◌,
  if◌then◌else◌,
}

pub record VideoMemory : Type 0 where
  pub cells : ℕ → ℕ
  pub x : ℕ
  pub y : ℕ
  pub fg : ℕ
  pub bg : ℕ
  pub cursor : ℕ

abbrev pub width : ℕ
width = 80

abbrev pub height : ℕ
height = 25

-- `VidMemCell::SetColor`
pub set_cell_color : ℕ → ℕ → ℕ → ℕ
set_cell_color raw fg bg = bit_or (bit_and raw 0x00FF) (bit_or (bg * 2 ^ 4) fg * 2 ^ 8 % 2 ^ 16)

-- `VidMemCell::SetChar`
pub set_cell_char : ℕ → ℕ → ℕ
set_cell_char raw c = bit_or (bit_and raw 0xFF00) c

-- `SyncCursor`
pub sync_cursor : VideoMemory → VideoMemory
sync_cursor s = record s { cursor = (s.y * width + s.x) % 2 ^ 16 }

-- `SetColor`
pub set_color : VideoMemory → ℕ → ℕ → VideoMemory
set_color s foreground background = record s { fg = foreground; bg = background }

-- `Reset`, whose loop sets every cell to a space.
pub reset : VideoMemory → VideoMemory
reset s = record s {
  cells = λ i.
      if ltb i (80 * 25)
      then set_cell_char (set_cell_color (s.cells i) s.fg s.bg) b' '
      else s.cells i;
  x = 0;
  y = 0;
}

-- The first loop of `ScrollUp`: every line but the last takes the next one.
pub shift_lines : VideoMemory → VideoMemory
shift_lines s = record s {
  cells = λ i. if ltb i (width * (height - 1)) then s.cells (i + width) else s.cells i;
}

-- The second loop of `ScrollUp` from `dst`, which it does not advance; `none` where the fuel runs
-- out.
pub blank_loop : ℕ → VideoMemory → ℕ → Option VideoMemory
blank_loop zero s dst = none
blank_loop (suc fuel) s dst =
    let cell = set_cell_color (set_cell_char (s.cells dst) b' ') s.fg s.bg in
    let rest =
      blank_loop fuel (record s { cells = λ i. if i == dst then cell else s.cells i }) dst in
    if dst == width * height then some s else rest

-- `ScrollUp`
pub scroll_up : ℕ → VideoMemory → Option VideoMemory
scroll_up fuel s = elim (blank_loop fuel (shift_lines s) (width * (height - 1))) [
  | none ↦ none
  | some s' ↦ some (sync_cursor (record s' { y = s'.y - 1 }))
]

-- The end of a line: the next one, or a scroll.
pub next_line : ℕ → VideoMemory → Option VideoMemory
next_line fuel s =
    let s' = record s { y = s.y + 1 } in
    if leb height (s.y + 1) then scroll_up fuel s' else some (sync_cursor s')

-- A character that is shown.
pub put_visible : ℕ → VideoMemory → ℕ → Option VideoMemory
put_visible fuel s c =
    let at = s.y * width + s.x in
    let s' = record s {
      cells = λ i. if i == at then set_cell_char (s.cells at) c else s.cells i;
      x = s.x + 1;
    } in
    if leb width (s.x + 1) then next_line fuel (record s' { x = 0 }) else some (sync_cursor s')

-- The spaces of a tab.
pub put_spaces : ℕ → ℕ → VideoMemory → Option VideoMemory
put_spaces fuel zero s = some s
put_spaces fuel (suc left) s = elim (put_visible fuel s b' ') [
  | none ↦ none
  | some s' ↦ put_spaces fuel left s'
]

-- `PutChar`; `none` where it does not return within the fuel.
pub put_char : ℕ → VideoMemory → ℕ → Option VideoMemory
put_char fuel s c =
    if c == b'\r'
    then some (sync_cursor (record s { x = 0 }))
    else if c == b'\n'
    then next_line fuel s
    else if c == b'\t'
    then put_spaces fuel (8 - s.x % 8) s
    else if leb 0x20 c && leb c 0x7E
    then put_visible fuel s c
    else some s
