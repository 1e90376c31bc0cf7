-- ===== src/Fs/FatName.antt =====
-- include/fs/FatName.h: which names fit the 8.3 scheme. A character is its code; a negative
-- `char` is the code above 127, which the first test refuses as well.
use hausboot.Base.{
  ℕ, ◌+◌, ◌-◌, Bool, true, false, not, ◌&&◌, ◌||◌, List, [], ◌∷◌, ltb, leb, ◌==◌, if◌then◌else◌,
  length,
}
use hausboot.Types.FixedLengthString.{cstr}

unfoldable pub is_valid_fat_char : ℕ → Bool
is_valid_fat_char c =
    if ltb c 0x20 || ltb 0x7e c
    then false
    else if leb 0x61 c && leb c 0x7a
    then false
    else if leb 0x3a c && leb c 0x3f
    then false
    else if c == b'|' || c == b'\\' || c == b'/' || c == b'"' || c == b'*'
    then false
    else if c == b'+' || c == b',' || c == b'[' || c == b']'
    then false
    else true

-- What the loop over the characters ends with: a bad name, or the position of the dot if there
-- is one (the source's -1 is `no_dot`).
pub data Scan : Type 0 where
  bad no_dot : Scan
  dot_at : ℕ → Scan

is_dot : Scan → Bool
is_dot (dot_at _) = true
is_dot _ = false

-- The loop from index `i`, with `dot` for the variable `dotPos`.
unfoldable pub scan : List ℕ → ℕ → Scan → Scan
unfolding is_valid_fat_char is_dot
scan [] i dot = dot
scan (c ∷ s) i dot =
    let rest = scan s (i + 1) (if c == b'.' then dot_at i else dot) in
    if not (is_valid_fat_char c) then bad else if c == b'.' && is_dot dot then bad else rest

-- The tests behind the loop.
unfoldable pub judge : ℕ → Scan → Bool
judge len bad = false
judge len no_dot = leb len 8
judge len (dot_at p) =
    if p == 0 || p == len - 1 then false else if ltb 8 p || ltb 4 (len - p) then false else true

unfoldable pub is_short_name : List ℕ → Bool
unfolding scan judge
is_short_name entry =
    let s = cstr entry in
    let len = length s in
    if len == 0 || ltb (8 + 1 + 3) len then false else judge len (scan s 0 no_dot)
