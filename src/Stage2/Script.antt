-- ===== src/Stage2/Script.antt =====
-- stage2/stage2.cpp, `RunScript`: the interpreter of the configuration file. The script is a list
-- of bytes up to a NUL or the list's end. What a command does is a parameter: from its name, its
-- argument and a state to whether it succeeded and the state behind it.
pub mod Keeps
use hausboot.Base.{
  ℕ, zero, suc, ◌≤◌, ◌<◌, ◌≢◌, inl, inr, Bool, true, false, not, ◌||◌, Option, none, some, List, [],
  ◌∷◌, arith, ◌==◌, if◌then◌else◌, Bool-cases, length, get_or, drop,
}
use hausboot.StringUtil.{str_equal, is_space, is_alnum}

-- The line up to its end, and what stands behind the line feed.
unfoldable pub split_line : List ℕ → List ℕ × List ℕ
split_line [] = ([], [])
split_line (c ∷ text) =
    let (line, rest) = split_line text in
    if c == 0 then ([], []) else if c == b'\n' then ([], text) else (c ∷ line, rest)

-- `while (p(*line)) ++line;`
unfoldable pub skip_while : (ℕ → Bool) → List ℕ → List ℕ
skip_while p [] = []
skip_while p (c ∷ line) = let rest = skip_while p line in if p c then rest else c ∷ line

-- The characters that such a loop passes.
unfoldable pub take_while : (ℕ → Bool) → List ℕ → List ℕ
take_while p [] = []
take_while p (c ∷ line) = let rest = take_while p line in if p c then c ∷ rest else []

-- The line's command and argument; `none` for a line that is skipped.
unfoldable pub parse_line : List ℕ → Option (List ℕ × List ℕ)
parse_line line =
    let start = skip_while is_space line in
    let cmd = take_while is_alnum start in
    let rest = skip_while is_alnum start in
    if length cmd == 0 || not (is_space (get_or rest 0 0))
    then none
    else some (cmd, skip_while is_space (drop 1 rest))

pub data Outcome : Type 0 where
  ended stopped unknown out_of_fuel : Outcome

-- The commands' names, `commands[]`.
abbrev pub echo_name : List ℕ
echo_name = b'e' ∷ b'c' ∷ b'h' ∷ b'o' ∷ []

abbrev pub info_name : List ℕ
info_name = b'i' ∷ b'n' ∷ b'f' ∷ b'o' ∷ []

abbrev pub multiboot_name : List ℕ
multiboot_name = b'm' ∷ b'u' ∷ b'l' ∷ b't' ∷ b'i' ∷ b'b' ∷ b'o' ∷ b'o' ∷ b't' ∷ []

abbrev pub commands : List (List ℕ)
commands = echo_name ∷ info_name ∷ multiboot_name ∷ []

-- The loop that dispatches a command.
unfoldable pub is_known : List (List ℕ) → List ℕ → Bool
is_known [] cmd = false
is_known (name ∷ names) cmd =
    let rest = is_known names cmd in if str_equal name cmd then true else rest

module _ {S : Type 0} (call : List ℕ → List ℕ → S → Bool × S) where
  -- What a command's result leads to.
  unfoldable pub proceed : Bool × S → (S → Outcome × S) → Outcome × S
  proceed (true, s) again = again s
  proceed (false, s) again = (stopped, s)

  unfoldable pub run_line : Option (List ℕ × List ℕ) → S → (S → Outcome × S) → Outcome × S
  run_line none s again = again s
  run_line (some (cmd, arg)) s again =
      if is_known commands cmd then proceed (call cmd arg s) again else (unknown, s)

  -- The loop of `RunScript`.
  unfoldable pub run_loop : ℕ → List ℕ → S → Outcome × S
  run_loop zero text s = (out_of_fuel, s)
  run_loop (suc fuel) [] s = (ended, s)
  run_loop (suc fuel) (c ∷ text) s =
      let (line, rest) = split_line (c ∷ text) in
      let next = run_line (parse_line line) s (run_loop fuel rest) in
      if c == 0 then (ended, s) else next

  -- `RunScript`: every line takes at least one byte.
  unfoldable pub run_script : List ℕ → S → Outcome × S
  run_script text s = run_loop (suc (length text)) text s

  split_line-shorter : (c : ℕ) (text : List ℕ) → length (split_line (c ∷ text)).1 ≤ length text
  unfolding split_line
  split_line-shorter c [] = ground arith
  split_line-shorter c (d ∷ text) = elim (Bool-cases (c == 0)) [
    | inl z ↦ rw z (omega arith)
    | inr n ↦ elim (Bool-cases (c == b'\n')) [
      | inl l ↦ rw (n, l) (omega arith)
      | inr k ↦ rw (n, k) (omega (arith, split_line-shorter d text))
    ]
  ]

  -- An end of a script that is not for want of fuel.
  abbrev pub Ends : Outcome × S → Type 0
  Ends r = r.0 ≢ out_of_fuel

  proceed-Ends :
      (r : Bool × S) (again : S → Outcome × S)
      → ((s' : S) → Ends (again s'))
      → Ends (proceed r again)
  unfolding proceed
  proceed-Ends (true, s) again k = k s
  proceed-Ends (false, s) again k = λ e. cc

  run_line-Ends :
      (o : Option (List ℕ × List ℕ)) (s : S) (again : S → Outcome × S)
      → ((s' : S) → Ends (again s'))
      → Ends (run_line o s again)
  unfolding run_line proceed
  run_line-Ends none s again k = k s
  run_line-Ends (some (cmd, arg)) s again k = elim (Bool-cases (is_known commands cmd)) [
    | inr n ↦ rw n (λ e. cc)
    | inl y ↦ rw y (proceed-Ends (call cmd arg s) again k)
  ]

  run_loop-Ends :
      (fuel : ℕ) (text : List ℕ) (s : S) → length text < fuel → Ends (run_loop fuel text s)
  unfolding run_loop
  run_loop-Ends zero text s h = absurd (omega arith)
  run_loop-Ends (suc fuel) [] s h = λ e. cc
  run_loop-Ends (suc fuel) (c ∷ text) s h = elim (Bool-cases (c == 0)) [
    | inl z ↦ rw z (λ e. cc)
    | inr n ↦ rw n (
        run_line-Ends (parse_line (split_line (c ∷ text)).0) s
          (run_loop fuel (split_line (c ∷ text)).1)
          (λ s'.
            run_loop-Ends fuel (split_line (c ∷ text)).1 s'
              (omega (arith, split_line-shorter c text))))
  ]

  -- `RunScript` ends on every script, whatever its commands do.
  pub run_script-Ends : (text : List ℕ) (s : S) → Ends (run_script text s)
  unfolding run_script
  run_script-Ends text s = run_loop-Ends (suc (length text)) text s (omega arith)
