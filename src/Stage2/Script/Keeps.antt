-- ===== src/Stage2/Script/Keeps.antt =====
-- stage2/stage2.cpp, `RunScript`: what every command keeps, a script keeps.
use hausboot.Base.{
  ℕ, zero, suc, ◌≡◌, refl, inl, inr, Bool, true, false, Option, none, some, List, [], ◌∷◌, ◌==◌,
  Bool-cases, length,
}
use hausboot.Stage2.Script.{
  Outcome, split_line, parse_line, is_known, commands, proceed, run_line, run_loop, run_script,
}

-- A line of the text that `RunScript` makes a command with its argument of.
pub data Says : List ℕ → List ℕ → List ℕ → Type 0 where
  says_first :
      {text cmd arg : List ℕ} → parse_line (split_line text).0 ≡ some (cmd, arg) → Says text cmd arg
  says_later : {text cmd arg : List ℕ} → Says (split_line text).1 cmd arg → Says text cmd arg

module _ {S : Type 0} (call : List ℕ → List ℕ → S → Bool × S) (P : S → Type 0) (script : List ℕ)
    (kept : (cmd arg : List ℕ) (s : S) → Says script cmd arg → P s → P (call cmd arg s).1) where
  proceed_keeps :
      (r : Bool × S) (again : S → Outcome × S)
      → P r.1
      → ((s : S) → P s → P (again s).1)
      → P (proceed call r again).1
  unfolding proceed
  proceed_keeps (true, s) again h k = k s h
  proceed_keeps (false, s) again h k = h

  run_line_keeps :
      (o : Option (List ℕ × List ℕ)) (s : S) (again : S → Outcome × S)
      → ((cmd arg : List ℕ) → o ≡ some (cmd, arg) → Says script cmd arg)
      → P s
      → ((s : S) → P s → P (again s).1)
      → P (run_line call o s again).1
  unfolding run_line
  run_line_keeps none s again says h k = k s h
  run_line_keeps (some (cmd, arg)) s again says h k = elim (Bool-cases (is_known commands cmd)) [
    | inl y ↦ rw y (proceed_keeps (call cmd arg s) again (kept cmd arg s (says cmd arg refl) h) k)
    | inr n ↦ rw n h
  ]

  run_loop_keeps :
      (fuel : ℕ) (text : List ℕ) (s : S)
      → ((cmd arg : List ℕ) → Says text cmd arg → Says script cmd arg)
      → P s
      → P (run_loop call fuel text s).1
  unfolding run_loop
  run_loop_keeps zero text s says h = h
  run_loop_keeps (suc fuel) [] s says h = h
  run_loop_keeps (suc fuel) (c ∷ text) s says h = elim (Bool-cases (c == 0)) [
    | inl z ↦ rw z h
    | inr n ↦ rw n (
        run_line_keeps (parse_line (split_line (c ∷ text)).0) s _
          (λ cmd arg e. says cmd arg (says_first e)) h
          (λ s' h'.
            run_loop_keeps fuel (split_line (c ∷ text)).1 s'
              (λ cmd arg l. says cmd arg (says_later l)) h'))
  ]

  pub run_script_keeps : (s : S) → P s → P (run_script call script s).1
  unfolding run_script
  run_script_keeps s h = run_loop_keeps (suc (length script)) script s (λ cmd arg l. l) h
