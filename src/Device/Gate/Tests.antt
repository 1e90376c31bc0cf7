-- ===== src/Device/Gate/Tests.antt =====
-- Tests of the gate of the address line, on a machine of two bytes whose gate the BIOS opens.
use hausboot.Base.{ℕ, ◌≡◌, refl, Bool, true, false, not, ◌||◌, arith, ◌==◌, if◌then◌else◌}
use hausboot.Device.Gate.{
  Machine, io_wait, low, high, poke_both, restore, test_loop, test_a20, try_next, test_if,
  enable_round, enable_loop, enable_a20,
}
use hausboot.Device.Gate.Opens.{IsWired, enable_a20_opens}

-- The state is the gate and the two bytes. While the gate is closed there is only the low byte.
abbrev machine : Machine
machine = record {
  State = Bool × ℕ × ℕ;
  read_port = λ w port. (0, w);
  write_port = λ w port value. w;
  peek = λ w seg off. if seg == 0 || not w.0 then w.1 else w.2;
  poke = λ w seg off value. if seg == 0 || not w.0 then (w.0, value, w.2) else (w.0, w.1, value);
  bios_a20 = λ w. (true, w.1, w.2);
}

abbrev gate : Bool × ℕ × ℕ → Bool
gate w = w.0

machine-IsWired : IsWired machine gate
machine-IsWired = record { closed = λ w e. ground arith; poke_keeps = λ w value. refl }

enable_a20_opens_example : gate (enable_a20 machine (false, 1, 2)).1 ≡ true
unfolding io_wait low high poke_both restore test_loop test_a20 try_next test_if enable_round
    enable_loop enable_a20
enable_a20_opens_example = enable_a20_opens machine gate machine-IsWired (false, 1, 2) refl
