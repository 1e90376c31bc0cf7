-- ===== src/Device/Gate.antt =====
-- include/device/PS2Controller.h, include/device/SysCtrl.h, include/device/io.h and
-- lib/pm86/a20.cpp: the gate of the address line 20. The machine is a parameter: its ports and
-- its memory, from a state to what is read and the state behind it.
pub mod Opens
pub mod Tests
use hausboot.Base.{
  ℕ, zero, suc, ◌+◌, Bool, true, false, ◌&&◌, ltb, ◌==◌, if◌then◌else◌, set, bit_xor,
}
use hausboot.Types.FlagField

-- `IoReadByte`, `IoWriteByte`, `Peek`, `Poke` and the service of interrupt 0x15.
pub record Machine : Type 1 where
  pub State : Type 0
  pub read_port : State → ℕ → ℕ × State
  pub write_port : State → ℕ → ℕ → State
  pub peek : State → ℕ → ℕ → ℕ
  pub poke : State → ℕ → ℕ → ℕ → State
  pub bios_a20 : State → State

-- `enum class PS2Status`
abbrev pub output_buffer_full : ℕ
output_buffer_full = 0x01

abbrev pub input_buffer_full : ℕ
input_buffer_full = 0x02

-- `enum class PortA`
abbrev pub fast_reset : ℕ
fast_reset = 0x01

abbrev pub enable_a20_flag : ℕ
enable_a20_flag = 0x02

-- What the status says of the two buffers; 0xFF where there seems to be no controller.
pub data Buffers : Type 0 where
  absent full busy empty : Buffers

pub buffers : ℕ → Buffers
buffers value =
    if value == 0xFF
    then absent
    else if FlagField.is_set value output_buffer_full
    then full
    else if FlagField.is_set value input_buffer_full
    then busy
    else empty

module _ (M : Machine) where
  -- `IoWait`
  pub io_wait : M.State → M.State
  io_wait w = M.write_port w 0x80 0

  -- `Status` and `ReadData`
  pub status : M.State → ℕ × M.State
  status w = M.read_port (io_wait w) 0x64

  pub read_data : M.State → ℕ × M.State
  read_data w = M.read_port (io_wait w) 0x60

  -- `SendCommand` and `WriteData`
  pub send_command : M.State → ℕ → M.State
  send_command w cmd = M.write_port w 0x64 cmd

  pub write_data : M.State → ℕ → M.State
  write_data w cmd = M.write_port w 0x60 cmd

  -- What a round of `DrainBuffers` does with the status. `ff_count` counts the rounds in a row in
  -- which there seems to be no controller.
  pub drain_round : Buffers → M.State → ℕ → (ℕ → M.State → Bool × M.State) → Bool × M.State
  drain_round absent w ff_count again = elim (ltb 32 ff_count) [
    | true ↦ (false, w)
    | false ↦ again (ff_count + 1) w
  ]
  drain_round full w ff_count again = again 0 (read_data w).1
  drain_round busy w ff_count again = again 0 w
  drain_round empty w ff_count again = (true, w)

  -- The loop of `DrainBuffers`, with `left` rounds to go.
  pub drain_loop : ℕ → ℕ → M.State → Bool × M.State
  drain_loop zero ff_count w = (false, w)
  drain_loop (suc left) ff_count w =
      let (value, w) = status w in drain_round (buffers value) w ff_count (drain_loop left)

  pub drain_buffers : M.State → Bool × M.State
  drain_buffers w = drain_loop 100000 0 w

  -- What `EnableA20Gate` does behind the first `DrainBuffers`; the results of the others are not
  -- looked at.
  pub open_gate : Bool × M.State → Bool × M.State
  open_gate (false, w) = (false, w)
  open_gate (true, w) =
      let (_, w1) = drain_buffers (send_command w 0xd1) in
      let (_, w2) = drain_buffers (write_data w1 0xdf) in
      let (_, w3) = drain_buffers (send_command w2 0xff) in (true, w3)

  pub enable_a20_gate : M.State → Bool × M.State
  enable_a20_gate w = open_gate (drain_buffers w)

  -- The value that `EnableFastA20` writes to port A.
  pub fast_a20_value : ℕ → ℕ
  fast_a20_value value = FlagField.clear 8 (FlagField.set value enable_a20_flag) fast_reset

  -- `EnableFastA20`
  pub enable_fast_a20 : M.State → M.State
  enable_fast_a20 w =
      let (value, w1) = M.read_port w 0x92 in M.write_port w1 0x92 (fast_a20_value value)

  -- The two addresses that differ in line 20 only, and the bytes written to them in a round.
  pub low : M.State → ℕ
  low w = M.peek w 0x0000 0x0500

  pub high : M.State → ℕ
  high w = M.peek w 0xffff 0x0510

  -- The writes of a round of `TestA20`.
  pub poke_both : M.State → ℕ → M.State
  poke_both w i =
      io_wait (M.poke (M.poke w 0x0000 0x0500 (bit_xor 0xAA i)) 0xffff 0x0510 (bit_xor 0x55 i))

  pub restore : M.State → ℕ → M.State
  restore w old = M.poke w 0x0000 0x0500 old

  -- The loop of `TestA20`, with `left` rounds to go from round `i` on.
  pub test_loop : ℕ → ℕ → ℕ → M.State → Bool × M.State
  test_loop zero i old w = (false, restore w old)
  test_loop (suc left) i old w =
      let w1 = poke_both w i in
      let rest = test_loop left (i + 1) old w1 in
      if low w1 == bit_xor 0xAA i && high w1 == bit_xor 0x55 i then (true, restore w1 old) else rest

  pub test_a20 : M.State → Bool × M.State
  test_a20 w = test_loop 100 0 (low w) w

  -- One more way to open the gate where the test before has failed.
  pub try_next : Bool × M.State → (M.State → Bool × M.State) → Bool × M.State
  try_next (true, w) k = (true, w)
  try_next (false, w) k = k w

  -- The test behind the keyboard controller's way, which is left out where that fails.
  pub test_if : Bool × M.State → Bool × M.State
  test_if (true, w) = test_a20 w
  test_if (false, w) = (false, w)

  -- A round of `EnableA20`.
  pub enable_round : M.State → Bool × M.State
  enable_round w =
      try_next
        (try_next (try_next (test_a20 w) (λ w. test_a20 (M.bios_a20 w)))
          (λ w. test_if (enable_a20_gate w)))
        (λ w. test_a20 (enable_fast_a20 w))

  -- `EnableA20`
  pub enable_loop : ℕ → M.State → Bool × M.State
  enable_loop zero w = (false, w)
  enable_loop (suc left) w = try_next (enable_round w) (enable_loop left)

  pub enable_a20 : M.State → Bool × M.State
  enable_a20 w = enable_loop 256 w
