-- ===== src/Fatedit/Outcome.antt =====
-- tools/fatedit.cpp: how its functions end, and the file that holds the disk image. The file is an
-- interface over an unknown state: `ReadAt` and `WriteAt` give `none` for an exception.
use hausboot.Base.{ℕ, ◌+◌, ◌≤◌, ◌≡◌, ◌⊎◌, Option, none, some, List, ◌++◌, length}

-- A result; the result `false`; an exception; a write past the end of an array; no fuel left.
pub data Outcome {ℓ} (A : Type ℓ) : Type ℓ where
  ok : A → Outcome A
  refused thrown overrun stuck : Outcome A

infixl 5 ◌>>=◌
abbrev pub ◌>>=◌ {ℓ κ} : {A : Type ℓ} {B : Type κ} → Outcome A → (A → Outcome B) → Outcome B
ok x >>= k = k x
refused >>= k = refused
thrown >>= k = thrown
overrun >>= k = overrun
stuck >>= k = stuck

-- An exception is thrown where a value is missing.
unfoldable pub or_throw {ℓ} : {A : Type ℓ} → Option A → Outcome A
or_throw none = thrown
or_throw (some a) = ok a

pub record Image : Type 1 where
  pub State : Type 0
  pub read_at : State → ℕ → ℕ → Option (List ℕ)
  pub write_at : State → ℕ → List ℕ → Option State

-- What the tool relies on: a read gives as many bytes as were
-- asked for, two adjacent reads make one, a write can be read back,
-- and leaves alone what it does not touch.
pub record IsLawful (I : Image) : Type 0 where
  pub read_at-length :
      (f : I.State) (offset size : ℕ) (b : List ℕ)
      → I.read_at f offset size ≡ some b
      → length b ≡ size
  pub read_at-append :
      (f : I.State) (offset : ℕ) (b c : List ℕ)
      → I.read_at f offset (length b) ≡ some b
      → I.read_at f (offset + length b) (length c) ≡ some c
      → I.read_at f offset (length b + length c) ≡ some (b ++ c)
  pub read_at-write_at :
      (f f' : I.State) (offset : ℕ) (b : List ℕ)
      → I.write_at f offset b ≡ some f'
      → I.read_at f' offset (length b) ≡ some b
  pub read_at-write_at_apart :
      (f f' : I.State) (offset start size : ℕ) (b old : List ℕ)
      → I.write_at f offset b ≡ some f'
      → start + size ≤ offset ⊎ offset + length b ≤ start
      → I.read_at f start size ≡ some old
      → I.read_at f' start size ≡ some old
