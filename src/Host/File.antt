-- ===== src/Host/File.antt =====
-- include/host/File.h: whole reads and writes from the partial ones of the system. The system calls
-- are parameters: from a state of the system to what they return and the state behind them.
pub mod ReadAt
pub mod WriteAt
use hausboot.Base.{ℕ, zero, suc, ◌+◌, ◌-◌, List, [], ◌∷◌, ◌++◌, length, drop}

-- What `pread` and `read` return: some bytes, none at the file's end; `EINTR`; another error.
pub data Reply : Type 0 where
  bytes : List ℕ → Reply
  interrupted failed : Reply

-- What `pwrite` returns: the number of bytes that it has taken.
pub data Written : Type 0 where
  taken : ℕ → Written
  write_interrupted write_failed : Written

-- What a method ends with.
pub data Result (W A : Type 0) : Type 0 where
  done : A → W → Result W A
  thrown : W → Result W A
  stuck : Result W A

pub in_front : {W : Type 0} → List ℕ → Result W (List ℕ) → Result W (List ℕ)
in_front b (done c w) = done (b ++ c) w
in_front b (thrown w) = thrown w
in_front b stuck = stuck

module _ {W : Type 0} (pread : W → ℕ → ℕ → Reply × W) where
  -- What a round of `ReadAt` does with the reply.
  pub read_round : Reply × W → ℕ → ℕ → (W → ℕ → ℕ → Result W (List ℕ)) → Result W (List ℕ)
  read_round (interrupted, w) offset size again = again w offset size
  read_round (failed, w) offset size again = thrown w
  read_round (bytes [], w) offset size again = thrown w
  read_round (bytes (c ∷ b), w) offset size again =
      in_front (c ∷ b) (again w (offset + length (c ∷ b)) (size - length (c ∷ b)))

  pub read_at : ℕ → W → ℕ → ℕ → Result W (List ℕ)
  read_at zero w offset size = stuck
  read_at (suc fuel) w offset zero = done [] w
  read_at (suc fuel) w offset (suc size) =
      read_round (pread w (suc size) offset) offset (suc size) (read_at fuel)

module _ {W : Type 0} (pwrite : W → List ℕ → ℕ → Written × W) where
  -- What a round of `WriteAt` does with the reply.
  pub write_round :
      Written × W → ℕ → List ℕ → (W → ℕ → List ℕ → Result W (Unit {0})) → Result W (Unit {0})
  write_round (write_interrupted, w) offset b again = again w offset b
  write_round (write_failed, w) offset b again = thrown w
  write_round (taken zero, w) offset b again = thrown w
  write_round (taken (suc n), w) offset b again = again w (offset + suc n) (drop (suc n) b)

  pub write_at : ℕ → W → ℕ → List ℕ → Result W (Unit {0})
  write_at zero w offset b = stuck
  write_at (suc fuel) w offset [] = done tt w
  write_at (suc fuel) w offset (c ∷ b) =
      write_round (pwrite w (c ∷ b) offset) offset (c ∷ b) (write_at fuel)

module _ {W : Type 0} (read : W → ℕ → Reply × W) where
  -- What a round of `Read` does with the reply: the file's end is no error.
  pub stream_round : Reply × W → ℕ → (W → ℕ → Result W (List ℕ)) → Result W (List ℕ)
  stream_round (interrupted, w) size again = again w size
  stream_round (failed, w) size again = thrown w
  stream_round (bytes [], w) size again = done [] w
  stream_round (bytes (c ∷ b), w) size again = in_front (c ∷ b) (again w (size - length (c ∷ b)))

  pub read_stream : ℕ → W → ℕ → Result W (List ℕ)
  read_stream zero w size = stuck
  read_stream (suc fuel) w zero = done [] w
  read_stream (suc fuel) w (suc size) =
      stream_round (read w (suc size)) (suc size) (read_stream fuel)
