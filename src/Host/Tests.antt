-- ===== src/Host/Tests.antt =====
-- Tests of the host's files, on a system that hands over one byte at a time.
use hausboot.Base.{
  ℕ, zero, suc, ◌+◌, ◌≤◌, ◌<◌, ◌≡◌, refl, sym, ap, ◌∙◌, subst, List, [], ◌∷◌, arith, length, take,
  drop,
}
use hausboot.Base.Slice.{slice, overwrite}
use hausboot.Host.File.{
  Reply, bytes, interrupted, Written, taken, write_interrupted, write_failed, read_at, write_at,
}
use hausboot.Host.File.ReadAt.{IsPread, Reads, read_at-Reads}
use hausboot.Host.File.WriteAt.{IsPwrite, Writes, write_at-Writes}

abbrev file : List ℕ
file = 10 ∷ 11 ∷ 12 ∷ 13 ∷ []

abbrev reply : ℕ → List ℕ → Reply
reply zero rest = bytes []
reply (suc size) [] = bytes []
reply (suc size) (x ∷ rest) = bytes (x ∷ [])

-- The state is the number of signals to come.
abbrev pread : ℕ → ℕ → ℕ → Reply × ℕ
pread zero size offset = (reply size (drop offset file), zero)
pread (suc signals) size offset = (interrupted, signals)

abbrev contents : ℕ → List ℕ
contents w = file

abbrev signals : ℕ → ℕ
signals w = w

abbrev IsPart : ℕ → List ℕ → List ℕ → Type 0
IsPart size rest b = (length b ≤ size) × (take (length b) rest ≡ b)

reply-IsPart : (size : ℕ) (rest b : List ℕ) → reply size rest ≡ bytes b → IsPart size rest b
reply-IsPart zero rest b e = let q : [] ≡ b = cc in subst (IsPart zero rest) q (omega arith, refl)
reply-IsPart (suc size) [] b e =
    let q : [] ≡ b = cc in subst (IsPart (suc size) []) q (omega arith, refl)
reply-IsPart (suc size) (x ∷ rest) b e =
    let q : x ∷ [] ≡ b = cc in subst (IsPart (suc size) (x ∷ rest)) q (omega arith, refl)

pread-gives :
    (w size offset : ℕ) (b : List ℕ)
    → (pread w size offset).0 ≡ bytes b
    → (length b ≤ size) × (slice offset (length b) file ≡ b) × ((pread w size offset).1 ≤ w)
pread-gives zero size offset b e =
    let (short, same) = reply-IsPart size (drop offset file) b e in (short, same, omega arith)
pread-gives (suc w) size offset b e = cc

pread-uses_up :
    (w size offset : ℕ) → (pread w size offset).0 ≡ interrupted → (pread w size offset).1 < w
pread-uses_up zero zero offset e = cc
pread-uses_up zero (suc size) offset e = no_signal size (drop offset file) e
  where
    no_signal : (size : ℕ) (rest : List ℕ) → reply (suc size) rest ≡ interrupted → zero < zero
    no_signal size [] e = cc
    no_signal size (x ∷ rest) e = cc
pread-uses_up (suc w) size offset e = omega arith

pread-IsPread : IsPread pread contents signals
pread-IsPread = record {
  keeps = λ w size offset. refl;
  gives = pread-gives;
  uses_up = pread-uses_up;
}

read_at-Reads_example : Reads pread contents signals pread-IsPread 2 1 3 (read_at pread 6 2 1 3)
read_at-Reads_example = read_at-Reads pread contents signals pread-IsPread 2 1 3

abbrev pwrite : List ℕ → List ℕ → ℕ → Written × List ℕ
pwrite w [] offset = (write_failed, w)
pwrite w (x ∷ b) offset = (taken 1, overwrite w offset (x ∷ []))

abbrev whole : List ℕ → List ℕ
whole w = w

abbrev no_signals : List ℕ → ℕ
no_signals w = 0

pwrite-takes :
    (w v b : List ℕ) (offset n : ℕ)
    → pwrite w b offset ≡ (taken n, v)
    → offset + length b ≤ length w
    → (n ≤ length b) × (v ≡ overwrite w offset (take n b)) × (0 ≤ 0)
pwrite-takes w v [] offset n e h = cc
pwrite-takes w v (x ∷ b) offset n e h =
    let size : 1 ≡ n = cc in
    let same : overwrite w offset (x ∷ []) ≡ v = cc in
    (omega arith, sym same ∙ ap (λ (k : ℕ). overwrite w offset (take k (x ∷ b))) size, omega arith)

pwrite-fails : (w v b : List ℕ) (offset : ℕ) → pwrite w b offset ≡ (write_failed, v) → v ≡ w
pwrite-fails w v [] offset e = cc
pwrite-fails w v (x ∷ b) offset e = cc

pwrite-uses_up :
    (w v b : List ℕ) (offset : ℕ) → pwrite w b offset ≡ (write_interrupted, v) → (v ≡ w) × (0 < 0)
pwrite-uses_up w v [] offset e = cc
pwrite-uses_up w v (x ∷ b) offset e = cc

pwrite-IsPwrite : IsPwrite pwrite whole no_signals
pwrite-IsPwrite = record { takes = pwrite-takes; fails = pwrite-fails; uses_up = pwrite-uses_up }

write_at-Writes_example :
    Writes pwrite whole no_signals pwrite-IsPwrite file 1
      (20 ∷ 21 ∷ [])
      (write_at pwrite 3 file 1 (20 ∷ 21 ∷ []))
write_at-Writes_example =
    write_at-Writes pwrite whole no_signals pwrite-IsPwrite file 1 (20 ∷ 21 ∷ []) (omega arith)
