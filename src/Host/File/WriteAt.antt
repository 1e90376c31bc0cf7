-- ===== src/Host/File/WriteAt.antt =====
-- include/host/File.h, `WriteAt`: it writes all bytes, whatever pieces the system takes.
use hausboot.Base.{
  ℕ, zero, suc, ◌+◌, ◌≤◌, ◌<◌, ◌≡◌, refl, sym, ap, ◌∙◌, subst, List, [], ◌∷◌, ◌++◌, arith, length,
  length-append, take, drop, take-append-drop, length-take, length-drop, take-append_right,
}
use hausboot.Base.Slice.{overwrite, length-overwrite, overwrite-overwrite}
use hausboot.Host.File.{
  Written, taken, write_interrupted, write_failed, Result, done, thrown, stuck, write_round,
  write_at,
}

-- What the system's documentation says of `pwrite` inside a file: it takes some of the bytes, from
-- the first on, and puts them at their place; an error leaves the file alone; and a signal that
-- interrupts it is used up.
pub record IsPwrite {W : Type 0} (pwrite : W → List ℕ → ℕ → Written × W) (contents : W → List ℕ)
    (signals : W → ℕ) : Type 0 where
  pub takes :
      (w v : W) (b : List ℕ) (offset n : ℕ)
      → pwrite w b offset ≡ (taken n, v)
      → offset + length b ≤ length (contents w)
      → (n ≤ length b)
        × (contents v ≡ overwrite (contents w) offset (take n b))
        × (signals v ≤ signals w)
  pub fails :
      (w v : W) (b : List ℕ) (offset : ℕ)
      → pwrite w b offset ≡ (write_failed, v)
      → contents v ≡ contents w
  pub uses_up :
      (w v : W) (b : List ℕ) (offset : ℕ)
      → pwrite w b offset ≡ (write_interrupted, v)
      → (contents v ≡ contents w) × (signals v < signals w)

module _ {W : Type 0} (pwrite : W → List ℕ → ℕ → Written × W) (contents : W → List ℕ)
    (signals : W → ℕ) (sys : IsPwrite pwrite contents signals) where
  -- All bytes at their place, or an exception behind some of them.
  abbrev pub Writes : W → ℕ → List ℕ → Result W (Unit {0}) → Type 0
  Writes w offset b (done u v) = contents v ≡ overwrite (contents w) offset b
  Writes w offset b (thrown v) =
      (n : ℕ) × (n ≤ length b) × (contents v ≡ overwrite (contents w) offset (take n b))
  Writes w offset b stuck = ⊥

  overwrite_none : (m : List ℕ) (o : ℕ) → m ≡ overwrite m o []
  overwrite_none m o =
      sym (take-append-drop o m) ∙ ap (λ (n : ℕ). take o m ++ drop n m) {y = o + 0} (omega arith)

  Writes-same :
      (w v : W) (offset : ℕ) (b : List ℕ) (x : Result W (Unit {0}))
      → contents v ≡ contents w
      → Writes v offset b x
      → Writes w offset b x
  Writes-same w v offset b (done u v') e h = h ∙ ap (λ (m : List ℕ). overwrite m offset b) e
  Writes-same w v offset b (thrown v') e (n, le, h) =
      (n, le, h ∙ ap (λ (m : List ℕ). overwrite m offset (take n b)) e)
  Writes-same w v offset b stuck e h = h

  Writes-behind :
      (w v : W) (offset : ℕ) (b c : List ℕ) (x : Result W (Unit {0}))
      → offset + length (b ++ c) ≤ length (contents w)
      → contents v ≡ overwrite (contents w) offset b
      → Writes v (offset + length b) c x
      → Writes w offset (b ++ c) x
  Writes-behind w v offset b c (done u v') room e h =
      h
      ∙ ap (λ (m : List ℕ). overwrite m (offset + length b) c) e
      ∙ overwrite-overwrite (contents w) offset b c (omega (arith, length-append b c))
  Writes-behind w v offset b c (thrown v') room e (n, le, h) = (
    length b + n,
    omega (arith, length-append b c),
    h
        ∙ ap (λ (m : List ℕ). overwrite m (offset + length b) (take n c)) e
        ∙ overwrite-overwrite (contents w) offset b (take n c)
            (omega (arith, length-append b c, length-take n c))
        ∙ ap (λ (l : List ℕ). overwrite (contents w) offset l) (sym (take-append_right b c n)),
  )
  Writes-behind w v offset b c stuck room e h = h

  write_round-Writes :
      (w v : W) (reply : Written) (offset : ℕ) (b : List ℕ)
      → (again : W → ℕ → List ℕ → Result W (Unit {0})) → offset + length b ≤ length (contents w)
      → pwrite w b offset ≡ (reply, v)
      → ((v' : W) (offset' : ℕ) (b' : List ℕ)
          → length b' + signals v' < length b + signals w
          → offset' + length b' ≤ length (contents v')
          → Writes v' offset' b' (again v' offset' b'))
      → Writes w offset b (write_round pwrite (reply, v) offset b again)
  unfolding write_round
  write_round-Writes w v write_interrupted offset b again room e more =
      let (kept, used) = sys.uses_up w v b offset e in
      Writes-same w v offset b (again v offset b) kept
        (more v offset b (omega arith) (omega (arith, ap length kept)))
  write_round-Writes w v write_failed offset b again room e more =
      (0, omega arith, sys.fails w v b offset e ∙ overwrite_none (contents w) offset)
  write_round-Writes w v (taken zero) offset b again room e more =
      let (le, at, fewer) = sys.takes w v b offset 0 e room in (0, le, at)
  write_round-Writes w v (taken (suc n)) offset b again room e more =
      let (le, at, fewer) = sys.takes w v b offset (suc n) e room in
      let c = take (suc n) b in
      let d = drop (suc n) b in
      let len : length c ≡ suc n = omega (arith, length-take (suc n) b) in
      let size : length (contents v) ≡ length (contents w) =
        ap length at ∙ length-overwrite (contents w) offset c (omega arith) in
      let rest =
        more v (offset + suc n) d (omega (arith, length-drop (suc n) b))
          (omega (arith, length-drop (suc n) b)) in
      subst (λ (l : List ℕ). Writes w offset l (again v (offset + suc n) d))
        (take-append-drop (suc n) b)
        (Writes-behind w v offset c d (again v (offset + suc n) d)
          (omega (arith, ap length (take-append-drop (suc n) b))) at
          (subst (λ (k : ℕ). Writes v k d (again v (offset + suc n) d))
            (ap (λ (k : ℕ). offset + k) (sym len)) rest))

  write_at_loop-Writes :
      (fuel : ℕ) (w : W) (offset : ℕ) (b : List ℕ)
      → length b + signals w < fuel
      → offset + length b ≤ length (contents w)
      → Writes w offset b (write_at pwrite fuel w offset b)
  unfolding write_at
  write_at_loop-Writes zero w offset b h room = absurd (omega arith)
  write_at_loop-Writes (suc fuel) w offset [] h room = overwrite_none (contents w) offset
  write_at_loop-Writes (suc fuel) w offset (c ∷ b) h room =
      let (reply, v) = pwrite w (c ∷ b) offset in
      write_round-Writes w v reply offset (c ∷ b) (write_at pwrite fuel) room refl
        (λ v' offset' b' lt room'. write_at_loop-Writes fuel v' offset' b' (omega arith) room')

  -- On a system whose `pwrite` does as documented, with one round for every byte and every signal
  -- that may interrupt it, `WriteAt` inside a file ends. All bytes are at their place and the rest
  -- of the file is as before, however the system splits them up, or it throws and has written the
  -- first of them only.
  pub write_at-Writes :
      (w : W) (offset : ℕ) (b : List ℕ)
      → offset + length b ≤ length (contents w)
      → Writes w offset b (write_at pwrite (suc (length b + signals w)) w offset b)
  write_at-Writes w offset b room =
      write_at_loop-Writes (suc (length b + signals w)) w offset b (omega arith) room
