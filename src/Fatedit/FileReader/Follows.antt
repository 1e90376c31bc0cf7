-- ===== src/Fatedit/FileReader/Follows.antt =====
-- tools/fatedit.cpp, `FileReader::Read`: the bytes of a file that lies on the image.
use hausboot.Base.{
  ℕ, zero, suc, ◌+◌, ◌-◌, ◌≤◌, ◌<◌, min, ◌≡◌, refl, sym, ap, ◌∙◌, subst, inl, inr, true, false,
  ◌||◌, Option, some, List, [], ◌∷◌, ◌++◌, append-nil, arith, ltb, leb, ◌==◌, if◌then◌else◌,
  Bool-cases, length, length-append, take, drop, take-append-drop, length-take, length-drop,
  drop_all, drop-append_right, take-append_right,
}
use hausboot.Fs.FatSuper.{FatSuper}
use hausboot.Fatedit.FatReader.{next_cluster_in_file, searched}
use hausboot.Fatedit.FileReader.{
  FileReader, open_reader, cluster_file_offset, cluster_size, data_left_in_cluster, follow_entry,
  next_cluster, Read, got, prefix, transfer, advance, read_loop, count_read, read,
}
use hausboot.Fatedit.FileWriter.Chain.{IsLink, Chain, here, piece, hop}

-- Two adjacent reads make one.
abbrev pub IsContinuous : (ℕ → ℕ → Option (List ℕ)) → Type 0
IsContinuous image =
    (offset : ℕ) (b c : List ℕ)
    → image offset (length b) ≡ some b
    → image (offset + length b) (length c) ≡ some c
    → image offset (length b + length c) ≡ some (b ++ c)

-- A read that gives these bytes.
abbrev pub Gives : Read → List ℕ → Type 0
Gives x d = (r : FileReader) × (x ≡ got d r)

Gives-prefix : (b d : List ℕ) (x : Read) → Gives x d → Gives (prefix b x) (b ++ d)
unfolding prefix
Gives-prefix b d x (r, e) = (r, ap (prefix b) e)

module _ (raw : List ℕ) (s : FatSuper) (image : ℕ → ℕ → Option (List ℕ))
    (continuous : IsContinuous image) where
  Chain-moved :
      {c c' o' : ℕ} (o₁ o₂ : ℕ) (d₁ d₂ : List ℕ)
      → o₁ ≡ o₂
      → d₁ ≡ d₂
      → Chain raw s image c o₁ d₁ c' o'
      → Chain raw s image c o₂ d₂ c' o'
  Chain-moved {c} {c'} {o'} o₁ o₂ d₁ d₂ e e' k =
      subst (λ (o : ℕ). Chain raw s image c o d₂ c' o') e
        (subst (λ (d : List ℕ). Chain raw s image c o₁ d c' o') e' k)

  -- As many bytes of a stretch as lie in its first cluster are read in one go, and what is left
  -- goes on behind them.
  Chain-part :
      {c o c' o' : ℕ} {d : List ℕ} (n : ℕ)
      → Chain raw s image c o d c' o'
      → n ≡ min (length d) (cluster_size s - o)
      → (0 < n → image (cluster_file_offset s c + o) n ≡ some (take n d))
        × Chain raw s image c (o + n) (drop n d) c' o'
  Chain-part n (here {c} {o}) e = (
    λ h. absurd (omega arith),
    Chain-moved o (o + n) [] (drop n []) (omega arith) (sym (drop_all n [] (omega arith))) here,
  )
  Chain-part n (piece {c} {o} {c'} {o'} b d pos fits r rest) e =
      let m = min (length d) (cluster_size s - (o + length b)) in
      let (more, left) = Chain-part m rest refl in
      let sum : n ≡ length b + m = omega (arith, length-append b d) in
      let len : length (take m d) ≡ m = omega (arith, length-take m d) in
      let all : image (cluster_file_offset s c + o) (length b + m) ≡ some (b ++ take m d) =
        elim (Bool-cases (m == 0)) [
          | inl z ↦
              let z' : m ≡ 0 = ground arith in
              ap (λ (k : ℕ). image (cluster_file_offset s c + o) k) {y = length b} (omega arith)
              ∙ r
              ∙ ap some (sym (append-nil b) ∙ ap (λ (k : ℕ). b ++ take k d) {x = 0} (omega arith))
          | inr nz ↦
              let here_ : image (cluster_file_offset s c + o + length b) (length (take m d))
                  ≡ some (take m d) =
                ap (λ (k : ℕ). image (cluster_file_offset s c + o + length b) k) len
                ∙ ap (λ (k : ℕ). image k m) {y = cluster_file_offset s c + (o + length b)}
                    (omega arith)
                ∙ more (ground arith) in
              ap (λ (k : ℕ). image (cluster_file_offset s c + o) (length b + k)) (sym len)
              ∙ continuous (cluster_file_offset s c + o) b (take m d) r here_
        ] in
      (
        λ h.
            ap (λ (k : ℕ). image (cluster_file_offset s c + o) k) sum
            ∙ all
            ∙ ap some (sym (take-append_right b d m) ∙ ap (λ (k : ℕ). take k (b ++ d)) (sym sum)),
        Chain-moved (o + length b + m) (o + n) (drop m d) (drop n (b ++ d)) (omega arith)
            (sym (drop-append_right b d m) ∙ ap (λ (k : ℕ). drop k (b ++ d)) (sym sum)) left,
      )
  Chain-part n (hop {c} {o} {c'} {o'} k d at link_ l rest) e =
      let none : n ≡ 0 = omega arith in
      (
        λ h. absurd (omega arith),
        Chain-moved o (o + n) d (drop n d) (omega arith) (ap (λ (k : ℕ). drop k d) (sym none))
            (hop k d at link_ l rest),
      )

  -- At a cluster's end the stretch goes on along a link.
  Chain-hop :
      {c o c' o' : ℕ} {d : List ℕ}
      → Chain raw s image c o d c' o'
      → 0 < length d
      → cluster_size s ≤ o
      → (n : ℕ) × (next_cluster_in_file raw c ≡ some n) × IsLink s n × Chain raw s image n 0 d c' o'
  Chain-hop here pos full = absurd (omega arith)
  Chain-hop (piece b d pos fits r rest) pos' full = absurd (omega arith)
  Chain-hop (hop n d at e l rest) pos full = (n, e, l, rest)

  data_left_lem :
      (r : FileReader) → data_left_in_cluster s r ≡ min r.size (cluster_size s - r.offset)
  unfolding data_left_in_cluster
  data_left_lem r = ground arith

  -- What a round does with the bytes that it gets.
  abbrev goes_on : FileReader → ℕ → List ℕ → (FileReader → ℕ → Read) → ℕ → Read
  goes_on r size b again n =
      prefix b (again (record r { offset = r.offset + n; size = r.size - n }) (size - n))

  transfer-some :
      (r : FileReader) (size left : ℕ) (b : List ℕ) (again : FileReader → ℕ → Read)
      → let diff = if ltb size left then size else left in
        image (cluster_file_offset s r.cluster + r.offset) diff ≡ some b
        → transfer raw s image r size left again ≡ goes_on r size b again diff
  unfolding transfer
  transfer-some r size left b again e = rw (e, transfer) refl

  transfer_run :
      (r : FileReader) (size left n : ℕ) (b : List ℕ) (again : FileReader → ℕ → Read)
      → (if ltb size left then size else left) ≡ n
      → image (cluster_file_offset s r.cluster + r.offset) n ≡ some b
      → transfer raw s image r size left again ≡ goes_on r size b again n
  transfer_run r size left n b again e e' =
      transfer-some r size left b again
        (ap (image (cluster_file_offset s r.cluster + r.offset)) e ∙ e')
      ∙ ap (goes_on r size b again) e

  -- A reader at the start of a stretch, and the rounds that are left.
  abbrev Continues : ℕ → (FileReader → ℕ → Read) → Type 0
  Continues size again =
      (r : FileReader) (d : List ℕ) (c' o' : ℕ)
      → length d < size
      → r.size ≡ length d
      → Chain raw s image r.cluster r.offset d c' o'
      → Gives (again r (length d)) d

  transfer-Chain :
      (r : FileReader) (d : List ℕ) (c' o' : ℕ) (left : ℕ) (again : FileReader → ℕ → Read)
      → r.size ≡ length d
      → Chain raw s image r.cluster r.offset d c' o'
      → left ≡ min (length d) (cluster_size s - r.offset)
      → 0 < left
      → Continues (length d) again
      → Gives (transfer raw s image r (length d) left again) d
  transfer-Chain r d c' o' left again size k e pos more =
      let (there, rest) = Chain-part left k e in
      let b = take left d in
      let d' = drop left d in
      let len : length d' ≡ length d - left = length-drop left d in
      let diff : (if ltb (length d) left then length d else left) ≡ left = ground arith in
      let r' = record r { offset = r.offset + left; size = r.size - left } in
      let next = more r' d' c' o' (omega arith) (omega arith) rest in
      let (last, gave) = Gives-prefix b d' (again r' (length d')) next in
      (
        last,
        transfer_run r (length d) left left b again diff (there pos)
            ∙ ap (λ (n : ℕ). prefix b (again r' n)) (sym len)
            ∙ gave
            ∙ ap (λ (l : List ℕ). got l last) (take-append-drop left d),
      )

  -- A link is followed.
  follow_link :
      (r : FileReader) (n : ℕ)
      → searched s ≤ 0x0FFFFFF8
      → (r.size == 0) ≡ false
      → next_cluster_in_file raw r.cluster ≡ some n
      → IsLink s n
      → next_cluster raw r ≡ some (record r { offset = 0; cluster = n })
  unfolding next_cluster follow_entry
  follow_link r n le nz e (lo, hi) =
      let fine : (ltb n 2 || leb 0x0FFFFFF8 n) ≡ false = ground arith in
      rw (nz, e, next_cluster, follow_entry, fine) refl

  advance_run :
      (r : FileReader) (size : ℕ) (again : FileReader → ℕ → Read)
      → (data_left_in_cluster s r == 0) ≡ false
      → advance raw s image (some r) size again
        ≡ transfer raw s image r size (data_left_in_cluster s r) again
  unfolding advance
  advance_run r size again nz = rw (nz, advance) refl

  read_loop_done : (fuel : ℕ) (r : FileReader) → read_loop raw s image (suc fuel) r 0 ≡ got [] r
  unfolding read_loop
  read_loop_done fuel r = refl

  read_loop_here :
      (fuel : ℕ) (r : FileReader) (size : ℕ)
      → (size == 0) ≡ false
      → (data_left_in_cluster s r == 0) ≡ false
      → read_loop raw s image (suc fuel) r size
        ≡ transfer raw s image r size (data_left_in_cluster s r) (read_loop raw s image fuel)
  unfolding read_loop
  read_loop_here fuel r size nz left = rw (nz, left, read_loop) refl

  read_loop_there :
      (fuel : ℕ) (r : FileReader) (size : ℕ)
      → (size == 0) ≡ false
      → (data_left_in_cluster s r == 0) ≡ true
      → read_loop raw s image (suc fuel) r size
        ≡ advance raw s image (next_cluster raw r) size (read_loop raw s image fuel)
  unfolding read_loop
  read_loop_there fuel r size nz empty = rw (nz, empty, read_loop) refl

  module _ (le : searched s ≤ 0x0FFFFFF8) (pos : 0 < cluster_size s) where
    read_loop-Chain :
        (fuel : ℕ) (r : FileReader) (d : List ℕ) (c' o' : ℕ)
        → length d < fuel
        → r.size ≡ length d
        → Chain raw s image r.cluster r.offset d c' o'
        → Gives (read_loop raw s image fuel r (length d)) d
    read_loop-Chain zero r d c' o' h size k = absurd (omega arith)
    read_loop-Chain (suc fuel) r [] c' o' h size k = (r, read_loop_done fuel r)
    read_loop-Chain (suc fuel) r (x ∷ d) c' o' h size k =
        let all = x ∷ d in
        let nz : (length all == 0) ≡ false = ground arith in
        let more : Continues (length all) (read_loop raw s image fuel) =
          λ r' d' c'' o'' lt size' k'. read_loop-Chain fuel r' d' c'' o'' (omega arith) size' k' in
        let left_lem = data_left_lem r in
        elim (Bool-cases (data_left_in_cluster s r == 0)) [
          | inr some_left ↦
              let (last, e) =
                transfer-Chain r all c' o' (data_left_in_cluster s r) (read_loop raw s image fuel)
                  size k (omega arith) (ground arith) more in
              (last, read_loop_here fuel r (length all) nz some_left ∙ e)
          | inl none_left ↦
              let (n, linked, is_link, rest) = Chain-hop k (omega arith) (ground arith) in
              let r' = record r { offset = 0; cluster = n } in
              let left_lem' = data_left_lem r' in
              let some_left : (data_left_in_cluster s r' == 0) ≡ false = ground arith in
              let (last, e) =
                transfer-Chain r' all c' o' (data_left_in_cluster s r') (read_loop raw s image fuel)
                  size rest (omega arith) (ground arith) more in
              (
                last,
                read_loop_there fuel r (length all) nz none_left
                    ∙ ap (λ o. advance raw s image o (length all) (read_loop raw s image fuel))
                        (follow_link r n le (ground arith) linked is_link)
                    ∙ advance_run r' (length all) (read_loop raw s image fuel) some_left
                    ∙ e,
              )
        ]

    Gives-count_read : (x : Read) (d : List ℕ) → Gives x d → Gives (count_read raw s image x) d
    unfolding count_read
    Gives-count_read x d (r, e) =
        (record r { total_read = r.total_read + length d }, ap (count_read raw s image) e)

    -- The bytes of a file that lies on the image are read back with its first cluster and size.
    pub read-Chain :
        (c : ℕ) (d : List ℕ) (c' o' : ℕ)
        → Chain raw s image c 0 d c' o'
        → Gives (read raw s image (open_reader c (length d)) (length d)) d
    unfolding read open_reader
    read-Chain c d c' o' k =
        Gives-count_read _ d
          (read_loop-Chain (suc (length d)) (open_reader c (length d)) d c' o' (omega arith) refl k)
