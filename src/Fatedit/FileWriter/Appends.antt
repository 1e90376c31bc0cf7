-- ===== src/Fatedit/FileWriter/Appends.antt =====
-- tools/fatedit.cpp, `FileWriter::Append`: its rounds as a relation, and what they add up to.
use hausboot.Base.{
  ℕ, zero, suc, ◌+◌, ◌-◌, ◌*◌, ◌%◌, ◌^◌, ◌≤◌, ◌<◌, min, ◌≡◌, refl, sym, ap, ◌∙◌, subst, inl, inr,
  true, false, Option, none, some, List, [], ◌∷◌, ◌++◌, arith, ◌==◌, if◌then◌else◌, Bool-cases,
  Option-cases, length, length-append, take, drop, take-append-drop, length-take, length-drop,
}
use hausboot.Fs.FatSuper.{FatSuper}
use hausboot.Fatedit.Outcome.{Outcome, ok, refused, thrown, overrun, stuck, Image}
use hausboot.Fatedit.FatReader.{set_entry, allocate_cluster, allocate_cluster_after}
use hausboot.Fatedit.FileReader.{cluster_file_offset, cluster_size}
use hausboot.Fatedit.FileWriter.{
  FileWriter, World, space_available, link, extend, count, put, again, append_loop, append,
}

module _ (I : Image) (s : FatSuper) where
  -- A free cluster was taken and linked behind the writer's cluster in the table, and the writer
  -- stands at its start; the image is as before.
  pub record IsLinked (f : FileWriter) (w : World I) (f' : FileWriter) (w' : World I) : Type 0 where
    pub fresh : ℕ
    pub table : List ℕ
    pub was_taken : allocate_cluster w.raw s ≡ some (fresh, table)
    pub entry_set : w'.raw ≡ set_entry table f.cluster fresh
    pub at_fresh : f'.cluster ≡ fresh
    pub at_start : f'.offset ≡ 0
    pub same_first : f'.first_cluster ≡ f.first_cluster
    pub same_total : f'.total_size ≡ f.total_size
    pub same_image : w'.image ≡ w.image

  -- The bytes were written to the writer's place in its cluster, which moved behind them; the table
  -- is as before.
  pub record IsWritten (f : FileWriter) (w : World I) (b : List ℕ) (f' : FileWriter) (w' : World I)
      : Type 0 where
    pub was_put : I.write_at w.image (cluster_file_offset s f.cluster + f.offset) b ≡ some w'.image
    pub same_cluster : f'.cluster ≡ f.cluster
    pub moved : f'.offset ≡ (f.offset + length b) % 2 ^ 32
    pub same_first : f'.first_cluster ≡ f.first_cluster
    pub grown : f'.total_size ≡ (f.total_size + length b) % 2 ^ 32
    pub same_table : w'.raw ≡ w.raw

  -- Rounds that append bytes: a cluster is linked where the last one is full, and a piece is
  -- written that fits what is left of the cluster.
  pub data Appends : FileWriter → World I → List ℕ → FileWriter → World I → Type 0 where
    done : {f : FileWriter} {w : World I} → Appends f w [] f w
    linked :
        {f f' f'' : FileWriter} {w w' w'' : World I} {d : List ℕ}
        → f.offset ≡ cluster_size s
        → extend I s f w ≡ some (f', w')
        → IsLinked f w f' w'
        → Appends f' w' d f'' w''
        → Appends f w d f'' w''
    wrote :
        {f f' f'' : FileWriter} {w w' w'' : World I} (b d : List ℕ)
        → 0 < length b
        → f.offset + length b ≤ cluster_size s
        → put I s f w b ≡ some (f', w')
        → IsWritten f w b f' w'
        → Appends f' w' d f'' w''
        → Appends f w (b ++ d) f'' w''

  -- `Append` ends with such rounds, or with an exception.
  abbrev pub Ends : FileWriter → World I → List ℕ → Outcome (FileWriter × World I) → Type 0
  Ends f w d (ok (f', w')) = Appends f w d f' w'
  Ends f w d refused = ⊥
  Ends f w d thrown = Unit {0}
  Ends f w d overrun = ⊥
  Ends f w d stuck = ⊥

  link-IsLinked :
      (f f' : FileWriter) (w w' : World I) (n : ℕ) (table : List ℕ) (o : Option (ℕ × List ℕ))
      → allocate_cluster w.raw s ≡ some (n, table)
      → o ≡ some (n, set_entry table f.cluster n)
      → link I s f w o ≡ some (f', w')
      → IsLinked f w f' w'
  unfolding link
  link-IsLinked f f' w w' n table none got o e = cc
  link-IsLinked f f' w w' n table (some (c, raw)) got o e =
      let same : c ≡ n = cc in
      let same_raw : raw ≡ set_entry table f.cluster n = cc in
      let q : record f { cluster = c; offset = 0 } ≡ f' = cc in
      let q' : record w { raw = raw } ≡ w' = cc in
      record {
        fresh = n;
        table = table;
        was_taken = got;
        entry_set = sym (ap (λ (t : World I). t.raw) q') ∙ same_raw;
        at_fresh = sym (ap (λ (t : FileWriter). t.cluster) q) ∙ same;
        at_start = sym (ap (λ (t : FileWriter). t.offset) q);
        same_first = sym (ap (λ (t : FileWriter). t.first_cluster) q);
        same_total = sym (ap (λ (t : FileWriter). t.total_size) q);
        same_image = sym (ap (λ (t : World I). t.image) q');
      }

  allocate_cluster_after-none :
      (raw : List ℕ) (last : ℕ)
      → allocate_cluster raw s ≡ none
      → allocate_cluster_after raw s last ≡ none
  unfolding allocate_cluster_after
  allocate_cluster_after-none raw last e = rw e refl

  allocate_cluster_after-some :
      (raw : List ℕ) (last n : ℕ) (table : List ℕ)
      → allocate_cluster raw s ≡ some (n, table)
      → allocate_cluster_after raw s last ≡ some (n, set_entry table last n)
  unfolding allocate_cluster_after
  allocate_cluster_after-some raw last n table e = rw e refl

  extend-IsLinked :
      (f f' : FileWriter) (w w' : World I) → extend I s f w ≡ some (f', w') → IsLinked f w f' w'
  unfolding extend link
  extend-IsLinked f f' w w' e = elim (Option-cases (allocate_cluster w.raw s)) [
    | inl full ↦ cc (rw (allocate_cluster_after-none w.raw f.cluster full) at e)
    | inr ((n, table), got) ↦
        link-IsLinked f f' w w' n table (allocate_cluster_after w.raw s f.cluster) got
          (allocate_cluster_after-some w.raw f.cluster n table got) e
  ]

  count-IsWritten :
      (f f' : FileWriter) (w w' : World I) (b : List ℕ) (o : Option I.State)
      → I.write_at w.image (cluster_file_offset s f.cluster + f.offset) b ≡ o
      → count I s f w (length b) o ≡ some (f', w')
      → IsWritten f w b f' w'
  unfolding count
  count-IsWritten f f' w w' b none stored e = cc
  count-IsWritten f f' w w' b (some image) stored e =
      let q : record f {
        offset = (f.offset + length b) % 2 ^ 32;
        total_size = (f.total_size + length b) % 2 ^ 32;
      }
          ≡ f' =
        cc in
      let q' : record w { image = image } ≡ w' = cc in
      record {
        was_put = stored ∙ ap (λ (t : World I). some t.image) q';
        same_cluster = sym (ap (λ (t : FileWriter). t.cluster) q);
        moved = sym (ap (λ (t : FileWriter). t.offset) q);
        same_first = sym (ap (λ (t : FileWriter). t.first_cluster) q);
        grown = sym (ap (λ (t : FileWriter). t.total_size) q);
        same_table = sym (ap (λ (t : World I). t.raw) q');
      }

  put-IsWritten :
      (f f' : FileWriter) (w w' : World I) (b : List ℕ)
      → put I s f w b ≡ some (f', w')
      → IsWritten f w b f' w'
  unfolding put
  put-IsWritten f f' w w' b e = count-IsWritten f f' w w' b _ refl e

  pub cluster_size_lt : cluster_size s < 2 ^ 32
  unfolding cluster_size
  cluster_size_lt = omega arith

  space_available_lem :
      (f : FileWriter) → f.offset ≤ cluster_size s → space_available s f ≡ cluster_size s - f.offset
  unfolding space_available
  space_available_lem f h = let lt = cluster_size_lt in omega arith

  -- What a round does, by what there is to do.
  append_loop-full :
      (fuel : ℕ) (f : FileWriter) (w : World I) (d : List ℕ)
      → (length d == 0) ≡ false
      → (min (space_available s f) (length d) == 0) ≡ true
      → append_loop I s (suc fuel) f w d
        ≡ again I s (extend I s f w) (λ f w. append_loop I s fuel f w d)
  unfolding append_loop
  append_loop-full fuel f w d n e = rw (n, e, append_loop) refl

  append_loop-room :
      (fuel : ℕ) (f : FileWriter) (w : World I) (d : List ℕ)
      → (length d == 0) ≡ false
      → let diff = min (space_available s f) (length d) in
        (diff == 0) ≡ false
        → append_loop I s (suc fuel) f w d
          ≡ again I s (put I s f w (take diff d)) (λ f w. append_loop I s fuel f w (drop diff d))
  unfolding append_loop
  append_loop-room fuel f w d n e = rw (n, e, append_loop) refl

  Ends-step :
      (f f' : FileWriter) (w w' : World I) (d d' : List ℕ) (o : Outcome (FileWriter × World I))
      → Ends f' w' d' o
      → ((f'' : FileWriter) (w'' : World I) → Appends f' w' d' f'' w'' → Appends f w d f'' w'')
      → Ends f w d o
  Ends-step f f' w w' d d' (ok (f'', w'')) h k = k f'' w'' h
  Ends-step f f' w w' d d' refused h k = h
  Ends-step f f' w w' d d' thrown h k = tt
  Ends-step f f' w w' d d' overrun h k = h
  Ends-step f f' w w' d d' stuck h k = h

  Ends-again :
      (f : FileWriter) (w : World I) (d d' : List ℕ) (o : Option (FileWriter × World I))
      → (k : FileWriter → World I → Outcome (FileWriter × World I))
      → ((f' : FileWriter) (w' : World I)
          → o ≡ some (f', w')
          → Ends f' w' d' (k f' w')
            × ((f'' : FileWriter) (w'' : World I)
                → Appends f' w' d' f'' w''
                → Appends f w d f'' w''))
      → Ends f w d (again I s o k)
  unfolding again
  Ends-again f w d d' none k h = tt
  Ends-again f w d d' (some (f', w')) k h =
      let (ends, step) = h f' w' refl in Ends-step f f' w w' d d' (k f' w') ends step

  append_loop-Ends :
      (fuel : ℕ) (f : FileWriter) (w : World I) (d : List ℕ)
      → 0 < cluster_size s
      → f.offset ≤ cluster_size s
      → 2 * length d + (if f.offset == cluster_size s then 1 else 0) ≤ suc fuel
      → Ends f w d (append_loop I s (suc fuel) f w d)
  unfolding append_loop
  append_loop-Ends fuel f w [] pos le h = done
  append_loop-Ends zero f w (x ∷ d) pos le h = absurd (omega arith)
  append_loop-Ends (suc fuel) f w (x ∷ d) pos le h =
      let all = x ∷ d in
      let here : (length all == 0) ≡ false = ground arith in
      let lt = cluster_size_lt in
      let space = space_available_lem f le in
      elim (Bool-cases (min (space_available s f) (length all) == 0)) [
        | inl full ↦
            let at_end : f.offset ≡ cluster_size s = ground arith in
            rw (append_loop-full (suc fuel) f w all here full) (
              Ends-again f w all all (extend I s f w) _ (λ f' w' e.
                let step = extend-IsLinked f f' w w' e in
                let start = step.at_start in
                (
                  append_loop-Ends fuel f' w' all pos (omega arith) (ground arith),
                  λ f'' w'' a. linked at_end e step a,
                )))
        | inr room ↦
            let diff = min (space_available s f) (length all) in
            let some_room : 0 < diff = ground arith in
            let size = length-take diff all in
            let left = length-drop diff all in
            rw (append_loop-room (suc fuel) f w all here room) (
              Ends-again f w all (drop diff all) (put I s f w (take diff all)) _ (λ f' w' e.
                let step = put-IsWritten f f' w w' (take diff all) e in
                let moved = step.moved in
                (
                  append_loop-Ends fuel f' w' (drop diff all) pos (omega arith) (ground arith),
                  λ f'' w'' a.
                      subst (λ (l : List ℕ). Appends f w l f'' w'') (take-append-drop diff all)
                        (wrote (take diff all) (drop diff all) (omega arith) (omega arith) e step
                          a),
                )))
      ]

  -- On clusters of at least one byte and with a place inside the cluster, `Append` ends or throws.
  -- Where it ends its rounds append the bytes that were given, in their order. A round writes a
  -- piece at the writer's place in its cluster, inside which it fits, and changes nothing else of
  -- image and table; or, where the cluster is full, it takes the cluster that `AllocateCluster`
  -- gives, stores it in the table as the one behind the full cluster and goes to its start.
  pub append-Appends :
      (f : FileWriter) (w : World I) (d : List ℕ)
      → 0 < cluster_size s
      → f.offset ≤ cluster_size s
      → Ends f w d (append I s f w d)
  unfolding append
  append-Appends f w d pos le =
      append_loop-Ends (2 * length d) f w d pos le (elim (Bool-cases (f.offset == cluster_size s)) [
        | inl y ↦ rw y (omega arith)
        | inr n ↦ rw n (omega arith)
      ])

  -- What such rounds add up to: the place stays inside the cluster, and the size grows by as many
  -- bytes as were appended, in 32 bits.
  pub Appends-total :
      {f f' : FileWriter} {w w' : World I} {d : List ℕ}
      → Appends f w d f' w'
      → f.offset ≤ cluster_size s
      → f.total_size < 2 ^ 32
      → (f'.offset ≤ cluster_size s)
        × (f'.total_size ≡ (f.total_size + length d) % 2 ^ 32)
        × (f'.first_cluster ≡ f.first_cluster)
  Appends-total done le lt = (le, omega arith, refl)
  Appends-total (linked {f} {f'} {f''} {w} {w'} {w''} {d} full e step a) le lt =
      let start = step.at_start in
      let same = step.same_total in
      let (o, t, c) = Appends-total a (omega arith) (omega arith) in
      (o, t ∙ omega arith, c ∙ step.same_first)
  Appends-total (wrote {f} {f'} {f''} {w} {w'} {w''} b d pos fits e step a) le lt =
      let moved = step.moved in
      let grown = step.grown in
      let size = cluster_size_lt in
      let (o, t, c) = Appends-total a (omega arith) (omega arith) in
      (o, t ∙ omega (arith, length-append b d), c ∙ step.same_first)
