-- ===== src/Fatedit/Directory/Scan.antt =====
-- tools/fatedit.cpp, `ScanDirectory`: that it ends, and what it counts.
use hausboot.Base.{
  ℕ, zero, suc, ◌+◌, ◌-◌, ◌*◌, ◌/◌, ◌≤◌, ◌<◌, ◌≡◌, refl, ◌≢◌, ◌⊎◌, inl, inr, Bool, true, false, not,
  Option, none, some, List, [], ◌∷◌, ◌++◌, arith, ltb, ◌==◌, if◌then◌else◌, Bool-cases,
  Option-cases, length, length-append, replicate,
}
use hausboot.Fs.FatSuper.{FatSuper}
use hausboot.Fs.FatDirent.{FatDirent, checksum, long_file_name}
use hausboot.Fs.FatDirent.Layout.{decode}
use hausboot.Fs.FatDirentLong.{FatDirentLong, decode_long, sequence_number, long_name_to_string}
use hausboot.Types.FlagField
use hausboot.Types.FixedLengthString.{cstr}
use hausboot.Fatedit.Outcome.{Outcome, ok, refused, thrown, overrun, stuck, ◌>>=◌}
use hausboot.Fatedit.FileReader.{FileReader, open_reader, Read, got, read}
use hausboot.Fatedit.FileReader
use hausboot.Fatedit.FileReader.Reads.{IsImage, Delivers, read-Delivers}
use hausboot.Fatedit.Directory.{
  DirEntry, of_read, in_sequence, join_names, short_name_of, make_entry, Slot, at_end, dummied_out,
  used, slot_of, read_parts, read_short, read_long, read_entry, take_slot, scan_loop,
  scan_directory,
}

-- An outcome that is no lack of fuel, and whose value is well.
pub Ends {ℓ} : {A : Type ℓ} → (A → Type 0) → Outcome A → Type 0
Ends P (ok a) = P a
Ends P refused = Unit {0}
Ends P thrown = Unit {0}
Ends P overrun = Unit {0}
Ends P stuck = ⊥

Ends-bind {ℓ κ} :
    {A : Type ℓ} {B : Type κ} (P : A → Type 0) (Q : B → Type 0) (o : Outcome A)
    → (k : A → Outcome B) → Ends P o
    → ((a : A) → P a → Ends Q (k a))
    → Ends Q (o >>= k)
unfolding Ends
Ends-bind P Q (ok a) k h f = f a h
Ends-bind P Q refused k h f = tt
Ends-bind P Q thrown k h f = tt
Ends-bind P Q overrun k h f = tt
Ends-bind P Q stuck k h f = elim h [ ]

-- A test that refuses.
Ends-if {ℓ} :
    {A : Type ℓ} (P : A → Type 0) (c : Bool) (o : Outcome A)
    → (c ≡ false → Ends P o)
    → Ends P (if c then refused else o)
unfolding Ends
Ends-if P true o h = tt
Ends-if P false o h = h refl

Ends-ok {ℓ} : {A : Type ℓ} (P : A → Type 0) (a : A) → P a → Ends P (ok a)
unfolding Ends
Ends-ok P a h = h

Ends-unless {ℓ} :
    {A : Type ℓ} (P : A → Type 0) (c : Bool) (o : Outcome A)
    → Ends P o
    → Ends P (if c then o else refused)
unfolding Ends
Ends-unless P true o h = h
Ends-unless P false o h = tt

-- A reader that has read whole entries only.
abbrev pub IsAligned : FileReader → Type 0
IsAligned r = (n : ℕ) × (r.total_read ≡ 32 * n)

-- Behind some whole entries.
abbrev Follows : FileReader → FileReader → Type 0
Follows r r' =
    (r'.size ≤ r.size)
    × (r.total_read ≤ r'.total_read)
    × (r'.size + r'.total_read ≤ r.size + r.total_read)
    × (IsAligned r → IsAligned r')

-- Behind one: the size has gone down by it.
abbrev Passed : FileReader → FileReader → Type 0
Passed r r' = Follows r r' × (r.total_read + 32 ≤ r'.total_read) × (r'.size + 32 ≤ r.size)

Follows-trans : (r r' r'' : FileReader) → Follows r r' → Follows r' r'' → Follows r r''
Follows-trans r r' r'' (le, tot, sum, al) (le', tot', sum', al') =
    (omega arith, omega arith, omega arith, λ h. al' (al h))

Passed-Follows : (r r' r'' : FileReader) → Passed r r' → Follows r' r'' → Passed r r''
Passed-Follows r r' r'' (f, tot, down) f' =
    (Follows-trans r r' r'' f f', omega (arith, f'.1), omega (arith, f'.0))

module _ (raw : List ℕ) (s : FatSuper) (image : ℕ → ℕ → Option (List ℕ))
    (good : IsImage image) where
  -- What a read of 32 bytes leaves.
  abbrev Took : FileReader → List ℕ × FileReader → Type 0
  Took r (b, r') =
      (r'.total_read ≡ r.total_read + length b)
      × (length b ≤ 32)
      × (r'.size + length b ≤ r.size)
      × ((r'.size + length b ≡ r.size) ⊎ (r'.size ≡ 0))

  of_read-Ends : (r : FileReader) (x : Read) → Delivers r 32 x → Ends (Took r) (of_read x)
  unfolding Ends of_read
  of_read-Ends r (got b r') h = h
  of_read-Ends r FileReader.thrown h = tt
  of_read-Ends r FileReader.stuck h = elim h [ ]

  read-Ends : (r : FileReader) → Ends (Took r) (of_read (read raw s image r 32))
  read-Ends r = of_read-Ends r _ (read-Delivers raw s image good r 32)

  Took-Passed :
      (r r' : FileReader) (b : List ℕ) → Took r (b, r') → ltb (length b) 32 ≡ false → Passed r r'
  Took-Passed r r' b (tot, short, fit, o) full =
      let len : length b ≡ 32 = ground arith in
      (
        (omega arith, omega arith, omega arith, λ (n, h). (suc n, omega arith)),
        omega arith,
        omega arith,
      )

  Follows-refl : (r : FileReader) → Follows r r
  Follows-refl r = (omega arith, omega arith, omega arith, λ h. h)

  read_parts-Ends :
      (left : ℕ) (r₀ r : FileReader) (parts : List FatDirentLong)
      → Follows r₀ r
      → Ends (λ (_, r'). Follows r₀ r') (read_parts raw s image left r parts)
  unfolding read_parts
  read_parts-Ends zero r₀ r parts h = Ends-ok _ _ h
  read_parts-Ends (suc left) r₀ r parts h =
      Ends-bind (Took r) (λ (_, r'). Follows r₀ r') _ _ (read-Ends r)
        (λ (b, r') took. Ends-if _ (ltb (length b) 32) _ (λ full. Ends-if _ _ _ (λ _.
          read_parts-Ends left r₀ r' (decode_long b ∷ parts)
            (Follows-trans r₀ r r' h (Took-Passed r r' b took full).0))))

  read_short-Ends :
      (chksum : ℕ) (r₀ r : FileReader) (parts : List FatDirentLong)
      → Follows r₀ r
      → Ends (λ (_, _, r'). Follows r₀ r') (read_short raw s image chksum r parts)
  unfolding read_short
  read_short-Ends chksum r₀ r parts h =
      Ends-bind (Took r) (λ (_, _, r'). Follows r₀ r') _ _ (read-Ends r)
        (λ (b, r') took. Ends-if _ (ltb (length b) 32) _ (λ full.
          Ends-if _ (FlagField.is_set (decode b).flags long_file_name) _ (λ _.
            Ends-if _ (not (checksum (decode b) == chksum)) _
              (λ _. Ends-ok _ _ (Follows-trans r₀ r r' h (Took-Passed r r' b took full).0)))))

  read_long-Ends :
      (e : FatDirentLong) (r : FileReader)
      → Ends (λ (_, _, r'). Follows r r') (read_long raw s image e r)
  unfolding read_long
  read_long-Ends e r = Ends-if _ _ _ (λ _.
      Ends-bind (λ (_, r'). Follows r r') (λ (_, _, r'). Follows r r') _ _
        (read_parts-Ends (sequence_number e - 1) r r (e ∷ []) (Follows-refl r))
        (λ (parts, r') f.
          Ends-unless _ (in_sequence e.short_checksum 1 parts) _
            (read_short-Ends e.short_checksum r r' parts f)))

  read_entry-Ends :
      (b : List ℕ) (r : FileReader) → Ends (λ (_, _, r'). Follows r r') (read_entry raw s image b r)
  unfolding read_entry
  read_entry-Ends b r = elim (Bool-cases (FlagField.is_set (decode b).flags long_file_name)) [
    | inl long ↦ rw (long, read_entry) (read_long-Ends (decode_long b) r)
    | inr short ↦ rw (short, read_entry) (Ends-ok _ _ (Follows-refl r))
  ]

  short_name_of-Ends : (o : Option (Bool × List ℕ)) → Ends (λ _. Unit {0}) (short_name_of o)
  unfolding Ends short_name_of
  short_name_of-Ends none = tt
  short_name_of-Ends (some (true, buffer)) = tt
  short_name_of-Ends (some (false, buffer)) = tt

  join_names-Ends :
      (name : List ℕ) (parts : List FatDirentLong) → Ends (λ _. Unit {0}) (join_names name parts)
  unfolding Ends join_names
  join_names-Ends name [] = tt
  join_names-Ends name (e ∷ parts) = elim (Option-cases (long_name_to_string e (replicate 14 0))) [
    | inl over ↦ rw (over, join_names) tt
    | inr (buffer, fits) ↦
        rw (fits, join_names)
          (Ends-if _ (length (cstr buffer) == 0) _
            (λ _. join_names-Ends (name ++ cstr buffer) parts))
  ]

  make_entry-Ends :
      (e : FatDirent) (parts : List FatDirentLong) → Ends (λ _. Unit {0}) (make_entry e parts)
  unfolding make_entry
  make_entry-Ends e parts =
      Ends-bind (λ _. Unit {0}) (λ _. Unit {0}) _ _ (short_name_of-Ends _)
        (λ short _.
          Ends-bind (λ _. Unit {0}) (λ _. Unit {0}) _ _ (join_names-Ends _ parts)
            (λ long _. Ends-ok _ _ tt))

  slot_of-full : (b : List ℕ) → slot_of b ≢ at_end → ltb (length b) 32 ≡ false
  unfolding slot_of
  slot_of-full b ne = elim (Bool-cases (ltb (length b) 32)) [
    | inl short ↦ elim (ne (rw short refl)) [ ]
    | inr full ↦ full
  ]

  -- What a scan returns: whole entries, each of which took at least one place.
  abbrev pub Counts : ℕ → List DirEntry × ℕ → Type 0
  Counts limit (out, total) =
      ((n : ℕ) × (total ≡ 32 * n)) × (32 * length out ≤ total) × (total ≤ limit)

  take_slot-Ends :
      (slot : Slot) (limit : ℕ) (b : List ℕ) (r r' : FileReader) (out : List DirEntry)
      → (again : FileReader → List DirEntry → Outcome (List DirEntry × ℕ)) → Took r (b, r')
      → slot_of b ≡ slot
      → IsAligned r
      → 32 * length out ≤ r.total_read
      → r.total_read + r.size ≤ limit
      → ((r' : FileReader) (out : List DirEntry)
          → Passed r r'
          → 32 * length out ≤ r'.total_read
          → Ends (Counts limit) (again r' out))
      → Ends (Counts limit) (take_slot raw s image slot b r' out again)
  unfolding take_slot
  take_slot-Ends at_end limit b r r' out again took is (n, al) le lim h =
      Ends-ok (Counts limit) _
        ((n, omega (arith, took.0)), omega (arith, took.0), omega (arith, took.0))
  take_slot-Ends dummied_out limit b r r' out again took is al le lim h =
      h r' out (Took-Passed r r' b took (slot_of-full b (λ e. cc))) (omega (arith, took.0))
  take_slot-Ends used limit b r r' out again took is al le lim h =
      let passed : Passed r r' = Took-Passed r r' b took (slot_of-full b (λ e. cc)) in
      Ends-bind (λ (_, _, r''). Follows r' r'') (Counts limit) _ _ (read_entry-Ends b r')
        (λ (e, parts, r'') f.
          Ends-bind (λ _. Unit {0}) (Counts limit) _ _ (make_entry-Ends e parts)
            (λ entry _.
              h r'' (out ++ entry ∷ []) (Passed-Follows r r' r'' passed f)
                (omega (arith, length-append out (entry ∷ []), passed.1, f.1))))

  scan_loop-Ends :
      (fuel limit : ℕ) (r : FileReader) (out : List DirEntry)
      → IsAligned r
      → 32 * length out ≤ r.total_read
      → r.total_read + r.size ≤ limit
      → r.size < 32 * fuel
      → Ends (Counts limit) (scan_loop raw s image fuel r out)
  unfolding scan_loop
  scan_loop-Ends zero limit r out al le lim h = absurd (omega arith)
  scan_loop-Ends (suc fuel) limit r out al le lim h =
      Ends-bind (Took r) (Counts limit) _ _ (read-Ends r) (λ (b, r') took.
        take_slot-Ends (slot_of b) limit b r r' out (scan_loop raw s image fuel) took refl al le lim
          (λ r'' out' (f, tot, down) le'.
            scan_loop-Ends fuel limit r'' out' (f.3 al) le' (omega (arith, f.2)) (omega arith)))

  -- On an image that gives as many bytes as it is asked for, and at any chain of clusters,
  -- `ScanDirectory` does not go on for ever: it ends, it throws, or it comes to an entry whose
  -- short name it writes past the end of its buffer of 12 bytes, which every full name of 8 and 3
  -- characters does, and behind which nothing is said. Where it ends with a new reader, the number
  -- of bytes it returns is that of whole entries, at least one for each that it lists, and at most
  -- the size it was given.
  pub scan_directory-Counts :
      (cluster size : ℕ)
      → Ends (Counts size) (scan_directory raw s image (open_reader cluster size))
  unfolding scan_directory open_reader
  scan_directory-Counts cluster size =
      scan_loop-Ends (suc (size / 32)) size (open_reader cluster size) [] (0, refl) (omega arith)
        (omega arith) (omega arith)
