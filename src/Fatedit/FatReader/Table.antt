-- ===== src/Fatedit/FatReader/Table.antt =====
-- tools/fatedit.cpp, `FatReader`: the table's entries, set and read.
use hausboot.Base.{
  ℕ, ◌+◌, ◌-◌, ◌*◌, ◌/◌, ◌%◌, ◌^◌, ◌≤◌, ◌<◌, bit_and, bit_or, ◌≡◌, refl, ap, ◌∙◌, subst, ◌≢◌, ◌⊎◌,
  inl, inr, false, ◌||◌, some, List, arith, ltb, leb, Bool-cases, length, get_elem?, set,
  length-set, get_elem?-set_self, get_elem?-set_ne,
}
use hausboot.Base.Bits.{bit_and_ones, bit_or_join, bit_or_comm}
use hausboot.Fatedit.FatReader.{entry_value, next_cluster_in_file, set_bytes, set_entry}

entry_value-bytes :
    (value : ℕ)
    → value < 2 ^ 28
    → entry_value
        (bit_and value 0xFF)
        (bit_and (value / 2 ^ 8) 0xFF)
        (bit_and (value / 2 ^ 16) 0xFF)
        (bit_and (value / 2 ^ 24) 0x0F)
      ≡ value
unfolding entry_value
entry_value-bytes value h =
    let a = value % 256 in
    let b = value / 2 ^ 8 % 256 in
    let c = value / 2 ^ 16 % 256 in
    let d = value / 2 ^ 24 % 16 in
    let two : bit_or a (b * 2 ^ 8) ≡ b * 2 ^ 8 + a =
      bit_or_comm a _ ∙ bit_or_join 8 b a (omega arith) in
    let three : bit_or (b * 2 ^ 8 + a) (c * 2 ^ 16) ≡ c * 2 ^ 16 + (b * 2 ^ 8 + a) =
      bit_or_comm (b * 2 ^ 8 + a) _ ∙ bit_or_join 16 c (b * 2 ^ 8 + a) (omega arith) in
    let low = c * 2 ^ 16 + (b * 2 ^ 8 + a) in
    let four : bit_or low (d * 2 ^ 24) ≡ d * 2 ^ 24 + low =
      bit_or_comm low _ ∙ bit_or_join 24 d low (omega arith) in
    rw
      (
        bit_and_ones 8 value,
        bit_and_ones 8 (value / 2 ^ 8),
        bit_and_ones 8 (value / 2 ^ 16),
        bit_and_ones 4 (value / 2 ^ 24),
        two,
        three,
        four,
        bit_and_ones 28 (d * 2 ^ 24 + low),
      )
      (omega arith)

-- A read whose four bytes are known.
pub next_run :
    (raw : List ℕ) (n idx a b c d : ℕ)
    → n * 4 % 2 ^ 32 ≡ idx
    → get_elem? raw idx ≡ some a
    → get_elem? raw (idx + 1) ≡ some b
    → get_elem? raw (idx + 2) ≡ some c
    → get_elem? raw (idx + 3) ≡ some d
    → next_cluster_in_file raw n ≡ some (entry_value a b c d)
unfolding next_cluster_in_file
next_run raw n idx a b c d at ea eb ec ed = rw (at, ea, eb, ec, ed) refl

pub set_entry_run :
    (raw : List ℕ) (n value : ℕ)
    → n < 2 ^ 30
    → n * 4 + 3 < length raw
    → set_entry raw n value ≡ set_bytes raw (n * 4) value
unfolding set_entry
set_entry_run raw n value h k =
    let at : n * 4 % 2 ^ 64 ≡ n * 4 = omega arith in
    let in_table : (ltb (length raw) 4 || leb (length raw - 3) (n * 4)) ≡ false = ground arith in
    rw (at, in_table) refl

pub length-set_bytes :
    (raw : List ℕ) (idx value : ℕ) → length (set_bytes raw idx value) ≡ length raw
unfolding set_bytes
length-set_bytes raw idx value =
    length-set _ (idx + 3) _
    ∙ length-set _ (idx + 2) _
    ∙ length-set _ (idx + 1) _
    ∙ length-set raw idx _

pub length-set_entry : (raw : List ℕ) (n value : ℕ) → length (set_entry raw n value) ≡ length raw
unfolding set_entry
length-set_entry raw n value =
    let idx = n * 4 % 2 ^ 64 in
    elim (Bool-cases (ltb (length raw) 4 || leb (length raw - 3) idx)) [
      | inl past ↦ rw past refl
      | inr inside ↦ rw inside (length-set_bytes raw idx value)
    ]

-- The bytes that `Set` leaves.
get_elem?-set_bytes :
    (raw : List ℕ) (idx value : ℕ)
    → idx + 3 < length raw
    → (get_elem? (set_bytes raw idx value) idx ≡ some (bit_and value 0xFF))
      × (get_elem? (set_bytes raw idx value) (idx + 1) ≡ some (bit_and (value / 2 ^ 8) 0xFF))
      × (get_elem? (set_bytes raw idx value) (idx + 2) ≡ some (bit_and (value / 2 ^ 16) 0xFF))
      × (get_elem? (set_bytes raw idx value) (idx + 3) ≡ some (bit_and (value / 2 ^ 24) 0x0F))
unfolding set_bytes
get_elem?-set_bytes raw idx value h =
    let v0 = bit_and value 0xFF in
    let v1 = bit_and (value / 2 ^ 8) 0xFF in
    let v2 = bit_and (value / 2 ^ 16) 0xFF in
    let v3 = bit_and (value / 2 ^ 24) 0x0F in
    let r1 : List ℕ = set raw idx v0 in
    let r2 : List ℕ = set r1 (idx + 1) v1 in
    let r3 : List ℕ = set r2 (idx + 2) v2 in
    let l1 = length-set raw idx v0 in
    let l2 = length-set r1 (idx + 1) v1 in
    let l3 = length-set r2 (idx + 2) v2 in
    let apart : (i j : ℕ) → i < j → j ≢ i = λ i j lt e. absurd (omega arith) in
    (
      get_elem?-set_ne r3 v3 (apart idx (idx + 3) (omega arith))
          ∙ get_elem?-set_ne r2 v2 (apart idx (idx + 2) (omega arith))
          ∙ get_elem?-set_ne r1 v1 (apart idx (idx + 1) (omega arith))
          ∙ get_elem?-set_self raw idx v0 (omega arith),
      get_elem?-set_ne r3 v3 (apart (idx + 1) (idx + 3) (omega arith))
          ∙ get_elem?-set_ne r2 v2 (apart (idx + 1) (idx + 2) (omega arith))
          ∙ get_elem?-set_self r1 (idx + 1) v1 (omega arith),
      get_elem?-set_ne r3 v3 (apart (idx + 2) (idx + 3) (omega arith))
          ∙ get_elem?-set_self r2 (idx + 2) v2 (omega arith),
      get_elem?-set_self r3 (idx + 3) v3 (omega arith),
    )

get_elem?-set_bytes_ne :
    (raw : List ℕ) (idx value j : ℕ)
    → (j < idx) ⊎ (idx + 3 < j)
    → get_elem? (set_bytes raw idx value) j ≡ get_elem? raw j
unfolding set_bytes
get_elem?-set_bytes_ne raw idx value j out =
    let apart : (k : ℕ) → k ≤ 3 → idx + k ≢ j =
      λ k le e. elim out [ inl w ↦ absurd (omega arith) | inr w ↦ absurd (omega arith) ] in
    let here : idx ≢ j =
      λ e. elim out [ inl w ↦ absurd (omega arith) | inr w ↦ absurd (omega arith) ] in
    get_elem?-set_ne _ _ (apart 3 (omega arith))
    ∙ get_elem?-set_ne _ _ (apart 2 (omega arith))
    ∙ get_elem?-set_ne _ _ (apart 1 (omega arith))
    ∙ get_elem?-set_ne raw _ here

-- An entry that is set in the table reads back, for a value of 28 bits.
pub next_cluster_in_file-set_entry :
    (raw : List ℕ) (n value : ℕ)
    → n < 2 ^ 30
    → n * 4 + 3 < length raw
    → value < 2 ^ 28
    → next_cluster_in_file (set_entry raw n value) n ≡ some value
next_cluster_in_file-set_entry raw n value h k lt =
    let (a, b, c, d) = get_elem?-set_bytes raw (n * 4) value k in
    ap (λ (t : List ℕ). next_cluster_in_file t n) (set_entry_run raw n value h k)
    ∙ next_run (set_bytes raw (n * 4) value) n (n * 4) _ _ _ _ (omega arith) a b c d
    ∙ ap some (entry_value-bytes value lt)

next_same :
    (raw raw' : List ℕ) (i : ℕ)
    → ((k : ℕ) → k < 4 → get_elem? raw' (i * 4 % 2 ^ 32 + k) ≡ get_elem? raw (i * 4 % 2 ^ 32 + k))
    → next_cluster_in_file raw' i ≡ next_cluster_in_file raw i
unfolding next_cluster_in_file
next_same raw raw' i same =
    let idx = i * 4 % 2 ^ 32 in
    let first : get_elem? raw' idx ≡ get_elem? raw idx =
      subst (λ j. get_elem? raw' j ≡ get_elem? raw j) (omega arith) (same 0 (omega arith)) in
    rw (first, same 1 (omega arith), same 2 (omega arith), same 3 (omega arith)) refl

beyond : (i n : ℕ) → i ≢ n → ltb i n ≡ false → n < i
beyond i n ne e = ground arith

-- Setting an entry leaves every other one as it was.
pub next_cluster_in_file-set_entry_ne :
    (raw : List ℕ) (n i value : ℕ)
    → n < 2 ^ 30
    → i < 2 ^ 30
    → n * 4 + 3 < length raw
    → i ≢ n
    → next_cluster_in_file (set_entry raw n value) i ≡ next_cluster_in_file raw i
next_cluster_in_file-set_entry_ne raw n i value h h' k ne =
    ap (λ (t : List ℕ). next_cluster_in_file t i) (set_entry_run raw n value h k)
    ∙ next_same raw (set_bytes raw (n * 4) value) i (λ j lt.
      get_elem?-set_bytes_ne raw (n * 4) value (i * 4 % 2 ^ 32 + j) (elim (Bool-cases (ltb i n)) [
        | inl e ↦ inl (ground arith)
        | inr e ↦ inr (omega (arith, beyond i n ne e))
      ]))
