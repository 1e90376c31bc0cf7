-- ===== src/CxxAbi.antt =====
-- lib/cxxabi/cxxabi.cpp: the table of destructors. A function pointer is a number, 0 for the null
-- pointer; a call of a destructor is an event, the destructor with its object.
mod Tests
use mathlib.Core.List.{reverse, reverse-append}
use hausboot.Base.{
  ℕ, zero, suc, ◌+◌, ◌≤◌, ◌<◌, ◌≡◌, refl, sym, ap, ◌∙◌, ◌≢◌, Bool, true, false, none, some, List,
  [], ◌∷◌, ◌++◌, map, append_assoc, append-nil, arith, leb, ◌==◌, if◌then◌else◌, length, get_elem?,
  set, length-append, take, length-map, take_all,
}

abbrev pub max_funcs : ℕ
max_funcs = 32

pub record Entry : Type 0 where
  pub destructor : ℕ
  pub obj : ℕ

-- `__cxa_atexit`: the result, as whether it is 0, and the table.
pub cxa_atexit : List Entry → ℕ → ℕ → Bool × List Entry
cxa_atexit table f obj =
    if leb max_funcs (length table)
    then (false, table)
    else (true, table ++ record { destructor = f; obj = obj } ∷ [])

-- The first loop of `__cxa_finalize`, downwards over the first `i` entries: the calls.
pub finalize_all : List Entry → ℕ → List (ℕ × ℕ)
finalize_all table zero = []
finalize_all table (suc i) =
    let rest = finalize_all table i in
    elim (get_elem? table i) [
      | none ↦ rest
      | some e ↦ if e.destructor == 0 then rest else (e.destructor, e.obj) ∷ rest
    ]

-- The second loop: the calls, and the table with the entries of `f` cleared.
pub finalize_one : List Entry → ℕ → ℕ → List (ℕ × ℕ) × List Entry
finalize_one table f zero = ([], table)
finalize_one table f (suc i) =
    let (calls, table') = finalize_one table f i in
    elim (get_elem? table i) [
      | none ↦ (calls, table')
      | some e ↦
          if e.destructor == f
          then ((f, e.obj) ∷ calls, set table' i (record e { destructor = 0 }))
          else (calls, table')
    ]

-- `__cxa_finalize`: the calls in order, and the table.
pub cxa_finalize : List Entry → ℕ → List (ℕ × ℕ) × List Entry
cxa_finalize table f =
    if f == 0
    then (finalize_all table (length table), table)
    else finalize_one table f (length table)

-- Destructors that are registered one after another.
abbrev pub register : List Entry → List (ℕ × ℕ) → List Entry
register table [] = table
register table ((f, obj) ∷ calls) = register (cxa_atexit table f obj).1 calls

abbrev entry_of : ℕ × ℕ → Entry
entry_of (f, obj) = record { destructor = f; obj = obj }

abbrev pub NoNull : List (ℕ × ℕ) → Type 0
NoNull [] = Unit {0}
NoNull ((f, obj) ∷ calls) = (f ≢ 0) × NoNull calls

cxa_atexit_fits :
    (table : List Entry) (f obj : ℕ)
    → length table < max_funcs
    → cxa_atexit table f obj ≡ (true, table ++ entry_of (f, obj) ∷ [])
unfolding cxa_atexit
cxa_atexit_fits table f obj h =
    let fits : leb max_funcs (length table) ≡ false = ground arith in rw fits refl

register-append :
    (table : List Entry) (calls : List (ℕ × ℕ))
    → length table + length calls ≤ max_funcs
    → register table calls ≡ table ++ map entry_of calls
register-append table [] h = sym (append-nil table)
register-append table ((f, obj) ∷ calls) h =
    let more : List Entry = table ++ entry_of (f, obj) ∷ [] in
    ap (λ (r : Bool × List Entry). register r.1 calls) (cxa_atexit_fits table f obj (omega arith))
    ∙ register-append more calls (omega (arith, length-append table (entry_of (f, obj) ∷ [])))
    ∙ append_assoc table (entry_of (f, obj) ∷ []) (map entry_of calls)

take-suc :
    (calls : List (ℕ × ℕ)) (n : ℕ) (c : ℕ × ℕ)
    → get_elem? calls n ≡ some c
    → take (suc n) calls ≡ take n calls ++ c ∷ []
take-suc [] n c e = cc
take-suc (d ∷ calls) zero c e = let same : d ≡ c = cc in rw same refl
take-suc (d ∷ calls) (suc n) c e = ap (λ (t : List (ℕ × ℕ)). d ∷ t) (take-suc calls n c e)

entry_at :
    (calls : List (ℕ × ℕ)) (n : ℕ)
    → NoNull calls
    → n < length calls
    → (f obj : ℕ) × (get_elem? calls n ≡ some (f, obj))
      × (f ≢ 0)
      × (get_elem? (map entry_of calls) n ≡ some (entry_of (f, obj)))
entry_at [] n h lt = absurd (omega arith)
entry_at ((f, obj) ∷ calls) zero (ne, h) lt = (f, obj, refl, ne, refl)
entry_at ((f, obj) ∷ calls) (suc n) (ne, h) lt = entry_at calls n h (omega arith)

finalize_all_step :
    (table : List Entry) (i f obj : ℕ)
    → get_elem? table i ≡ some (entry_of (f, obj))
    → f ≢ 0
    → finalize_all table (suc i) ≡ (f, obj) ∷ finalize_all table i
unfolding finalize_all
finalize_all_step table i f obj e ne =
    let live : (f == 0) ≡ false = ground arith in rw (e, finalize_all, live) refl

finalize_all-reverse :
    (calls : List (ℕ × ℕ)) (n : ℕ)
    → NoNull calls
    → n ≤ length calls
    → finalize_all (map entry_of calls) n ≡ reverse (take n calls)
unfolding finalize_all
finalize_all-reverse calls zero h le = refl
finalize_all-reverse calls (suc n) h le =
    let (f, obj, e, ne, e') = entry_at calls n h (omega arith) in
    finalize_all_step (map entry_of calls) n f obj e' ne
    ∙ ap (λ (t : List (ℕ × ℕ)). (f, obj) ∷ t) (finalize_all-reverse calls n h (omega arith))
    ∙ sym (ap reverse (take-suc calls n (f, obj) e) ∙ reverse-append (take n calls) ((f, obj) ∷ []))

cxa_finalize_null :
    (table : List Entry) → cxa_finalize table 0 ≡ (finalize_all table (length table), table)
unfolding cxa_finalize
cxa_finalize_null table = refl

-- At most 32 destructors, registered one after another on an empty table, are called by
-- `__cxa_finalize` of the null pointer in the reverse order, each once with its object, and the
-- table stays.
pub cxa_finalize-register :
    (calls : List (ℕ × ℕ))
    → NoNull calls
    → length calls ≤ max_funcs
    → cxa_finalize (register [] calls) 0 ≡ (reverse calls, register [] calls)
cxa_finalize-register calls h le =
    let all = register-append [] calls (omega arith) in
    rw all (
      cxa_finalize_null (map entry_of calls)
      ∙ ap (λ (t : List (ℕ × ℕ)). (t, map entry_of calls))
          (ap (finalize_all (map entry_of calls)) (length-map calls entry_of)
            ∙ finalize_all-reverse calls (length calls) h (omega arith)
            ∙ ap reverse (take_all (length calls) calls (omega arith))))
