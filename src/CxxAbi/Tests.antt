-- ===== src/CxxAbi/Tests.antt =====
-- Tests of the destructors' table.
use hausboot.Base.{ℕ, ◌≡◌, List, [], ◌∷◌, arith}
use hausboot.CxxAbi.{NoNull, register, cxa_finalize, cxa_finalize-register}

abbrev calls : List (ℕ × ℕ)
calls = (100, 1) ∷ (200, 2) ∷ []

abbrev calls-NoNull : NoNull calls
calls-NoNull = ((λ e. absurd (omega arith)), ((λ e. absurd (omega arith)), tt))

cxa_finalize-register_example :
    cxa_finalize (register [] calls) 0 ≡ ((200, 2) ∷ (100, 1) ∷ [], register [] calls)
cxa_finalize-register_example = cxa_finalize-register calls calls-NoNull (omega arith)
