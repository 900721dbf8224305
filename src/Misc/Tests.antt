-- ===== src/Misc/Tests.antt =====
-- The command line "x debug", and the key "debugger".
use sigma.Base.{ℕ, ◌≡◌, refl, arith, some, true, [], ◌∷◌, get_or, length, List, ◌-◌}
use sigma.Klibc.{Memory}
use sigma.Klibc.Strings.{HoldsString}
use sigma.Misc.{get_bool}
use sigma.Misc.Args.{HoldsWords, get_bool_agrees}

abbrev debug : List ℕ
debug = 100 ∷ 101 ∷ 98 ∷ 117 ∷ 103 ∷ []

abbrev debugger : List ℕ
debugger = 100 ∷ 101 ∷ 98 ∷ 117 ∷ 103 ∷ 103 ∷ 101 ∷ 114 ∷ []

abbrev words : List (List ℕ)
words = (120 ∷ []) ∷ debug ∷ []

abbrev text : List ℕ
text =
    120 ∷ 0 ∷ 100 ∷ 101 ∷ 98 ∷ 117 ∷ 103 ∷ 0 ∷ 0 ∷ 0 ∷ 100 ∷ 101 ∷ 98 ∷ 117 ∷ 103 ∷ 103 ∷ 101 ∷ 114
    ∷ 0 ∷ []

abbrev memory : Memory
memory x = get_or text (x - 10) 0

holds_words : HoldsWords 9 memory 10 words
holds_words = (
  (omega arith, refl, refl),
  omega arith,
  (
    (
      omega arith,
      refl,
      (omega arith, refl, (omega arith, refl, (omega arith, refl, (omega arith, refl, refl)))),
    ),
    omega arith,
    tt,
  ),
)

holds_key : HoldsString memory 20 debugger
holds_key = (
  omega arith,
  refl,
  (
    omega arith,
    refl,
    (
      omega arith,
      refl,
      (
        omega arith,
        refl,
        (omega arith, refl, (omega arith, refl, (omega arith, refl, (omega arith, refl, refl)))),
      ),
    ),
  ),
)

-- The word "debug" counts as the key "debugger".
debug_for_debugger : get_bool 9 (length words) 10 20 memory ≡ some true
debug_for_debugger =
    get_bool_agrees words debugger 9 10 20 memory holds_words holds_key (omega arith)
