-- ===== src/Klibc/Tests.antt =====
-- The strings "no" at 10 and "now" at 20, and the copies made of them.
use sigma.Base.{ℕ, refl, arith, List, [], ◌∷◌, get_or, ◌-◌}
use sigma.Klibc.{Memory, memmove}
use sigma.Klibc.Copies.{IsCopied, memmove-IsCopied}
use sigma.Klibc.Strings.{HoldsString}

abbrev text : List ℕ
text = 110 ∷ 111 ∷ 0 ∷ 0 ∷ 0 ∷ 0 ∷ 0 ∷ 0 ∷ 0 ∷ 0 ∷ 110 ∷ 111 ∷ 119 ∷ 0 ∷ []

abbrev memory : Memory
memory x = get_or text (x - 10) 0

abbrev no : List ℕ
no = 110 ∷ 111 ∷ []

abbrev now : List ℕ
now = 110 ∷ 111 ∷ 119 ∷ []

holds_no : HoldsString memory 10 no
holds_no = (omega arith, refl, (omega arith, refl, refl))

holds_now : HoldsString memory 20 now
holds_now = (omega arith, refl, (omega arith, refl, (omega arith, refl, refl)))

memmove-IsCopied_example : IsCopied 21 20 4 memory (memmove 21 20 4 memory)
memmove-IsCopied_example = memmove-IsCopied 21 20 4 memory
