-- ===== src/Types/Bitmap.antt =====
-- `types::bitmap` of kernel/include/Sigma/types/bitmap.hpp: bits in bytes. An access past the array,
-- which the code does not guard against, reads 0 here and writes nothing.
use sigma.Base.{
  subst, subst, ℕ, zero, suc, ◌+◌, ◌-◌, ◌*◌, ◌/◌, ◌%◌, ◌^◌, ◌<◌, ◌≤◌, ◌≡◌, ◌==◌, refl, arith,
  if◌then◌else◌, Bool, true, false, Bool-cases, inl, inr, Option, none, some, List, [], ◌∷◌, length,
  get_or, set, replicate, minus_one, ap₂, sym, ◌∙◌, dec_lt,
}
use sigma.Paging.Entries.{bit_test, bit_set}

-- The constructor: room for `n_bits`, all clear.
unfoldable pub bitmap : ℕ → List ℕ
bitmap n_bits = replicate ((n_bits + 7) / 8) 0

unfoldable pub set_bit : ℕ → List ℕ → List ℕ
unfolding bit_set
set_bit bit array = set array (bit / 8) (bit_set (get_or array (bit / 8) 0) (bit % 8))

unfoldable pub clear_bit : ℕ → List ℕ → List ℕ
unfolding bit_test
clear_bit bit array =
    let e = get_or array (bit / 8) 0 in
    set array (bit / 8) (if bit_test e (bit % 8) then e - 2 ^ (bit % 8) else e)

unfoldable pub test_bit : ℕ → List ℕ → Bool
unfolding bit_test
test_bit bit array = bit_test (get_or array (bit / 8) 0) (bit % 8)

-- The inner loop: the first clear bit of the `n` from `j` on.
unfoldable pub first_clear : ℕ → ℕ → ℕ → Option ℕ
unfolding bit_test
first_clear e j zero = none
first_clear e j (suc n) =
    let rest = first_clear e (j + 1) n in if bit_test e j then rest else some j

-- The outer loop, from the byte `i` on.
unfoldable pub free_from : ℕ → List ℕ → ℕ
unfolding first_clear
free_from i [] = minus_one
free_from i (e ∷ es) =
    let rest = free_from (i + 1) es in
    if e == 255 then rest else elim (first_clear e 0 8) [ none ↦ rest | some j ↦ i * 8 + j ]

unfoldable pub get_free_bit : List ℕ → ℕ
unfolding free_from
get_free_bit array = free_from 0 array

-- The lowest clear bit, counted from the byte `i`, or minus one where all are set.
pub data IsLowest (i : ℕ) (array : List ℕ) (r : ℕ) : Type 0 where
  full :
      r ≡ minus_one
      → ((m : ℕ) → m < 8 * length array → test_bit m array ≡ true)
      → IsLowest i array r
  lowest :
      (m : ℕ)
      → r ≡ i * 8 + m
      → m < 8 * length array
      → test_bit m array ≡ false
      → ((k : ℕ) → k < m → test_bit k array ≡ true)
      → IsLowest i array r

data FirstClear (e j n : ℕ) : Option ℕ → Type 0 where
  all_set : ((k : ℕ) → j ≤ k → k < j + n → bit_test e k ≡ true) → FirstClear e j n none
  clear :
      (k : ℕ)
      → j ≤ k
      → k < j + n
      → bit_test e k ≡ false
      → ((l : ℕ) → j ≤ l → l < k → bit_test e l ≡ true)
      → FirstClear e j n (some k)

first_clear-FirstClear : (n e j : ℕ) → FirstClear e j n (first_clear e j n)
unfolding first_clear
first_clear-FirstClear zero e j = all_set (λ k a b. absurd (omega (arith, a, b)))
first_clear-FirstClear (suc n) e j = elim (Bool-cases (bit_test e j)) [
  | inr unset ↦
      rw (unset, first_clear)
        (clear j (omega arith) (omega arith) unset (λ l a b. absurd (omega (arith, a, b))))
  | inl taken ↦ rw (taken, first_clear) (go taken (first_clear-FirstClear n e (j + 1)))
]
  where
    from_here :
        (up : ℕ)
        → bit_test e j ≡ true
        → ((l : ℕ) → j + 1 ≤ l → l < up → bit_test e l ≡ true)
        → (l : ℕ) → j ≤ l
        → l < up
        → bit_test e l ≡ true
    from_here up taken h l a b = elim (dec_lt j l) [
      | yes lt ↦ h l (omega (arith, lt)) b
      | no ge ↦ subst (λ z. bit_test e z ≡ true) (omega (arith, a, ge)) taken
    ]

    go : {o : Option ℕ} → bit_test e j ≡ true → FirstClear e (j + 1) n o → FirstClear e j (suc n) o
    go taken (all_set h) = all_set (λ k a b. from_here (j + 1 + n) taken h k a (omega (arith, b)))
    go taken (clear k a b u h) =
        clear k (omega (arith, a)) (omega (arith, b)) u (from_here k taken h)

module _ (e : ℕ) (es : List ℕ) where
  low_bit : (m : ℕ) → m < 8 → test_bit m (e ∷ es) ≡ bit_test e m
  unfolding test_bit
  low_bit m h = ap₂ (λ a b. bit_test (get_or (e ∷ es) a 0) b) first_byte same
    where
      first_byte : m / 8 ≡ 0
      first_byte = omega (arith, h)

      same : m % 8 ≡ m
      same = omega (arith, h)

  high_bit : (m : ℕ) → test_bit (8 + m) (e ∷ es) ≡ test_bit m es
  unfolding test_bit
  high_bit m = ap₂ (λ a b. bit_test (get_or (e ∷ es) a 0) b) quotient remainder
    where
      remainder : (8 + m) % 8 ≡ m % 8
      remainder = omega arith

      quotient : (8 + m) / 8 ≡ suc (m / 8)
      quotient = omega arith

  -- The bits of the byte `e` before those of the rest.
  both_set :
      (n : ℕ)
      → ((k : ℕ) → k < 8 → bit_test e k ≡ true)
      → ((m : ℕ) → m < n → test_bit m es ≡ true)
      → (m : ℕ) → m < 8 + n
      → test_bit m (e ∷ es) ≡ true
  both_set n low high m h = elim (dec_lt m 8) [
    | yes l ↦ low_bit m l ∙ low m l
    | no g ↦
        subst (λ z. test_bit z (e ∷ es) ≡ true) (back g)
          (high_bit (m - 8) ∙ high (m - 8) (omega (arith, h, g)))
  ]
    where
      back : ¬ (m < 8) → 8 + (m - 8) ≡ m
      back g = omega (arith, g)

  skip :
      (i r : ℕ)
      → ((k : ℕ) → k < 8 → bit_test e k ≡ true)
      → IsLowest (i + 1) es r
      → IsLowest i (e ∷ es) r
  skip i r low (full eq high) =
      full eq (λ m h. both_set (8 * length es) low high m (omega (arith, h)))
  skip i r low (lowest m eq inside unset below) =
      lowest (8 + m) (omega (arith, eq)) (omega (arith, inside)) (high_bit m ∙ unset)
        (both_set m low below)

set_byte : (k : ℕ) → k < 8 → bit_test 255 k ≡ true
unfolding first_clear
set_byte k lt = from (first_clear-FirstClear 8 255 0)
  where
    from : FirstClear 255 0 8 none → bit_test 255 k ≡ true
    from (all_set h) = h k (omega arith) (omega (arith, lt))

-- `get_free_bit` gives the lowest bit that is clear, all below it being set, or minus one where every
-- bit of the array is set.
pub free_from-IsLowest : (array : List ℕ) (i : ℕ) → IsLowest i array (free_from i array)
unfolding free_from
free_from-IsLowest [] i = full refl (λ m h. absurd (omega (arith, h)))
free_from-IsLowest (e ∷ es) i = elim (Bool-cases (e == 255)) [
  | inl whole ↦
      rw (whole, free_from) (skip e es i _ (all_ones whole) (free_from-IsLowest es (i + 1)))
  | inr other ↦
      rw (other, free_from) (from (free_from-IsLowest es (i + 1)) _ (first_clear-FirstClear 8 e 0))
]
  where
    all_ones : (e == 255) ≡ true → (k : ℕ) → k < 8 → bit_test e k ≡ true
    all_ones h k lt = subst (λ z. bit_test z k ≡ true) (sym whole_byte) (set_byte k lt)
      where
        whole_byte : e ≡ 255
        whole_byte = ground (arith, h)

    from :
        IsLowest (i + 1) es (free_from (i + 1) es)
        → (o : Option ℕ) → FirstClear e 0 8 o
        → IsLowest i (e ∷ es) (elim o [ none ↦ free_from (i + 1) es | some j ↦ i * 8 + j ])
    from rest _ (all_set h) = skip e es i _ (λ k l. h k (omega arith) (omega (arith, l))) rest
    from rest _ (clear k a b unset below) =
        lowest k refl (omega (arith, b)) (low_bit e es k (omega (arith, b)) ∙ unset)
          (λ l lt. low_bit e es l (omega (arith, b, lt)) ∙ below l (omega arith) lt)
