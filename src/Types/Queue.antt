-- ===== src/Types/Queue.antt =====
-- `types::queue` of kernel/include/Sigma/types/queue.h. `items` holds the constructed cells of
-- `_array`, the one at `_offset - 1` first, and `capacity` is `_length`. The locks make each method
-- one step; `malloc` is taken to succeed, as the code takes it to.
use sigma.Base.{List, Outcome, [], arith, length, ok, panic, ◌+◌, ◌≤◌, ◌∷◌, ℕ, leb, if◌then◌else◌}

pub record Queue {ℓ} (A : Type ℓ) : Type ℓ where
  pub items : List A
  pub capacity : ℕ

-- `ensure_capacity`: the cells move over, the new capacity leaves slack.
unfoldable pub grow : ℕ → ℕ → ℕ
grow capacity c = if leb c capacity then capacity else capacity + c + 16

module _ {ℓ} {A : Type ℓ} where
  unfoldable pub empty : Queue A
  empty = record { items = []; capacity = 0 }

  unfoldable pub push : A → Queue A → Queue A
  unfolding grow
  push x q = record { items = x ∷ q.items; capacity = grow q.capacity (length q.items + 1) }

  unfoldable pub pop_from : ℕ → List A → Outcome (A × Queue A)
  pop_from c [] = panic
  pop_from c (x ∷ xs) = ok (x, record { items = xs; capacity = c })

  unfoldable pub pop : Queue A → Outcome (A × Queue A)
  unfolding pop_from
  pop q = pop_from q.capacity q.items

  unfoldable pub top : List A → Outcome A
  top [] = panic
  top (x ∷ xs) = ok x

  unfoldable pub back : Queue A → Outcome A
  unfolding top
  back q = top q.items

  abbrev pub n_items : Queue A → ℕ
  n_items q = length q.items

  -- The cells lie inside the array.
  pub record IsValid (q : Queue A) : Type 0 where
    pub fits : length q.items ≤ q.capacity

  pub push-IsValid : (x : A) (q : Queue A) → IsValid q → IsValid (push x q)
  unfolding push
  push-IsValid x q v = ground arith
