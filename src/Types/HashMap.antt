-- ===== src/Types/HashMap.antt =====
-- `types::hash_map` of kernel/include/Sigma/types/hash_map.hpp, which is a list of (hash, value)
-- pairs in order of insertion. The hash function is an argument; a hash is a number.
use sigma.Base.{List, Outcome, [], ok, panic, ◌++◌, ◌∷◌, ◌==◌, if◌then◌else◌, ℕ}

module _ {ℓ} {V : Type ℓ} where
  -- The search of `operator[]`; it halts on a key that is not there.
  unfoldable pub find : ℕ → List (ℕ × V) → Outcome V
  find h [] = panic
  find h ((k, v) ∷ es) = if k == h then ok v else find h es

module _ {ℓ κ} {K : Type κ} {V : Type ℓ} (hasher : K → ℕ) where
  unfoldable pub push_back : K → V → List (ℕ × V) → List (ℕ × V)
  push_back k v es = es ++ (hasher k, v) ∷ []

  unfoldable pub at : K → List (ℕ × V) → Outcome V
  unfolding find
  at k es = find (hasher k) es
