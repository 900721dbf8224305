-- ===== src/Zeta/Mounts.antt =====
-- The mount point that zeta/source/vfs.cpp takes for a path.
use sigma.Base.{ℕ, ◌<◌, ◌≤◌, ◌≡◌, ◌⊎◌, true, Option, none, some, List, [], ◌∷◌, length}
use sigma.Zeta.{VfsEntry, is_above}

-- The mount point is in the list, and above the path.
abbrev pub Stands : List ℕ → List VfsEntry → VfsEntry → Type 0
Stands absolute [] m = ⊥
Stands absolute (e ∷ ms) m = ((e ≡ m) × (is_above absolute e.name ≡ true)) ⊎ Stands absolute ms m

-- The best guess over the list, from one of the length `size`.
pub record IsBest (absolute : List ℕ) (size : ℕ) (guess : Option VfsEntry) (ms : List VfsEntry)
    (r : ℕ × Option VfsEntry) : Type 0 where
  pub not_less : size ≤ r.0
  pub longest : (m : VfsEntry) → Stands absolute ms m → length m.name ≤ r.0
  pub taken :
      ((r.0 ≡ size) × (r.1 ≡ guess))
      ⊎ ((m : VfsEntry) × Stands absolute ms m
          × (r.1 ≡ some m)
          × (r.0 ≡ length m.name)
          × (size < length m.name))

-- `none` where the code throws or is undefined.
abbrev pub with_guess : Option VfsEntry → Option (List ℕ) → Option (Option VfsEntry × List ℕ)
with_guess guess none = none
with_guess guess (some out) = some (guess, out)
