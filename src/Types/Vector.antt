-- ===== src/Types/Vector.antt =====
-- `types::vector` of kernel/include/Sigma/types/vector.h: `_length` cells of raw memory, of which the
-- first `_offset` hold elements. A cell without an element is none.
use sigma.Base.{
  ap₂, leb→le, ℕ, zero, suc, ◌+◌, ◌-◌, ◌<◌, ◌≤◌, ◌≡◌, refl, arith, leb, ltb, if◌then◌else◌,
  Bool-cases, inl, inr, Option, none, some, List, [], ◌∷◌, ◌++◌, map, length, length-append,
  length-replicate, length-map, get_or, set, take, replicate, Outcome, ok, panic, append_assoc, ap,
  ◌∙◌,
}

pub record Vector {ℓ} (A : Type ℓ) : Type ℓ where
  pub offset : ℕ
  pub cells : List (Option A)

module _ {ℓ} {A : Type ℓ} where
  unfoldable pub new_vector : Vector A
  new_vector = record { offset = 0; cells = replicate 16 none }

  -- All the old cells are moved, whether they hold an element or not.
  unfoldable pub ensure_capacity : ℕ → Vector A → Vector A
  ensure_capacity c v =
      if leb c (length v.cells) then v else record v { cells = v.cells ++ replicate (c + 16) none }

  abbrev pub append_cell : A → Vector A → Vector A
  append_cell x v = record { offset = v.offset + 1; cells = set v.cells v.offset (some x) }

  -- `push_back`, and `empty_entry` with what `T()` gives.
  unfoldable pub push_back : A → Vector A → Vector A
  unfolding ensure_capacity
  push_back x v = append_cell x (ensure_capacity (v.offset + 1) v)

  -- The second loop of `resize`: `n` default elements from the end on.
  unfoldable pub fill : A → ℕ → Vector A → Vector A
  fill x zero v = v
  fill x (suc n) v = fill x n (append_cell x v)

  -- The first loop of `resize`: the elements from `size` on are destroyed.
  unfoldable pub resize : A → ℕ → Vector A → Vector A
  unfolding ensure_capacity fill
  resize x size v =
      let w = ensure_capacity (size + 1) v in
      if ltb size w.offset
      then record {
        offset = size;
        cells = take size w.cells ++ replicate (length w.cells - size) none;
      }
      else fill x (size - w.offset) w

  -- `operator[]`; what an element that is not there reads is the last argument.
  unfoldable pub at : ℕ → Vector A → Outcome (Option A)
  at i v = if leb v.offset i then panic else ok (get_or v.cells i none)

  -- The first cells hold `xs`, and nothing else is held.
  pub record IsVector (v : Vector A) (xs : List A) : Type ℓ where
    pub spare : ℕ
    pub holds : v.cells ≡ map some xs ++ replicate spare none
    pub counted : v.offset ≡ length xs

  capacity : (v : Vector A) (xs : List A) (i : IsVector v xs) → length v.cells ≡ length xs + i.spare
  capacity v xs i =
      ap length i.holds
      ∙ length-append (map some xs) (replicate i.spare none)
      ∙ omega (arith, length-map xs some, length-replicate {A = Option A} i.spare none)

  same_replicate : (m n : ℕ) (x : Option A) → m ≡ n → replicate m x ≡ replicate n x
  same_replicate m n x e = ap (λ k. replicate k x) e

  replicate_add : (m n : ℕ) (x : Option A) → replicate m x ++ replicate n x ≡ replicate (m + n) x
  replicate_add zero n x = same_replicate n (0 + n) x (omega arith)
  replicate_add (suc m) n x =
      ap (λ z. x ∷ z) (replicate_add m n x)
      ∙ same_replicate (suc (m + n)) (suc m + n) x (omega arith)

  set_next :
      (xs : List A) (n : ℕ) (x : A)
      → set (map some xs ++ replicate (suc n) none) (length xs) (some x)
        ≡ map some (xs ++ x ∷ []) ++ replicate n none
  set_next [] n x = refl
  set_next (y ∷ xs) n x = ap (λ z. some y ∷ z) (set_next xs n x)

  ensure_capacity-IsVector :
      (c : ℕ) (v : Vector A) (xs : List A)
      → IsVector v xs
      → IsVector (ensure_capacity c v) xs × (c ≤ length (ensure_capacity c v).cells)
  unfolding ensure_capacity
  ensure_capacity-IsVector c v xs i = elim (Bool-cases (leb c (length v.cells))) [
    | inl enough ↦ rw enough (i, leb→le c (length v.cells) enough)
    | inr short ↦ rw short (
      record {
        spare = i.spare + (c + 16);
        holds =
            ap (λ z. z ++ replicate (c + 16) none) i.holds
            ∙ append_assoc (map some xs) (replicate i.spare none) (replicate (c + 16) none)
            ∙ ap (λ z. map some xs ++ z) (replicate_add i.spare (c + 16) none);
        counted = i.counted;
      },
      omega (
        arith,
        length-append v.cells (replicate (c + 16) none),
        length-replicate {A = Option A} (c + 16) none,
      ),
    )
  ]

  append_cell-IsVector :
      (x : A) (v : Vector A) (xs : List A)
      → IsVector v xs
      → v.offset < length v.cells
      → IsVector (append_cell x v) (xs ++ x ∷ [])
  append_cell-IsVector x v xs i room =
      from i.spare i.holds (omega (arith, room, capacity v xs i, i.counted))
    where
      from :
          (n : ℕ)
          → v.cells ≡ map some xs ++ replicate n none
          → 0 < n
          → IsVector (append_cell x v) (xs ++ x ∷ [])
      from zero h lt = absurd (omega (arith, lt))
      from (suc n) h lt = record {
        spare = n;
        holds = ap₂ (λ z k. set z k (some x)) h i.counted ∙ set_next xs n x;
        counted = omega (arith, i.counted, length-append xs (x ∷ []));
      }

  -- `push_back` on a vector with the elements `xs` puts the new one after them, whether or not the
  -- memory had to be enlarged.
  pub push_back-IsVector :
      (x : A) (v : Vector A) (xs : List A) → IsVector v xs → IsVector (push_back x v) (xs ++ x ∷ [])
  unfolding push_back
  push_back-IsVector x v xs i =
      let (i', room) = ensure_capacity-IsVector (v.offset + 1) v xs i in
      append_cell-IsVector x (ensure_capacity (v.offset + 1) v) xs i'
        (omega (arith, room, i.counted, i'.counted))
