-- ===== src/Klibc/Strings.antt =====
-- Zero-terminated strings in memory: kernel/source/klibc/string.cpp.
use sigma.Base.{
  ap₂, ℕ, zero, suc, ◌+◌, ◌<◌, ◌≤◌, ◌≡◌, ◌≢◌, ◌⊎◌, ◌↔◌, inl, inr, refl, arith, List, [], ◌∷◌,
  length, some, subst, ap, ℕ_discrete, ◌∙◌, sym,
}
use sigma.Klibc.{Memory, ℤ, pos, difference, strlen, strcmp, strcpy, memcpy}
use sigma.Klibc.Copies.{MayGoUp, memcpy-IsCopied}

-- The bytes of `cs`, none of them zero, and a zero byte stand in memory from `p` on.
abbrev pub HoldsString : Memory → ℕ → List ℕ → Type 0
HoldsString mem p [] = mem p ≡ 0
HoldsString mem p (c ∷ cs) = (c ≢ 0) × (mem p ≡ c) × HoldsString mem (suc p) cs

-- strlen finds the length of the string, given more rounds than that.
pub strlen_lem :
    (cs : List ℕ) (fuel p : ℕ) (mem : Memory)
    → length cs < fuel
    → HoldsString mem p cs
    → strlen fuel p mem ≡ some (length cs)
unfolding strlen
strlen_lem [] zero p mem h s = absurd (omega arith)
strlen_lem [] (suc fuel) p mem h s = ground arith
strlen_lem (c ∷ cs) zero p mem h s = absurd (omega arith)
strlen_lem (c ∷ cs) (suc fuel) p mem h s =
    ground (arith, strlen_lem cs fuel (suc p) mem (omega arith) s.2)

difference_zero : (a b : ℕ) → (difference a b ≡ pos 0) ↔ (a ≡ b)
unfolding difference
difference_zero a b = ground arith

module _ (fuel p q : ℕ) (mem : Memory) where
  strcmp_stops :
      (mem p ≢ mem q) ⊎ (mem p ≡ 0) → strcmp (suc fuel) p q mem ≡ some (difference (mem p) (mem q))
  unfolding strcmp
  strcmp_stops h = ground arith

  strcmp_goes :
      mem p ≡ mem q → mem p ≢ 0 → strcmp (suc fuel) p q mem ≡ strcmp fuel (suc p) (suc q) mem
  unfolding strcmp
  strcmp_goes e h = ground arith

-- Given more rounds than the first string is long, strcmp returns, and returns 0 exactly on equal
-- strings.
pub strcmp_zero :
    (xs ys : List ℕ) (fuel p q : ℕ) (mem : Memory)
    → length xs < fuel
    → HoldsString mem p xs
    → HoldsString mem q ys
    → (v : ℤ) × (strcmp fuel p q mem ≡ some v) × ((v ≡ pos 0) ↔ (xs ≡ ys))
strcmp_zero xs ys zero p q mem h s t = absurd (omega arith)
strcmp_zero [] [] (suc fuel) p q mem h s t =
    (_, strcmp_stops fuel p q mem (inr s), (λ _. refl, λ _. (difference_zero _ _).1 (s ∙ sym t)))
strcmp_zero [] (y ∷ ys) (suc fuel) p q mem h s t = (
  _,
  strcmp_stops fuel p q mem (inr s),
  (λ e. absurd (t.0 (sym t.1 ∙ sym ((difference_zero _ _).0 e) ∙ s)), λ e. absurd (cc)),
)
strcmp_zero (x ∷ xs) [] (suc fuel) p q mem h s t = (
  _,
  strcmp_stops fuel p q mem (inl (λ e. s.0 (sym s.1 ∙ e ∙ t))),
  (λ e. absurd (s.0 (sym s.1 ∙ (difference_zero _ _).0 e ∙ t)), λ e. absurd (cc)),
)
strcmp_zero (x ∷ xs) (y ∷ ys) (suc fuel) p q mem h s t = elim (ℕ_discrete x y) [
  | yes e ↦
      (let (v, run, iff) = strcmp_zero xs ys fuel (suc p) (suc q) mem (omega arith) s.2 t.2 in
        (
          v,
          strcmp_goes fuel p q mem (s.1 ∙ e ∙ sym t.1) (λ z. s.0 (sym s.1 ∙ z)) ∙ run,
          (λ z. ap₂ (λ a l. a ∷ l) e (iff.0 z), λ z. iff.1 (cc)),
        ))
  | no ne ↦ (
    _,
    strcmp_stops fuel p q mem (inl (λ e. ne (sym s.1 ∙ e ∙ t.1))),
    (λ e. absurd (ne (sym s.1 ∙ (difference_zero _ _).0 e ∙ t.1)), λ e. absurd (ne (cc))),
  )
]

-- A string whose bytes are found elsewhere too is held there.
HoldsString-moved :
    (cs : List ℕ) (p d i : ℕ) (mem mem' : Memory)
    → ((j : ℕ) → j < length cs + 1 → mem' (d + (i + j)) ≡ mem (p + (i + j)))
    → HoldsString mem (p + i) cs
    → HoldsString mem' (d + i) cs
HoldsString-moved [] p d i mem mem' copied s =
    ap mem' (omega arith) ∙ copied 0 (omega arith) ∙ ap mem (omega arith) ∙ s
HoldsString-moved (c ∷ cs) p d i mem mem' copied s = (
  s.0,
  ap mem' (omega arith) ∙ copied 0 (omega arith) ∙ ap mem (omega arith) ∙ s.1,
  subst (λ z. HoldsString mem' z cs) (omega arith)
      (HoldsString-moved cs p d (suc i) mem mem' later
        (subst (λ z. HoldsString mem z cs) (omega arith) s.2)),
)
  where
    later : (j : ℕ) → j < length cs + 1 → mem' (d + (suc i + j)) ≡ mem (p + (suc i + j))
    later j lt = ap mem' (omega arith) ∙ copied (suc j) (omega arith) ∙ ap mem (omega arith)

-- Given more rounds than the string is long, and apart from it a place for the copy, strcpy returns
-- and the copy is the string, zero byte included; no byte outside the copy changes.
pub strcpy-HoldsString :
    (cs : List ℕ) (fuel d p : ℕ) (mem : Memory)
    → length cs < fuel
    → MayGoUp d p (length cs + 1)
    → HoldsString mem p cs
    → (mem' : Memory) × (strcpy fuel d p mem ≡ some mem')
      × HoldsString mem' d cs
      × ((x : ℕ) → (x < d) ⊎ (d + (length cs + 1) ≤ x) → mem' x ≡ mem x)
unfolding strcpy
strcpy-HoldsString cs fuel d p mem h apart s =
    let copied = memcpy-IsCopied d p (length cs + 1) mem apart in
    (
      _,
      rw (strlen_lem cs fuel p mem h s, strcpy) refl,
      subst (λ z. HoldsString (memcpy d p (length cs + 1) mem) z cs) (omega arith)
          (HoldsString-moved cs p d 0 mem _
            (λ j lt.
              ap (memcpy d p (length cs + 1) mem) (omega arith)
              ∙ copied.inside j lt
              ∙ ap mem (omega arith))
            (subst (λ z. HoldsString mem z cs) (omega arith) s)),
      copied.outside,
    )
