-- ===== src/Paging/Tree.antt =====
-- The shape of the page tables of kernel/source/arch/x86_64/paging.cpp: a tree of tables, each of
-- which one entry names.
use sigma.Base.{
  ◌++◌, ℕ, ◌+◌, ◌<◌, ◌≤◌, ◌≡◌, inl, inr, refl, arith, ◌==◌, if◌then◌else◌, true, false, Bool-cases,
  Option, none, some, List, [], ◌∷◌, length, ap, sym, ◌∙◌,
}
use sigma.Paging.Entries.{get_frame}
use sigma.Paging.{Store, present}

-- What stands at the end of a list of indices, from a table on: a frame, if all entries on the way
-- are present.
abbrev pub lookup : Store → ℕ → List ℕ → Option ℕ
lookup s t [] = some t
lookup s t (i ∷ is) =
    if present (s.entries t i) then lookup s (get_frame (s.entries t i)) is else none

-- The path of indices by which a table is reached from the root, last index first, if it is a table.
abbrev pub Owner : Type 0
Owner = ℕ → Option (List ℕ)

-- Every present entry of an upper table names a table whose path it continues: no table is named
-- twice.
pub record IsTree (root : ℕ) (own : Owner) (s : Store) : Type 0 where
  pub at_root : own root ≡ some []
  pub below :
      (t i : ℕ) (p : List ℕ)
      → own t ≡ some p
      → length p < 3
      → present (s.entries t i) ≡ true
      → own (get_frame (s.entries t i)) ≡ some (i ∷ p)

abbrev pub update : Owner → ℕ → List ℕ → Owner
update own n p t = if n == t then some p else own t

pub true-false : true ≡ false → ⊥
true-false e = cc

pub none-some {ℓ} : {A : Type ℓ} {a : A} → none ≡ some a → ⊥
none-some e = cc

pub some-injective {ℓ} : {A : Type ℓ} {a b : A} → some a ≡ some b → a ≡ b
some-injective e = cc

module _ (s : Store) (t i : ℕ) (is : List ℕ) where
  pub lookup-present :
      present (s.entries t i) ≡ true → lookup s t (i ∷ is) ≡ lookup s (get_frame (s.entries t i)) is
  lookup-present h = rw h refl

  pub lookup_absent : present (s.entries t i) ≡ false → lookup s t (i ∷ is) ≡ none
  lookup_absent h = rw h refl

pub lookup_append :
    (s : Store) (t u : ℕ) (is r : List ℕ)
    → lookup s t is ≡ some u
    → lookup s t (is ++ r) ≡ lookup s u r
lookup_append s t u [] r h = ap (λ z. lookup s z r) (some-injective h)
lookup_append s t u (i ∷ is) r h = elim (Bool-cases (present (s.entries t i))) [
  | inr gone ↦ absurd (none-some (sym (lookup_absent s t i is gone) ∙ h))
  | inl there ↦
      lookup-present s t i (is ++ r) there
      ∙ lookup_append s (get_frame (s.entries t i)) u is r (sym (lookup-present s t i is there) ∙ h)
]

-- Another store with the same tables.
module _ (root : ℕ) (own : Owner) (s s' : Store) (tree : IsTree root own s)
    (same : (t i : ℕ) (p : List ℕ) → own t ≡ some p → s'.entries t i ≡ s.entries t i) where
  pub same-IsTree : IsTree root own s'
  same-IsTree = record {
    at_root = tree.at_root;
    below = λ t i p h short there.
        ap (λ z. own (get_frame z)) (same t i p h)
        ∙ tree.below t i p h short (sym (ap present (same t i p h)) ∙ there);
  }

  pub lookup_same :
      (is : List ℕ) (t : ℕ) (p : List ℕ)
      → own t ≡ some p
      → length p + length is ≤ 4
      → lookup s' t is ≡ lookup s t is
  lookup_same [] t p h len = refl
  lookup_same (i ∷ []) t p h len =
      ap (λ e. if present e then some (get_frame e) else none) (same t i p h)
  lookup_same (i ∷ j ∷ is) t p h len = elim (Bool-cases (present (s.entries t i))) [
    | inr gone ↦
        lookup_absent s' t i (j ∷ is) (ap present (same t i p h) ∙ gone)
        ∙ sym (lookup_absent s t i (j ∷ is) gone)
    | inl there ↦
        lookup-present s' t i (j ∷ is) (ap present (same t i p h) ∙ there)
        ∙ ap (λ z. lookup s' (get_frame z) (j ∷ is)) (same t i p h)
        ∙ lookup_same (j ∷ is) (get_frame (s.entries t i)) (i ∷ p)
            (tree.below t i p h (omega arith) there) (omega (arith, len))
        ∙ sym (lookup-present s t i (j ∷ is) there)
  ]
