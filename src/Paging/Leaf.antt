-- ===== src/Paging/Leaf.antt =====
-- The last write of `map_page` in kernel/source/arch/x86_64/paging.cpp: an entry of a page table.
use sigma.Base.{
  ℕ, ◌+◌, ◌<◌, ◌≤◌, ◌≡◌, ◌≢◌, ◌⊎◌, inl, inr, refl, arith, if◌then◌else◌, Bool-cases, none, some,
  List, [], ◌∷◌, ◌++◌, length, ap, ap₂, sym, ◌∙◌, ℕ_discrete,
}
use sigma.Paging.Entries.{get_frame}
use sigma.Paging.Tree.{
  Owner, IsTree, lookup, lookup-present, lookup_absent, lookup_append, some-injective,
}
use sigma.Paging.Space.{rev_onto}
use sigma.Paging.{Store, present, write_entry}

module _ (own : Owner) (s : Store) (u d e : ℕ) (q : List ℕ) (owned : own u ≡ some q)
    (last : length q ≡ 3) where
  abbrev pub leaf : Store
  leaf = write_entry u d e s

  abbrev Same : ℕ → ℕ → Type 0
  Same t i = leaf.entries t i ≡ s.entries t i

  pub written : leaf.entries u d ≡ e
  unfolding write_entry
  written = ground arith

  other : (t i : ℕ) → (u ≢ t) ⊎ (d ≢ i) → Same t i
  unfolding write_entry
  other t i (inl h) = ground arith
  other t i (inr h) = ground arith

  -- The tables above are as before.
  upper_same : (t i : ℕ) (p : List ℕ) → own t ≡ some p → length p < 3 → Same t i
  upper_same t i p h short =
      other t i (inl (λ z. absurd (clash (ap length (some-injective (sym owned ∙ ap own z ∙ h))))))
    where
      clash : length q ≡ length p → ⊥
      clash z = omega arith

  pub leaf-IsTree : (root : ℕ) → IsTree root own s → IsTree root own leaf
  leaf-IsTree root v = record {
    at_root = v.at_root;
    below = λ t i p h short there.
        ap (λ z. own (get_frame z)) (upper_same t i p h short)
        ∙ v.below t i p h short (sym (ap present (upper_same t i p h short)) ∙ there);
  }

  module _ (root : ℕ) (tree : IsTree root own s) where
    -- A path as short as this ends where it did.
    pub lookup-leaf_upper :
        (is : List ℕ) (t : ℕ) (p : List ℕ)
        → own t ≡ some p
        → length p + length is ≤ 3
        → lookup leaf t is ≡ lookup s t is
    lookup-leaf_upper [] t p h len = refl
    lookup-leaf_upper (i ∷ is) t p h len = elim (Bool-cases (present (s.entries t i))) [
      | inr gone ↦
          lookup_absent leaf t i is (ap present same ∙ gone) ∙ sym (lookup_absent s t i is gone)
      | inl there ↦
          lookup-present leaf t i is (ap present same ∙ there)
          ∙ ap (λ z. lookup leaf (get_frame z) is) same
          ∙ lookup-leaf_upper is (get_frame (s.entries t i)) (i ∷ p)
              (tree.below t i p h (omega arith) there) (omega (arith, len))
          ∙ sym (lookup-present s t i is there)
    ]
      where
        same : Same t i
        same = upper_same t i p h (omega arith)

    one_step : (t i : ℕ) → Same t i → lookup leaf t (i ∷ []) ≡ lookup s t (i ∷ [])
    one_step t i same = rw same refl

    -- A page of another path is as before.
    pub lookup-leaf_other :
        (is : List ℕ) (t : ℕ) (p : List ℕ)
        → own t ≡ some p
        → length p + length is ≡ 4
        → rev_onto is p ≢ d ∷ q
        → lookup leaf t is ≡ lookup s t is
    lookup-leaf_other [] t p h len ne = refl
    lookup-leaf_other (i ∷ []) t p h len ne = one_step t i (elim (ℕ_discrete u t) [
      | no a ↦ other t i (inl a)
      | yes a ↦ elim (ℕ_discrete d i) [
        | no b ↦ other t i (inr b)
        | yes b ↦
            absurd (ne (sym (ap₂ (λ x y. x ∷ y) b (some-injective (sym owned ∙ ap own a ∙ h)))))
      ]
    ])
    lookup-leaf_other (i ∷ j ∷ is) t p h len ne = elim (Bool-cases (present (s.entries t i))) [
      | inr gone ↦
          lookup_absent leaf t i (j ∷ is) (ap present same ∙ gone)
          ∙ sym (lookup_absent s t i (j ∷ is) gone)
      | inl there ↦
          lookup-present leaf t i (j ∷ is) (ap present same ∙ there)
          ∙ ap (λ z. lookup leaf (get_frame z) (j ∷ is)) same
          ∙ lookup-leaf_other (j ∷ is) (get_frame (s.entries t i)) (i ∷ p)
              (tree.below t i p h (omega arith) there) (omega (arith, len)) ne
          ∙ sym (lookup-present s t i (j ∷ is) there)
    ]
      where
        same : Same t i
        same = upper_same t i p h (omega arith)

    -- The page itself is what the entry says.
    pub lookup-leaf :
        (is : List ℕ)
        → length is ≤ 3
        → lookup s root is ≡ some u
        → lookup leaf root (is ++ d ∷ []) ≡ (if present e then some (get_frame e) else none)
    lookup-leaf is len h =
        lookup_append leaf root u is (d ∷ [])
          (lookup-leaf_upper is root [] tree.at_root (omega (arith, len)) ∙ h)
        ∙ ap (λ z. if present z then some (get_frame z) else none) written
