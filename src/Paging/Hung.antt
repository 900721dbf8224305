-- ===== src/Paging/Hung.antt =====
-- A new table hung below an entry of another, as `map_page` of
-- kernel/source/arch/x86_64/paging.cpp does.
use sigma.Base.{
  ap₂, ℕ, suc, ◌+◌, ◌<◌, ◌≤◌, ◌≡◌, ◌≢◌, ◌⊎◌, inl, inr, refl, arith, true, false, Bool-cases, none,
  some, List, [], ◌∷◌, length, ap, sym, ◌∙◌, ℕ_discrete,
}
use sigma.Mm.Pmm.{Pmm}
use sigma.Paging.Entries.{bit_test, get_frame}
use sigma.Paging.Bits.{IsFrame, table_entry_lem}
use sigma.Paging.{Store, present, write_entry, clear_table, table_entry}
use sigma.Paging.Tree.{
  Owner, IsTree, lookup, lookup-present, lookup_absent, update, true-false, some-injective,
  none-some,
}

-- The store after a new table `n` has been hung below the entry `i` of `t`.
module _ (root : ℕ) (own : Owner) (s : Store) (tree : IsTree root own s) (t i n : ℕ) (p : List ℕ)
    (owned : own t ≡ some p) (upper : length p < 3) (absent : present (s.entries t i) ≡ false)
    (free : own n ≡ none) (frame : IsFrame n) (m : Pmm) where
  abbrev pub hung : Store
  hung = write_entry t i (table_entry n) (clear_table n (record s { pmm = m }))

  not_new : {u : ℕ} {q : List ℕ} → own u ≡ some q → n ≢ u
  not_new h e = absurd (cc)

  hung_other : (u j : ℕ) → n ≢ u → (t ≢ u) ⊎ (i ≢ j) → hung.entries u j ≡ s.entries u j
  unfolding write_entry clear_table
  hung_other u j a b = ground arith

  hung_here : hung.entries t i ≡ table_entry n
  unfolding write_entry clear_table
  hung_here = ground arith

  hung_new : (j : ℕ) → hung.entries n j ≡ 0
  unfolding write_entry clear_table
  hung_new j = ground (arith, not_new owned)

  blank : (j : ℕ) → present (hung.entries n j) ≡ false
  unfolding bit_test
  blank j = rw (hung_new j) refl

  pub hung_found : (present (hung.entries t i) ≡ true) × (get_frame (hung.entries t i) ≡ n)
  hung_found = rw hung_here (table_entry_lem n frame)

  -- An entry of a table of the tree is the new one, or is as before.
  hung_cases :
      {u : ℕ} {q : List ℕ} (j : ℕ)
      → own u ≡ some q
      → ((t ≡ u) × (i ≡ j)) ⊎ (hung.entries u j ≡ s.entries u j)
  hung_cases {u} j h = elim (ℕ_discrete t u) [
    | no a ↦ inr (hung_other u j (not_new h) (inl a))
    | yes e ↦ elim (ℕ_discrete i j) [
      | no b ↦ inr (hung_other u j (not_new h) (inr b))
      | yes f ↦ inl (e, f)
    ]
  ]

  pub hung-IsTree : IsTree root (update own n (i ∷ p)) hung
  hung-IsTree = record { at_root = kept tree.at_root; below = names }
    where
      kept : {u : ℕ} {q : List ℕ} → own u ≡ some q → update own n (i ∷ p) u ≡ some q
      kept h = ground (arith, not_new h)

      itself : update own n (i ∷ p) n ≡ some (i ∷ p)
      itself = ground arith

      names :
          (u j : ℕ) (q : List ℕ)
          → update own n (i ∷ p) u ≡ some q
          → length q < 3
          → present (hung.entries u j) ≡ true
          → update own n (i ∷ p) (get_frame (hung.entries u j)) ≡ some (j ∷ q)
      names u j q h short there = elim (ℕ_discrete n u) [
        | yes e ↦ absurd (empty e there)
        | no ne ↦ old (old_owner ne h)
      ]
        where
          empty : n ≡ u → present (hung.entries u j) ≡ true → ⊥
          empty e pr = true-false (sym pr ∙ ap (λ z. present (hung.entries z j)) (sym e) ∙ blank j)

          old_owner : n ≢ u → update own n (i ∷ p) u ≡ some q → own u ≡ some q
          old_owner ne h = ground arith

          old : own u ≡ some q → update own n (i ∷ p) (get_frame (hung.entries u j)) ≡ some (j ∷ q)
          old o = elim (hung_cases j o) [
            | inl (e, f) ↦
                ap (λ z. update own n (i ∷ p) (get_frame z))
                  (sym (ap₂ (λ a b. hung.entries a b) e f))
                ∙ ap (update own n (i ∷ p)) hung_found.1
                ∙ itself
                ∙ ap₂ (λ a b. some (a ∷ b)) f (some-injective (sym owned ∙ ap own e ∙ o))
            | inr same ↦
                ap (λ z. update own n (i ∷ p) (get_frame z)) same
                ∙ kept (tree.below u j q o short (sym (ap present same) ∙ there))
          ]

  -- No path of four indices leads elsewhere than before.
  pub lookup-hung :
      (is : List ℕ) (u : ℕ) (q : List ℕ)
      → own u ≡ some q
      → length q + length is ≡ 4
      → lookup hung u is ≡ lookup s u is
  lookup-hung [] u q h len = refl
  lookup-hung (j ∷ is) u q h len = elim (hung_cases j h) [
    | inl (e, f) ↦
        into_new is (omega (arith, ap length (some-injective (sym owned ∙ ap own e ∙ h)))) e f
    | inr same ↦ elim (Bool-cases (present (s.entries u j))) [
      | inr gone ↦
          lookup_absent hung u j is (ap present same ∙ gone) ∙ sym (lookup_absent s u j is gone)
      | inl there ↦
          lookup-present hung u j is (ap present same ∙ there)
          ∙ ap (λ z. lookup hung (get_frame z) is) same
          ∙ deeper is len there (λ short.
            lookup-hung is (get_frame (s.entries u j)) (j ∷ q) (tree.below u j q h short there)
              (omega (arith, len)))
          ∙ sym (lookup-present s u j is there)
    ]
  ]
    where
      into_new :
          (is : List ℕ)
          → length is ≢ 0
          → t ≡ u
          → i ≡ j
          → lookup hung u (j ∷ is) ≡ lookup s u (j ∷ is)
      into_new [] some_left e f = absurd (some_left refl)
      into_new (k ∷ ks) some_left e f =
          sym (ap₂ (λ a b. lookup hung a (b ∷ k ∷ ks)) e f)
          ∙ lookup-present hung t i (k ∷ ks) hung_found.0
          ∙ ap (λ z. lookup hung z (k ∷ ks)) hung_found.1
          ∙ lookup_absent hung n k ks (blank k)
          ∙ sym (lookup_absent s t i (k ∷ ks) absent)
          ∙ ap₂ (λ a b. lookup s a (b ∷ k ∷ ks)) e f

      deeper :
          (is : List ℕ)
          → length q + suc (length is) ≡ 4
          → present (s.entries u j) ≡ true
          → (length q < 3
              → lookup hung (get_frame (s.entries u j)) is
                ≡ lookup s (get_frame (s.entries u j)) is)
          → lookup hung (get_frame (s.entries u j)) is ≡ lookup s (get_frame (s.entries u j)) is
      deeper [] l there ih = refl
      deeper (k ∷ ks) l there ih = ih (omega arith)

  pub lookup-hung-some :
      (is : List ℕ) (u f : ℕ) (q : List ℕ)
      → own u ≡ some q
      → length q + length is ≤ 4
      → lookup s u is ≡ some f
      → lookup hung u is ≡ some f
  lookup-hung-some [] u f q h len e = e
  lookup-hung-some (j ∷ is) u f q h len e = elim (hung_cases j h) [
    | inl (a, b) ↦ absurd (
        none-some (
          sym (lookup_absent s u j is (ap present (sym (ap₂ (λ c d. s.entries c d) a b)) ∙ absent))
          ∙ e))
    | inr same ↦ elim (Bool-cases (present (s.entries u j))) [
      | inr gone ↦ absurd (none-some (sym (lookup_absent s u j is gone) ∙ e))
      | inl there ↦
          lookup-present hung u j is (ap present same ∙ there)
          ∙ ap (λ z. lookup hung (get_frame z) is) same
          ∙ deeper is len (sym (lookup-present s u j is there) ∙ e) (λ short.
            lookup-hung-some is (get_frame (s.entries u j)) f (j ∷ q)
              (tree.below u j q h short there) (omega (arith, len)))
    ]
  ]
    where
      deeper :
          (is : List ℕ)
          → length q + suc (length is) ≤ 4
          → lookup s (get_frame (s.entries u j)) is ≡ some f
          → (length q < 3
              → lookup s (get_frame (s.entries u j)) is ≡ some f
              → lookup hung (get_frame (s.entries u j)) is ≡ some f)
          → lookup hung (get_frame (s.entries u j)) is ≡ some f
      deeper [] l e ih = e
      deeper (k ∷ ks) l e ih = ih (omega arith) e
