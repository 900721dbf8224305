-- ===== src/Paging/Tables.antt =====
-- The tables that hang below the lower half of an address space of
-- kernel/source/arch/x86_64/paging.cpp: each is listed once.
use sigma.Base.{
  length-append, ℕ, zero, suc, ◌+◌, ◌≤◌, ◌≡◌, ◌≢◌, inl, inr, refl, arith, ◌==◌, if◌then◌else◌, Bool,
  true, false, Bool-cases, Option, none, some, List, [], ◌∷◌, ◌++◌, length, ap, sym, ◌∙◌,
  ℕ_discrete,
}
use sigma.Mm.Pmm.Frames.{hit, times, times-append}
use sigma.Paging.Entries.{get_frame}
use sigma.Paging.Tree.{Owner, IsTree, some-injective, none-some}
use sigma.Paging.Clean.{has_table, children, concat_map, tables_below, tables_of}
use sigma.Paging.{Store, present}

-- The step that a path takes when it has the length `k`.
abbrev step : ℕ → List ℕ → Option ℕ
step k [] = none
step k (i ∷ p) = if length p == k then some i else step k p

step-append : (qs p : List ℕ) (i : ℕ) → step (length p) (qs ++ i ∷ p) ≡ some i
step-append [] p i = ground arith
step-append (q ∷ qs) p i = ground (arith, step-append qs p i, length-append qs (i ∷ p))

hit_bound : (r x : ℕ) → hit r x ≤ 1
hit_bound r x = ground arith

hit_apart : (r x : ℕ) → r ≢ x → hit r x ≡ 0
hit_apart r x h = ground arith

present_of : (e : ℕ) → has_table e ≡ true → present e ≡ true
present_of e h = ground arith

module _ (root : ℕ) (own : Owner) (s : Store) (tree : IsTree root own s) where
  -- The table is reached through the entry `i` of the table with path `p`.
  abbrev Through : ℕ → List ℕ → ℕ → Type 0
  Through i p x = (qs : List ℕ) × (own x ≡ some (qs ++ i ∷ p))

  -- All that is listed for a table's child.
  abbrev with_below : ℕ → ℕ → List ℕ
  with_below levels c = tables_below s levels c ++ c ∷ []

  -- What holds of the tables below each table of a level.
  record IsListed (levels : ℕ) : Type 0 where
    through :
        (t x : ℕ) (p : List ℕ)
        → own t ≡ some p
        → length p + levels ≤ 3
        → times x (tables_below s levels t) ≢ 0
        → (j : ℕ) × Through j p x
    once :
        (t x : ℕ) (p : List ℕ)
        → own t ≡ some p
        → length p + levels ≤ 3
        → times x (tables_below s levels t) ≤ 1

  one_branch : (i j : ℕ) (p : List ℕ) (x : ℕ) → Through i p x → Through j p x → i ≡ j
  one_branch i j p x (qs, e) (rs, f) = some-injective (
      sym (step-append qs p i)
      ∙ ap (step (length p)) (some-injective (sym e ∙ f))
      ∙ step-append rs p j)

  module _ (levels : ℕ) (listed : IsListed levels) where
    child-Through :
        (c x i : ℕ) (p : List ℕ)
        → own c ≡ some (i ∷ p)
        → length p + suc levels ≤ 3
        → times x (with_below levels c) ≢ 0
        → Through i p x
    child-Through c x i p h len some_in = elim (ℕ_discrete (times x (tables_below s levels c)) 0) [
      | yes z ↦ ([], ap own (itself z) ∙ h)
      | no ne ↦
          (let (j, (qs, e)) = listed.through c x (i ∷ p) h (omega (arith, len)) ne in
            (qs ++ j ∷ [], e ∙ ap some (regroup qs j)))
    ]
      where
        itself : times x (tables_below s levels c) ≡ 0 → x ≡ c
        itself z = ground (arith, times-append x (tables_below s levels c) (c ∷ []))

        regroup : (qs : List ℕ) (j : ℕ) → qs ++ j ∷ i ∷ p ≡ (qs ++ j ∷ []) ++ i ∷ p
        regroup [] j = refl
        regroup (q ∷ qs) j = ap (λ z. q ∷ z) (regroup qs j)

    child_once :
        (c x i : ℕ) (p : List ℕ)
        → own c ≡ some (i ∷ p)
        → length p + suc levels ≤ 3
        → times x (with_below levels c) ≤ 1
    child_once c x i p h len = elim (ℕ_discrete (times x (tables_below s levels c)) 0) [
      | yes z ↦ ground (arith, times-append x (tables_below s levels c) (c ∷ []))
      | no ne ↦
          (let (j, (qs, e)) = listed.through c x (i ∷ p) h (omega (arith, len)) ne in
            ground (
              arith,
              times-append x (tables_below s levels c) (c ∷ []),
              listed.once c x (i ∷ p) h (omega (arith, len)),
              other j qs e,
            ))
    ]
      where
        other : (j : ℕ) (qs : List ℕ) → own x ≡ some (qs ++ j ∷ i ∷ p) → c ≢ x
        other j qs e z = absurd (longer (ap length (some-injective (sym e ∙ sym (ap own z) ∙ h))))
          where
            longer : length (qs ++ j ∷ i ∷ p) ≡ length (i ∷ p) → ⊥
            longer l = omega (arith, length-append qs (j ∷ i ∷ p))

    -- The entries of a table from `i` on.
    module _ (t x : ℕ) (p : List ℕ) (owned : own t ≡ some p) (len : length p + suc levels ≤ 3) where
      abbrev from_entry : ℕ → ℕ → List ℕ
      from_entry n i = concat_map (with_below levels) (children s t i n)

      child_owner :
          (i : ℕ)
          → has_table (s.entries t i) ≡ true
          → own (get_frame (s.entries t i)) ≡ some (i ∷ p)
      child_owner i h = tree.below t i p owned (omega (arith, len)) (present_of (s.entries t i) h)

      below_entry : ℕ → ℕ
      below_entry i =
          if has_table (s.entries t i)
          then times x (with_below levels (get_frame (s.entries t i)))
          else 0

      one_entry :
          (n i : ℕ)
          → times x (from_entry (suc n) i) ≡ below_entry i + times x (from_entry n (suc i))
      unfolding below_entry
      one_entry n i = elim (Bool-cases (has_table (s.entries t i))) [
        | inl h ↦
            rw h (
              times-append x (with_below levels (get_frame (s.entries t i))) (from_entry n (suc i)))
        | inr h ↦ rw h (omega arith)
      ]

      below-Through : (i : ℕ) → below_entry i ≢ 0 → Through i p x
      unfolding below_entry
      below-Through i = from (has_table (s.entries t i)) refl
        where
          from :
              (b : Bool)
              → has_table (s.entries t i) ≡ b
              → (if b then times x (with_below levels (get_frame (s.entries t i))) else 0) ≢ 0
              → Through i p x
          from false h ne = absurd (ne refl)
          from true h ne = child-Through (get_frame (s.entries t i)) x i p (child_owner i h) len ne

      below_once : (i : ℕ) → below_entry i ≤ 1
      unfolding below_entry
      below_once i = elim (Bool-cases (has_table (s.entries t i))) [
        | inl h ↦ rw h (child_once (get_frame (s.entries t i)) x i p (child_owner i h) len)
        | inr h ↦ rw h (omega arith)
      ]

      entries-Through : (n i : ℕ) → times x (from_entry n i) ≢ 0 → (j : ℕ) × (i ≤ j) × Through j p x
      entries-Through zero i h = absurd (h refl)
      entries-Through (suc n) i h = from (entries-Through n (suc i))
        where
          from :
              (times x (from_entry n (suc i)) ≢ 0 → (j : ℕ) × (suc i ≤ j) × Through j p x)
              → (j : ℕ) × (i ≤ j) × Through j p x
          from later = elim (ℕ_discrete (below_entry i) 0) [
            | no ne ↦ (i, omega arith, below-Through i ne)
            | yes z ↦
                (let (j, le, th) = later (λ z'. h (omega (arith, one_entry n i, z, z'))) in
                  (j, omega (arith, le), th))
          ]

      entries_once : (n i : ℕ) → times x (from_entry n i) ≤ 1
      entries_once zero i = omega arith
      entries_once (suc n) i = elim (ℕ_discrete (below_entry i) 0) [
        | yes z ↦ omega (arith, one_entry n i, z, entries_once n (suc i))
        | no ne ↦ elim (ℕ_discrete (times x (from_entry n (suc i))) 0) [
          | yes z ↦ omega (arith, one_entry n i, z, below_once i)
          | no more ↦
              (let (j, le, th) = entries-Through n (suc i) more in
                absurd (apart i j le (one_branch i j p x (below-Through i ne) th)))
        ]
      ]
        where
          apart : (i j : ℕ) → suc i ≤ j → i ≡ j → ⊥
          apart i j le e = omega arith

  all-IsListed : (levels : ℕ) → IsListed levels
  all-IsListed zero = record {
    through = λ t x p h len ne. absurd (ne refl);
    once = λ t x p h len. omega arith;
  }
  all-IsListed (suc levels) = record {
    through = λ t x p h len ne.
        (let (j, le, th) = entries-Through levels (all-IsListed levels) t x p h len 512 0 ne in
          (j, th));
    once = λ t x p h len. entries_once levels (all-IsListed levels) t x p h len 512 0;
  }

  module _ (x : ℕ) where
    abbrev lower_half : List ℕ
    lower_half = concat_map (with_below 2) (children s root 0 256)

    counted : times x (tables_of s root) ≡ times x lower_half + hit root x
    counted = omega (arith, times-append x lower_half (root ∷ []))

    half_once : times x lower_half ≤ 1
    half_once = entries_once 2 (all-IsListed 2) root x [] tree.at_root (omega arith) 256 0

    half-Through : times x lower_half ≢ 0 → (j : ℕ) × Through j [] x
    half-Through ne =
        let (j, le, th) =
          entries-Through 2 (all-IsListed 2) root x [] tree.at_root (omega arith) 256 0 ne in
        (j, th)

    half_apart : times x lower_half ≢ 0 → root ≢ x
    half_apart ne e =
        let (j, (qs, th)) = half-Through ne in
        absurd (clash qs j (some-injective (sym tree.at_root ∙ ap own e ∙ th)))
      where
        clash : (qs : List ℕ) (j : ℕ) → [] ≡ qs ++ j ∷ [] → ⊥
        clash [] j z = cc
        clash (q ∷ qs) j z = cc

    -- No table is listed twice.
    pub tables_of_once : times x (tables_of s root) ≤ 1
    tables_of_once = elim (ℕ_discrete (times x lower_half) 0) [
      | yes z ↦ omega (arith, counted, z, hit_bound root x)
      | no ne ↦ omega (arith, counted, half_once, hit_apart root x (half_apart ne))
    ]

    -- What is listed is a table.
    pub tables_of_owned : times x (tables_of s root) ≢ 0 → own x ≢ none
    tables_of_owned ne e = elim (ℕ_discrete (times x lower_half) 0) [
      | yes z ↦ absurd (none-some (sym e ∙ ap own (sym (itself z)) ∙ tree.at_root))
      | no ne' ↦ (let (j, (qs, th)) = half-Through ne' in absurd (none-some (sym e ∙ th)))
    ]
      where
        itself : times x lower_half ≡ 0 → root ≡ x
        itself z = ground (arith, counted)
