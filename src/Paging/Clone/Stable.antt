-- ===== src/Paging/Clone/Stable.antt =====
-- The tables that a copy by kernel/source/arch/x86_64/paging.cpp leaves alone are listed as before.
use sigma.Base.{
  ℕ, zero, suc, ◌+◌, ◌≤◌, ◌≡◌, refl, arith, not, ◌&&◌, Bool, true, false, Bool-cases, inl, inr,
  some, List, [], ◌∷◌, ◌++◌, length, length-append, ap, ap₂, sym, ◌∙◌, if◌then◌else◌,
}
use sigma.Paging.Entries.{get_frame}
use sigma.Paging.Tree.{Owner}
use sigma.Paging.Space.{IsSpace}
use sigma.Paging.Clean.{has_table, children, concat_map, tables_below}
use sigma.Paging.Clone.Copied.{SameTables}
use sigma.Paging.{Store, present, huge}

-- A table and those below it, last.
abbrev pub with_below : Store → ℕ → ℕ → List ℕ
with_below s levels c = tables_below s levels c ++ c ∷ []

-- Those that the `n` entries from `i` on name.
abbrev pub tables_from : Store → ℕ → ℕ → ℕ → ℕ → List ℕ
tables_from s levels t i n = concat_map (λ c. tables_below s levels c ++ c ∷ []) (children s t i n)

abbrev pub tables_at : Store → ℕ → ℕ → List ℕ
tables_at s levels e = if has_table e then with_below s levels (get_frame e) else []

pub has_table-present : (e : ℕ) → has_table e ≡ true → present e ≡ true
has_table-present e h = elim (Bool-cases (present e)) [
  | inl there ↦ there
  | inr gone ↦ absurd (clash (sym (ap (λ z. z && not (huge e)) gone) ∙ h))
]
  where
    clash : false ≡ true → ⊥
    clash z = cc

pub tables_from-suc :
    (s : Store) (levels t i n : ℕ)
    → tables_from s levels t i (suc n)
      ≡ tables_at s levels (s.entries t i) ++ tables_from s levels t (suc i) n
tables_from-suc s levels t i n = from (has_table (s.entries t i)) (children s t (suc i) n)
  where
    from :
        (b : Bool) (cs : List ℕ)
        → concat_map
            (λ c. tables_below s levels c ++ c ∷ [])
            (if b then get_frame (s.entries t i) ∷ cs else cs)
          ≡ (if b then with_below s levels (get_frame (s.entries t i)) else [])
            ++ concat_map (λ c. tables_below s levels c ++ c ∷ []) cs
    from true cs = refl
    from false cs = refl

pub tables_at-table :
    (s : Store) (levels e : ℕ)
    → has_table e ≡ true
    → length (tables_at s levels e) ≡ suc (length (tables_below s levels (get_frame e)))
tables_at-table s levels e h =
    rw h (length-append (tables_below s levels (get_frame e)) (get_frame e ∷ []) ∙ omega arith)

module _ (root : ℕ) (own : Owner) (s s' : Store) (v : IsSpace root own s)
    (same : SameTables own s s') where
  abbrev Agree : ℕ → Type 0
  Agree levels =
      (c : ℕ) (p : List ℕ)
      → own c ≡ some p
      → length p + levels ≤ 3
      → tables_below s' levels c ≡ tables_below s levels c

  same_from :
      (n levels t i : ℕ) (p : List ℕ)
      → own t ≡ some p
      → length p + suc levels ≤ 3
      → Agree levels
      → tables_from s' levels t i n ≡ tables_from s levels t i n
  same_from zero levels t i p o short h = refl
  same_from (suc n) levels t i p o short h =
      tables_from-suc s' levels t i n
      ∙ ap₂ (λ a b. a ++ b)
          (ap (tables_at s' levels) (same t i p o) ∙ here (has_table-present (s.entries t i)))
          (same_from n levels t (suc i) p o short h)
      ∙ sym (tables_from-suc s levels t i n)
    where
      here :
          (has_table (s.entries t i) ≡ true → present (s.entries t i) ≡ true)
          → tables_at s' levels (s.entries t i) ≡ tables_at s levels (s.entries t i)
      here f = elim (Bool-cases (has_table (s.entries t i))) [
        | inr bare ↦ rw bare refl
        | inl held ↦ rw held (
            ap (λ z. z ++ get_frame (s.entries t i) ∷ [])
              (h (get_frame (s.entries t i)) (i ∷ p)
                (v.tree.below t i p o (omega (arith, short)) (f held)) (omega (arith, short))))
      ]

  pub tables_below_same : (levels : ℕ) → Agree levels
  tables_below_same zero c p o short = refl
  tables_below_same (suc levels) c p o short =
      same_from 512 levels c 0 p o short (tables_below_same levels)

  pub tables_from_same :
      (levels t i n : ℕ) (p : List ℕ)
      → own t ≡ some p
      → length p + suc levels ≤ 3
      → tables_from s' levels t i n ≡ tables_from s levels t i n
  tables_from_same levels t i n p o short =
      same_from n levels t i p o short (tables_below_same levels)
