-- ===== src/Paging/Clone/Rounds.antt =====
-- The loop of `clone_pd`, `clone_pdpt` and `clone_paging_info` of
-- kernel/source/arch/x86_64/paging.cpp, around a call that copies a table.
use sigma.Base.{
  ℕ, suc, ◌+◌, ◌<◌, ◌≤◌, ◌≡◌, ◌≢◌, refl, arith, true, false, Bool-cases, inl, inr, some, List, [],
  ◌∷◌, length, ap, sym, ◌∙◌, subst, Outcome, ok, panic, ◌>>=◌,
}
use sigma.Mm.Pmm.Frames.{free_count, HasRoom, times}
use sigma.Paging.Entries.{bit_test, get_frame, get_flags}
use sigma.Paging.Tree.{Owner}
use sigma.Paging.Space.{IsSpace, Took}
use sigma.Paging.Clean.{tables_below}
use sigma.Paging.Clone.{clone_entry, cloned_entry}
use sigma.Paging.Clone.Entry.{get_flags-present, get_flags-huge, cloned_entry_lem}
use sigma.Paging.Clone.Copied.{
  root-fresh, IsEntryCopy, absent, names, Copied, HasNoHuge, same-Copied,
}
use sigma.Paging.Clone.Stable.{tables_at-table, tables_from, tables_at}
use sigma.Paging.{bit_test, Store, present, write_entry}

-- Fewer than `n` frames were free.
abbrev pub HasFewer : ℕ → Store → Type 0
HasFewer n s =
    (used : List ℕ) × (length used < n) × ((x : ℕ) → free_count s.pmm.live x ≡ times x used)

-- A new table `n` that copies `t`, with a free frame for each table.
pub record IsCloned (levels t : ℕ) (s : Store) (n : ℕ) (s' : Store) : Type 0 where
  pub fresh : List ℕ
  pub took : Took fresh s s'
  pub count : length fresh ≡ suc (length (tables_below s levels t))
  pub kept : (u i : ℕ) → times u fresh ≡ 0 → s'.entries u i ≡ s.entries u i
  pub room : HasRoom s'.pmm
  pub copied : Copied fresh s s' levels n t

pub data Cloned (levels t : ℕ) (s : Store) : Outcome (ℕ × Store) → Type 0 where
  too_few : HasFewer (suc (length (tables_below s levels t))) s → Cloned levels t s panic
  cloned : (n : ℕ) (s' : Store) → IsCloned levels t s n s' → Cloned levels t s (ok (n, s'))

-- The entries from `i` on, `m` of them, are copied to the table `n`, which was blank.
pub record IsFilled (levels n t i m : ℕ) (s s' : Store) : Type 0 where
  pub fresh : List ℕ
  pub took : Took fresh s s'
  pub count : length fresh ≡ length (tables_from s levels t i m)
  pub kept : (u j : ℕ) → times u fresh ≡ 0 → n ≢ u → s'.entries u j ≡ s.entries u j
  pub others : (j : ℕ) → j < i → s'.entries n j ≡ s.entries n j
  pub room : HasRoom s'.pmm
  pub copies :
      (j : ℕ)
      → i ≤ j
      → j < i + m
      → IsEntryCopy (Copied fresh s s' levels) (s'.entries n j) (s.entries t j)

pub data Filled (levels n t i m : ℕ) (s : Store) : Outcome Store → Type 0 where
  too_few : HasFewer (length (tables_from s levels t i m)) s → Filled levels n t i m s panic
  filled : (s' : Store) → IsFilled levels n t i m s s' → Filled levels n t i m s (ok s')

-- One round, at the entry `i`.
pub record IsRound (levels n t i : ℕ) (s s' : Store) : Type 0 where
  pub fresh : List ℕ
  pub took : Took fresh s s'
  pub count : length fresh ≡ length (tables_at s levels (s.entries t i))
  pub kept : (u j : ℕ) → times u fresh ≡ 0 → n ≢ u → s'.entries u j ≡ s.entries u j
  pub others : (j : ℕ) → i ≢ j → s'.entries n j ≡ s.entries n j
  pub room : HasRoom s'.pmm
  pub copies : IsEntryCopy (Copied fresh s s' levels) (s'.entries n i) (s.entries t i)

pub data Round (levels n t i : ℕ) (s : Store) : Outcome Store → Type 0 where
  too_few : HasFewer (length (tables_at s levels (s.entries t i))) s → Round levels n t i s panic
  round : (s' : Store) → IsRound levels n t i s s' → Round levels n t i s (ok s')

-- What the call below a loop promises.
abbrev pub ClonesAt : ℕ → ℕ → Owner → (ℕ → Store → Outcome (ℕ × Store)) → Type 0
ClonesAt levels root own below =
    (s : Store) (t : ℕ) (p : List ℕ)
    → IsSpace root own s
    → HasNoHuge own s
    → own t ≡ some p
    → length p + levels ≡ 3
    → Cloned levels t s (below t s)

module _ (levels root : ℕ) (own : Owner) (n t : ℕ) (p : List ℕ) (owned : own t ≡ some p)
    (short : length p + suc levels ≡ 3) where
  module _ (below : ℕ → Store → Outcome (ℕ × Store))
      (below_clones : ClonesAt levels root own below) where
    module _ (i : ℕ) (s : Store) (v : IsSpace root own s) (small : HasNoHuge own s)
        (taken : free_count s.pmm.live n ≡ 0) (blank : s.entries n i ≡ 0) where
      abbrev old : ℕ
      old = s.entries t i

      skipped : present old ≡ false → IsRound levels n t i s s
      unfolding bit_test
      skipped gone = record {
        fresh = [];
        took = λ x. omega arith;
        count = ap length (sym (nothing gone));
        kept = λ u j z ne. refl;
        others = λ j ne. refl;
        room = v.room;
        copies = absent (ap present blank) gone;
      }
        where
          nothing : present old ≡ false → tables_at s levels old ≡ []
          nothing h = rw h refl

      copied_entry :
          present old ≡ true
          → (m : ℕ) (s₁ : Store) → IsCloned levels (get_frame old) s m s₁
          → IsRound levels n t i s (write_entry n i (cloned_entry m old) s₁)
      unfolding write_entry
      copied_entry there m s₁ c = record {
        fresh = c.fresh;
        took = c.took;
        count = c.count ∙ omega (arith, listed);
        kept = λ u j z ne. ground (arith, ne, c.kept u j z);
        others = λ j ne. ground (arith, ne, c.kept n j not_fresh);
        room = c.room;
        copies =
            subst (λ e. IsEntryCopy (Copied c.fresh s s' levels) e old) (sym written)
              (names (new_entry.0 ∙ there) there new_entry.2
                (subst (λ f. Copied c.fresh s s' levels f (get_frame old)) (sym new_entry.1) copy));
      }
        where
          s' : Store
          s' = write_entry n i (cloned_entry m old) s₁

          not_fresh : times n c.fresh ≡ 0
          not_fresh = omega (arith, c.took n, taken)

          listed :
              length (tables_at s levels old) ≡ suc (length (tables_below s levels (get_frame old)))
          listed =
              tables_at-table s levels old
                (rw (there, small t i p owned (omega (arith, short)) there) refl)

          copy : Copied c.fresh s s' levels m (get_frame old)
          copy =
              same-Copied v s s₁ s' c.fresh c.fresh (λ u j q o. refl) keep (λ u h. h) levels m
                (get_frame old) (i ∷ p) (v.tree.below t i p owned (omega (arith, short)) there)
                (omega (arith, short)) c.copied
            where
              keep : (u j : ℕ) → times u c.fresh ≢ 0 → s'.entries u j ≡ s₁.entries u j
              keep u j h = ground (arith, apart_n)
                where
                  apart_n : n ≢ u
                  apart_n e = h (omega (arith, c.took u, taken, ap (free_count s.pmm.live) e))

          written : s'.entries n i ≡ cloned_entry m old
          written = ground arith

          new_entry :
              (present (cloned_entry m old) ≡ present old)
              × (get_frame (cloned_entry m old) ≡ m)
              × (get_flags (cloned_entry m old) ≡ get_flags old)
          new_entry = cloned_entry_lem m old (v.frames m was_free)
            where
              was_free : free_count s.pmm.live m ≢ 0
              was_free e =
                  root-fresh c.fresh s s₁ levels m (get_frame old) c.copied
                    (omega (arith, c.took m, e))

      pub clone_entry-Round : Round levels n t i s (clone_entry below n i old s)
      unfolding clone_entry
      clone_entry-Round = elim (Bool-cases (present old)) [
        | inr gone ↦ rw (get_flags-present old ∙ gone) (round s (skipped gone))
        | inl there ↦
            rw
              (
                get_flags-present old ∙ there,
                get_flags-huge old ∙ small t i p owned (omega (arith, short)) there,
              )
              (from there _ (
                below_clones s (get_frame old) (i ∷ p) v small
                  (v.tree.below t i p owned (omega (arith, short)) there) (omega (arith, short))))
      ]
        where
          from :
              present old ≡ true
              → (o : Outcome (ℕ × Store)) → Cloned levels (get_frame old) s o
              → Round levels n t i s (o >>= λ r. ok (write_entry n i (cloned_entry r.0 old) r.1))
          from there _ (too_few h) = too_few (
            h.0,
            omega (
              arith,
              h.1,
              tables_at-table s levels old
                  (rw (there, small t i p owned (omega (arith, short)) there) refl),
            ),
            h.2,
          )
          from there _ (cloned m s₁ c) = round _ (copied_entry there m s₁ c)
