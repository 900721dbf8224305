-- ===== src/Paging/Clone/Loop.antt =====
-- All rounds of the loop that copies tables in kernel/source/arch/x86_64/paging.cpp.
use sigma.Base.{
  ℕ, zero, suc, ◌+◌, ◌<◌, ◌≤◌, ◌≡◌, ◌≢◌, refl, arith, none, some, List, [], ◌∷◌, ◌++◌, length,
  length-append, ap, ap₂, sym, ◌∙◌, subst, Outcome, ◌>>=◌, ℕ_discrete,
}
use sigma.Mm.Pmm.Frames.{free_count, times, times-append}
use sigma.Paging.Tree.{Owner, none-some}
use sigma.Paging.Space.{IsSpace, Took}
use sigma.Paging.Clone.{clone_entries}
use sigma.Paging.Clone.Copied.{
  IsEntryCopy, Copied, HasNoHuge, SameTables, map-IsEntryCopy, fresh-owned, took-IsSpace,
  same-HasNoHuge, same-Copied,
}
use sigma.Paging.Clone.Stable.{tables_from, tables_at, tables_from-suc, tables_from_same}
use sigma.Paging.{Store}
use sigma.Paging.Clone.Rounds.{
  too_few, IsFilled, Filled, filled, IsRound, Round, round, ClonesAt, clone_entry-Round,
}

module _ (levels root : ℕ) (own : Owner) (n t : ℕ) (p : List ℕ) (owned : own t ≡ some p)
    (short : length p + suc levels ≡ 3) where
  -- One round followed by the others.
  module _ (i m : ℕ) (s : Store) (v : IsSpace root own s) (taken : free_count s.pmm.live n ≡ 0)
      (apart : own n ≡ none) where
    untouched :
        (s' : Store) (fresh : List ℕ)
        → Took fresh s s'
        → ((u j : ℕ) → times u fresh ≡ 0 → n ≢ u → s'.entries u j ≡ s.entries u j)
        → SameTables own s s'
    untouched s' fresh took kept u j q o =
        kept u j (fresh-owned v s' fresh took o) (λ e. none-some (sym apart ∙ ap own e ∙ o))

    module _ (s₁ : Store) (r : IsRound levels n t i s s₁) where
      same : SameTables own s s₁
      same = untouched s₁ r.fresh r.took r.kept

      after : IsSpace root own s₁
      after = took-IsSpace v s₁ r.fresh r.took r.room same

      module _ (s₂ : Store) (f : IsFilled levels n t (suc i) m s₁ s₂) where
        abbrev both : List ℕ
        both = r.fresh ++ f.fresh

        first : IsEntryCopy (Copied both s s₂ levels) (s₂.entries n i) (s.entries t i)
        first =
            subst (λ e. IsEntryCopy (Copied both s s₂ levels) e (s.entries t i))
              (sym (f.others i (omega arith)))
              (map-IsEntryCopy (Copied r.fresh s s₁ levels) (Copied both s s₂ levels)
                (s₁.entries n i) (s.entries t i)
                (λ there c.
                  same-Copied v s s₁ s₂ r.fresh both (λ u j q o. refl) keep more levels _ _ (i ∷ p)
                    (v.tree.below t i p owned (omega (arith, short)) there) (omega (arith, short))
                    c)
                r.copies)
          where
            keep : (u j : ℕ) → times u r.fresh ≢ 0 → s₂.entries u j ≡ s₁.entries u j
            keep u j h =
                f.kept u j (omega (arith, r.took u, f.took u, v.once u, h))
                  (λ e. h (omega (arith, r.took u, taken, ap (free_count s.pmm.live) e)))

            more : (u : ℕ) → times u r.fresh ≢ 0 → times u both ≢ 0
            more u h z = h (omega (arith, z, times-append u r.fresh f.fresh))

        later :
            (j : ℕ)
            → suc i ≤ j
            → j < suc i + m
            → IsEntryCopy (Copied both s s₂ levels) (s₂.entries n j) (s.entries t j)
        later j a b =
            subst (λ e. IsEntryCopy (Copied both s s₂ levels) (s₂.entries n j) e) (same t j p owned)
              (map-IsEntryCopy (Copied f.fresh s₁ s₂ levels) (Copied both s s₂ levels)
                (s₂.entries n j) (s₁.entries t j)
                (λ there c.
                  same-Copied after s s₂ s₂ f.fresh both (λ u k q o. sym (same u k q o))
                    (λ u k h. refl) more levels _ _ (j ∷ p)
                    (after.tree.below t j p owned (omega (arith, short)) there)
                    (omega (arith, short)) c)
                (f.copies j a b))
          where
            more : (u : ℕ) → times u f.fresh ≢ 0 → times u both ≢ 0
            more u h z = h (omega (arith, z, times-append u r.fresh f.fresh))

        count_both : length both ≡ length (tables_from s levels t i (suc m))
        count_both =
            length-append r.fresh f.fresh
            ∙ ap₂ (λ a b. a + b) r.count
                (f.count
                  ∙ ap length (
                      tables_from_same root own s s₁ v same levels t (suc i) m p owned
                        (omega (arith, short))))
            ∙ sym (
                ap length (tables_from-suc s levels t i m)
                ∙ length-append (tables_at s levels (s.entries t i))
                    (tables_from s levels t (suc i) m))

        then_rest : IsFilled levels n t i (suc m) s s₂
        then_rest = record {
          fresh = both;
          took = λ x. omega (arith, r.took x, f.took x, times-append x r.fresh f.fresh);
          count = count_both;
          kept = λ u j z ne.
              f.kept u j (omega (arith, z, times-append u r.fresh f.fresh)) ne
              ∙ r.kept u j (omega (arith, z, times-append u r.fresh f.fresh)) ne;
          others =
              λ j lt. f.others j (omega arith) ∙ r.others j (λ e. absurd (omega (arith, e, lt)));
          room = f.room;
          copies = λ j a b. elim (ℕ_discrete i j) [
            | yes e ↦
                subst (λ z. IsEntryCopy (Copied both s s₂ levels) (s₂.entries n z) (s.entries t z))
                  e first
            | no ne ↦ later j (omega (arith, ne)) (omega arith)
          ];
        }

  -- The whole loop leaves a copy of each of its entries in the blank table, with a free frame for
  -- each table below, and panics only if there are fewer.
  module _ (below : ℕ → Store → Outcome (ℕ × Store)) (below_clones : ClonesAt levels root own below)
      (apart : own n ≡ none) where
    pub clone_entries-Filled :
        (m i : ℕ) (s : Store)
        → IsSpace root own s
        → HasNoHuge own s
        → free_count s.pmm.live n ≡ 0
        → ((j : ℕ) → i ≤ j → s.entries n j ≡ 0)
        → Filled levels n t i m s (clone_entries below n t i m s)
    unfolding clone_entries
    clone_entries-Filled zero i s v small taken blank = filled s (record {
      fresh = [];
      took = λ x. omega arith;
      count = refl;
      kept = λ u j z ne. refl;
      others = λ j lt. refl;
      room = v.room;
      copies = λ j a b. absurd (omega (arith, a, b));
    })
    clone_entries-Filled (suc m) i s v small taken blank =
        from _
          (clone_entry-Round levels root own n t p owned short below below_clones i s v small taken
            (blank i (omega arith)))
          (λ s₁ r.
            clone_entries-Filled m (suc i) s₁ (after i m s v taken apart s₁ r)
              (same-HasNoHuge v s₁ (same i m s v taken apart s₁ r) small)
              (omega (arith, r.took n, taken))
              (λ j a. r.others j (λ e. absurd (omega (arith, a, e))) ∙ blank j (omega (arith, a))))
      where
        counted :
            length (tables_from s levels t i (suc m))
            ≡ length (tables_at s levels (s.entries t i))
              + length (tables_from s levels t (suc i) m)
        counted =
            ap length (tables_from-suc s levels t i m)
            ∙ length-append (tables_at s levels (s.entries t i)) (tables_from s levels t (suc i) m)

        from :
            (o : Outcome Store)
            → Round levels n t i s o
            → ((s₁ : Store)
                → IsRound levels n t i s s₁
                → Filled levels n t (suc i) m s₁ (clone_entries below n t (suc i) m s₁))
            → Filled levels n t i (suc m) s (o >>= clone_entries below n t (suc i) m)
        from _ (too_few h) rest = too_few (h.0, omega (arith, h.1, counted), h.2)
        from _ (round s₁ r) rest = then_loop _ (rest s₁ r)
          where
            then_loop :
                (o : Outcome Store)
                → Filled levels n t (suc i) m s₁ o
                → Filled levels n t i (suc m) s o
            then_loop _ (filled s₂ f) = filled s₂ (then_rest i m s v taken apart s₁ r s₂ f)
            then_loop _ (too_few h) = too_few (
              r.fresh ++ h.0,
              omega (
                arith,
                h.1,
                counted,
                r.count,
                length-append r.fresh h.0,
                ap length (
                    tables_from_same root own s s₁ v (same i m s v taken apart s₁ r) levels t
                      (suc i) m p owned (omega (arith, short))),
              ),
              λ x. omega (arith, r.took x, h.2 x, times-append x r.fresh h.0),
            )
