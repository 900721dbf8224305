-- ===== src/Paging/Clone/Levels.antt =====
-- The levels of the copy in kernel/source/arch/x86_64/paging.cpp: `clone_pt`, `clone_pd` and
-- `clone_pdpt`.
use sigma.Base.{
  ℕ, suc, ◌+◌, ◌≡◌, ◌≢◌, refl, arith, [], ◌∷◌, ap, sym, ◌∙◌, subst, Outcome, ok, ◌>>=◌,
}
use sigma.Mm.Pmm.Frames.{free_count, HasRoom, times}
use sigma.Paging.Tree.{Owner, none-some}
use sigma.Paging.Clone.{clone_pt, clone_pd, clone_pdpt, clone_entries, copy_entries}
use sigma.Paging.Clone.Entry.{IsCopy, copy_entries-IsCopy}
use sigma.Paging.Clone.Copied.{same-HasNoHuge}
use sigma.Paging.Clone.Rounds.{too_few, IsCloned, Cloned, cloned, Filled, filled, ClonesAt}
use sigma.Paging.Clone.Loop.{clone_entries-Filled}
use sigma.Paging.Clone.NewTable.{
  first-fresh, tables_new, IsNewTable, NewTable, none_free, new_table, alloc_table-NewTable,
  same_new, filled_copies, filled_kept, filled_count, filled-Took,
}
use sigma.Paging.{Store, alloc_table}

module _ (root : ℕ) (own : Owner) where
  clone_pt-ClonesAt : ClonesAt 0 root own clone_pt
  unfolding clone_pt
  clone_pt-ClonesAt s t p v small o short = from _ (alloc_table-NewTable root own s v)
    where
      whole :
          (n : ℕ) (s₀ : Store)
          → IsNewTable root own s n s₀
          → IsCloned 0 t s n (copy_entries n t 0 512 s₀)
      whole n s₀ new =
          let c : IsCopy n t 0 512 s₀ (copy_entries n t 0 512 s₀) =
            copy_entries-IsCopy 512 n t 0 s₀ (λ e. none-some (sym new.apart ∙ ap own e ∙ o)) in
          record {
            fresh = n ∷ [];
            took = λ x. new.took x ∙ ap (λ q. times x (n ∷ []) + free_count q.live x) (sym c.pmm);
            count = refl;
            kept = λ u i z. c.others u i (apart_n u z) ∙ new.kept u i (apart_n u z);
            room = subst HasRoom (sym c.pmm) new.space.room;
            copied = (
              first-fresh n [],
              λ i h. c.inside i (omega arith) h ∙ same_new root own s v small n s₀ new t i p o,
            );
          }
        where
          apart_n : (u : ℕ) → times u (n ∷ []) ≡ 0 → n ≢ u
          apart_n u z e = ground (arith, e, z)

      from :
          (o : Outcome (ℕ × Store))
          → NewTable root own s o
          → Cloned 0 t s (o >>= λ r. ok (r.0, copy_entries r.0 t 0 512 r.1))
      from _ (none_free h) = too_few ([], omega arith, λ x. h x)
      from _ (new_table n s₀ new) = cloned n _ (whole n s₀ new)

  -- One level more.
  above-ClonesAt :
      (levels : ℕ) (below : ℕ → Store → Outcome (ℕ × Store))
      → ClonesAt levels root own below
      → ClonesAt (suc levels) root own (λ old s.
        alloc_table s >>= λ r. clone_entries below r.0 old 0 512 r.1 >>= λ s'. ok (r.0, s'))
  above-ClonesAt levels below h s t p v small o short = from _ (alloc_table-NewTable root own s v)
    where
      after_loop :
          (n : ℕ) (s₀ : Store)
          → IsNewTable root own s n s₀
          → (o : Outcome Store) → Filled levels n t 0 512 s₀ o
          → Cloned (suc levels) t s (o >>= λ s'. ok (n, s'))
      after_loop n s₀ new _ (too_few h) = too_few (
        n ∷ h.0,
        omega (
          arith,
          h.1,
          tables_new root own s v small n s₀ new levels t 512 p o (omega (arith, short)),
        ),
        λ x. omega (arith, new.took x, h.2 x),
      )
      after_loop n s₀ new _ (filled s' f) = cloned n s' (record {
        fresh = n ∷ f.fresh;
        took = filled-Took root own s v small n s₀ new levels t 512 p o short s' f;
        count = ap suc (filled_count root own s v small n s₀ new levels t 512 p o short s' f);
        kept = filled_kept root own s v small n s₀ new levels t 512 p o short s' f;
        room = f.room;
        copied = (
          first-fresh n f.fresh,
          filled_copies root own s v small n s₀ new levels t 512 p o short s' f s' (λ u j h. refl),
        );
      })

      from :
          (o : Outcome (ℕ × Store))
          → NewTable root own s o
          → Cloned
              (suc levels)
              t
              s
              (o >>= λ r. clone_entries below r.0 t 0 512 r.1 >>= λ s'. ok (r.0, s'))
      from _ (none_free h) = too_few ([], omega arith, λ x. h x)
      from _ (new_table n s₀ new) = after_loop n s₀ new _ (
          clone_entries-Filled levels root own n t p o (omega (arith, short)) below h new.apart 512
            0 s₀ new.space (same-HasNoHuge v s₀ (same_new root own s v small n s₀ new) small)
            new.taken (λ j a. new.blank j))

  clone_pd-ClonesAt : ClonesAt 1 root own clone_pd
  unfolding clone_pd
  clone_pd-ClonesAt = above-ClonesAt 0 clone_pt clone_pt-ClonesAt

  pub clone_pdpt-ClonesAt : ClonesAt 2 root own clone_pdpt
  unfolding clone_pdpt
  clone_pdpt-ClonesAt = above-ClonesAt 1 clone_pd clone_pd-ClonesAt
