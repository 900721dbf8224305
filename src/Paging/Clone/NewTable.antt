-- ===== src/Paging/Clone/NewTable.antt =====
-- The new table of `clone_pd`, `clone_pdpt` and `clone_paging_info` of
-- kernel/source/arch/x86_64/paging.cpp, and what the loop leaves in it.
use sigma.Base.{
  ℕ, suc, ◌+◌, ◌<◌, ◌≡◌, ◌≢◌, arith, none, some, inl, inr, List, [], ◌∷◌, length, ap, sym, ◌∙◌,
  subst, Outcome, ok, panic, ◌>>=◌,
}
use sigma.Mm.Pmm.{Pmm}
use sigma.Mm.Pmm.Frames.{free_count, HasRoom, hit, times}
use sigma.Mm.Pmm.Alloc.{alloc_block-Allocated, Allocated}
use sigma.Paging.Tree.{Owner, none-some}
use sigma.Paging.Space.{IsSpace, Took}
use sigma.Paging.Clone.Copied.{
  IsEntryCopy, Copied, HasNoHuge, SameTables, map-IsEntryCopy, took-IsSpace, same-Copied,
}
use sigma.Paging.Clone.Stable.{tables_from_same, tables_from}
use sigma.Paging.Clone.Rounds.{IsFilled}
use sigma.Paging.{Store, alloc_table, clear_table}

pub first-fresh : (n : ℕ) (fs : List ℕ) → times n (n ∷ fs) ≢ 0
first-fresh n fs e = ground (arith, e)

-- A new table that is blank.
pub record IsNewTable (root : ℕ) (own : Owner) (s : Store) (n : ℕ) (s' : Store) : Type 0 where
  pub space : IsSpace root own s'
  pub took : Took (n ∷ []) s s'
  pub apart : own n ≡ none
  pub taken : free_count s'.pmm.live n ≡ 0
  pub blank : (i : ℕ) → s'.entries n i ≡ 0
  pub kept : (u i : ℕ) → n ≢ u → s'.entries u i ≡ s.entries u i

pub data NewTable (root : ℕ) (own : Owner) (s : Store) : Outcome (ℕ × Store) → Type 0 where
  none_free : ((x : ℕ) → free_count s.pmm.live x ≡ 0) → NewTable root own s panic
  new_table : (n : ℕ) (s' : Store) → IsNewTable root own s n s' → NewTable root own s (ok (n, s'))

module _ (root : ℕ) (own : Owner) (s : Store) (v : IsSpace root own s) where
  pub alloc_table-NewTable : NewTable root own s (alloc_table s)
  unfolding alloc_table clear_table
  alloc_table-NewTable = from _ (alloc_block-Allocated s.pmm v.room)
    where
      with_block :
          (n : ℕ) (q : Pmm)
          → HasRoom q
          → ((x : ℕ) → free_count s.pmm.live x ≡ hit n x + free_count q.live x)
          → IsNewTable root own s n (clear_table n (record s { pmm = q }))
      with_block n q room counts = record {
        space =
            took-IsSpace v _ (n ∷ []) (λ x. omega (arith, counts x)) room
              (λ u j p o. kept u j (λ e. none-some (sym apart ∙ ap own e ∙ o)));
        took = λ x. omega (arith, counts x);
        apart = apart;
        taken = omega (arith, counts n, v.once n, one);
        blank = λ i. ground arith;
        kept = kept;
      }
        where
          one : hit n n ≡ 1
          one = ground arith

          apart : own n ≡ none
          apart = v.apart n (λ e. absurd (omega (arith, counts n, one, e)))

          kept :
              (u i : ℕ) → n ≢ u → (clear_table n (record s { pmm = q })).entries u i ≡ s.entries u i
          kept u i ne = ground (arith, ne)

      from :
          (o : Outcome (ℕ × Pmm))
          → Allocated s.pmm o
          → NewTable root own s (o >>= λ r. ok (r.0, clear_table r.0 (record s { pmm = r.1 })))
      from o (inl (e, all_taken)) = rw e (none_free (λ x. all_taken x))
      from o (inr (n, q, e, room, slots, counts)) =
          rw e (new_table n _ (with_block n q room counts))

  module _ (small : HasNoHuge own s) (n : ℕ) (s₀ : Store) (new : IsNewTable root own s n s₀) where
    pub same_new : SameTables own s s₀
    same_new u j p o = new.kept u j (λ e. none-some (sym new.apart ∙ ap own e ∙ o))

    pub tables_new :
        (levels t m : ℕ) (p : List ℕ)
        → own t ≡ some p
        → length p + suc levels ≡ 3
        → length (tables_from s₀ levels t 0 m) ≡ length (tables_from s levels t 0 m)
    tables_new levels t m p owned short =
        ap length
          (tables_from_same root own s s₀ v same_new levels t 0 m p owned (omega (arith, short)))

    -- What a loop copies to a new table, counted from before the table was made.
    module _ (levels t m : ℕ) (p : List ℕ) (owned : own t ≡ some p)
        (short : length p + suc levels ≡ 3) (s' : Store) (f : IsFilled levels n t 0 m s₀ s') where
      abbrev fresh : List ℕ
      fresh = n ∷ f.fresh

      -- It stays a copy as long as the tables taken after the new one do not change.
      pub filled_copies :
          (s'' : Store)
          → ((u j : ℕ) → times u f.fresh ≢ 0 → s''.entries u j ≡ s'.entries u j)
          → (i : ℕ) → i < m
          → IsEntryCopy (Copied fresh s s'' levels) (s'.entries n i) (s.entries t i)
      filled_copies s'' keep i lt =
          subst (λ e. IsEntryCopy (Copied fresh s s'' levels) (s'.entries n i) e)
            (same_new t i p owned)
            (map-IsEntryCopy (Copied f.fresh s₀ s' levels) (Copied fresh s s'' levels)
              (s'.entries n i) (s₀.entries t i)
              (λ there c.
                same-Copied new.space s s' s'' f.fresh fresh (λ u j q o. sym (same_new u j q o))
                  keep (λ u h z. h (omega (arith, z))) levels _ _ (i ∷ p)
                  (new.space.tree.below t i p owned (omega (arith, short)) there)
                  (omega (arith, short)) c)
              (f.copies i (omega arith) (omega arith)))

      pub later-apart : (u : ℕ) → times u f.fresh ≢ 0 → n ≢ u
      later-apart u h e = h (omega (arith, f.took u, new.taken, ap (free_count s₀.pmm.live) e))

      pub filled_kept : (u i : ℕ) → times u fresh ≡ 0 → s'.entries u i ≡ s.entries u i
      filled_kept u i z = f.kept u i (omega (arith, z)) apart_n ∙ new.kept u i apart_n
        where
          apart_n : n ≢ u
          apart_n e = ground (arith, e, z)

      pub filled_count : length f.fresh ≡ length (tables_from s levels t 0 m)
      filled_count = f.count ∙ tables_new levels t m p owned short

      pub filled-Took : Took fresh s s'
      filled-Took x = omega (arith, new.took x, f.took x)
