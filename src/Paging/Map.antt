-- ===== src/Paging/Map.antt =====
-- `map_page` of kernel/source/arch/x86_64/paging.cpp makes the tables that are missing on the way.
use sigma.Base.{
  length-append, ℕ, suc, ◌+◌, ◌<◌, ◌≤◌, ◌≡◌, ◌≢◌, inl, inr, refl, arith, true, false, Bool-cases,
  none, some, List, [], ◌∷◌, ◌++◌, length, ap, sym, ◌∙◌, Outcome, ok, ◌>>=◌,
}
use sigma.Mm.Pmm.{Pmm, alloc_block}
use sigma.Mm.Pmm.Frames.{free_count, HasRoom, hit, times-append}
use sigma.Mm.Pmm.Alloc.{alloc_block-Allocated, Allocated}
use sigma.Paging.Entries.{get_frame}
use sigma.Paging.Bits.{IsFrame, table_entry_lem}
use sigma.Paging.Tree.{Owner, update, lookup_append, lookup-present}
use sigma.Paging.{
  Store, present, write_entry, clear_table, table_entry, alloc_table, next_table, walk_tables,
}
use sigma.Paging.Hung.{hung_found, hung-IsTree, lookup-hung, lookup-hung-some}
use sigma.Paging.Space.{IsSpace, Keeps-refl, IsWalked, Walked, halts, arrives}

module _ (root : ℕ) (own : Owner) (s : Store) (v : IsSpace root own s) (p : List ℕ) (t i : ℕ)
    (owned : own t ≡ some p) (upper : length p < 3) where
  -- The entry is there.
  follow :
      present (s.entries t i) ≡ true
      → IsWalked root own s p t (i ∷ []) (get_frame (s.entries t i)) s
  follow there = record {
    own' = own;
    used = [];
    space = v;
    owned = v.tree.below t i p owned upper there;
    keeps = Keeps-refl own s;
    leads = lookup-present s t i [] there;
    few = omega arith;
    took = λ x. omega arith;
    only = λ x h. refl;
  }

  -- A new table is hung below it.
  hang :
      (absent : present (s.entries t i) ≡ false) (n : ℕ) (m : Pmm)
      → HasRoom m
      → ((x : ℕ) → free_count s.pmm.live x ≡ hit n x + free_count m.live x)
      → IsWalked root own s p t
          (i ∷ [])
          n
          (write_entry t i (table_entry n) (clear_table n (record s { pmm = m })))
  unfolding write_entry clear_table
  hang absent n m room counts = record {
    own' = update own n (i ∷ p);
    used = n ∷ [];
    space = record {
      tree = hung-IsTree root own s v.tree t i n p owned upper absent free_n frame m;
      room = room;
      apart = apart_after;
      once = λ x. omega (arith, counts x, v.once x);
      frames = λ x h. v.frames x (λ e. h (omega (arith, counts x)));
    };
    owned = ground arith;
    keeps = record {
      owners = λ u q h. ground (arith, not_n u q h);
      ends = λ u q is h l.
          lookup-hung root own s v.tree t i n p owned upper absent free_n frame m is u q h l;
      stays = λ u f q is h l.
          lookup-hung-some root own s v.tree t i n p owned upper absent free_n frame m is u f q h l;
    };
    leads =
        lookup-present after t i []
          (hung_found root own s v.tree t i n p owned upper absent free_n frame m).0
        ∙ ap some (hung_found root own s v.tree t i n p owned upper absent free_n frame m).1;
    few = omega arith;
    took = λ x. omega (arith, counts x);
    only = λ x h. ground (arith, h);
  }
    where
      one : free_count s.pmm.live n ≢ 0
      one e = ground (arith, counts n)

      after : Store
      after = write_entry t i (table_entry n) (clear_table n (record s { pmm = m }))

      free_n : own n ≡ none
      free_n = v.apart n one

      frame : IsFrame n
      frame = v.frames n one

      not_n : (u : ℕ) (q : List ℕ) → own u ≡ some q → n ≢ u
      not_n u q h e = clash (sym free_n ∙ ap own e ∙ h)
        where
          clash : none ≡ some q → ⊥
          clash z = cc

      apart_after : (x : ℕ) → free_count m.live x ≢ 0 → update own n (i ∷ p) x ≡ none
      apart_after x h =
          ground (arith, counts x, v.once x, v.apart x (λ e. h (omega (arith, counts x))))

  pub next_table-Walked : Walked root own s p t (i ∷ []) (next_table t i s)
  unfolding next_table alloc_table
  next_table-Walked = elim (Bool-cases (present (s.entries t i))) [
    | inl there ↦ rw (there, next_table) (arrives _ s (follow there))
    | inr absent ↦ rw (absent, next_table) (from absent (alloc_block-Allocated s.pmm v.room))
  ]
    where
      cleared : ℕ × Pmm → Outcome (ℕ × Store)
      cleared r = ok (r.0, clear_table r.0 (record s { pmm = r.1 }))

      linked : ℕ × Store → Outcome (ℕ × Store)
      linked r = ok (get_frame (table_entry r.0), write_entry t i (table_entry r.0) r.1)

      arrived :
          (absent : present (s.entries t i) ≡ false) (n : ℕ) (m : Pmm)
          → HasRoom m
          → ((x : ℕ) → free_count s.pmm.live x ≡ hit n x + free_count m.live x)
          → Walked root own s p t (i ∷ []) (cleared (n, m) >>= linked)
      arrived absent n m room counts = rw (named) (arrives n _ (hang absent n m room counts))
        where
          one : free_count s.pmm.live n ≢ 0
          one e = ground (arith, counts n)

          named : get_frame (table_entry n) ≡ n
          named = (table_entry_lem n (v.frames n one)).1

      from :
          present (s.entries t i) ≡ false
          → Allocated s.pmm (alloc_block s.pmm)
          → Walked root own s p t (i ∷ []) (alloc_block s.pmm >>= cleared >>= linked)
      from absent (inl (e, none_free)) =
          rw e (halts (record { used = []; few = omega arith; all_taken = λ x. none_free x }))
      from absent (inr (n, m, e, room, slots, counts)) = rw e (arrived absent n m room counts)

-- A walk goes on from where another came to.
module _ {root : ℕ} {own : Owner} {s : Store} {p : List ℕ} {t i : ℕ} {is : List ℕ}
    (owned : own t ≡ some p) where
  Walked-trans :
      (u : ℕ) (s₁ : Store) (w : IsWalked root own s p t (i ∷ []) u s₁)
      → length p + suc (length is) ≤ 3
      → (o : Outcome (ℕ × Store)) → Walked root w.own' s₁ (i ∷ p) u is o
      → Walked root own s p t (i ∷ is) o
  Walked-trans u s₁ w short _ (halts r) = halts (record {
    used = w.used ++ r.used;
    few = omega (arith, w.few, r.few, length-append w.used r.used);
    all_taken = λ x. omega (arith, w.took x, r.all_taken x, times-append x w.used r.used);
  })
  Walked-trans u s₁ w short _ (arrives u₂ s₂ z) = arrives u₂ s₂ (record {
    own' = z.own';
    used = w.used ++ z.used;
    space = z.space;
    owned = z.owned;
    keeps = record {
      owners = λ a q h. z.keeps.owners a q (w.keeps.owners a q h);
      ends = λ a q js h l. z.keeps.ends a q js (w.keeps.owners a q h) l ∙ w.keeps.ends a q js h l;
      stays = λ a f q js h l e.
          z.keeps.stays a f q js (w.keeps.owners a q h) l (w.keeps.stays a f q js h l e);
    };
    leads =
        lookup_append s₂ t u (i ∷ []) is
          (z.keeps.stays t u p (i ∷ []) (w.keeps.owners t p owned) (omega (arith, short)) w.leads)
        ∙ z.leads;
    few = omega (arith, w.few, z.few, length-append w.used z.used);
    took = λ x. omega (arith, w.took x, z.took x, times-append x w.used z.used);
    only = λ x h.
        z.only x (omega (arith, h, times-append x w.used z.used))
        ∙ w.only x (omega (arith, h, times-append x w.used z.used));
  })

pub walk_tables-Walked :
    (is : List ℕ) (root : ℕ) (own : Owner) (s : Store) (p : List ℕ) (t : ℕ)
    → IsSpace root own s
    → own t ≡ some p
    → length p + length is ≤ 3
    → Walked root own s p t is (walk_tables t is s)
unfolding walk_tables
walk_tables-Walked [] root own s p t v h short = arrives t s (record {
  own' = own;
  used = [];
  space = v;
  owned = h;
  keeps = Keeps-refl own s;
  leads = refl;
  few = omega arith;
  took = λ x. omega arith;
  only = λ x h. refl;
})
walk_tables-Walked (i ∷ is) root own s p t v h short =
    from _ (next_table-Walked root own s v p t i h (omega (arith, short)))
      (λ own'' s₁ u space owned.
        walk_tables-Walked is root own'' s₁ (i ∷ p) u space owned (omega (arith, short)))
  where
    from :
        (o : Outcome (ℕ × Store))
        → Walked root own s p t (i ∷ []) o
        → ((own'' : Owner) (s₁ : Store) (u : ℕ)
            → IsSpace root own'' s₁
            → own'' u ≡ some (i ∷ p)
            → Walked root own'' s₁ (i ∷ p) u is (walk_tables u is s₁))
        → Walked root own s p t (i ∷ is) (o >>= λ r. walk_tables r.0 is r.1)
    from _ (halts r) rest =
        halts (record { used = r.used; few = omega (arith, r.few); all_taken = r.all_taken })
    from _ (arrives u s₁ w) rest =
        Walked-trans h u s₁ w (omega (arith, short)) (walk_tables u is s₁)
          (rest w.own' s₁ u w.space w.owned)
