-- ===== src/Paging/Clone/Whole.antt =====
-- The copy of a whole address space: `clone_paging_info` of kernel/source/arch/x86_64/paging.cpp.
use sigma.Base.{
  if◌then◌else◌, ℕ, suc, ◌+◌, ◌<◌, ◌≤◌, ◌≡◌, ◌≢◌, refl, arith, none, some, List, [], ◌∷◌, length,
  length-append, ap, sym, ◌∙◌, subst, Outcome, ok, panic, ◌>>=◌, dec_lt,
}
use sigma.Mm.Pmm.Frames.{free_count, HasRoom, times}
use sigma.Paging.Entries.{get_frame, pml4_index, pdpt_index, pd_index, pt_index}
use sigma.Paging.Tree.{Owner, lookup, lookup_same, none-some}
use sigma.Paging.Space.{IsSpace, Took}
use sigma.Paging.Pages.{page_path, get_phys-lookup, phys_of}
use sigma.Paging.Clean.{tables_of, deinit, init}
use sigma.Paging.Clone.{clone_pdpt, clone_entries, copy_entries, clone_paging_info}
use sigma.Paging.Clone.Entry.{IsCopy, copy_entries-IsCopy}
use sigma.Paging.Clone.Copied.{
  IsEntryCopy, Copied, HasNoHuge, AreIndices, SameTables, fresh-owned, took-IsSpace, same-HasNoHuge,
  entry_leads, lookup-Copied,
}
use sigma.Paging.Clone.Stable.{tables_from}
use sigma.Paging.Clone.Rounds.{too_few, HasFewer, IsFilled, Filled, filled}
use sigma.Paging.Clone.Loop.{clone_entries-Filled}
use sigma.Paging.Clone.NewTable.{
  later-apart, first-fresh, tables_new, IsNewTable, NewTable, none_free, new_table,
  alloc_table-NewTable, same_new, filled_copies, filled_kept, filled_count, filled-Took,
}
use sigma.Paging.{Store, present, get_phys}
use sigma.Paging.Clone.Levels.{clone_pdpt-ClonesAt}

-- The address space with upper table `n` is a copy of the one with upper table `root`.
pub record IsClone (root : ℕ) (own : Owner) (s : Store) (n : ℕ) (s' : Store) : Type 0 where
  pub fresh : List ℕ
  pub took : Took fresh s s'
  pub count : length fresh ≡ length (tables_of s root)
  pub kept : (u i : ℕ) → times u fresh ≡ 0 → s'.entries u i ≡ s.entries u i
  pub space : IsSpace root own s'
  pub itself : times n fresh ≢ 0
  pub lower :
      (i : ℕ) → i < 256 → IsEntryCopy (Copied fresh s s' 2) (s'.entries n i) (s.entries root i)
  pub upper : (i : ℕ) → 256 ≤ i → i < 512 → s'.entries n i ≡ s.entries root i
  pub pages : (virt : ℕ) → get_phys n virt s' ≡ get_phys root virt s

pub data Clone (root : ℕ) (own : Owner) (s : Store) : Outcome (ℕ × Store) → Type 0 where
  short_of : HasFewer (length (tables_of s root)) s → Clone root own s panic
  clone : (n : ℕ) (s' : Store) → IsClone root own s n s' → Clone root own s (ok (n, s'))

module _ (root : ℕ) (own : Owner) (s : Store) (v : IsSpace root own s)
    (small : HasNoHuge own s) where
  tables_count : length (tables_of s root) ≡ suc (length (tables_from s 2 root 0 256))
  tables_count = length-append (tables_from s 2 root 0 256) (root ∷ []) ∙ omega arith

  page_path-AreIndices : (virt : ℕ) → AreIndices (page_path virt)
  unfolding pml4_index pdpt_index pd_index pt_index
  page_path-AreIndices virt = (omega arith, (omega arith, (omega arith, (omega arith, tt))))

  -- Paths from entries that are copied as they are.
  shared_leads :
      (s' : Store) (n i : ℕ) (is : List ℕ)
      → SameTables own s s'
      → length is ≡ 3
      → s'.entries n i ≡ s.entries root i
      → lookup s' n (i ∷ is) ≡ lookup s root (i ∷ is)
  shared_leads s' n i is same len e =
      ap (λ z. if present z then lookup s' (get_frame z) is else none)
        (e ∙ sym (same root i [] v.tree.at_root))
      ∙ lookup_same root own s s' v.tree same (i ∷ is) root [] v.tree.at_root (omega (arith, len))

  copy_pages :
      (s' : Store) (n : ℕ) (fresh : List ℕ)
      → SameTables own s s'
      → ((i : ℕ) → i < 256 → IsEntryCopy (Copied fresh s s' 2) (s'.entries n i) (s.entries root i))
      → ((i : ℕ) → 256 ≤ i → i < 512 → s'.entries n i ≡ s.entries root i)
      → (virt : ℕ) → get_phys n virt s' ≡ get_phys root virt s
  copy_pages s' n fresh same lower upper virt =
      get_phys-lookup n virt s'
      ∙ ap phys_of (elim (dec_lt (pml4_index virt) 256) [
        | yes l ↦
            entry_leads fresh s s' (Copied fresh s s' 2) n root (pml4_index virt) rest
              (λ a b c. lookup-Copied fresh s s' 2 a b rest refl (page_path-AreIndices virt).1 c)
              (lower (pml4_index virt) l)
        | no g ↦
            shared_leads s' n (pml4_index virt) rest same refl
              (upper (pml4_index virt) (omega (arith, g)) (page_path-AreIndices virt).0)
      ])
      ∙ sym (get_phys-lookup root virt s)
    where
      rest : List ℕ
      rest = pdpt_index virt ∷ pd_index virt ∷ pt_index virt ∷ []

  module _ (n : ℕ) (s₀ : Store) (new : IsNewTable root own s n s₀) (s' : Store)
      (f : IsFilled 2 n root 0 256 s₀ s') where
    abbrev s'' : Store
    s'' = copy_entries n root 256 256 s'

    at_root : own root ≡ some []
    at_root = v.tree.at_root

    c : IsCopy n root 256 256 s' s''
    c = copy_entries-IsCopy 256 n root 256 s' (λ e. none-some (sym new.apart ∙ ap own e ∙ at_root))

    whole-Took : Took (n ∷ f.fresh) s s''
    whole-Took x =
        filled-Took root own s v small n s₀ new 2 root 256 [] at_root refl s' f x
        ∙ ap (λ q. times x (n ∷ f.fresh) + free_count q.live x) (sym c.pmm)

    whole_kept : (u i : ℕ) → times u (n ∷ f.fresh) ≡ 0 → s''.entries u i ≡ s.entries u i
    whole_kept u i z =
        c.others u i (λ e. first-fresh n f.fresh (subst (λ a. times a (n ∷ f.fresh) ≡ 0) (sym e) z))
        ∙ filled_kept root own s v small n s₀ new 2 root 256 [] at_root refl s' f u i z

    whole_same : SameTables own s s''
    whole_same u i p o = whole_kept u i (fresh-owned v s'' (n ∷ f.fresh) whole-Took o)

    whole_lower :
        (i : ℕ)
        → i < 256
        → IsEntryCopy (Copied (n ∷ f.fresh) s s'' 2) (s''.entries n i) (s.entries root i)
    whole_lower i l =
        subst (λ e. IsEntryCopy (Copied (n ∷ f.fresh) s s'' 2) e (s.entries root i))
          (sym (c.below i l))
          (filled_copies root own s v small n s₀ new 2 root 256 [] at_root refl s' f s''
            (λ u j h.
              c.others u j
                (later-apart root own s v small n s₀ new 2 root 256 [] at_root refl s' f u h))
            i l)

    whole_upper : (i : ℕ) → 256 ≤ i → i < 512 → s''.entries n i ≡ s.entries root i
    whole_upper i g l =
        c.inside i g l
        ∙ filled_kept root own s v small n s₀ new 2 root 256 [] at_root refl s' f root i (
            fresh-owned v s' (n ∷ f.fresh)
              (filled-Took root own s v small n s₀ new 2 root 256 [] at_root refl s' f) at_root)

    whole-IsClone : IsClone root own s n s''
    whole-IsClone = record {
      fresh = n ∷ f.fresh;
      took = whole-Took;
      count =
          ap suc (filled_count root own s v small n s₀ new 2 root 256 [] at_root refl s' f)
          ∙ sym tables_count;
      kept = whole_kept;
      space =
          took-IsSpace v s'' (n ∷ f.fresh) whole-Took (subst HasRoom (sym c.pmm) f.room) whole_same;
      itself = first-fresh n f.fresh;
      lower = whole_lower;
      upper = whole_upper;
      pages = copy_pages s'' n (n ∷ f.fresh) whole_same whole_lower whole_upper;
    }

  -- The copy of an address space whose tables form a tree, apart from the free frames and with no
  -- huge entry above the last tables, into a new context panics only if fewer frames are free than
  -- the address space has tables (of its lower half, and the upper table). Else it takes as many free
  -- frames and writes nothing else, so that the old address space is as it was; each table of the
  -- lower half of the new one is one of these frames, with the flags of the old entry on the way to
  -- it and the entries of the old last tables; the upper half has the same entries; and each address
  -- is in the same frame in both.
  pub clone_paging_info-Clone : Clone root own s (clone_paging_info root none s)
  unfolding clone_paging_info deinit init
  clone_paging_info-Clone = from _ (alloc_table-NewTable root own s v)
    where
      after_loop :
          (n : ℕ) (s₀ : Store)
          → IsNewTable root own s n s₀
          → (o : Outcome Store) → Filled 2 n root 0 256 s₀ o
          → Clone root own s (o >>= λ s'. ok (n, copy_entries n root 256 256 s'))
      after_loop n s₀ new _ (too_few h) = short_of (
        n ∷ h.0,
        omega (
          arith,
          h.1,
          tables_count,
          tables_new root own s v small n s₀ new 2 root 256 [] v.tree.at_root refl,
        ),
        λ x. omega (arith, new.took x, h.2 x),
      )
      after_loop n s₀ new _ (filled s' f) = clone n _ (whole-IsClone n s₀ new s' f)

      from :
          (o : Outcome (ℕ × Store))
          → NewTable root own s o
          → Clone root own s (
              o >>= λ r. clone_entries clone_pdpt r.0 root 0 256 r.1 >>= λ s'.
              ok (r.0, copy_entries r.0 root 256 256 s'))
      from _ (none_free h) = short_of ([], omega (arith, tables_count), λ x. h x)
      from _ (new_table n s₀ new) = after_loop n s₀ new _ (
          clone_entries-Filled 2 root own n root [] v.tree.at_root refl clone_pdpt
            (clone_pdpt-ClonesAt root own) new.apart 256 0 s₀ new.space
            (same-HasNoHuge v s₀ (same_new root own s v small n s₀ new) small) new.taken
            (λ j a. new.blank j))
