-- ===== src/Paging/Pages.antt =====
-- `map_page` of kernel/source/arch/x86_64/paging.cpp, read back by `get_phys` and `get_entry`.
use sigma.Base.{
  subst, ℕ, ◌/◌, ◌%◌, ◌≤◌, ◌≡◌, ◌≢◌, inl, inr, refl, arith, if◌then◌else◌, Bool, true, false,
  Bool-cases, Option, none, some, List, [], ◌∷◌, ◌++◌, length, ap, ap₂, sym, ◌∙◌, Outcome, ok,
  panic, ◌>>=◌, minus_one,
}
use sigma.Mm.Pmm.Frames.{times}
use sigma.Paging.Entries.{
  CacheType, bit_test, get_frame, pml4_index, pdpt_index, pd_index, pt_index,
}
use sigma.Paging.Bits.{IsPageEntry, page_entry-IsPageEntry}
use sigma.Paging.Tree.{Owner, lookup, lookup-present, lookup_absent, some-injective, none-some}
use sigma.Paging.Space.{IsSpace, Took, rev_onto, IsWalked, RanOut, Walked, halts, arrives}
use sigma.Paging.Map.{walk_tables-Walked}
use sigma.Paging.Leaf.{leaf-IsTree, lookup-leaf_other, lookup-leaf, lookup-leaf_upper, written}
use sigma.Paging.{
  Store, present, write_entry, page_entry, upper_indices, map_page, find_entry, get_phys, get_entry,
}

-- The four indices of a page, outermost first.
abbrev pub page_path : ℕ → List ℕ
page_path virt = pml4_index virt ∷ pdpt_index virt ∷ pd_index virt ∷ pt_index virt ∷ []

-- The number of the page within the 48 bits of an address.
abbrev pub page_of : ℕ → ℕ
page_of virt = virt / 4096 % 68719476736

abbrev pub phys_of : Option ℕ → ℕ
phys_of none = minus_one
phys_of (some f) = f

abbrev frame_at : Store → Option (ℕ × ℕ) → Option ℕ
frame_at s none = none
frame_at s (some (t, i)) = some (get_frame (s.entries t i))

find-lookup :
    (is : List ℕ) (t last : ℕ) (s : Store)
    → frame_at s (find_entry t is last s) ≡ lookup s t (is ++ last ∷ [])
unfolding find_entry
find-lookup [] t last s = elim (Bool-cases (present (s.entries t last))) [
  | inl h ↦ rw (h, find_entry) refl
  | inr h ↦ rw (h, find_entry) refl
]
find-lookup (i ∷ is) t last s = elim (Bool-cases (present (s.entries t i))) [
  | inl h ↦ rw (h, find_entry) (find-lookup is (get_frame (s.entries t i)) last s)
  | inr h ↦ rw (h, find_entry) refl
]

pub get_phys-lookup :
    (root virt : ℕ) (s : Store) → get_phys root virt s ≡ phys_of (lookup s root (page_path virt))
unfolding get_phys
get_phys-lookup root virt s =
    by_case (find_entry root (upper_indices virt) (pt_index virt) s)
    ∙ ap phys_of (find-lookup (upper_indices virt) root (pt_index virt) s)
  where
    by_case :
        (f : Option (ℕ × ℕ))
        → elim f [ none ↦ minus_one | some (t, i) ↦ get_frame (s.entries t i) ]
          ≡ phys_of (frame_at s f)
    by_case none = refl
    by_case (some (t, i)) = refl

find_there :
    (is : List ℕ) (t u last : ℕ) (s : Store)
    → lookup s t is ≡ some u
    → present (s.entries u last) ≡ true
    → find_entry t is last s ≡ some (u, last)
unfolding find_entry
find_there [] t u last s h there =
    rw (ap (λ z. present (s.entries z last)) (some-injective h) ∙ there, find_entry)
      (ap (λ z. some (z, last)) (some-injective h))
find_there (i ∷ is) t u last s h there = elim (Bool-cases (present (s.entries t i))) [
  | inl pr ↦
      rw (pr, find_entry)
        (find_there is (get_frame (s.entries t i)) u last s (sym (lookup-present s t i is pr) ∙ h)
          there)
  | inr gone ↦ absurd (none-some (sym (lookup_absent s t i is gone) ∙ h))
]

cons-injective : {a b : ℕ} {xs ys : List ℕ} → a ∷ xs ≡ b ∷ ys → (a ≡ b) × (xs ≡ ys)
cons-injective e = (cc, cc)

-- Two addresses with the same indices are in one page.
page_path-injective :
    (a b : ℕ) → rev_onto (page_path a) [] ≡ rev_onto (page_path b) [] → page_of a ≡ page_of b
unfolding pml4_index pdpt_index pd_index pt_index
page_path-injective a b e = omega (
  arith,
  (cons-injective e).0,
  (cons-injective (cons-injective e).1).0,
  (cons-injective (cons-injective (cons-injective e).1).1).0,
  (cons-injective (cons-injective (cons-injective (cons-injective e).1).1).1).0,
)

module _ (root phys virt flags : ℕ) (own : Owner) (s : Store) where
  -- One page is changed, and at most three free frames are spent on tables.
  pub record IsMapped (s' : Store) : Type 0 where
    pub own' : Owner
    pub used : List ℕ
    pub space : IsSpace root own' s'
    pub few : length used ≤ 3
    pub took : Took used s s'
    pub only : (x : ℕ) → times x used ≡ 0 → own' x ≡ own x
    pub itself : get_phys root virt s' ≡ (if bit_test flags 0 then get_frame phys else minus_one)
    pub entry : bit_test flags 0 ≡ true → IsPageEntry phys flags (get_entry root virt s')
    pub others : (v : ℕ) → page_of v ≢ page_of virt → get_phys root v s' ≡ get_phys root v s

  pub data MapPage : Outcome Store → Type 0 where
    out_of_frames : RanOut s (upper_indices virt) → MapPage panic
    mapped : (s' : Store) → IsMapped s' → MapPage (ok s')

  module _ (cache : CacheType) (v₀ : IsSpace root own s) (u : ℕ) (s' : Store)
      (w : IsWalked root own s [] root (upper_indices virt) u s') where
    abbrev e : ℕ
    e = page_entry phys flags cache

    abbrev after : Store
    after = write_entry u (pt_index virt) e s'

    e_lem : IsPageEntry phys flags e
    e_lem = page_entry-IsPageEntry phys flags cache

    found : lookup after root (page_path virt) ≡ (if present e then some (get_frame e) else none)
    found =
        lookup-leaf w.own' s' u (pt_index virt) e _ w.owned refl root w.space.tree
          (upper_indices virt) (omega arith) w.leads

    other_pages : (v : ℕ) → page_of v ≢ page_of virt → get_phys root v after ≡ get_phys root v s
    other_pages v ne =
        get_phys-lookup root v after
        ∙ ap phys_of (
            lookup-leaf_other w.own' s' u (pt_index virt) e _ w.owned refl root w.space.tree
              (page_path v) root [] w.space.tree.at_root refl
              (λ h. ne (page_path-injective v virt h))
            ∙ w.keeps.ends root [] (page_path v) v₀.tree.at_root refl)
        ∙ sym (get_phys-lookup root v s)

    entry_found : bit_test flags 0 ≡ true → get_entry root virt after ≡ e
    unfolding get_entry
    entry_found there =
        ap (λ z. entry_in z)
          (find_there (upper_indices virt) root u (pt_index virt) after
            (lookup-leaf_upper w.own' s' u (pt_index virt) e _ w.owned refl root w.space.tree
                (upper_indices virt) root [] w.space.tree.at_root (omega arith)
              ∙ w.leads)
            (ap present here ∙ e_lem.is_present ∙ there))
        ∙ here
      where
        here : after.entries u (pt_index virt) ≡ e
        here = written w.own' s' u (pt_index virt) e _ w.owned refl

        entry_in : Option (ℕ × ℕ) → ℕ
        entry_in none = 0
        entry_in (some (t, i)) = after.entries t i

    page_found : get_phys root virt after ≡ (if bit_test flags 0 then get_frame phys else minus_one)
    page_found =
        get_phys-lookup root virt after
        ∙ ap phys_of (found ∙ ap₂ (λ a b. if a then some b else none) e_lem.is_present e_lem.frame)
        ∙ choice (bit_test flags 0)
      where
        choice :
            (b : Bool)
            → phys_of (if b then some (get_frame phys) else none)
              ≡ (if b then get_frame phys else minus_one)
        choice true = refl
        choice false = refl

    after-IsMapped : IsMapped after
    unfolding write_entry
    after-IsMapped = record {
      own' = w.own';
      used = w.used;
      space = record {
        tree = leaf-IsTree w.own' s' u (pt_index virt) e _ w.owned refl root w.space.tree;
        room = w.space.room;
        apart = w.space.apart;
        once = w.space.once;
        frames = w.space.frames;
      };
      few = w.few;
      took = w.took;
      only = w.only;
      itself = page_found;
      entry = λ there. subst (IsPageEntry phys flags) (sym (entry_found there)) e_lem;
      others = other_pages;
    }

  -- In an address space whose tables form a tree apart from the free frames, `map_page` panics only
  -- when at most two frames were free; else the address is in the frame asked for, with its
  -- permissions (or is unmapped, if the present flag is not given), every other page is where it
  -- was, at most three free frames are taken, and the tables still form such a tree.
  pub map_page-MapPage :
      (cache : CacheType) → IsSpace root own s → MapPage (map_page root phys virt flags cache s)
  unfolding map_page
  map_page-MapPage cache v =
      from _
        (walk_tables-Walked (upper_indices virt) root own s [] root v v.tree.at_root (omega arith))
    where
      from :
          (o : Outcome (ℕ × Store))
          → Walked root own s [] root (upper_indices virt) o
          → MapPage
              (o >>= λ r. ok (write_entry r.0 (pt_index virt) (page_entry phys flags cache) r.1))
      from _ (halts r) = out_of_frames r
      from _ (arrives u s' w) = mapped _ (after-IsMapped cache v u s' w)
