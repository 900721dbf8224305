-- ===== src/Paging/Tests.antt =====
-- One page mapped by four tables, for the code of kernel/source/arch/x86_64/paging.cpp.
use sigma.Base.{
  subst, ℕ, ◌+◌, ◌*◌, ◌<◌, ◌≤◌, ◌≡◌, ◌≢◌, refl, arith, ◌==◌, if◌then◌else◌, true, none, some, List,
  [], ◌∷◌, length, ok, ◌>>=◌, block_size, minus_one, ℕ_discrete, ap, sym, ◌∙◌,
}
use sigma.Mm.Pmm.Frames.{free_count, hit, times, run_count}
use sigma.Paging.{Store, present, map_page, get_phys}
use sigma.Paging.Entries.{pml4_index, pdpt_index, pd_index, pt_index, bit_test, get_frame, normal}
use sigma.Paging.Tree.{Owner, IsTree, some-injective, none-some, true-false}
use sigma.Paging.Space.{IsSpace}
use sigma.Paging.Pages.{MapPage, map_page-MapPage}
use sigma.Paging.Clean.{deinit, init, tables_of, deinit-tables_of}
use sigma.Proc.Lifecycle.{free_frames}
use sigma.Paging.Clone.{clone_paging_info}
use sigma.Paging.Clone.Copied.{HasNoHuge}
use sigma.Paging.Clone.Whole.{Clone, clone_paging_info-Clone}
use sigma.Paging.Release.{deinit-frees, deinit-init_twice}
use sigma.Paging.Search.{get_free_range, div_ceil}
use sigma.Paging.FirstFit.{Searched, get_free_range-Searched}

abbrev pub entry : ℕ → ℕ
entry t =
    if t == 4096
    then 8199
    else if t == 8192
    then 12295
    else if t == 12288
    then 16391
    else if t == 16384
    then 40967
    else 0

abbrev pub one_page : Store
one_page = record {
  entries = λ t i. if i == 0 then entry t else 0;
  pmm = record { live = record { base = 20480; n_pages = 3 } ∷ []; stale = []; n_slots = 100 };
}

abbrev pub owner : Owner
owner t =
    if t == 4096
    then some []
    else if t == 8192
    then some (0 ∷ [])
    else if t == 12288
    then some (0 ∷ 0 ∷ [])
    else if t == 16384
    then some (0 ∷ 0 ∷ 0 ∷ [])
    else none

free_three :
    (x : ℕ)
    → free_count one_page.pmm.live x
      ≡ (if 20480 == x then 1 else 0)
        + (if 24576 == x then 1 else 0)
        + (if 28672 == x then 1 else 0)
unfolding free_count run_count
free_three x = omega arith

test_mapped : get_phys 4096 0 one_page ≡ 40960
unfolding get_phys bit_test pml4_index pdpt_index pd_index pt_index
test_mapped = refl

test_unmapped : get_phys 4096 4096 one_page ≡ minus_one
unfolding get_phys bit_test pml4_index pdpt_index pd_index pt_index
test_unmapped = refl

-- The row of `owner` for a table, and what it is next to.
next_owner :
    (t u : ℕ) (q p : List ℕ)
    → owner t ≡ some q
    → owner u ≡ some (0 ∷ q)
    → get_frame (entry t) ≡ u
    → owner t ≡ some p
    → owner (get_frame (entry t)) ≡ some (0 ∷ p)
next_owner t u q p e f g h = ap owner g ∙ f ∙ ap (λ z. some (0 ∷ z)) (some-injective (sym e ∙ h))

below_first :
    (t : ℕ) (p : List ℕ)
    → owner t ≡ some p
    → length p < 3
    → owner (get_frame (entry t)) ≡ some (0 ∷ p)
unfolding get_frame
below_first t p h short = elim (ℕ_discrete t 4096) [
  | yes a ↦
      subst (λ z. owner z ≡ some p → owner (get_frame (entry z)) ≡ some (0 ∷ p)) (sym a)
        (next_owner 4096 8192 [] p refl refl refl) h
  | no not_a ↦ elim (ℕ_discrete t 8192) [
    | yes b ↦
        subst (λ z. owner z ≡ some p → owner (get_frame (entry z)) ≡ some (0 ∷ p)) (sym b)
          (next_owner 8192 12288 (0 ∷ []) p refl refl refl) h
    | no not_b ↦ elim (ℕ_discrete t 12288) [
      | yes c ↦
          subst (λ z. owner z ≡ some p → owner (get_frame (entry z)) ≡ some (0 ∷ p)) (sym c)
            (next_owner 12288 16384 (0 ∷ 0 ∷ []) p refl refl refl) h
      | no not_c ↦ elim (ℕ_discrete t 16384) [
        | yes d ↦ absurd (long (ap length (some-injective (sym (ap owner d) ∙ h))))
        | no not_d ↦ absurd (none-some (sym (nowhere not_a not_b not_c not_d) ∙ h))
      ]
    ]
  ]
]
  where
    long : 3 ≡ length p → ⊥
    long e = omega arith

    nowhere : t ≢ 4096 → t ≢ 8192 → t ≢ 12288 → t ≢ 16384 → owner t ≡ none
    nowhere a b c d = ground arith

one_page-IsTree : IsTree 4096 owner one_page
unfolding bit_test get_frame
one_page-IsTree = record {
  at_root = refl;
  below = λ t i p h short there. elim (ℕ_discrete i 0) [
    | no ne ↦ absurd (elsewhere t i ne there)
    | yes e ↦
        subst (λ z. owner (get_frame (one_page.entries t z)) ≡ some (z ∷ p)) (sym e)
          (below_first t p h short)
  ];
}
  where
    elsewhere : (t i : ℕ) → i ≢ 0 → present (one_page.entries t i) ≡ true → ⊥
    elsewhere t i ne there = true-false (sym there ∙ ap present (no_entry t i ne))
      where
        no_entry : (t i : ℕ) → i ≢ 0 → one_page.entries t i ≡ 0
        no_entry t i ne = ground arith

pub one_page-IsSpace : IsSpace 4096 owner one_page
one_page-IsSpace = record {
  tree = one_page-IsTree;
  room = record { room = omega arith };
  apart = λ x h. ground (arith, free_three x);
  once = λ x. ground (arith, free_three x);
  frames = λ x h. ground (arith, free_three x);
}

map_page-MapPage_example :
    MapPage 4096 45056 137438953472 3 owner one_page
      (map_page 4096 45056 137438953472 3 normal one_page)
map_page-MapPage_example =
    map_page-MapPage 4096 45056 137438953472 3 owner one_page normal one_page-IsSpace

deinit-tables_of_example :
    deinit (some 4096) one_page
    ≡ (free_frames (tables_of one_page 4096) one_page.pmm >>= λ m. ok (record one_page { pmm = m }))
deinit-tables_of_example = deinit-tables_of 4096 one_page

deinit-frees_example :
    (s' : Store) × (deinit (some 4096) one_page ≡ ok s')
    × ((x : ℕ)
        → free_count s'.pmm.live x
          ≡ times x (tables_of one_page 4096) + free_count one_page.pmm.live x)
    × ((x : ℕ) → free_count s'.pmm.live x ≤ 1)
unfolding bit_test get_frame
deinit-frees_example =
    deinit-frees 4096 owner one_page one_page-IsSpace (omega arith)
      (record { slots = omega arith; slack = (omega arith, omega arith, omega arith) })

deinit-init_twice_example :
    (n : ℕ) × (s' : Store) × ((deinit (some 4096) one_page >>= init (some 4096)) ≡ ok (n, s'))
    × ((x : ℕ)
        → hit n x + free_count s'.pmm.live x
          ≡ 2 * times x (tables_of one_page 4096) + free_count one_page.pmm.live x)
unfolding bit_test get_frame
deinit-init_twice_example =
    deinit-init_twice 4096 one_page (omega arith)
      (record { slots = omega arith; slack = (omega arith, omega arith, omega arith) })

get_free_range-Searched_example :
    Searched
      (λ ptr. get_phys 4096 ptr one_page == minus_one)
      0
      16384
      (div_ceil 8192 block_size)
      (get_free_range 6 4096 0 16384 8192 one_page)
get_free_range-Searched_example =
    get_free_range-Searched 6 4096 0 16384 8192 one_page (omega arith) (omega arith) (omega arith)
      (omega arith) (omega arith)

-- The same page, with a free frame for each table of a copy.
abbrev four_free : Store
four_free = record one_page {
  pmm = record { live = record { base = 20480; n_pages = 4 } ∷ []; stale = []; n_slots = 100 };
}

free_four :
    (x : ℕ)
    → free_count four_free.pmm.live x
      ≡ (if 20480 == x then 1 else 0)
        + (if 24576 == x then 1 else 0)
        + (if 28672 == x then 1 else 0)
        + (if 32768 == x then 1 else 0)
unfolding free_count run_count
free_four x = omega arith

four_free-IsSpace : IsSpace 4096 owner four_free
four_free-IsSpace = record {
  tree = record { at_root = one_page-IsTree.at_root; below = one_page-IsTree.below };
  room = record { room = omega arith };
  apart = λ x h. ground (arith, free_four x);
  once = λ x. ground (arith, free_four x);
  frames = λ x h. ground (arith, free_four x);
}

four_free-HasNoHuge : HasNoHuge owner four_free
unfolding bit_test
four_free-HasNoHuge t i p o short there = ground arith

clone_paging_info-Clone_example : Clone 4096 owner four_free (clone_paging_info 4096 none four_free)
clone_paging_info-Clone_example =
    clone_paging_info-Clone 4096 owner four_free four_free-IsSpace four_free-HasNoHuge
