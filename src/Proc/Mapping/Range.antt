-- ===== src/Proc/Mapping/Range.antt =====
-- `map_anonymous` of kernel/source/proc/process.cpp over a range of addresses.
use sigma.Base.{
  length-append, ◌%◌, ℕ, zero, suc, ◌+◌, ◌*◌, ◌<◌, ◌≤◌, ◌≡◌, ◌≢◌, inl, inr, refl, arith, ◌==◌, true,
  false, some, List, [], ◌∷◌, ◌++◌, append_assoc, append-nil, length, ap, sym, ◌∙◌, Outcome, ok,
  panic, ◌>>=◌, u64, add64, block_size,
}
use sigma.Mm.Pmm.Frames.{free_count, times, times-append}
use sigma.Paging.{get_phys}
use sigma.Paging.Entries.{bit_test}
use sigma.Paging.Tree.{Owner}
use sigma.Paging.Space.{IsSpace}
use sigma.Paging.Pages.{page_of}
use sigma.Paging.Search.{div_ceil}
use sigma.Proc.Lifecycle.{is_canonical}
use sigma.Proc.Mapping.{Mappings, can_clear, map_fresh, map_at, map_anonymous, page_flags}
use sigma.Proc.Mapping.Fresh.{TooFew, IsAdded, Added, starved, added, add_fresh-Added}

-- The pages from `virt` on are in these frames.
abbrev pub AreAt : ℕ → ℕ → List ℕ → Mappings → Type 0
AreAt root virt [] a = Unit {0}
AreAt root virt (b ∷ bs) a =
    (get_phys root virt a.store ≡ b) × AreAt root (add64 virt block_size) bs a

-- `n` pages more from `virt` on, each with a frame of its own, and at most three tables for each.
pub record IsFilled (root virt n : ℕ) (a a' : Mappings) : Type 0 where
  pub own' : Owner
  pub blocks : List ℕ
  pub tables : List ℕ
  pub space : IsSpace root own' a'.store
  pub all_pages : length blocks ≡ n
  pub listed : a'.frames ≡ a.frames ++ blocks
  pub at : AreAt root virt blocks a'
  pub others :
      (v : ℕ)
      → ((i : ℕ) → i < n → page_of v ≢ page_of (virt + 4096 * i))
      → get_phys root v a'.store ≡ get_phys root v a.store
  pub few : length tables ≤ 3 * n
  pub took :
      (x : ℕ)
      → free_count a.store.pmm.live x
        ≡ times x blocks + times x tables + free_count a'.store.pmm.live x

pub data Filled (root virt n : ℕ) (a : Mappings) : Outcome Mappings → Type 0 where
  ran_short : TooFew (4 * n) a.store → Filled root virt n a panic
  filled : (a' : Mappings) → IsFilled root virt n a a' → Filled root virt n a (ok a')

module _ (root virt n : ℕ) (small : suc n ≤ 68719476736) (inside : virt + 4096 * suc n < u64)
    (a a₁ : Mappings) (w : IsAdded root virt a a₁) where
  next_virt : add64 virt block_size ≡ virt + 4096
  next_virt = omega arith

  other_page : (i : ℕ) → i < n → page_of virt ≢ page_of (add64 virt block_size + 4096 * i)
  other_page i h = omega arith

  Filled-cons :
      (o : Outcome Mappings)
      → Filled root (add64 virt block_size) n a₁ o
      → Filled root virt (suc n) a o
  Filled-cons _ (ran_short (inl (used, few, all_taken))) = ran_short (
      inl (
        w.block ∷ (w.tables ++ used),
        omega (arith, few, w.few, length-append w.tables used),
        λ x. omega (arith, w.took x, all_taken x, times-append x w.tables used),
      ))
  Filled-cons _ (ran_short (inr null)) = ran_short (inr (λ e. null (omega (arith, w.took 0, e))))
  Filled-cons _ (filled a' z) = filled a' (record {
    own' = z.own';
    blocks = w.block ∷ z.blocks;
    tables = w.tables ++ z.tables;
    space = z.space;
    all_pages = omega (arith, z.all_pages);
    listed =
        z.listed ∙ ap (λ f. f ++ z.blocks) w.listed ∙ append_assoc a.frames (w.block ∷ []) z.blocks;
    at = (z.others virt other_page ∙ w.itself, z.at);
    others = λ v apart. z.others v (λ i h. from_next v apart i h) ∙ w.others v (from_first v apart);
    few = omega (arith, z.few, w.few, length-append w.tables z.tables);
    took = λ x. omega (arith, w.took x, z.took x, times-append x w.tables z.tables);
  })
    where
      from_first :
          (v : ℕ)
          → ((i : ℕ) → i < suc n → page_of v ≢ page_of (virt + 4096 * i))
          → page_of v ≢ page_of virt
      from_first v apart e = apart 0 (omega arith) (omega (arith, e))

      from_next :
          (v : ℕ)
          → ((i : ℕ) → i < suc n → page_of v ≢ page_of (virt + 4096 * i))
          → (i : ℕ) → i < n
          → page_of v ≢ page_of (add64 virt block_size + 4096 * i)
      from_next v apart i h e = apart (suc i) (omega arith) (omega (arith, e, next_virt))

module _ (root flags : ℕ) (there : bit_test flags 0 ≡ true)
    (writable : bit_test flags 1 ≡ true) where
  clearable :
      (virt : ℕ) → virt % block_size ≡ 0 → virt < 0x800000000000 → can_clear virt flags ≡ true
  unfolding can_clear is_canonical
  clearable virt aligned low = ground (arith, there, writable)

  map_fresh-Filled :
      (n virt : ℕ) (own : Owner) (a : Mappings)
      → IsSpace root own a.store
      → virt % block_size ≡ 0
      → virt + 4096 * n ≤ 0x800000000000
      → Filled root virt n a (map_fresh root flags n virt a)
  unfolding map_fresh
  map_fresh-Filled zero virt own a v aligned inside = filled a (record {
    own' = own;
    blocks = [];
    tables = [];
    space = v;
    all_pages = refl;
    listed = sym (append-nil a.frames);
    at = tt;
    others = λ v apart. refl;
    few = omega arith;
    took = λ x. omega arith;
  })
  map_fresh-Filled (suc n) virt own a v aligned inside =
      from _ (add_fresh-Added root virt flags own there (clearable virt aligned (omega arith)) a v)
        (λ own'' a₁ v₁.
          map_fresh-Filled n (add64 virt block_size) own'' a₁ v₁ (omega arith) (omega arith))
    where
      from :
          (o : Outcome Mappings)
          → Added root virt a o
          → ((own'' : Owner) (a₁ : Mappings)
              → IsSpace root own'' a₁.store
              → Filled root
                  (add64 virt block_size)
                  n
                  a₁
                  (map_fresh root flags n (add64 virt block_size) a₁))
          → Filled root virt (suc n) a (o >>= map_fresh root flags n (add64 virt block_size))
      from _ (starved (inl (used, few, all_taken))) rest =
          ran_short (inl (used, omega (arith, few), all_taken))
      from _ (starved (inr null)) rest = ran_short (inr null)
      from _ (added a₁ w) rest =
          Filled-cons root virt n (omega arith) (omega arith) a a₁ w _ (rest w.own' a₁ w.space)

-- Called for pages that can be read and written, without frames, with a page-aligned address that is
-- not null and a range in the lower half of the addresses, in an address space whose tables form a
-- tree apart from the free frames: `map_anonymous` halts only if fewer than four free frames for each
-- page were left or a frame at address 0 was free; else it gives the address back, each page of the
-- range is in a frame of its own, which was free before, is not any more, and is on the thread's
-- list, at most three frames for each page became tables, the other pages are where they were, and
-- the tables still form such a tree.
pub map_anonymous-Filled :
    (fuel : ℕ) (devices : List ℕ) (root size virt prot : ℕ) (own : Owner) (a : Mappings)
    → IsSpace root own a.store
    → virt ≢ 0
    → virt % block_size ≡ 0
    → bit_test prot 0 ≡ true
    → bit_test prot 1 ≡ true
    → virt + size ≤ 0x800000000000
    → (o : Outcome Mappings) × (map_anonymous fuel devices root size virt 0 prot a
        ≡ some (o >>= λ a'. ok (virt, a')))
      × Filled root virt (div_ceil size block_size) a o
unfolding map_anonymous map_at page_flags div_ceil bit_test
map_anonymous-Filled fuel devices root size virt prot own a v some_virt aligned readable writable
      inside =
    (
      map_fresh root (page_flags prot) (div_ceil size block_size) virt a,
      rw not_null refl,
      map_fresh-Filled root (page_flags prot) is_readable is_writable (div_ceil size block_size)
          virt own a v aligned (omega arith),
    )
  where
    not_null : (virt == 0) ≡ false
    not_null = ground arith

    is_readable : bit_test (page_flags prot) 0 ≡ true
    is_readable = ground (arith, readable)

    is_writable : bit_test (page_flags prot) 1 ≡ true
    is_writable = ground (arith, readable, writable)
