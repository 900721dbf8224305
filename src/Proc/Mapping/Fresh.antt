-- ===== src/Proc/Mapping/Fresh.antt =====
-- The rounds of `map_anonymous` of kernel/source/proc/process.cpp that take fresh frames.
use sigma.Base.{
  ℕ, ◌+◌, ◌<◌, ◌≤◌, ◌≡◌, ◌≢◌, ◌⊎◌, inl, inr, refl, arith, ◌==◌, if◌then◌else◌, true, Bool-cases,
  none, some, List, [], ◌∷◌, ◌++◌, length, ap, sym, ◌∙◌, Outcome, ok, panic, ◌>>=◌,
}
use sigma.Mm.Pmm.{Pmm}
use sigma.Mm.Pmm.Frames.{free_count, HasRoom, hit, times}
use sigma.Mm.Pmm.Alloc.{alloc_block-Allocated}
use sigma.Paging.{Store, clear_table, map_page}
use sigma.Paging.Entries.{bit_test, get_frame, normal}
use sigma.Paging.Tree.{Owner, lookup, same-IsTree, lookup_same}
use sigma.Paging.Space.{IsSpace}
use sigma.Paging.Pages.{
  page_path, page_of, phys_of, get_phys-lookup, IsMapped, MapPage, out_of_frames, mapped,
  map_page-MapPage,
}
use sigma.Paging.{get_phys}
use sigma.Proc.Mapping.{Mappings, add_page, can_clear, add_fresh}

-- Fewer than `n` frames were free, or a frame at address 0.
abbrev pub TooFew : ℕ → Store → Type 0
TooFew n s =
    ((used : List ℕ) × (length used < n) × ((x : ℕ) → free_count s.pmm.live x ≡ times x used))
    ⊎ (free_count s.pmm.live 0 ≢ 0)

-- One page more, with a frame of its own and at most three for tables.
pub record IsAdded (root virt : ℕ) (a a' : Mappings) : Type 0 where
  pub own' : Owner
  pub block : ℕ
  pub tables : List ℕ
  pub space : IsSpace root own' a'.store
  pub listed : a'.frames ≡ a.frames ++ block ∷ []
  pub itself : get_phys root virt a'.store ≡ block
  pub others :
      (v : ℕ) → page_of v ≢ page_of virt → get_phys root v a'.store ≡ get_phys root v a.store
  pub few : length tables ≤ 3
  pub took :
      (x : ℕ)
      → free_count a.store.pmm.live x
        ≡ hit block x + times x tables + free_count a'.store.pmm.live x

pub data Added (root virt : ℕ) (a : Mappings) : Outcome Mappings → Type 0 where
  starved : TooFew 4 a.store → Added root virt a panic
  added : (a' : Mappings) → IsAdded root virt a a' → Added root virt a (ok a')

module _ (root : ℕ) (own : Owner) (s : Store) (v : IsSpace root own s) where
  -- A frame is taken.
  taken-IsSpace :
      (b : ℕ) (q : Pmm)
      → HasRoom q
      → ((x : ℕ) → free_count s.pmm.live x ≡ hit b x + free_count q.live x)
      → IsSpace root own (record s { pmm = q })
  taken-IsSpace b q room counts = record {
    tree = record { at_root = v.tree.at_root; below = v.tree.below };
    room = room;
    apart = λ x h. v.apart x (λ e. h (omega (arith, counts x, e)));
    once = λ x. omega (arith, counts x, v.once x);
    frames = λ x h. v.frames x (λ e. h (omega (arith, counts x, e)));
  }

  -- What no table is may be cleared.
  module _ (b : ℕ) (free : own b ≡ none) where
    same : (t i : ℕ) (p : List ℕ) → own t ≡ some p → (clear_table b s).entries t i ≡ s.entries t i
    unfolding clear_table
    same t i p h = ground (arith, apart)
      where
        apart : b ≢ t
        apart e = absurd (clash (sym free ∙ ap own e ∙ h))
          where
            clash : none ≡ some p → ⊥
            clash z = cc

    cleared-IsSpace : IsSpace root own (clear_table b s)
    unfolding clear_table same
    cleared-IsSpace = record {
      tree = same-IsTree root own s (clear_table b s) v.tree same;
      room = v.room;
      apart = v.apart;
      once = v.once;
      frames = v.frames;
    }

    get_phys-clear : (a : ℕ) → get_phys root a (clear_table b s) ≡ get_phys root a s
    get_phys-clear a =
        get_phys-lookup root a (clear_table b s)
        ∙ ap phys_of (
            lookup_same root own s (clear_table b s) v.tree same (page_path a) root []
              v.tree.at_root (omega arith))
        ∙ sym (get_phys-lookup root a s)

module _ (root virt flags : ℕ) (own : Owner) (there : bit_test flags 0 ≡ true)
    (can : can_clear virt flags ≡ true) where
  -- The round after its frame has been taken.
  module _ (a : Mappings) (v : IsSpace root own a.store) (b : ℕ) (q : Pmm) (room : HasRoom q)
      (counts : (x : ℕ) → free_count a.store.pmm.live x ≡ hit b x + free_count q.live x) where
    abbrev taken : Mappings
    taken = record a { store = record a.store { pmm = q }; frames = a.frames ++ b ∷ [] }

    was_free : free_count a.store.pmm.live b ≢ 0
    was_free e = ground (arith, counts b)

    after_map :
        (s' : Store)
        → IsMapped root b virt flags own taken.store s'
        → Added root virt a (ok (record taken { store = clear_table b s' }))
    unfolding get_frame clear_table
    after_map s' m = added _ (record {
      own' = m.own';
      block = b;
      tables = m.used;
      space = cleared;
      listed = refl;
      itself =
          get_phys-clear root m.own' s' m.space b not_owned virt ∙ m.itself ∙ rw there own_frame;
      others = λ x ne.
          get_phys-clear root m.own' s' m.space b not_owned x ∙ m.others x ne ∙ same_tables x;
      few = m.few;
      took = λ x. took_all x;
    })
      where
        not_owned : m.own' b ≡ none
        not_owned = m.only b (omega (arith, m.took b, counts b, v.once b, one)) ∙ v.apart b was_free
          where
            one : hit b b ≡ 1
            one = ground arith

        cleared : IsSpace root m.own' (clear_table b s')
        cleared = cleared-IsSpace root m.own' s' m.space b not_owned

        own_frame : get_frame b ≡ b
        own_frame = omega (arith, v.frames b was_free)

        same_end :
            (x : ℕ) → lookup taken.store root (page_path x) ≡ lookup a.store root (page_path x)
        same_end x = refl

        same_tables : (x : ℕ) → get_phys root x taken.store ≡ get_phys root x a.store
        same_tables x =
            get_phys-lookup root x taken.store
            ∙ ap phys_of (same_end x)
            ∙ sym (get_phys-lookup root x a.store)

        took_all :
            (x : ℕ)
            → free_count a.store.pmm.live x
              ≡ hit b x + times x m.used + free_count (clear_table b s').pmm.live x
        took_all x = omega (arith, counts x, m.took x)

  pub add_fresh-Added :
      (a : Mappings) → IsSpace root own a.store → Added root virt a (add_fresh root virt flags a)
  unfolding add_fresh add_page
  add_fresh-Added a v = rw can (elim (alloc_block-Allocated a.store.pmm v.room) [
    | inl (e, none_free) ↦ rw e (starved (inl ([], omega arith, λ x. none_free x)))
    | inr (b, q, e, room, slots, counts) ↦ rw e (with_block b q room counts)
  ])
    where
      with_block :
          (b : ℕ) (q : Pmm)
          → HasRoom q
          → ((x : ℕ) → free_count a.store.pmm.live x ≡ hit b x + free_count q.live x)
          → Added root virt a (
              if b == 0
              then panic
              else (map_page root b virt flags normal (record a.store { pmm = q })
                  >>= (λ s. ok (record a { store = s; frames = a.frames ++ b ∷ [] }))
                  >>= λ a'. ok (record a' { store = clear_table b a'.store })))
      with_block b q room counts = elim (Bool-cases (b == 0)) [
        | inl null ↦ rw null (starved (inr (at_zero null)))
        | inr other ↦ rw other (
            from _ (
              map_page-MapPage root b virt flags own (record a.store { pmm = q }) normal
                (taken-IsSpace root own a.store v b q room counts)))
      ]
        where
          at_zero : (b == 0) ≡ true → free_count a.store.pmm.live 0 ≢ 0
          at_zero h e = ground (arith, h, counts 0, e)

          from :
              (o : Outcome Store)
              → MapPage root b virt flags own (record a.store { pmm = q }) o
              → Added root virt a (
                  o >>= (λ s. ok (record a { store = s; frames = a.frames ++ b ∷ [] })) >>= λ a'.
                  ok (record a' { store = clear_table b a'.store }))
          from _ (out_of_frames r) =
              starved (
                inl (b ∷ r.used, omega (arith, r.few), λ x. omega (arith, counts x, r.all_taken x)))
          from _ (mapped s' m) = after_map a v b q room counts s' m
