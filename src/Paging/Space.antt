-- ===== src/Paging/Space.antt =====
-- An address space of kernel/source/arch/x86_64/paging.cpp and the free frames, and what a walk
-- that makes missing tables leaves of them.
use sigma.Base.{
  ℕ, ◌+◌, ◌<◌, ◌≤◌, ◌≡◌, ◌≢◌, refl, none, some, List, [], ◌∷◌, length, Outcome, ok, panic,
}
use sigma.Mm.Pmm.Frames.{free_count, HasRoom, times}
use sigma.Paging.Bits.{IsFrame}
use sigma.Paging.Tree.{Owner, IsTree, lookup}
use sigma.Paging.{Store}

-- A tree of tables, and a frame allocator that lists no table as free, nothing twice, and only
-- frames that an entry can name.
pub record IsSpace (root : ℕ) (own : Owner) (s : Store) : Type 0 where
  pub tree : IsTree root own s
  pub room : HasRoom s.pmm
  pub apart : (x : ℕ) → free_count s.pmm.live x ≢ 0 → own x ≡ none
  pub once : (x : ℕ) → free_count s.pmm.live x ≤ 1
  pub frames : (x : ℕ) → free_count s.pmm.live x ≢ 0 → IsFrame x

-- The frames `used` were free before and are not any more.
abbrev pub Took : List ℕ → Store → Store → Type 0
Took used s s' = (x : ℕ) → free_count s.pmm.live x ≡ times x used + free_count s'.pmm.live x

-- Nothing that was there is lost: tables keep their place, and paths of four indices their end.
pub record Keeps (own own' : Owner) (s s' : Store) : Type 0 where
  pub owners : (t : ℕ) (p : List ℕ) → own t ≡ some p → own' t ≡ some p
  pub ends :
      (t : ℕ) (p is : List ℕ)
      → own t ≡ some p
      → length p + length is ≡ 4
      → lookup s' t is ≡ lookup s t is
  pub stays :
      (t f : ℕ) (p is : List ℕ)
      → own t ≡ some p
      → length p + length is ≤ 4
      → lookup s t is ≡ some f
      → lookup s' t is ≡ some f

abbrev pub rev_onto : List ℕ → List ℕ → List ℕ
rev_onto [] p = p
rev_onto (i ∷ is) p = rev_onto is (i ∷ p)

-- The walk down from `t` has come to `u`, with the frames `used` for new tables.
pub record IsWalked (root : ℕ) (own : Owner) (s : Store) (p : List ℕ) (t : ℕ) (is : List ℕ) (u : ℕ)
    (s' : Store) : Type 0 where
  pub own' : Owner
  pub used : List ℕ
  pub space : IsSpace root own' s'
  pub owned : own' u ≡ some (rev_onto is p)
  pub keeps : Keeps own own' s s'
  pub leads : lookup s' t is ≡ some u
  pub few : length used ≤ length is
  pub took : Took used s s'
  pub only : (x : ℕ) → times x used ≡ 0 → own' x ≡ own x

-- It came to an end of the free frames before.
pub record RanOut (s : Store) (is : List ℕ) : Type 0 where
  pub used : List ℕ
  pub few : length used < length is
  pub all_taken : (x : ℕ) → free_count s.pmm.live x ≡ times x used

pub data Walked (root : ℕ) (own : Owner) (s : Store) (p : List ℕ) (t : ℕ) (is : List ℕ)
    : Outcome (ℕ × Store) → Type 0 where
  halts : RanOut s is → Walked root own s p t is panic
  arrives :
      (u : ℕ) (s' : Store) → IsWalked root own s p t is u s' → Walked root own s p t is (ok (u, s'))

pub Keeps-refl : (own : Owner) (s : Store) → Keeps own own s s
Keeps-refl own s = record {
  owners = λ t p h. h;
  ends = λ t p is h l. refl;
  stays = λ t f p is h l e. e;
}
