-- ===== src/Proc/Lifecycle/Release.antt =====
-- The loop of `kill`, kernel/source/proc/process.cpp, that gives back the frames of a thread.
use sigma.Base.{
  ◌∙◌, sym, false, mul64, block_size, subst, Option, List, ℕ, suc, ◌≡◌, [], ◌∷◌, ◌+◌, ◌<◌, ◌≤◌,
  length, refl, arith, Option-cases, Bool-cases, inl, inr, ok, u64, add64, none, some, ◌==◌,
}
use sigma.Mm.Pmm.{overwrite, push, Pmm, RleEntry, join, join_first, free_block}
use sigma.Mm.Pmm.Frames.{times, hit, free_count, AreInRange}
use sigma.Mm.Pmm.Free.{join_first_lem, Freed, free_block-Freed}
use sigma.Proc.Lifecycle.{free_frames}

abbrev pub AreAddresses : List ℕ → Type 0
AreAddresses [] = Unit {0}
AreAddresses (f ∷ fs) = (f < u64) × AreAddresses fs

-- Every entry can grow by `n` frames and stay within the physical memory.
abbrev pub CanGrow : ℕ → List RleEntry → Type 0
CanGrow n [] = suc n < 4503599627370496
CanGrow n (e ∷ es) = (e.base < u64) × (e.n_pages + n < 4503599627370496) × CanGrow n es

-- The predicate on what is there, if anything is.
abbrev IfAny {ℓ} : {A : Type ℓ} → (A → Type 0) → Option A → Type 0
IfAny P none = Unit {0}
IfAny P (some a) = P a

module _ (a : ℕ) (ha : a < u64) where
  slack_less : (n : ℕ) (es : List RleEntry) → CanGrow (suc n) es → CanGrow n es
  slack_less n [] g = omega arith
  slack_less n (e ∷ es) g = (g.0, omega arith, slack_less n es g.2)

  CanGrow-AreInRange : (n : ℕ) (es : List RleEntry) → CanGrow n es → AreInRange es
  CanGrow-AreInRange n [] g = tt
  CanGrow-AreInRange n (e ∷ es) g = (g.0, omega arith, CanGrow-AreInRange n es g.2)

  join-CanGrow :
      (n : ℕ) (e : RleEntry) (es : List RleEntry)
      → CanGrow (suc n) (e ∷ es)
      → IfAny (λ e'. CanGrow n (e' ∷ es)) (join a e)
  unfolding join
  join-CanGrow n e es g = elim (Bool-cases (add64 a block_size == e.base)) [
    | inl lower ↦ rw lower (omega arith, grown, slack_less n es g.2)
    | inr not_lower ↦ elim (Bool-cases (add64 e.base (mul64 e.n_pages block_size) == a)) [
      | inl upper ↦ rw (not_lower, upper) (g.0, grown, slack_less n es g.2)
      | inr neither ↦ rw (not_lower, neither) tt
    ]
  ]
    where
      grown : add64 e.n_pages 1 + n < 4503599627370496
      grown = omega (arith, g.1)

  join_first-CanGrow :
      (n : ℕ) (es : List RleEntry) → CanGrow (suc n) es → IfAny (CanGrow n) (join_first a es)
  unfolding join_first
  join_first-CanGrow n [] g = tt
  join_first-CanGrow n (e ∷ es) g = elim (Option-cases (join_first a es)) [
    | inr (rest, found) ↦
        rw found (g.0, omega arith, subst (IfAny (CanGrow n)) found (join_first-CanGrow n es g.2))
    | inl missed ↦ rw missed (joined (join a e) (join-CanGrow n e es g))
  ]
    where
      joined :
          (o : Option RleEntry)
          → IfAny (λ e'. CanGrow n (e' ∷ es)) o
          → IfAny (CanGrow n) (elim o [ some e' ↦ some (e' ∷ es) | none ↦ none ])
      joined none c = tt
      joined (some e') c = c

ok-injective {ℓ} : {A : Type ℓ} {a b : A} → ok a ≡ ok b → a ≡ b
ok-injective e = cc

-- What `free_block` leaves of the stack.
record IsGrown (a m : ℕ) (p q : Pmm) : Type 0 where
  slots : q.n_slots ≡ p.n_slots
  longer : length q.live ≤ suc (length p.live)
  slack : CanGrow m q.live
  counts : (x : ℕ) → free_count q.live x ≡ hit a x + free_count p.live x

free_block-IsGrown :
    (a m : ℕ) (p : Pmm)
    → a < u64
    → length p.live + 3 ≤ p.n_slots
    → CanGrow (suc m) p.live
    → (q : Pmm) × (free_block a p ≡ ok q) × IsGrown a m p q
unfolding free_block push free_count
free_block-IsGrown a m p ha r g = elim (Option-cases (join_first a p.live)) [
  | inr (live, found) ↦
      (let (len, counts) = join_first_lem a p.live ha range found in
        (
          record p { live = live },
          rw (found, free_block) refl,
          record {
            slots = refl;
            longer = omega (arith, len);
            slack = subst (IfAny (CanGrow m)) found (join_first-CanGrow a ha m p.live g);
            counts = counts;
          },
        ))
  | inl missed ↦ from missed (free_block-Freed a p ha (record { room = omega arith }) range)
]
  where
    range : AreInRange p.live
    range = CanGrow-AreInRange a ha (suc m) p.live g

    pages_left : (es : List RleEntry) → CanGrow (suc m) es → suc (suc m) < 4503599627370496
    pages_left [] c = c
    pages_left (e ∷ es) c = pages_left es c.2

    added : Pmm
    added = record p { live = record { base = a; n_pages = 1 } ∷ p.live; stale = overwrite p.stale }

    not_full : (length p.live + 2 == p.n_slots) ≡ false
    not_full = ground arith

    pushed : join_first a p.live ≡ none → free_block a p ≡ ok added
    pushed missed = rw (missed, free_block) (rw not_full refl)

    from :
        join_first a p.live ≡ none
        → Freed a p (free_block a p)
        → (q : Pmm) × (free_block a p ≡ ok q) × IsGrown a m p q
    from missed (inl (stop, full, z)) = absurd (omega (arith, full))
    from missed (inr (q, e, room, slots, counts)) = (
      added,
      pushed missed,
      record {
        slots = refl;
        longer = omega arith;
        slack = (ha, omega (arith, pages_left p.live g), slack_less a ha m p.live g);
        counts =
            λ x. subst (λ z. free_count z.live x ≡ hit a x + free_count p.live x) same (counts x);
      },
    )
      where
        same : q ≡ added
        same = ok-injective (sym e ∙ pushed missed)

-- Frames freed one after the other; there is still room for `k` more.
pub free_frames_lem :
    (k : ℕ) (fs : List ℕ) (p : Pmm)
    → AreAddresses fs
    → length p.live + (length fs + k) + 2 ≤ p.n_slots
    → CanGrow (length fs + k) p.live
    → (q : Pmm) × (free_frames fs p ≡ ok q)
      × (length q.live + k + 2 ≤ q.n_slots)
      × CanGrow k q.live
      × ((x : ℕ) → free_count q.live x ≡ times x fs + free_count p.live x)
unfolding free_frames
free_frames_lem k [] p v r g =
    (p, refl, omega arith, subst (λ n. CanGrow n p.live) (none_more k) g, λ x. omega arith)
  where
    none_more : (k : ℕ) → 0 + k ≡ k
    none_more k = omega arith
free_frames_lem k (f ∷ fs) p v r g =
    let (p', e, grown) =
      free_block-IsGrown f (length fs + k) p v.0 (omega (arith, r))
        (subst (λ n. CanGrow n p.live) (one_more (length fs)) g) in
    let (q, e', room, slack, counts) =
      free_frames_lem k fs p' v.1 (omega (arith, r, grown.slots, grown.longer)) grown.slack in
    (q, rw (e, free_frames) e', room, slack, λ x. omega (arith, counts x, grown.counts x))
  where
    one_more : (n : ℕ) → suc n + k ≡ suc (n + k)
    one_more n = omega arith
