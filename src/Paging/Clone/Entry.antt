-- ===== src/Paging/Clone/Entry.antt =====
-- The entry that kernel/source/arch/x86_64/paging.cpp makes for a copied table, and the loop that
-- copies entries.
use sigma.Base.{
  ℕ, zero, suc, ◌+◌, ◌/◌, ◌<◌, ◌≤◌, ◌≡◌, ◌≢◌, ◌⊎◌, inl, inr, refl, arith, ◌==◌, ap, ◌∙◌, ℕ_discrete,
}
use sigma.Paging.Entries.{
  bit_test, low_field, frame_field, high_field, entry_of, get_frame, get_flags, set_flags,
}
use sigma.Paging.Bits.{IsFrame, bit_or_zero, set_frame_zero}
use sigma.Paging.{Store, present, huge, write_entry}
use sigma.Paging.Clone.{cloned_entry, copy_entries}

pub get_flags-present : (e : ℕ) → present (get_flags e) ≡ present e
unfolding get_flags bit_test
get_flags-present e = ap (λ z. z == 1) (omega arith)

pub get_flags-huge : (e : ℕ) → huge (get_flags e) ≡ huge e
unfolding get_flags bit_test
get_flags-huge e = ap (λ z. z == 1) (omega arith)

cloned_entry_sum :
    (f e : ℕ) → IsFrame f → cloned_entry f e ≡ entry_of (low_field e) (f / 4096) (high_field e)
unfolding cloned_entry set_flags get_flags get_frame
cloned_entry_sum f e h =
    ap (λ z. set_flags z (get_flags e)) (set_frame_zero f)
    ∙ rw
        (
          no_low,
          no_high,
          own_frame,
          low_flags,
          high_flags,
          bit_or_zero (low_field e),
          bit_or_zero (high_field e),
        )
        refl
  where
    no_low : low_field (get_frame f) ≡ 0
    no_low = omega arith

    no_high : high_field (get_frame f) ≡ 0
    no_high = omega arith

    own_frame : frame_field (get_frame f) ≡ f / 4096
    own_frame = omega (arith, h)

    low_flags : low_field (get_flags e) ≡ low_field e
    low_flags = omega arith

    high_flags : high_field (get_flags e) ≡ high_field e
    high_flags = omega arith

-- It names the copy, and has the flags of the old entry.
pub cloned_entry_lem :
    (f e : ℕ)
    → IsFrame f
    → (present (cloned_entry f e) ≡ present e)
      × (get_frame (cloned_entry f e) ≡ f)
      × (get_flags (cloned_entry f e) ≡ get_flags e)
unfolding bit_test get_frame get_flags
cloned_entry_lem f e h = (
  ap (λ z. z == 1) (omega (arith, cloned_entry_sum f e h)),
  omega (arith, cloned_entry_sum f e h),
  omega (arith, cloned_entry_sum f e h),
)

-- What the loop of `clone_pt` leaves: only the new table is written, at the places copied.
pub record IsCopy (new old i n : ℕ) (s s' : Store) : Type 0 where
  pub pmm : s'.pmm ≡ s.pmm
  pub inside : (j : ℕ) → i ≤ j → j < i + n → s'.entries new j ≡ s.entries old j
  pub below : (j : ℕ) → j < i → s'.entries new j ≡ s.entries new j
  pub others : (u j : ℕ) → new ≢ u → s'.entries u j ≡ s.entries u j

pub copy_entries-IsCopy :
    (n new old i : ℕ) (s : Store) → new ≢ old → IsCopy new old i n s (copy_entries new old i n s)
unfolding copy_entries write_entry
copy_entries-IsCopy zero new old i s ne = record {
  pmm = refl;
  inside = λ j a b. absurd (omega arith);
  below = λ j a. refl;
  others = λ u j a. refl;
}
copy_entries-IsCopy (suc n) new old i s ne =
    let s₁ : Store = write_entry new i (s.entries old i) s in
    let rest : IsCopy new old (suc i) n s₁ (copy_entries new old (suc i) n s₁) =
      copy_entries-IsCopy n new old (suc i) s₁ ne in
    record {
      pmm = rest.pmm;
      inside = λ j a b. elim (ℕ_discrete i j) [
        | yes e ↦ rest.below j (omega (arith, e)) ∙ first j e
        | no z ↦ rest.inside j (omega (arith, z)) (omega arith) ∙ other old j (inl ne)
      ];
      below =
          λ j a. rest.below j (omega arith) ∙ other new j (inr (λ e. absurd (omega (arith, e, a))));
      others = λ u j a. rest.others u j a ∙ other u j (inl a);
    }
  where
    first :
        (j : ℕ) → i ≡ j → (write_entry new i (s.entries old i) s).entries new j ≡ s.entries old j
    first j e = ground (arith, e)

    other :
        (u j : ℕ)
        → (new ≢ u) ⊎ (i ≢ j)
        → (write_entry new i (s.entries old i) s).entries u j ≡ s.entries u j
    other u j (inl a) = ground (arith, a)
    other u j (inr a) = ground (arith, a)
