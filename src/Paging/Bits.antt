-- ===== src/Paging/Bits.antt =====
-- What the bit operations of kernel/source/arch/x86_64/paging.cpp make of the entries built there.
use Prim.Native.Nat.{bit_or, bit_or-bitwise}
use sigma.Base.{
  ℕ, ◌+◌, ◌*◌, ◌/◌, ◌%◌, ◌^◌, ◌<◌, ◌≡◌, refl, arith, ◌==◌, Bool, true, false, ap, ◌∙◌,
  if◌then◌else◌,
}
use sigma.Paging.Entries.{
  CacheType, normal, uncacheable, write_through, write_back, write_combining, bit_test, bit_set,
  set_if, low_field, frame_field, high_field, entry_of, get_frame, set_frame, set_flags,
  add_pat_flags,
}
use sigma.Paging.{table_entry, page_entry, entry_flags, present}

pub bit_or_zero : (x : ℕ) → bit_or 0 x ≡ x
bit_or_zero x = bit_or-bitwise 0 x

-- A frame that an entry can name.
abbrev pub IsFrame : ℕ → Type 0
IsFrame f = (f % 4096 ≡ 0) × (f < 4503599627370496)

pub get_frame-IsFrame : (e : ℕ) → IsFrame (get_frame e)
unfolding get_frame
get_frame-IsFrame e = omega arith

pub set_frame_zero : (p : ℕ) → set_frame 0 p ≡ get_frame p
unfolding set_frame get_frame
set_frame_zero p = omega (arith, bit_or_zero (frame_field p))

bit_set_clear : (e n : ℕ) → bit_test e n ≡ false → bit_set e n ≡ e + 2 ^ n
unfolding bit_set
bit_set_clear e n h = rw h refl

table_entry_sum : (f : ℕ) → IsFrame f → table_entry f ≡ f + 7
unfolding table_entry bit_test get_frame
table_entry_sum f h =
    ap (λ z. bit_set (bit_set (bit_set z 0) 1) 2) whole
    ∙ ap (λ z. bit_set (bit_set z 1) 2) (bit_set_clear f 0 (ground arith))
    ∙ ap (λ z. bit_set z 2) (bit_set_clear (f + 1) 1 (ground arith))
    ∙ bit_set_clear (f + 1 + 2) 2 (ground arith)
    ∙ omega arith
  where
    whole : set_frame 0 f ≡ f
    whole = omega (arith, set_frame_zero f)

-- The entry for a new table is present and names it.
pub table_entry_lem :
    (f : ℕ) → IsFrame f → (present (table_entry f) ≡ true) × (get_frame (table_entry f) ≡ f)
unfolding bit_test get_frame
table_entry_lem f h = rw (table_entry_sum f h) (ground arith, omega arith)

-- The cache bits leave the bits 0 to 2 and those from 12 on.
module _ (e : ℕ) where
  kept_upper : (c : CacheType) → add_pat_flags c e / 4096 ≡ e / 4096
  unfolding add_pat_flags bit_set bit_test
  kept_upper normal = refl
  kept_upper write_back = refl
  kept_upper write_combining = ground arith
  kept_upper write_through = ground arith
  kept_upper uncacheable = ground arith

  kept_low : (c : CacheType) → add_pat_flags c e % 8 ≡ e % 8
  unfolding add_pat_flags bit_set bit_test
  kept_low normal = refl
  kept_low write_back = refl
  kept_low write_combining = ground arith
  kept_low write_through = ground arith
  kept_low uncacheable = ground arith

abbrev flags_from : Bool → Bool → Bool → Bool → Bool → ℕ
flags_from b0 b1 b2 b3 b4 = set_if b1 1 (set_if b4 8 (set_if b3 63 (set_if b2 2 (set_if b0 0 0))))

abbrev val : Bool → ℕ → ℕ
val b n = if b then n else 0

flags_sum :
    (b0 b1 b2 b3 b4 : Bool)
    → flags_from b0 b1 b2 b3 b4
      ≡ val b0 1 + val b1 2 + val b2 4 + val b4 256 + val b3 9223372036854775808
unfolding set_if bit_test
flags_sum b0 b1 b2 b3 b4 = ground arith

-- What an entry of `map_page` says: the frame, and the five bits asked for.
pub record IsPageEntry (phys flags e : ℕ) : Type 0 where
  pub frame : get_frame e ≡ get_frame phys
  pub is_present : bit_test e 0 ≡ bit_test flags 0
  pub is_writable : bit_test e 1 ≡ bit_test flags 1
  pub is_user : bit_test e 2 ≡ bit_test flags 2
  pub no_execute : bit_test e 63 ≡ bit_test flags 3

module _ (phys flags : ℕ) (c : CacheType) where
  bare : ℕ
  bare = set_flags (set_frame 0 phys) (entry_flags flags)

  bare_sum :
      bare
      ≡ entry_of (low_field (entry_flags flags)) (frame_field phys) (high_field (entry_flags flags))
  unfolding bare set_flags get_frame
  bare_sum =
      ap (λ z. set_flags z (entry_flags flags)) (set_frame_zero phys)
      ∙ rw
          (
            no_low,
            own_frame,
            no_high,
            bit_or_zero (low_field (entry_flags flags)),
            bit_or_zero (high_field (entry_flags flags)),
          )
          refl
    where
      no_low : low_field (get_frame phys) ≡ 0
      no_low = omega arith

      own_frame : frame_field (get_frame phys) ≡ frame_field phys
      own_frame = omega arith

      no_high : high_field (get_frame phys) ≡ 0
      no_high = omega arith

  flags_of :
      entry_flags flags
      ≡ val (bit_test flags 0) 1
        + val (bit_test flags 1) 2
        + val (bit_test flags 2) 4
        + val (bit_test flags 4) 256
        + val (bit_test flags 3) 9223372036854775808
  unfolding entry_flags
  flags_of =
      flags_sum (bit_test flags 0) (bit_test flags 1) (bit_test flags 2) (bit_test flags 3)
        (bit_test flags 4)

  bit_of : (b : Bool) (x : ℕ) → x ≡ val b 1 → (x == 1) ≡ b
  bit_of true x h = ground arith
  bit_of false x h = ground arith

  val_times : (b : Bool) (n : ℕ) → val b n ≡ n * val b 1
  val_times true n = omega arith
  val_times false n = omega arith

  val_bound : (b : Bool) → val b 1 < 2
  val_bound true = omega arith
  val_bound false = omega arith

  page : ℕ
  page = page_entry phys flags c

  upper : page / 4096 ≡ bare / 4096
  unfolding page page_entry bare
  upper = kept_upper _ c

  lower : page % 8 ≡ bare % 8
  unfolding page page_entry bare
  lower = kept_low _ c

  own : (n : ℕ) → ℕ
  own n = val (bit_test flags n) 1

  flags_own :
      entry_flags flags ≡ own 0 + 2 * own 1 + 4 * own 2 + 256 * own 4 + 9223372036854775808 * own 3
  unfolding own
  flags_own = omega (
    arith,
    flags_of,
    val_times (bit_test flags 1) 2,
    val_times (bit_test flags 2) 4,
    val_times (bit_test flags 4) 256,
    val_times (bit_test flags 3) 9223372036854775808,
  )

  own_bound : (n : ℕ) → own n < 2
  unfolding own
  own_bound n = val_bound (bit_test flags n)

  page_bits :
      (page / 4096 % 1099511627776 ≡ phys / 4096 % 1099511627776)
      × (page / 1 % 2 ≡ own 0)
      × (page / 2 % 2 ≡ own 1)
      × (page / 4 % 2 ≡ own 2)
      × (page / 9223372036854775808 % 2 ≡ own 3)
  page_bits = omega (
    arith,
    upper,
    lower,
    bare_sum,
    flags_own,
    own_bound 0,
    own_bound 1,
    own_bound 2,
    own_bound 3,
    own_bound 4,
  )

  pub page_entry-IsPageEntry : IsPageEntry phys flags (page_entry phys flags c)
  unfolding get_frame bit_test page own
  page_entry-IsPageEntry = record {
    frame = ap (λ z. z * 4096) page_bits.0;
    is_present = bit_of (bit_test flags 0) _ (page_bits.1);
    is_writable = bit_of (bit_test flags 1) _ (page_bits.2);
    is_user = bit_of (bit_test flags 2) _ (page_bits.3);
    no_execute = bit_of (bit_test flags 3) _ (page_bits.4);
  }
