-- ===== src/Pci/Sizing.antt =====
-- `read_bar` of kernel/source/arch/x86_64/drivers/pci.cpp on registers that keep to the PCI standard.
use native.Mathlib.Nat.{mul_assoc}
use sigma.Base.{
  Bool-cases, inl, inr, ◌≢◌, inr, inl, ap₂, ◌⊎◌, ℕ, ◌+◌, ◌*◌, ◌/◌, ◌%◌, ◌-◌, ◌==◌, ◌<◌, ◌≤◌, ◌≡◌,
  refl, arith, ltb, if◌then◌else◌, Bool, false, Option, some, none, ap, sym, ◌∙◌,
}
use sigma.Paging.Entries.{bit_test, bit_set}
use sigma.Pci.{Coord, Access, Run, ◌>>=◌, return, Bar, bar_type_mem}
use sigma.Pci.Bars.{
  all_ones, negated, probe, prefetch_mark, mem_base, read_io_bar, read_mem_bar, read_bar,
  bar_offset, mark_missing,
}

-- The register at an offset: it maps `size` bytes at one of the places 0 to `last` of that size, and
-- its bits below the size are the read-only `flags`. Reading does not change what it holds.
pub record IsRegister {S : Type 0} (a : Access S) (c : Coord) (offset size last flags : ℕ)
    (value : S → ℕ) : Type 0 where
  pub reads : (s : S) → (a.read c offset 4 s).0 ≡ value s
  pub stays : (s : S) (o : ℕ) → value (a.read c o 4 s).1 ≡ value s
  pub writes :
      (s : S) (q r : ℕ)
      → r < size
      → q ≤ last
      → value (a.write c offset (q * size + r) 4 s) ≡ q * size + flags

-- A memory register of 32 or, with the register after it, of 64 bits, below 4 GiB in size. The
-- register after it, if used, holds what it likes, and reading this one does not change it.
pub record IsMemoryBar {S : Type 0} (a : Access S) (c : Coord) (offset size last flags : ℕ)
    (value upper_value : S → ℕ) : Type 0 where
  pub register : IsRegister a c offset size last flags value
  pub units : ℕ
  pub in_units : size ≡ units * 16
  pub nonzero : 16 ≤ size
  pub fills : last * size + size ≡ 4294967296
  pub below : size < 4294967296
  pub small : flags < 16
  pub memory : flags % 2 ≡ 0
  pub kind : (flags / 2 % 4 ≡ 0) ⊎ (flags / 2 % 4 ≡ 2)
  pub upper : flags / 2 % 4 ≡ 2 → (s : S) → (a.read c (offset + 4) 4 s).0 ≡ upper_value s
  pub upper_stays :
      flags / 2 % 4 ≡ 2 → (s : S) → upper_value (a.read c offset 4 s).1 ≡ upper_value s

in_sixteens : (place k : ℕ) → place * (k * 16) ≡ place * k * 16
in_sixteens place k = sym (mul_assoc place k 16)

bind-some :
    {S A B : Type 0} (m : Run S A) (k : A → Run S B) (s : S) {a : A} {s' : S}
    → m s ≡ some (a, s')
    → (m >>= k) s ≡ k a s'
bind-some {S} {A} {B} m k s e = ap from e
  where
    from : Option (A × S) → Option (B × S)
    from none = none
    from (some (a, s')) = k a s'

mark_missing_lem : (b : Bar) → b.len ≢ 0 → mark_missing b ≡ b
unfolding mark_missing
mark_missing_lem b h = ground (arith, h)

module _ {S : Type 0} (a : Access S) (c : Coord) (number offset size last flags high place : ℕ)
    (value upper_value : S → ℕ) (m : IsMemoryBar a c offset size last flags value upper_value) where
  probed :
      (s : S) (r : ℕ)
      → r < 16
      → place ≤ last
      → (s' : S) × (probe a c offset (place * size + r) s ≡ some (last * size + flags, s'))
        × (value s' ≡ place * size + flags)
  unfolding probe
  probed s r small inside =
      let s₁ : S = a.write c offset all_ones 4 s in
      let s₂ : S = (a.read c offset 4 s₁).1 in
      (
        a.write c offset (place * size + r) 4 s₂,
        ap (λ x. some (x, a.write c offset (place * size + r) 4 s₂))
            (m.register.reads s₁
              ∙ ap (λ v. value (a.write c offset v 4 s)) ones
              ∙ m.register.writes s last (size - 1) (omega (arith, m.nonzero)) (omega arith)),
        m.register.writes s₂ place r (omega (arith, m.nonzero, small)) inside,
      )
    where
      ones : all_ones ≡ last * size + (size - 1)
      ones = omega (arith, m.fills, m.nonzero)

  len_lem : negated 16 (last * size + flags) ≡ size
  len_lem = omega (arith, m.fills, m.in_units, m.small, m.nonzero, m.below)

  base_lem : (place * size + flags) / 16 * 16 ≡ place * size
  base_lem = omega (arith, in_sixteens place m.units, ap (λ z. place * z) m.in_units, m.small)

  kind_lem : (place * size + flags) / 2 % 4 ≡ flags / 2 % 4
  kind_lem = omega (arith, in_sixteens place m.units, ap (λ z. place * z) m.in_units)

  low_bit : (place * size + flags) % 2 ≡ 0
  low_bit = omega (arith, in_sixteens place m.units, ap (λ z. place * z) m.in_units, m.memory)

  -- What the base is by the type of the register.
  abbrev base_of : ℕ
  base_of = place * size + (if flags / 2 % 4 == 2 then high * 4294967296 else 0)

  mem_base_lem :
      (s : S)
      → value s ≡ place * size + flags
      → (flags / 2 % 4 ≡ 2 → upper_value s ≡ high)
      → (s' : S) × (mem_base a c offset (place * size + flags) s ≡ some (base_of, s'))
        × (value s' ≡ place * size + flags)
  unfolding mem_base
  mem_base_lem s h up = elim m.kind [
    | inl z ↦
        rw (ap (λ w. w == 0) (kind_lem ∙ z), ap (λ w. w == 2) z)
          (s, ap (λ w. some (w, s)) (omega (arith, base_lem)), h)
    | inr z ↦
        rw (ap (λ w. w == 0) (kind_lem ∙ z), ap (λ w. w == 2) (kind_lem ∙ z), ap (λ w. w == 2) z)
          (
            (a.read c (offset + 4) 4 s).1,
            ap₂ (λ b w. some (b + w * 4294967296, (a.read c (offset + 4) 4 s).1)) base_lem
                (m.upper z s ∙ up z),
            m.register.stays s (offset + 4) ∙ h,
          )
  ]

  marked : (r : ℕ) × (prefetch_mark (place * size + flags) ≡ place * size + r) × (r < 16)
  unfolding prefetch_mark bit_set bit_test
  marked = elim (Bool-cases (bit_test (place * size + flags) 3)) [
    | inr plain ↦ rw plain (flags, refl, m.small)
    | inl fetched ↦ rw (fetched, even) (flags + 1, omega arith, omega (arith, m.small, m.memory))
  ]
    where
      even : ((place * size + flags) / 1 % 2 == 1) ≡ false
      even = ap (λ z. z == 1) bit_zero
        where
          bit_zero : (place * size + flags) / 1 % 2 ≡ 0
          bit_zero = omega (arith, low_bit)

  from_bar :
      (s : S)
      → value s ≡ place * size + flags
      → (flags / 2 % 4 ≡ 2 → upper_value s ≡ high)
      → place ≤ last
      → (s' : S) × ((read_mem_bar a c number offset (place * size + flags) >>= λ b.
              return (mark_missing b))
            s
          ≡ some (
            record { type = bar_type_mem; number = number; flags = 0; base = base_of; len = size },
            s',
          ))
        × (value s' ≡ place * size + flags)
  unfolding read_mem_bar
  from_bar s holds up inside =
      let (s₁, e₁, h₁) = mem_base_lem s holds up in
      let (r, e₂, h₂) = marked in
      let (s₂, e₃, h₃) = probed s₁ r h₂ inside in
      let inner : read_mem_bar a c number offset (place * size + flags) s
          ≡ some (
            record {
              type = bar_type_mem;
              number = number;
              flags = 0;
              base = base_of;
              len = negated 16 (last * size + flags);
            },
            s₂,
          ) =
        bind-some (mem_base a c offset (place * size + flags)) _ s e₁
        ∙ bind-some (probe a c offset (prefetch_mark (place * size + flags)))
            (λ x. return (sized (negated 16 x))) s₁ (ap (λ z. probe a c offset z s₁) e₂ ∙ e₃) in
      (
        s₂,
        bind-some (read_mem_bar a c number offset (place * size + flags)) _ s inner
            ∙ ap (λ l. some (mark_missing (sized l), s₂)) len_lem
            ∙ ap (λ b. some (b, s₂))
                (mark_missing_lem (sized size) (λ e. absurd (omega (arith, e, m.nonzero)))),
        h₃,
      )
    where
      sized : ℕ → Bar
      sized l = record { type = bar_type_mem; number = number; flags = 0; base = base_of; len = l }

module _ {S : Type 0} (a : Access S) (c : Coord) (number size last flags place : ℕ)
    (value upper_value : S → ℕ) where
  -- After `read_bar` on a memory register that keeps to the standard, the register holds what it held,
  -- though it was overwritten to learn its size; the bar is as long as what the register maps, and
  -- starts at the address it held, for a 64-bit register with what the next register held above it.
  pub read_bar-sized :
      (s : S)
      → IsMemoryBar a c (bar_offset number) size last flags value upper_value
      → number ≤ 5
      → place ≤ last
      → value s ≡ place * size + flags
      → (s' : S) × (read_bar a c number s
          ≡ some (
            record {
              type = bar_type_mem;
              number = number;
              flags = 0;
              base = place * size + (if flags / 2 % 4 == 2 then upper_value s * 4294967296 else 0);
              len = size;
            },
            s',
          ))
        × (value s' ≡ value s)
  unfolding read_bar bit_test
  read_bar-sized s m valid inside holds =
      let s₁ : S = (a.read c (bar_offset number) 4 s).1 in
      let (s', e, h) =
        from_bar a c number (bar_offset number) size last flags (upper_value s) place value
          upper_value m s₁ (m.register.stays s (bar_offset number) ∙ holds) (λ z. m.upper_stays z s)
          inside in
      (
        s',
        rw in_range (
            ap (λ v. after v s₁) (m.register.reads s ∙ holds)
            ∙ ap (λ b. choice b s₁) is_memory
            ∙ e),
        h ∙ sym holds,
      )
    where
      in_range : ltb 5 number ≡ false
      in_range = ground arith

      is_memory : bit_test (place * size + flags) 0 ≡ false
      is_memory = ap (λ z. z == 1) bit_zero
        where
          bit_zero : (place * size + flags) / 1 % 2 ≡ 0
          bit_zero = omega (
            arith,
            low_bit a c number (bar_offset number) size last flags 0 place value upper_value m,
          )

      after : ℕ → S → Option (Bar × S)
      after v =
          (if bit_test v 0
            then read_io_bar a c number (bar_offset number) v
            else read_mem_bar a c number (bar_offset number) v)
          >>= λ b. return (mark_missing b)

      choice : Bool → S → Option (Bar × S)
      choice b =
          (if b
            then read_io_bar a c number (bar_offset number) (place * size + flags)
            else read_mem_bar a c number (bar_offset number) (place * size + flags))
          >>= λ b. return (mark_missing b)
