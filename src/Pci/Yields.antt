-- ===== src/Pci/Yields.antt =====
-- `read_bar` of kernel/source/arch/x86_64/drivers/pci.cpp always gives a bar.
use sigma.Base.{
  ltb, ℕ, ◌+◌, ◌*◌, ◌/◌, ◌%◌, ◌≡◌, ◌==◌, refl, if◌then◌else◌, Bool, true, false, Option, none, some,
  ap, ◌∙◌,
}
use sigma.Paging.Entries.{bit_test}
use sigma.Pci.{Coord, Access, Run, ◌>>=◌, return, Bar}
use sigma.Pci.Bars.{mark_missing, read_bar, read_io_bar, read_mem_bar, mem_base, probe}

-- The routine gives a result.
abbrev pub Yields : {S A : Type 0} → Option (A × S) → Type 0
Yields {S} {A} o = (a : A) × (s : S) × (o ≡ some (a, s))

module _ {S A B : Type 0} where
  bind-Yields :
      (m : Run S A) (k : A → Run S B) (s : S)
      → Yields (m s)
      → ((a : A) (s' : S) → Yields (k a s'))
      → Yields ((m >>= k) s)
  bind-Yields m k s (a, s', e) h = ((h a s').0, (h a s').1, ap from e ∙ (h a s').2)
    where
      from : Option (A × S) → Option (B × S)
      from none = none
      from (some (a, s')) = k a s'

module _ {S A : Type 0} where
  if-Yields :
      (b : Bool) (m k : Run S A) (s : S)
      → Yields (m s)
      → Yields (k s)
      → Yields ((if b then m else k) s)
  if-Yields true m k s h g = h
  if-Yields false m k s h g = g

module _ {S : Type 0} (a : Access S) where
  mem_base-Yields : (c : Coord) (offset bar : ℕ) (s : S) → Yields (mem_base a c offset bar s)
  unfolding mem_base
  mem_base-Yields c offset bar s =
      if-Yields (bar / 2 % 4 == 0) _ _ s (_, _, refl)
        (if-Yields (bar / 2 % 4 == 2) _ _ s (_, _, refl) (_, _, refl))

  bar_body-Yields :
      (c : Coord) (number offset bar : ℕ) (s : S)
      → Yields (
          (if bit_test bar 0
              then read_io_bar a c number offset bar
              else read_mem_bar a c number offset bar)
            s)
  unfolding read_io_bar read_mem_bar probe
  bar_body-Yields c number offset bar s =
      if-Yields (bit_test bar 0) _ _ s (_, _, refl)
        (bind-Yields (mem_base a c offset bar) _ s (mem_base-Yields c offset bar s)
          (λ b s'. (_, _, refl)))

  pub read_bar_ends :
      (c : Coord) (number : ℕ) (s : S)
      → (b : Bar) × (s' : S) × (read_bar a c number s ≡ some (b, s'))
  unfolding read_bar
  read_bar_ends c number s =
      if-Yields (ltb 5 number) _ _ s (_, _, refl)
        (bind-Yields
          (if bit_test (a.read c (16 + number * 4) 4 s).0 0
            then read_io_bar a c number (16 + number * 4) (a.read c (16 + number * 4) 4 s).0
            else read_mem_bar a c number (16 + number * 4) (a.read c (16 + number * 4) 4 s).0)
          (λ b. return (mark_missing b)) (a.read c (16 + number * 4) 4 s).1
          (bar_body-Yields c number (16 + number * 4) (a.read c (16 + number * 4) 4 s).0 _)
          (λ b s'. (_, _, refl)))
