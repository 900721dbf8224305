-- ===== src/Pci/Tests.antt =====
-- A machine with one bridge, and one with one base address register, for the code of
-- kernel/source/arch/x86_64/drivers/pci.cpp.
use sigma.Base.{ℕ, ◌+◌, ◌*◌, ◌/◌, ◌≡◌, ◌==◌, ◌&&◌, inr, refl, arith, if◌then◌else◌, Bool, some}
use sigma.Pci.{Coord, Access, bar_type_mem, swizzle}
use sigma.Pci.Config.{make_pci_address}
use sigma.Pci.Bars.{read_bar}
use sigma.Pci.Sizing.{IsMemoryBar, read_bar-sized}
use sigma.Pci.Grows.{Ends}

test_address : make_pci_address 1 2 3 22 ≡ 2147554068
unfolding make_pci_address
test_address = refl

test_swizzle : swizzle 4 5 ≡ 1
unfolding swizzle
test_swizzle = refl

abbrev place : Coord
place = record { seg = 0; bus = 0; slot = 0; function = 0 }

-- A prefetchable register of 64 bits that maps 16 bytes; both of its halves can be written.
abbrev wide_register : Access (ℕ × ℕ)
wide_register = record {
  read = λ c o n s. (if o == 16 then s.0 else if o == 20 then s.1 else 0, s);
  write = λ c o v n s. if o == 16 then (v / 16 * 16 + 12, s.1) else if o == 20 then (s.0, v) else s;
}

wide_register-IsMemoryBar : IsMemoryBar wide_register place 16 16 268435455 12 (λ s. s.0) (λ s. s.1)
wide_register-IsMemoryBar = record {
  register = record {
    reads = λ s. refl;
    stays = λ s o. refl;
    writes = λ s q r small inside. omega (arith, small);
  };
  units = 1;
  in_units = refl;
  nonzero = omega arith;
  fills = refl;
  below = omega arith;
  small = omega arith;
  memory = refl;
  kind = inr refl;
  upper = λ z s. refl;
  upper_stays = λ z s. refl;
}

read_bar-sized_example :
    (s' : ℕ × ℕ) × (read_bar wide_register place 0 (60, 1)
      ≡ some
          (record { type = bar_type_mem; number = 0; flags = 0; base = 4294967344; len = 16 }, s'))
    × (s'.0 ≡ 60)
read_bar-sized_example =
    read_bar-sized wide_register place 0 16 268435455 12 3 (λ s. s.0) (λ s. s.1) (60, 1)
      wide_register-IsMemoryBar (omega arith) (omega arith) refl

abbrev at_bridge : Coord → Bool
at_bridge c = (c.bus == 0) && (c.slot == 0) && (c.function == 0)

-- A bridge to bus 1 with one capability, MSI-X, at 64; its list starts at 52.
abbrev bridge_register : ℕ → ℕ
bridge_register o =
    if o == 0
    then 4660
    else if o == 6
    then 16
    else if o == 11
    then 6
    else if o == 10
    then 4
    else if o == 25
    then 1
    else if o == 52
    then 64
    else if o == 64
    then 17
    else 0

-- The other functions are absent and read all ones.
abbrev all_ones_of : ℕ → ℕ
all_ones_of n = if n == 1 then 255 else if n == 2 then 65535 else 4294967295

abbrev one_bridge : Access ℕ
one_bridge = record {
  read = λ c o n s. (if at_bridge c then bridge_register o else all_ones_of n, s);
  write = λ c o v n s. s;
}
