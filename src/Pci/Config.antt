-- ===== src/Pci/Config.antt =====
-- The ways to the configuration space in kernel/source/arch/x86_64/drivers/pci.cpp: the ports of the
-- legacy mechanism, and the memory windows that the MCFG table lists.
use Prim.Native.Nat.{bit_or}
use sigma.Base.{
  ◌||◌, Bool, ℕ, ◌+◌, ◌*◌, ◌/◌, ◌%◌, ◌-◌, ◌==◌, leb, ◌&&◌, if◌then◌else◌, Option, none, some, List,
  [], ◌∷◌, add64,
}
use sigma.Pci.{Coord, Access}

-- `io::outb`, `outw`, `outd` and `inb`, `inw`, `ind`, by the size in bytes.
pub record Ports (S : Type 0) : Type 0 where
  pub out : ℕ → ℕ → ℕ → S → S
  pub inp : ℕ → ℕ → S → ℕ × S

-- Memory at physical addresses, mapped uncached before each access.
pub record Window (S : Type 0) : Type 0 where
  pub map_page : ℕ → S → S
  pub load : ℕ → ℕ → S → ℕ × S
  pub store : ℕ → ℕ → ℕ → S → S

abbrev pub config_addr : ℕ
config_addr = 3320

abbrev pub config_data : ℕ
config_data = 3324

-- In 32 bits; the offset is cut to whole double words.
unfoldable pub make_pci_address : ℕ → ℕ → ℕ → ℕ → ℕ
make_pci_address bus slot function offset =
    bit_or
      (bit_or (bit_or (bit_or (bus * 65536) (slot * 2048)) (function * 256)) (offset % 256 / 4 * 4))
      2147483648

abbrev is_size : ℕ → Bool
is_size n = (n == 1) || (n == 2) || (n == 4)

abbrev address_of : Coord → ℕ → ℕ
address_of c offset = make_pci_address c.bus c.slot c.function offset

module _ {S : Type 0} where
  unfoldable pub legacy_read : Ports S → Coord → ℕ → ℕ → S → ℕ × S
  unfolding make_pci_address
  legacy_read io c offset size s =
      let s' = io.out config_addr 4 (address_of c offset) s in
      if is_size size then io.inp (config_data + offset % 4) size s' else (0, s')

  unfoldable pub legacy_write : Ports S → Coord → ℕ → ℕ → ℕ → S → S
  unfolding make_pci_address
  legacy_write io c offset value size s =
      let s' = io.out config_addr 4 (address_of c offset) s in
      if is_size size then io.out (config_data + offset % 4) size value s' else s'

pub record McfgEntry : Type 0 where
  pub base : ℕ
  pub seg : ℕ
  pub start_bus_number : ℕ
  pub end_bus_number : ℕ

abbrev pub covers : Coord → McfgEntry → Bool
covers c e = (e.seg == c.seg) && leb e.start_bus_number c.bus && leb c.bus e.end_bus_number

-- The start of a function's 4096 bytes.
unfoldable pub function_base : Coord → McfgEntry → ℕ
function_base c e =
    add64 e.base (
      bit_or (bit_or ((c.bus - e.start_bus_number) * 1048576) (c.slot * 32768)) (c.function * 4096))

module _ {S : Type 0} where
  -- A read of an unknown size goes on to the next entry.
  unfoldable pub mcfg_pci_read : Window S → List McfgEntry → Coord → ℕ → ℕ → S → ℕ × S
  unfolding function_base
  mcfg_pci_read w [] c offset size s = (0, s)
  mcfg_pci_read w (e ∷ es) c offset size s =
      let addr = bit_or (function_base c e) offset in
      let found = w.load addr size (w.map_page addr s) in
      let no_size = mcfg_pci_read w es c offset size (w.map_page addr s) in
      let rest = mcfg_pci_read w es c offset size s in
      if covers c e then (if is_size size then found else no_size) else rest

  unfoldable pub mcfg_pci_write : Window S → List McfgEntry → Coord → ℕ → ℕ → ℕ → S → S
  unfolding function_base
  mcfg_pci_write w [] c offset value size s = s
  mcfg_pci_write w (e ∷ es) c offset value size s =
      let addr = add64 (function_base c e) offset in
      let mapped = w.map_page addr s in
      let rest = mcfg_pci_write w es c offset value size s in
      if covers c e then (if is_size size then w.store addr size value mapped else mapped) else rest

  -- Which of the two, by the MCFG table.
  unfoldable pub init_pci : Ports S → Window S → Option (List McfgEntry) → Access S
  unfolding legacy_read legacy_write mcfg_pci_read mcfg_pci_write
  init_pci io w none = record { read = legacy_read io; write = legacy_write io }
  init_pci io w (some es) = record { read = mcfg_pci_read w es; write = mcfg_pci_write w es }
