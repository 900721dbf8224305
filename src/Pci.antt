-- ===== src/Pci.antt =====
-- The PCI bus: kernel/source/arch/x86_64/drivers/pci.cpp. Ports and memory-mapped registers are
-- those of the machine: records of operations on a state `S`, which stands for the hardware.
pub mod Config
pub mod Msi
pub mod Bars
pub mod Enumerate
pub mod Sizing
pub mod Grows
pub mod Yields
pub mod Ends
pub mod Terminates
pub mod Tests
use sigma.Base.{
  ◌-◌, ℕ, ◌+◌, ◌*◌, ◌/◌, ◌%◌, ◌==◌, ltb, leb, ◌&&◌, if◌then◌else◌, Bool, true, false, Option, none,
  some, List, [], ◌∷◌, ◌++◌, Outcome, ok, panic,
}

-- Segment, bus, slot and function.
pub record Coord : Type 0 where
  pub seg : ℕ
  pub bus : ℕ
  pub slot : ℕ
  pub function : ℕ

abbrev pub same_coord : Coord → Coord → Bool
same_coord a b =
    (a.seg == b.seg) && (a.bus == b.bus) && (a.slot == b.slot) && (a.function == b.function)

-- `internal_read` and `internal_write`: the offset and the size of the access come after the place.
pub record Access (S : Type 0) : Type 0 where
  pub read : Coord → ℕ → ℕ → S → ℕ × S
  pub write : Coord → ℕ → ℕ → ℕ → S → S

-- A routine over the state, or none where its fuel runs out.
abbrev pub Run : Type 0 → Type 0 → Type 0
Run S A = S → Option (A × S)

infixl 5 ◌>>=◌
abbrev pub ◌>>=◌ : {S A B : Type 0} → Run S A → (A → Run S B) → Run S B
(m >>= k) s = elim (m s) [ none ↦ none | some (a, s') ↦ k a s' ]

infixl 5 ◌>>◌
abbrev pub ◌>>◌ : {S B : Type 0} → Run S (Unit {0}) → Run S B → Run S B
m >> k = m >>= λ _. k

abbrev pub return : {S A : Type 0} → A → Run S A
return a s = some (a, s)

-- `x86_64::pci::read`.
abbrev pub read : {S : Type 0} → Access S → Coord → ℕ → ℕ → Run S ℕ
read a c offset size s = some (a.read c offset size s)

-- `x86_64::pci::write`.
abbrev pub write : {S : Type 0} → Access S → Coord → ℕ → ℕ → ℕ → Run S (Unit {0})
write a c offset value size s = some (tt, a.write c offset value size s)

pub record Bar : Type 0 where
  pub type : ℕ
  pub number : ℕ
  pub flags : ℕ
  pub base : ℕ
  pub len : ℕ

abbrev pub bar_type_mem : ℕ
bar_type_mem = 0

abbrev pub bar_type_io : ℕ
bar_type_io = 1

abbrev pub bar_type_invalid : ℕ
bar_type_invalid = 255

-- Message signaled interrupts, plain or extended.
pub record Capability : Type 0 where
  pub supported : Bool
  pub space_offset : ℕ

pub record Agp : Type 0 where
  pub supported : Bool
  pub minor_ver : ℕ
  pub major_ver : ℕ
  pub speed_multiplier : ℕ

-- A device; the parent is its place in `pci_devices`. What the AML interpreter adds is left out.
pub record Device : Type 0 where
  pub exists : Bool
  pub is_bridge : Bool
  pub coord : Coord
  pub vendor_id : ℕ
  pub header_type : ℕ
  pub class_code : ℕ
  pub subclass_code : ℕ
  pub prog_if : ℕ
  pub parent : Option ℕ
  pub msi : Capability
  pub msix : Capability
  pub agp : Agp
  pub bars : List Bar

unfoldable pub find_device : Coord → List Device → Outcome Device
find_device c [] = panic
find_device c (d ∷ ds) = let rest = find_device c ds in if same_coord d.coord c then ok d else rest

abbrev pub has_class : ℕ → ℕ → ℕ → Device → Bool
has_class class subclass prog_if d =
    (d.class_code == class) && (d.subclass_code == subclass) && (d.prog_if == prog_if)

-- The loop of `find_device_by_class`, with its count.
unfoldable pub find_class_from : ℕ → (Device → Bool) → ℕ → List Device → Outcome Device
find_class_from i test index [] = panic
find_class_from i test index (d ∷ ds) =
    let counted = find_class_from (i + 1) test index ds in
    let rest = find_class_from i test index ds in
    if test d then (if index == i then ok d else counted) else rest

unfoldable pub find_device_by_class : ℕ → ℕ → ℕ → ℕ → List Device → Outcome Device
unfolding find_class_from
find_device_by_class class subclass prog_if index ds =
    find_class_from 0 (has_class class subclass prog_if) index ds

-- `swizzle`, for a pin from 1 on.
unfoldable pub swizzle : ℕ → ℕ → ℕ
swizzle pin dev = (pin - 1 + dev % 4) % 4 + 1
