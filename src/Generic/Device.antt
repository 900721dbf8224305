-- ===== src/Generic/Device.antt =====
-- The device list of kernel/source/generic/device.cpp and what `devctl` does with it for the commands
-- that claim, find, describe, read and write a device. A descriptor is a place in the list.
pub mod Claims
pub mod Finds
pub mod Irq
mod Tests
use sigma.Base.{
  ◌-◌, ℕ, ◌+◌, ◌%◌, ◌==◌, ltb, leb, ◌&&◌, if◌then◌else◌, Bool, true, false, Option, none, some,
  List, [], ◌∷◌, ◌++◌, length, get_elem?, get_or, set, Outcome, ok, panic, ◌>>=◌, ◌>>◌, assert,
  minus_one,
}
use sigma.Pci.{Coord, Access, Bar}
use sigma.Pci

-- The PCI device that `pci_contact` points to, if `contact.pci` says so.
pub record GenericDevice : Type 0 where
  pub acpi : Bool
  pub pci : Bool
  pub pci_device : sigma.Pci.Device
  pub driver : ℕ

abbrev pub Devices : Type 0
Devices = List GenericDevice

unfoldable pub add_pci_device : sigma.Pci.Device → Devices → Devices
add_pci_device dev ds = ds ++ record { acpi = false; pci = true; pci_device = dev; driver = 0 } ∷ []

-- `operator[]` of the list.
unfoldable pub at : Devices → ℕ → Outcome GenericDevice
at ds dev = elim (get_elem? ds dev) [ none ↦ panic | some d ↦ ok d ]

-- The command claim: 0 for the first driver, 1 for those after it.
unfoldable pub claim : ℕ → ℕ → Devices → Outcome (ℕ × Devices)
unfolding at
claim tid dev ds = at ds dev >>= λ d.
    ok (if d.driver == 0 then (0, set ds dev (record d { driver = tid })) else (1, ds))

-- The numbers of a device as the command passes them on: the segment in 16 bits, the others in 8.
abbrev pub is_at : Coord → GenericDevice → Bool
is_at c d =
    d.pci
    && (d.pci_device.coord.seg == c.seg)
    && (d.pci_device.coord.bus == c.bus)
    && (d.pci_device.coord.slot == c.slot)
    && (d.pci_device.coord.function == c.function)

abbrev pub of_class : ℕ → ℕ → ℕ → GenericDevice → Bool
of_class class subclass prog_if d = d.pci && sigma.Pci.has_class class subclass prog_if d.pci_device

-- The loop of `find_pci_class_node`: the place of the match number `index`, both counted from here.
unfoldable pub find_from : (GenericDevice → Bool) → ℕ → ℕ → Devices → ℕ
find_from test index place [] = minus_one
find_from test index place (d ∷ ds) =
    let after = find_from test (index - 1) (place + 1) ds in
    let rest = find_from test index (place + 1) ds in
    if test d then (if index == 0 then place else after) else rest

unfoldable pub find_pci_node : ℕ → ℕ → ℕ → ℕ → Devices → ℕ
unfolding find_from
find_pci_node seg bus slot function ds =
    find_from
      (is_at (record {
        seg = seg % 65536;
        bus = bus % 256;
        slot = slot % 256;
        function = function % 256;
      }))
      0 0 ds

unfoldable pub find_pci_class_node : ℕ → ℕ → ℕ → ℕ → Devices → ℕ
unfolding find_from
find_pci_class_node class subclass prog_if index ds =
    find_from (of_class (class % 256) (subclass % 256) (prog_if % 256)) index 0 ds

pub record ResourceRegion : Type 0 where
  pub type : ℕ
  pub origin : ℕ
  pub base : ℕ
  pub len : ℕ

-- A bar that was not read.
abbrev no_bar : Bar
no_bar = record { type = 0; number = 0; flags = 0; base = 0; len = 0 }

-- Whether there is such a device, and what is written for the caller; an index of 6 reads what stands
-- after the six bars.
unfoldable pub get_resource_region :
    (after_bars : Bar) → ℕ → ℕ → ℕ → Devices → Outcome (Bool × Option ResourceRegion)
unfolding at
get_resource_region after_bars dev origin index ds =
    if leb (length ds) dev
    then ok (false, none)
    else (at ds dev >>= λ d.
        if origin == 0
        then (assert (leb (index % 256) 6)
            >> assert d.pci
            >> (let bar =
                  if leb 6 (index % 256)
                  then after_bars
                  else get_or d.pci_device.bars (index % 256) no_bar in
                ok (
                  true,
                  some (record { type = bar.type; origin = 0; base = bar.base; len = bar.len }),
                )))
        else ok (true, none))

module _ {S : Type 0} (a : Access S) where
  unfoldable pub read_pci : ℕ → ℕ → ℕ → Devices → S → Outcome (ℕ × S)
  unfolding at
  read_pci dev offset size ds s =
      at ds dev >>= λ d. ok (a.read d.pci_device.coord (offset % 65536) (size % 256) s)

  unfoldable pub write_pci : ℕ → ℕ → ℕ → ℕ → Devices → S → Outcome S
  unfolding at
  write_pci dev offset size value ds s = at ds dev >>= λ d.
      ok (a.write d.pci_device.coord (offset % 65536) (value % 4294967296) (size % 256) s)
