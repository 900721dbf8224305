-- ===== src/Pci/Enumerate.antt =====
-- The search for devices in kernel/source/arch/x86_64/drivers/pci.cpp: `enumerate_bus`,
-- `enumerate_device` and `enumerate_function`. A bridge leads to another bus; that recursion and the
-- walk along a capability list have fuel. The first part of the state is the hardware.
use Prim.Native.Nat.{bit_or}
use sigma.Base.{
  ℕ, zero, suc, ◌+◌, ◌/◌, ◌%◌, ◌==◌, ◌&&◌, if◌then◌else◌, true, false, Option, none, some, List, [],
  ◌∷◌, ◌++◌, length,
}
use sigma.Paging.Entries.{bit_test}
use sigma.Pci.{Coord, Access, Run, ◌>>=◌, ◌>>◌, return, read, write, Bar, Device}
use sigma.Pci.Bars.{read_bar}

-- `pci_devices`, and the places in it that `generic::device::add_pci_device` was given.
pub record Found : Type 0 where
  pub devices : List Device
  pub added : List ℕ

abbrev pub State : Type 0 → Type 0
State S = S × Found

abbrev pub Search : Type 0 → Type 0 → Type 0
Search S A = Run (State S) A

-- The hardware alone.
abbrev pub lift : {S A : Type 0} → Run S A → Search S A
lift m (s, f) = elim (m s) [ none ↦ none | some (a, s') ↦ some (a, (s', f)) ]

abbrev pub empty_device : Device
empty_device = record {
  exists = false;
  is_bridge = false;
  coord = record { seg = 0; bus = 0; slot = 0; function = 0 };
  vendor_id = 0;
  header_type = 0;
  class_code = 0;
  subclass_code = 0;
  prog_if = 0;
  parent = none;
  msi = record { supported = false; space_offset = 0 };
  msix = record { supported = false; space_offset = 0 };
  agp = record { supported = false; minor_ver = 0; major_ver = 0; speed_multiplier = 0 };
  bars = [];
}

-- `pci_devices.empty_entry()`, by its place.
unfoldable pub empty_entry : {S : Type 0} → Search S ℕ
empty_entry (s, f) =
    some (length f.devices, (s, record f { devices = f.devices ++ empty_device ∷ [] }))

abbrev pub change_at : ℕ → (Device → Device) → List Device → List Device
change_at i change [] = []
change_at zero change (d ∷ ds) = change d ∷ ds
change_at (suc i) change (d ∷ ds) = d ∷ change_at i change ds

unfoldable pub modify : {S : Type 0} → ℕ → (Device → Device) → Search S (Unit {0})
modify i change (s, f) = some (tt, (s, record f { devices = change_at i change f.devices }))

unfoldable pub add_pci_device : {S : Type 0} → ℕ → Search S (Unit {0})
add_pci_device i (s, f) = some (tt, (s, record f { added = f.added ++ i ∷ [] }))

-- The command and the speed that the status of an AGP bridge asks for.
unfoldable pub agp_setting : ℕ → ℕ → ℕ → ℕ × ℕ
agp_setting status command speed =
    if bit_test status 3
    then (if bit_test status 1
        then (bit_or (bit_or command 2) 512, 8)
        else if bit_test status 0
        then (bit_or (bit_or command 1) 512, 4)
        else (bit_or command 512, speed))
    else (let chosen : ℕ × ℕ =
          if bit_test status 1
          then (bit_or command 2, 2)
          else if bit_test status 2
          then (bit_or command 4, 4)
          else (command, speed) in
        (if bit_test status 9 then bit_or chosen.0 512 else chosen.0, chosen.1))

module _ {S : Type 0} (a : Access S) where
  unfoldable pub setup_agp : Coord → ℕ → ℕ → Search S (Unit {0})
  unfolding modify agp_setting
  setup_agp c i p = do
    minor ← lift (read a c (p + 2) 1)
    major ← lift (read a c (p + 2) 1)
    modify i (λ d. record d {
      agp = record d.agp {
        supported = true;
        minor_ver = minor % 256;
        major_ver = major / 16 % 256;
      };
    })
    status ← lift (read a c (p + 4) 4)
    command ← lift (read a c (p + 8) 4)
    modify i (λ d. record d {
      agp = record d.agp {
        speed_multiplier = (agp_setting status (bit_or command 256) d.agp.speed_multiplier).1;
      };
    })
    lift (write a c (p + 8) (agp_setting status (bit_or command 256) 0).0 4)

  -- One entry of the capability list: AGP, MSI, MSI-X or another.
  unfoldable pub read_capability : Coord → ℕ → ℕ → ℕ → Search S (Unit {0})
  unfolding setup_agp modify
  read_capability c i p id =
      if id == 2
      then setup_agp c i p
      else if id == 5
      then modify i (λ d. record d { msi = record { supported = true; space_offset = p } })
      else if id == 17
      then modify i (λ d. record d { msix = record { supported = true; space_offset = p } })
      else return tt

  -- The walk from the entry at `p`, where 0 is the end.
  unfoldable pub walk_capabilities : ℕ → Coord → ℕ → ℕ → Search S (Unit {0})
  unfolding read_capability
  walk_capabilities zero c i p = if p == 0 then return tt else λ s. none
  walk_capabilities (suc fuel) c i p = if p == 0 then return tt else (do
    id ← lift (read a c p 1)
    read_capability c i p (id % 256)
    next ← lift (read a c (p + 1) 1)
    walk_capabilities fuel c i (next % 256))

  unfoldable pub read_bars : Coord → ℕ → ℕ → Search S (List Bar)
  unfolding read_bar
  read_bars c zero number = return []
  read_bars c (suc n) number = do
    b ← lift (read_bar a c number)
    bs ← read_bars c n (number + 1)
    return (b ∷ bs)

  unfoldable pub read_capabilities : Coord → ℕ → Search S (Unit {0})
  unfolding walk_capabilities
  read_capabilities c i = do
    status ← lift (read a c 6 2)
    (if bit_test status 4
        then (lift (read a c 52 1) >>= λ next. walk_capabilities 256 c i (next % 256))
        else return tt)

  -- What follows the bridge: the header type, which is that of function 0, the bars and the
  -- capabilities.
  unfoldable pub read_header : Coord → ℕ → Search S (Unit {0})
  unfolding read_bars read_capabilities modify add_pci_device
  read_header c i = do
    header ← lift (read a (record c { function = 0 }) 14 1)
    bars ← read_bars c (if header % 128 == 0 then 6 else if header % 128 == 1 then 3 else 0) 0
    modify i (λ d. record d { header_type = header % 128; bars = bars })
    read_capabilities c i
    add_pci_device i

  module _ (enumerate_bus : ℕ → ℕ → Option ℕ → Search S (Unit {0})) where
    unfoldable pub enter_bridge : Coord → ℕ → Search S (Unit {0})
    unfolding modify
    enter_bridge c i = do
      secondary_bus ← lift (read a c 25 1)
      enumerate_bus c.seg (secondary_bus % 256) (some i)
      modify i (λ d. record d { is_bridge = true })

    -- The entry is made before the device is known to exist.
    unfoldable pub enumerate_function : Coord → Option ℕ → Search S (Unit {0})
    unfolding empty_entry modify enter_bridge read_header
    enumerate_function c parent = do
      i ← empty_entry
      vendor_id ← lift (read a c 0 2)
      (if vendor_id % 65536 == 65535 then return tt else (do
        class_code ← lift (read a c 11 1)
        subclass_code ← lift (read a c 10 1)
        prog_if ← lift (read a c 9 1)
        modify i (λ d. record d {
          exists = true;
          parent = parent;
          coord = c;
          vendor_id = vendor_id % 65536;
          class_code = class_code % 256;
          subclass_code = subclass_code % 256;
          prog_if = prog_if % 256;
        })
        (if (class_code % 256 == 6) && (subclass_code % 256 == 4)
            then enter_bridge c i
            else return tt)
        read_header c i))

    -- The `n` functions from `i` on.
    unfoldable pub enumerate_functions : ℕ → Coord → Option ℕ → Search S (Unit {0})
    unfolding enumerate_function
    enumerate_functions zero c parent = return tt
    enumerate_functions (suc n) c parent =
        enumerate_function c parent
        >> enumerate_functions n (record c { function = c.function + 1 }) parent

    -- The slot whose function 0 is given.
    unfoldable pub enumerate_device : Coord → Option ℕ → Search S (Unit {0})
    unfolding enumerate_functions
    enumerate_device c parent = do
      vendor_id ← lift (read a c 0 2)
      (if vendor_id % 65536 == 65535
          then return tt
          else (lift (read a c 14 1) >>= λ header.
              enumerate_functions (if bit_test header 7 then 8 else 1) c parent))

    -- The `n` slots from the given one on.
    unfoldable pub enumerate_devices : ℕ → Coord → Option ℕ → Search S (Unit {0})
    unfolding enumerate_device
    enumerate_devices zero c parent = return tt
    enumerate_devices (suc n) c parent =
        enumerate_device c parent >> enumerate_devices n (record c { slot = c.slot + 1 }) parent

  unfoldable pub enumerate_bus : ℕ → ℕ → ℕ → Option ℕ → Search S (Unit {0})
  unfolding enumerate_devices
  enumerate_bus zero seg bus parent = λ s. none
  enumerate_bus (suc fuel) seg bus parent =
      enumerate_devices (enumerate_bus fuel) 32
        (record { seg = seg; bus = bus; slot = 0; function = 0 }) parent
