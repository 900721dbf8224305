-- ===== src/Generic/Device/Tests.antt =====
-- Two devices of the list of kernel/source/generic/device.cpp.
use sigma.Base.{refl, arith, ◌≡◌, ℕ, true, false, [], ◌∷◌, ok}
use sigma.Pci.Enumerate.{empty_device}
use sigma.Generic.Device.{GenericDevice, Devices, claim}
use sigma.Generic.Device.Claims.{claims, IsDriven, claims-Exclusive}

abbrev idle_device : GenericDevice
idle_device = record { acpi = false; pci = true; pci_device = empty_device; driver = 0 }

abbrev two_devices : Devices
two_devices = idle_device ∷ idle_device ∷ []

abbrev one_taken : Devices
one_taken = idle_device ∷ record idle_device { driver = 5 } ∷ []

abbrev two_taken : Devices
two_taken = record idle_device { driver = 6 } ∷ record idle_device { driver = 5 } ∷ []

first_claim : claim 5 1 two_devices ≡ ok (0, one_taken)
unfolding claim
first_claim = refl

other_claims : claims ((6, 1) ∷ (6, 0) ∷ []) one_taken ≡ ok two_taken
unfolding claims
other_claims = refl

claims-Exclusive_example :
    IsDriven 5 1 two_taken × ((t : ℕ) → claim t 1 two_taken ≡ ok (1, two_taken))
claims-Exclusive_example =
    claims-Exclusive 1 5 two_devices one_taken two_taken ((6, 1) ∷ (6, 0) ∷ []) (omega arith)
      first_claim other_claims
