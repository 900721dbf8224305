-- ===== src/Generic/Device/Finds.antt =====
-- The search of the device list in kernel/source/generic/device.cpp.
use sigma.Base.{
  zero, suc, ℕ, ◌+◌, ◌-◌, ◌≤◌, ◌≡◌, ◌≢◌, ◌==◌, refl, arith, if◌then◌else◌, Bool, true, false,
  Bool-cases, inl, inr, some, [], ◌∷◌, length, get_elem?, minus_one, ap, sym, ℕ_discrete,
}
use sigma.Generic.Device.{GenericDevice, Devices, find_from}

-- How many devices before a place pass the test.
abbrev pub passes : (GenericDevice → Bool) → ℕ → Devices → ℕ
passes test zero ds = 0
passes test (suc i) [] = 0
passes test (suc i) (d ∷ ds) = (if test d then 1 else 0) + passes test i ds

-- The place of the match number `index`, counted from 0, or minus one where there are not so many.
pub data IsFound (test : GenericDevice → Bool) (index place : ℕ) (ds : Devices) (r : ℕ)
    : Type 0 where
  missing : r ≡ minus_one → passes test (length ds) ds ≤ index → IsFound test index place ds r
  found :
      (i : ℕ) (d : GenericDevice)
      → r ≡ place + i
      → get_elem? ds i ≡ some d
      → test d ≡ true
      → passes test i ds ≡ index
      → IsFound test index place ds r

-- Whatever the test, `find_pci_node` and `find_pci_class_node` search for the device that passes it
-- with the given number of such devices before it, and give its place, or minus one where there are
-- no more than this number of them.
pub find_from-IsFound :
    (ds : Devices) (test : GenericDevice → Bool) (index place : ℕ)
    → IsFound test index place ds (find_from test index place ds)
unfolding find_from
find_from-IsFound [] test index place = missing refl (omega arith)
find_from-IsFound (d ∷ ds) test index place = elim (Bool-cases (test d)) [
  | inr other ↦
      rw (other, find_from)
        (skip other index (omega arith) (find_from-IsFound ds test index (place + 1)))
  | inl match ↦ elim (ℕ_discrete index 0) [
    | yes z ↦
        rw (match, find_from) (rw (ap (λ n. n == 0) z) (found 0 d (omega arith) refl match (sym z)))
    | no ne ↦
        rw (match, find_from)
          (rw (not_zero ne)
            (skip_match match (find_from-IsFound ds test (index - 1) (place + 1)) ne))
  ]
]
  where
    skip :
        test d ≡ false
        → (n : ℕ) → n ≡ index
        → {r : ℕ} → IsFound test n (place + 1) ds r
        → IsFound test index place (d ∷ ds) r
    skip other n same (missing e few) = missing e (rw other (omega (arith, few, same)))
    skip other n same (found i x e h t count) =
        found (suc i) x (omega (arith, e)) h t (rw other (omega (arith, count, same)))

    skip_match :
        test d ≡ true
        → {r : ℕ} → IsFound test (index - 1) (place + 1) ds r
        → index ≢ 0
        → IsFound test index place (d ∷ ds) r
    skip_match match (missing e few) ne = missing e (rw match (omega (arith, few, ne)))
    skip_match match (found i x e h t count) ne =
        found (suc i) x (omega (arith, e)) h t (rw match (omega (arith, count, ne)))

    not_zero : index ≢ 0 → (index == 0) ≡ false
    not_zero ne = ground (arith, ne)
