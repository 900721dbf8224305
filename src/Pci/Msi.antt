-- ===== src/Pci/Msi.antt =====
-- `install_msi` of kernel/source/arch/x86_64/drivers/pci.cpp, which lets a device send its interrupts
-- as messages, with the bit fields of kernel/include/Sigma/arch/x86_64/drivers/pci.h as arithmetic.
use sigma.Base.{
  ap₂, ℕ, ◌+◌, ◌*◌, ◌/◌, ◌%◌, ◌^◌, ◌≡◌, arith, ◌==◌, ltb, not, if◌then◌else◌, Outcome, ok, ◌>>◌,
  assert,
}
use sigma.Paging.Entries.{bit_test}
use sigma.Pci.{Coord, Access, Device}

-- The address 0xFEE of message interrupts, the destination in bits 12 to 19; the rest stays.
unfoldable pub msi_address : ℕ → ℕ → ℕ
msi_address raw dest_id = raw % 4096 + dest_id % 256 * 4096 + 4078 * 1048576

-- The vector in bits 0 to 7, delivery mode 0 in bits 8 to 10; the rest stays.
unfoldable pub msi_data : ℕ → ℕ → ℕ
msi_data raw vector = raw / 2048 * 2048 + vector % 256

-- Bit 0 enables; bits 4 to 6 ask for one message; the rest stays.
unfoldable pub msi_control : ℕ → ℕ
msi_control raw = raw / 128 * 128 + raw % 16 / 2 * 2 + 1

module _ {S : Type 0} (a : Access S) where
  -- The data register comes after the address, of 32 or of 64 bits.
  abbrev data_offset : ℕ → ℕ → ℕ
  data_offset control base = if bit_test control 7 then base + 12 else base + 8

  unfoldable pub write_message : Coord → ℕ → ℕ → ℕ → ℕ → S → S
  unfolding msi_address msi_data msi_control
  write_message c base control dest_id vector s =
      let (addr, s₁) = a.read c (base + 4) 2 s in
      let (raw, s₂) = a.read c (data_offset control base) 2 s₁ in
      a.write c (base + 2) (msi_control control) 2 (
        a.write c (data_offset control base) (msi_data raw vector) 4
          (a.write c (base + 4) (msi_address addr dest_id) 4 s₂))

  -- `boot_flags` are those of the ACPI tables, whose bit 3 forbids messages.
  unfoldable pub install_msi : ℕ → Device → ℕ → ℕ → S → Outcome S
  unfolding write_message
  install_msi boot_flags d dest_id vector s =
      assert d.msi.supported
      >> assert (not (d.msi.space_offset == 0))
      >> assert (not (bit_test boot_flags 3))
      >> (let (control, s₁) = a.read d.coord (d.msi.space_offset + 2) 2 s in
          assert (ltb (2 ^ (control / 2 % 8)) 32)
          >> ok (write_message d.coord d.msi.space_offset control dest_id vector s₁))

-- The message that a device sends: where, and with which vector.
abbrev message_of : ℕ → ℕ → ℕ × ℕ
message_of addr message = (addr / 4096 % 256, message % 256)

-- What is written makes the device send the vector asked for to the processor asked for, in fixed
-- delivery, to the range of message interrupts.
written_message :
    (addr message dest_id vector : ℕ)
    → (msi_address addr dest_id / 1048576 ≡ 4078)
      × (message_of (msi_address addr dest_id) (msi_data message vector)
          ≡ (dest_id % 256, vector % 256))
      × (msi_data message vector / 256 % 8 ≡ 0)
unfolding msi_address msi_data
written_message addr message dest_id vector = (omega arith, pair, omega arith)
  where
    pair :
        message_of (msi_address addr dest_id) (msi_data message vector)
        ≡ (dest_id % 256, vector % 256)
    pair = ap₂ (λ x y. (x, y)) first second
      where
        first : msi_address addr dest_id / 4096 % 256 ≡ dest_id % 256
        first = omega arith

        second : msi_data message vector % 256 ≡ vector % 256
        second = omega arith

-- The device is enabled for one message, and keeps its other control bits.
written_control :
    (raw : ℕ)
    → (msi_control raw % 2 ≡ 1)
      × (msi_control raw / 16 % 8 ≡ 0)
      × (msi_control raw / 128 ≡ raw / 128)
      × (msi_control raw / 2 % 8 ≡ raw / 2 % 8)
unfolding msi_control
written_control raw = (omega arith, omega arith, omega arith, omega arith)
