-- ===== src/Generic/Device/Irq.antt =====
-- The command that enables interrupts of a device in `devctl` of kernel/source/generic/device.cpp: a
-- vector, a message of that vector, a handler that triggers an event, and a handle for the event.
use sigma.Base.{ℕ, true, false, some, Outcome, ok, ◌>>=◌, ◌>>◌, assert}
use sigma.Pci.{Access}
use sigma.Pci.Msi.{install_msi}
use sigma.Idt.{Handlers, get_free_vector, register_interrupt_handler}
use sigma.Generic.Handles.{irq, Catalogue, push}
use sigma.Generic.Device.{Devices, at}

-- What the command reads and changes besides the list.
pub record Interrupts {ℓ} (S : Type 0) (O : Type ℓ) : Type ℓ where
  pub hardware : S
  pub handlers : Handlers
  pub catalogue : Catalogue O

-- The new handle's event stands at `event`, and `callback` triggers what its pointer points to.
unfoldable pub enable_irq {ℓ} :
    {S : Type 0} {O : Type ℓ}
    → Access S
    → (boot_flags callback event : ℕ) → O
    → ℕ
    → Devices
    → Interrupts S O
    → Outcome (ℕ × Interrupts S O)
unfolding at install_msi get_free_vector register_interrupt_handler push
enable_irq a boot_flags callback event object dev ds s = do
  d ← at ds dev
  assert d.pci
  hardware ← install_msi a boot_flags d.pci_device 0 (get_free_vector s.handlers) s.hardware
  (let pushed = push (some (record { type = irq; object = object })) s.catalogue in
      ok (
        pushed.0,
        record {
          hardware = hardware;
          handlers =
              register_interrupt_handler (get_free_vector s.handlers)
                (record {
                  callback = some callback;
                  userptr = event;
                  is_irq = true;
                  should_iret = false;
                })
                s.handlers;
          catalogue = pushed.1;
        },
      ))
