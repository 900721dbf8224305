-- ===== src/Generic/Tests.antt =====
-- The handle catalogue of kernel/include/Sigma/generic/user_handle.hpp.
use sigma.Base.{ℕ, ◌≡◌, ◌≢◌, [], ◌∷◌, some, arith}
use sigma.Generic.Handles.{Catalogue, Handle, push, get, push-get, typed, irq, ipc_ring, AreBelow}

-- One ring under number 0.
abbrev one_ring : Catalogue ℕ
one_ring = record {
  id_gen = 1;
  catalogue = (0, some (record { type = ipc_ring; object = 70 })) ∷ [];
}

abbrev some_irq : Handle ℕ
some_irq = record { type = irq; object = 80 }

push-get_example :
    let (id, c) = push (some some_irq) one_ring in
    AreBelow c.id_gen c.catalogue
    × (get irq id c ≡ typed irq (some some_irq))
    × (0 ≢ id → get irq 0 c ≡ get irq 0 one_ring)
push-get_example = push-get irq (some some_irq) one_ring 0 (omega arith, tt) (omega arith)
