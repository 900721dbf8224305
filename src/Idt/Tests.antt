-- ===== src/Idt/Tests.antt =====
-- A table of kernel/source/arch/x86_64/idt.cpp with one handler.
use sigma.Base.{◌≡◌, ◌≢◌, ◌⊎◌, ◌==◌, refl, if◌then◌else◌, false, true, some}
use sigma.Idt.{Handler, Handlers, no_handler, get_free_vector, register_interrupt_handler}
use sigma.Idt.FreeVector.{IsHighestFree, get_free_vector-fresh}

abbrev irq_handler : Handler
irq_handler = record { callback = some 5; userptr = 9; is_irq = true; should_iret = false }

abbrev one_handler : Handlers
one_handler n = if n == 246 then irq_handler else no_handler

test_next : get_free_vector one_handler ≡ 245
unfolding get_free_vector
test_next = refl

get_free_vector-fresh_example :
    IsHighestFree 246 one_handler (get_free_vector one_handler)
    × ((get_free_vector
            (register_interrupt_handler (get_free_vector one_handler) irq_handler one_handler)
          ≢ get_free_vector one_handler)
        ⊎ (get_free_vector one_handler ≡ 255))
get_free_vector-fresh_example = get_free_vector-fresh one_handler irq_handler refl
