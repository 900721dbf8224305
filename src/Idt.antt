-- ===== src/Idt.antt =====
-- The table of interrupt handlers in kernel/source/arch/x86_64/idt.cpp. A callback is known by a
-- number, none being the null pointer.
pub mod FreeVector
mod Tests
use sigma.Base.{
  ℕ, zero, suc, ◌%◌, if◌then◌else◌, Bool, true, false, Option, none, some, not, ◌&&◌, ◌==◌,
}

pub record Handler : Type 0 where
  pub callback : Option ℕ
  pub userptr : ℕ
  pub is_irq : Bool
  pub should_iret : Bool

abbrev pub Handlers : Type 0
Handlers = ℕ → Handler

abbrev pub no_handler : Handler
no_handler = record { callback = none; userptr = 0; is_irq = false; should_iret = false }

abbrev pub is_taken : Handler → Bool
is_taken h = elim h.callback [ none ↦ false | some c ↦ true ]

-- The loop down from `n`, which stops before 0; then -1 in 8 bits.
unfoldable pub free_down : ℕ → Handlers → ℕ
free_down zero hs = 255
free_down (suc n) hs = let rest = free_down n hs in if is_taken (hs (suc n)) then rest else suc n

unfoldable pub get_free_vector : Handlers → ℕ
unfolding free_down
get_free_vector hs = free_down 246 hs

unfoldable pub register_interrupt_handler : ℕ → Handler → Handlers → Handlers
register_interrupt_handler vector h hs n = if vector == n then h else hs n

unfoldable pub register_irq_status : ℕ → Bool → Handlers → Handlers
register_irq_status vector is_irq hs n =
    if vector == n then record (hs n) { is_irq = is_irq } else hs n

-- The first loop of `register_generic_handlers`, and the handler of page faults.
unfoldable pub register_generic_handlers : ℕ → Handlers → Handlers
unfolding register_interrupt_handler
register_generic_handlers page_fault_handler hs =
    register_interrupt_handler 14 (record no_handler { callback = some page_fault_handler })
      (λ n. no_handler)

-- The end of `sigma_isr_handler`: the callback is called with its pointer, an end of interrupt is sent
-- for an IRQ, and the kernel stops for what neither returns nor is an IRQ.
pub record Dispatched : Type 0 where
  pub called : Option (ℕ × ℕ)
  pub sends_eoi : Bool
  pub halts : Bool

unfoldable pub dispatch : ℕ → Handlers → Dispatched
dispatch n hs = record {
  called = elim (hs n).callback [ none ↦ none | some c ↦ some (c, (hs n).userptr) ];
  sends_eoi = (hs n).is_irq;
  halts = not (hs n).should_iret && not (hs n).is_irq;
}
