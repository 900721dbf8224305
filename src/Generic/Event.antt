-- ===== src/Generic/Event.antt =====
-- `generic::event` of kernel/include/Sigma/generic/event.hpp: an atomic counter of triggers. Each
-- method is one atomic step.
use sigma.Base.{Bool, add64, arith, false, if◌then◌else◌, true, ◌-◌, ◌==◌, ◌+◌, ◌<◌, ◌≡◌, ℕ, u64}

abbrev pub Event : Type 0
Event = ℕ

unfoldable pub trigger : Event → Event
trigger count = add64 count 1

unfoldable pub untrigger : Event → Event
untrigger count = if count == 0 then count else count - 1

-- `compare_exchange_strong(0, 0)`, then `fetch_sub(1)`.
unfoldable pub has_triggered : Event → Bool × Event
has_triggered count = if count == 0 then (false, count) else (true, count - 1)

-- A trigger that does not overflow is seen by one later test, which gives back the old count.
pub has_triggered-trigger : (c : Event) → c + 1 < u64 → has_triggered (trigger c) ≡ (true, c)
unfolding has_triggered trigger
has_triggered-trigger c h = ground arith
