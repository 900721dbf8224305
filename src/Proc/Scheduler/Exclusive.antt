-- ===== src/Proc/Scheduler/Exclusive.antt =====
-- No thread runs on two CPUs: the timer handler of kernel/source/proc/process.cpp keeps the threads
-- that CPUs run apart.
use sigma.Base.{
  ◌∙◌, sym, ap, ℕ_discrete, Option, none, some, ℕ, ◌≡◌, ◌≢◌, get_elem?, arith, inl, inr, ◌⊎◌,
}
use sigma.Proc.Thread.{Thread, ThreadState, idle, running, blocked, silent}
use sigma.Proc.Scheduler.{Kernel, ManagedCpu}

abbrev pub current_of : Option ManagedCpu → Option ℕ
current_of none = none
current_of (some cpu) = cpu.current_thread

abbrev pub state_in : Option Thread → Option ThreadState
state_in none = none
state_in (some t) = some t.state

-- What CPU `c` runs.
abbrev pub runs : Kernel → ℕ → Option ℕ
runs k c = current_of (get_elem? k.cpus c)

abbrev pub state_of : Kernel → ℕ → Option ThreadState
state_of k i = state_in (get_elem? k.threads i)

-- A thread that a CPU runs is RUNNING or, like the kernel's first thread, SILENT, and a thread that
-- two CPUs run is SILENT: no CPU will save or load its context for another.
pub record AreApart (run : ℕ → Option ℕ) (state : ℕ → Option ThreadState) : Type 0 where
  pub busy : (c i : ℕ) → run c ≡ some i → (state i ≡ some running) ⊎ (state i ≡ some silent)
  pub alone : (c d i : ℕ) → c ≢ d → run c ≡ some i → run d ≡ some i → state i ≡ some silent

abbrev pub IsExclusive : Kernel → Type 0
IsExclusive k = AreApart (runs k) (state_of k)

-- What the handler does to the two maps: CPU `c` goes over to `new`; a thread that it leaves stays
-- SILENT if it was; a thread that it takes was IDLE or BLOCKED and is RUNNING.
pub record Moves (run run' : ℕ → Option ℕ) (state state' : ℕ → Option ThreadState) (c : ℕ)
    (new : Option ℕ) : Type 0 where
  pub here : run' c ≡ new
  pub elsewhere : (d : ℕ) → c ≢ d → run' d ≡ run d
  pub left : (i : ℕ) → state i ≡ some silent → state' i ≡ some silent
  pub kept : (i : ℕ) → run c ≢ some i → new ≢ some i → state' i ≡ state i
  pub was : (i : ℕ) → new ≡ some i → (state i ≡ some idle) ⊎ (state i ≡ some blocked)
  pub becomes : (i : ℕ) → new ≡ some i → state' i ≡ some running

Option-dec : (o : Option ℕ) (i : ℕ) → (o ≡ some i) ⊎ (o ≢ some i)
Option-dec none i = inr (λ e. cc)
Option-dec (some j) i = elim (ℕ_discrete j i) [
  | yes e ↦ inl (ap some e)
  | no ne ↦ inr (λ e. ne (cc))
]

module _ {run run' : ℕ → Option ℕ} {state state' : ℕ → Option ThreadState} (c : ℕ) {new : Option ℕ}
    (m : Moves run run' state state' c new) (apart : AreApart run state) where
  no_other : (d i : ℕ) → c ≢ d → run d ≡ some i → new ≡ some i → ⊥
  no_other d i ne r taken = clash (apart.busy d i r) (m.was i taken)
    where
      clash :
          (state i ≡ some running) ⊎ (state i ≡ some silent)
          → (state i ≡ some idle) ⊎ (state i ≡ some blocked)
          → ⊥
      clash a b = ground arith

  -- A thread that another CPU runs keeps its state, or is SILENT and stays so.
  other_busy :
      (d i : ℕ) → c ≢ d → run d ≡ some i → ((state' i ≡ some running) ⊎ (state' i ≡ some silent))
  other_busy d i ne r = elim (Option-dec (run c) i) [
    | inl mine ↦ inr (m.left i (apart.alone c d i ne mine r))
    | inr theirs ↦ elim (Option-dec new i) [
      | inl taken ↦ absurd (no_other d i ne r taken)
      | inr free ↦ rw (m.kept i theirs free) (apart.busy d i r)
    ]
  ]

  pub Moves-AreApart : AreApart run' state'
  Moves-AreApart = record { busy = is_busy; alone = is_alone }
    where
      is_busy : (d i : ℕ) → run' d ≡ some i → (state' i ≡ some running) ⊎ (state' i ≡ some silent)
      is_busy d i r = elim (ℕ_discrete c d) [
        | yes e ↦ inl (m.becomes i (sym m.here ∙ ap run' e ∙ r))
        | no ne ↦ other_busy d i ne (sym (m.elsewhere d ne) ∙ r)
      ]

      is_alone : (d e i : ℕ) → d ≢ e → run' d ≡ some i → run' e ≡ some i → state' i ≡ some silent
      is_alone d e i ne rd re = elim (ℕ_discrete c d) [
        | yes q ↦
            (let ce : c ≢ e = λ z. ne (sym q ∙ z) in
              absurd (no_other e i ce (sym (m.elsewhere e ce) ∙ re) (sym m.here ∙ ap run' q ∙ rd)))
        | no cd ↦ elim (ℕ_discrete c e) [
          | yes q ↦
              absurd (no_other d i cd (sym (m.elsewhere d cd) ∙ rd) (sym m.here ∙ ap run' q ∙ re))
          | no ce ↦
              m.left i
                (apart.alone d e i ne (sym (m.elsewhere d cd) ∙ rd) (sym (m.elsewhere e ce) ∙ re))
        ]
      ]
