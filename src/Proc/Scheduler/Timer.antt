-- ===== src/Proc/Scheduler/Timer.antt =====
-- The timer handler of kernel/source/proc/process.cpp keeps the CPUs' threads apart.
use sigma.Base.{
  sym, ◌==◌, Bool-cases, ap, ◌∙◌, List, Option, none, some, ℕ, ◌≡◌, ◌≢◌, [], ◌∷◌, suc, get_elem?,
  refl, arith, Option-cases, inl, inr, ◌⊎◌, Outcome, ok, panic, ℕ_discrete,
}
use sigma.Proc.Thread.{Thread, idle, running, blocked, silent, Machine, save_context}
use sigma.Types.Queue.{n_items}
use sigma.Proc.Scheduler.{
  Kernel, ManagedCpu, Found, Switched, unmanaged, idles, resumes, modify, stop, rest_state, saved,
  stopped, find_cpu, idle_cpu, resume, schedule, chosen, timer_handler, round_robin,
}
use sigma.Proc.Scheduler.Places.{
  get_elem?-modify_self, get_elem?-modify_ne, check_thread_states, StopsAt, Stops,
  round_robin-Stops,
}
use sigma.Proc.Scheduler.Exclusive.{
  current_of, state_in, runs, state_of, IsExclusive, Moves, Moves-AreApart,
}

-- Saving and stopping the thread that a CPU leaves, seen at a place of the list.
module _ (m : Machine) where
  left_other :
      (old : Option ℕ) (ts : List Thread) (j : ℕ)
      → old ≢ some j
      → get_elem? (stopped old (saved m old ts)) j ≡ get_elem? ts j
  unfolding stopped saved
  left_other none ts j ne = refl
  left_other (some o) ts j ne =
      get_elem?-modify_ne (modify o (save_context m) ts) o j stop (λ e. ne (ap some e))
      ∙ get_elem?-modify_ne ts o j (save_context m) (λ e. ne (ap some e))

  left_there :
      (old : Option ℕ) (ts : List Thread) (j : ℕ) {t : Thread}
      → get_elem? ts j ≡ some t
      → (t' : Thread) × (get_elem? (stopped old (saved m old ts)) j ≡ some t')
        × ((t.state ≡ silent) → (t'.state ≡ silent))
  unfolding stopped saved rest_state save_context
  left_there none ts j {t} h = (t, h, λ e. e)
  left_there (some o) ts j {t} h = elim (ℕ_discrete o j) [
    | yes e ↦ (
      stop (save_context m t),
      rw e (get_elem?-modify_self _ j stop (get_elem?-modify_self ts j (save_context m) h)),
      λ s. ap rest_state s,
    )
    | no ne ↦ (t, left_other (some o) ts j (λ e. ne (cc)) ∙ h, λ s. s)
  ]

  saved_there :
      (old : Option ℕ) (ts : List Thread) (j : ℕ) {t : Thread}
      → get_elem? ts j ≡ some t
      → (t' : Thread) × (get_elem? (saved m old ts) j ≡ some t')
  unfolding saved
  saved_there none ts j {t} h = (t, h)
  saved_there (some o) ts j {t} h = elim (ℕ_discrete o j) [
    | yes e ↦ (save_context m t, rw e (get_elem?-modify_self ts j (save_context m) h))
    | no ne ↦ (t, get_elem?-modify_ne ts o j (save_context m) ne ∙ h)
  ]

  left_silent :
      (old : Option ℕ) (ts : List Thread) (j : ℕ)
      → state_in (get_elem? ts j) ≡ some silent
      → state_in (get_elem? (stopped old (saved m old ts)) j) ≡ some silent
  left_silent old ts j h = elim (Option-cases (get_elem? ts j)) [
    | inl e ↦ absurd (clash (rw e at h))
    | inr (t, e) ↦
        (let (t', e', keep) = left_there old ts j e in rw e' (ap some (keep (ground arith))))
  ]
    where
      clash : state_in none ≡ some silent → ⊥
      clash h = cc

find_cpu_lem :
    (lapic_id : ℕ) (cs : List ManagedCpu)
    → (find_cpu lapic_id cs ≡ none)
      ⊎ ((c : ℕ) × (cpu : ManagedCpu) × (find_cpu lapic_id cs ≡ some (c, cpu))
          × (get_elem? cs c ≡ some cpu))
unfolding find_cpu
find_cpu_lem l [] = inl refl
find_cpu_lem l (d ∷ cs) = elim (find_cpu_lem l cs) [
  | inl e ↦ elim (Bool-cases (d.lapic_id == l)) [
    | inl hit ↦ inr (0, d, ground arith, refl)
    | inr miss ↦ inl (ground arith)
  ]
  | inr (c, cpu, e, there) ↦ elim (Bool-cases (d.lapic_id == l)) [
    | inl hit ↦ inr (0, d, ground arith, refl)
    | inr miss ↦ inr (suc c, cpu, ground arith, there)
  ]
]

-- What holds of the kernel's state after the handler, which does not halt.
abbrev pub Ends : (Kernel → Type 0) → Outcome Switched → Type 0
Ends P (ok unmanaged) = Unit {0}
Ends P (ok (idles k)) = P k
Ends P (ok (resumes k m)) = P k
Ends P panic = ⊥

module _ (m : Machine) (c : ℕ) (cpu : ManagedCpu) (k : Kernel)
    (there : get_elem? k.cpus c ≡ some cpu) where
  idle_Moves :
      (o : ℕ)
      → runs k c ≡ some o
      → Moves
          (runs k)
          (runs (idle_cpu m c (some o) k))
          (state_of k)
          (state_of (idle_cpu m c (some o) k))
          c
          none
  unfolding idle_cpu
  idle_Moves o r = record {
    here = ap current_of (get_elem?-modify_self k.cpus c _ there);
    elsewhere = λ d ne. ap current_of (get_elem?-modify_ne k.cpus c d _ ne);
    left = λ i s. left_silent m (some o) k.threads i s;
    kept = λ i ne _. ap state_in (left_other m (some o) k.threads i (λ e. ne (r ∙ e)));
    was = λ i e. absurd (cc);
    becomes = λ i e. absurd (cc);
  }

  idle_cpu-IsExclusive :
      (old : Option ℕ) → runs k c ≡ old → IsExclusive k → IsExclusive (idle_cpu m c old k)
  unfolding idle_cpu
  idle_cpu-IsExclusive none r v = v
  idle_cpu-IsExclusive (some o) r v = Moves-AreApart c (idle_Moves o r) v

  after_resume : Option ℕ → Found → Kernel
  after_resume old f = record k {
    threads =
        modify f.index (λ u. record u { state = running }) (stopped old (saved m old f.threads));
    events = f.events;
    cpus = modify c (λ d. record d { current_thread = some f.index }) k.cpus;
  }

  found_other :
      (f : Found) (s : StopsAt k.events k.threads f) (j : ℕ)
      → f.index ≢ j
      → get_elem? f.threads j ≡ get_elem? k.threads j
  found_other f s j ne =
      ap (λ l. get_elem? l j) s.others ∙ get_elem?-modify_ne k.threads f.index j _ ne

  found_there :
      (f : Found) (s : StopsAt k.events k.threads f) → get_elem? f.threads f.index ≡ some s.thread'
  found_there f s =
      ap (λ l. get_elem? l f.index) s.others ∙ get_elem?-modify_self k.threads f.index _ s.there

  was_free :
      (f : Found) (s : StopsAt k.events k.threads f) (i : ℕ)
      → f.index ≡ i
      → (state_of k i ≡ some idle) ⊎ (state_of k i ≡ some blocked)
  was_free f s i e =
      let at : state_of k i ≡ some s.thread.state = ap (state_of k) (sym e) ∙ ap state_in s.there in
      elim ((check_thread_states s.thread k.events s.taken).0) [
        | inl q ↦ inl (at ∙ ap some q)
        | inr q ↦ inr (at ∙ ap some q)
      ]

  resume_Moves :
      (old : Option ℕ) (f : Found)
      → runs k c ≡ old
      → (s : StopsAt k.events k.threads f)
      → Moves
          (runs k)
          (runs (after_resume old f))
          (state_of k)
          (state_of (after_resume old f))
          c
          (some f.index)
  unfolding after_resume
  resume_Moves old f r s = record {
    here = ap current_of (get_elem?-modify_self k.cpus c _ there);
    elsewhere = λ d ne. ap current_of (get_elem?-modify_ne k.cpus c d _ ne);
    left = stays_silent;
    kept = λ i ne free.
        let away : f.index ≢ i = λ e. free (ap some e) in
        ap state_in (
          get_elem?-modify_ne (stopped old (saved m old f.threads)) f.index i _ away
          ∙ left_other m old f.threads i (λ e. ne (r ∙ e))
          ∙ found_other f s i away);
    was = λ i e. was_free f s i (cc);
    becomes = λ i e. now_running i (cc);
  }
    where
      stays_silent :
          (i : ℕ) → state_of k i ≡ some silent → state_of (after_resume old f) i ≡ some silent
      stays_silent i q = elim (ℕ_discrete f.index i) [
        | yes e ↦ absurd (elim (was_free f s i e) [ inl a ↦ cc | inr b ↦ cc ])
        | no away ↦
            ap state_in (get_elem?-modify_ne (stopped old (saved m old f.threads)) f.index i _ away)
            ∙ left_silent m old f.threads i (ap state_in (found_other f s i away) ∙ q)
      ]

      now_running : (i : ℕ) → f.index ≡ i → state_of (after_resume old f) i ≡ some running
      now_running i e =
          let (t, at, keep) = left_there m old f.threads f.index (found_there f s) in
          ap (state_of (after_resume old f)) (sym e)
          ∙ ap state_in (get_elem?-modify_self (stopped old (saved m old f.threads)) f.index _ at)

  resume-IsExclusive :
      (old : Option ℕ) (f : Found)
      → runs k c ≡ old
      → StopsAt k.events k.threads f
      → IsExclusive k
      → Ends IsExclusive
          (resume m c old f.index (record k { threads = f.threads; events = f.events }))
  unfolding resume after_resume
  resume-IsExclusive old f r s v =
      let (t, e) = saved_there m old f.threads f.index (found_there f s) in
      rw (e, resume) (Moves-AreApart c (resume_Moves old f r s) v)

-- The timer handler does not halt the kernel. If, before it, the current thread of each CPU is
-- RUNNING or SILENT, and one that is current on two CPUs is SILENT, then that holds after it too:
-- no thread that is scheduled runs twice. The condition leaves out the moment within `block` at
-- which a current thread is BLOCKED. Nothing in the kernel fills `scheduling_queue`, which is
-- taken to be empty.
pub timer_handler-IsExclusive :
    (lapic_id : ℕ) (m : Machine) (k : Kernel)
    → n_items k.scheduling_queue ≡ 0
    → IsExclusive k
    → Ends IsExclusive (timer_handler lapic_id m k)
unfolding timer_handler
timer_handler-IsExclusive l m k empty v = elim (find_cpu_lem l k.cpus) [
  | inl e ↦ rw (e, timer_handler) tt
  | inr (c, cpu, e, there) ↦
      rw (e, timer_handler)
        (rw (no_queue cpu.current_thread) (
          picked c cpu there (round_robin cpu.current_thread k)
            (round_robin-Stops cpu.current_thread k)))
]
  where
    no_queue : (current : Option ℕ) → schedule current k ≡ ok (chosen (round_robin current k) k)
    no_queue current = unfold schedule in ground arith

    picked :
        (c : ℕ) (cpu : ManagedCpu)
        → get_elem? k.cpus c ≡ some cpu
        → (r : Option Found) → Stops k.events k.threads r
        → Ends IsExclusive (elim (chosen r k).0 [
          | none ↦ ok (idles (idle_cpu m c cpu.current_thread (chosen r k).1))
          | some new ↦ resume m c cpu.current_thread new (chosen r k).1
        ])
    picked c cpu there none s =
        unfold chosen in
        idle_cpu-IsExclusive m c cpu k there cpu.current_thread (ap current_of there) v
    picked c cpu there (some f) s =
        unfold chosen in
        resume-IsExclusive m c cpu k there cpu.current_thread f (ap current_of there) s v
