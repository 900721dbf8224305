-- ===== src/Proc/Lifecycle/Fresh.antt =====
-- `create_blocked_thread` of kernel/source/proc/process.cpp.
use sigma.Base.{
  true, List, none, some, ℕ, zero, suc, ◌≡◌, ◌≢◌, [], ◌∷◌, ◌++◌, get_elem?, length, refl, arith, ap,
  sym, ◌∙◌, Option-cases, Bool-cases, inl, inr, ◌⊎◌,
}
use sigma.Proc.Thread.{Thread, ThreadState, Privilege, disabled, silent, running, idle, blocked}
use sigma.Proc.Scheduler.{Kernel}
use sigma.Proc.Scheduler.Places.{get_elem?-modify_self, get_elem?-modify_ne}
use sigma.Proc.Scheduler.Exclusive.{state_in, runs, state_of, IsExclusive}
use sigma.Proc.Lifecycle.{
  create_thread_int, new_thread, first_disabled, is_disabled, create_blocked_thread,
}

-- The place taken was unused: past the end of the list, or of a thread that is DISABLED.
abbrev pub WasUnused : ℕ → Kernel → Type 0
WasUnused i k = (state_of k i ≡ none) ⊎ (state_of k i ≡ some disabled)

-- The new thread is SILENT, has the privilege asked for and exactly the context that a thread made
-- in a new slot has: nothing of the slot's last user is left in it. No other thread and no CPU is
-- touched.
pub record IsFresh (simd : ℕ) (p : Privilege) (k : Kernel) (i : ℕ) (k' : Kernel) : Type 0 where
  pub unused : WasUnused i k
  pub made : Thread
  pub there : get_elem? k'.threads i ≡ some made
  pub is_silent : made.state ≡ silent
  pub level : made.privilege ≡ p
  pub clean : made.context ≡ (create_thread_int simd p silent (new_thread simd 0)).context
  pub others : (j : ℕ) → i ≢ j → get_elem? k'.threads j ≡ get_elem? k.threads j
  pub same_cpus : k'.cpus ≡ k.cpus

first_disabled_lem :
    (ts : List Thread) {i : ℕ}
    → first_disabled ts ≡ some i
    → (t : Thread) × (get_elem? ts i ≡ some t) × (t.state ≡ disabled)
unfolding first_disabled is_disabled
first_disabled_lem [] h = absurd (ground arith)
first_disabled_lem (t ∷ ts) {i} h = elim (Bool-cases (is_disabled t.state)) [
  | inl e ↦ (t, ground arith, is_disabled_lem t.state e)
  | inr e ↦ elim (Option-cases (first_disabled ts)) [
    | inl none_left ↦ absurd (ground arith)
    | inr (j, found) ↦ (let (u, at, off) = first_disabled_lem ts found in (u, ground arith, off))
  ]
]
  where
    is_disabled_lem : (s : ThreadState) → is_disabled s ≡ true → s ≡ disabled
    is_disabled_lem disabled e = refl
    is_disabled_lem idle e = absurd (cc)
    is_disabled_lem running e = absurd (cc)
    is_disabled_lem blocked e = absurd (cc)
    is_disabled_lem silent e = absurd (cc)

module _ {ℓ} {A : Type ℓ} where
  get_elem?_end : (xs : List A) → get_elem? xs (length xs) ≡ none
  get_elem?_end [] = refl
  get_elem?_end (x ∷ xs) = get_elem?_end xs

  get_elem?-snoc : (xs : List A) (x : A) → get_elem? (xs ++ x ∷ []) (length xs) ≡ some x
  get_elem?-snoc [] x = refl
  get_elem?-snoc (y ∷ xs) x = get_elem?-snoc xs x

  get_elem?-snoc_ne :
      (xs : List A) (x : A) (j : ℕ) → length xs ≢ j → get_elem? (xs ++ x ∷ []) j ≡ get_elem? xs j
  get_elem?-snoc_ne [] x zero h = absurd (h refl)
  get_elem?-snoc_ne [] x (suc j) h = refl
  get_elem?-snoc_ne (y ∷ xs) x zero h = refl
  get_elem?-snoc_ne (y ∷ xs) x (suc j) h = get_elem?-snoc_ne xs x j (λ e. h (ap suc e))

-- A thread is made in an unused place, with a clean context and SILENT; every other thread is as
-- it was.
pub create_blocked_thread-IsFresh :
    (simd : ℕ) (p : Privilege) (k : Kernel)
    → IsFresh simd p k (create_blocked_thread simd p k).0 (create_blocked_thread simd p k).1
unfolding create_blocked_thread create_thread_int
create_blocked_thread-IsFresh simd p k = elim (Option-cases (first_disabled k.threads)) [
  | inl full ↦
      rw (full, create_blocked_thread)
        (record {
          unused = inl (ap state_in (get_elem?_end k.threads));
          made = create_thread_int simd p silent (new_thread simd k.next_tid);
          there = get_elem?-snoc k.threads _;
          is_silent = refl;
          level = refl;
          clean = refl;
          others = λ j ne. get_elem?-snoc_ne k.threads _ j ne;
          same_cpus = refl;
        })
  | inr (i, found) ↦
      (let (t, at, off) = first_disabled_lem k.threads found in
        rw (found, create_blocked_thread)
          (record {
            unused = inr (ap state_in at ∙ ap some off);
            made = create_thread_int simd p silent t;
            there = get_elem?-modify_self k.threads i (create_thread_int simd p silent) at;
            is_silent = refl;
            level = refl;
            clean = refl;
            others = λ j ne. get_elem?-modify_ne k.threads i j _ ne;
            same_cpus = refl;
          }))
]

-- If the current thread of each CPU is RUNNING or SILENT, and one that is current on two CPUs is
-- SILENT, then a thread is made in a place that no CPU runs, before or after, and that still holds.
pub create_blocked_thread-IsExclusive :
    (simd : ℕ) (p : Privilege) (k : Kernel)
    → IsExclusive k
    → ((c : ℕ) → runs k c ≢ some (create_blocked_thread simd p k).0)
      × ((c : ℕ)
          → runs (create_blocked_thread simd p k).1 c ≢ some (create_blocked_thread simd p k).0)
      × IsExclusive (create_blocked_thread simd p k).1
create_blocked_thread-IsExclusive simd p k v =
    keeps (create_blocked_thread simd p k).0 (create_blocked_thread simd p k).1
      (create_blocked_thread-IsFresh simd p k)
  where
    keeps :
        (i : ℕ) (k' : Kernel)
        → IsFresh simd p k i k'
        → ((c : ℕ) → runs k c ≢ some i) × ((c : ℕ) → runs k' c ≢ some i) × IsExclusive k'
    keeps i k' fresh = (
      not_run,
      λ c r. not_run c (sym (same_run c) ∙ r),
      record { busy = is_busy; alone = is_alone },
    )
      where
        not_run : (c : ℕ) → runs k c ≡ some i → ⊥
        not_run c r = clash (v.busy c i r) fresh.unused
          where
            clash : (state_of k i ≡ some running) ⊎ (state_of k i ≡ some silent) → WasUnused i k → ⊥
            clash a b = ground arith

        same_run : (c : ℕ) → runs k' c ≡ runs k c
        same_run c = rw fresh.same_cpus refl

        same_state : (c j : ℕ) → runs k c ≡ some j → state_of k' j ≡ state_of k j
        same_state c j r = ap state_in (fresh.others j (λ e. not_run c (r ∙ ap some (sym e))))

        is_busy :
            (c j : ℕ)
            → runs k' c ≡ some j
            → (state_of k' j ≡ some running) ⊎ (state_of k' j ≡ some silent)
        is_busy c j r =
            let r' : runs k c ≡ some j = sym (same_run c) ∙ r in
            rw (same_state c j r') (v.busy c j r')

        is_alone :
            (c d j : ℕ)
            → c ≢ d
            → runs k' c ≡ some j
            → runs k' d ≡ some j
            → state_of k' j ≡ some silent
        is_alone c d j ne r s =
            let r' : runs k c ≡ some j = sym (same_run c) ∙ r in
            same_state c j r' ∙ v.alone c d j ne r' (sym (same_run d) ∙ s)
