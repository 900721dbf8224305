-- ===== src/Proc/Scheduler/Places.antt =====
-- Writes to one place of a list, and the place at which the search of
-- kernel/source/proc/process.cpp stops.
use native.Mathlib.Nat.{suc-add}
use sigma.Base.{
  sym, ◌∙◌, take-append-drop, List, Option, none, some, ℕ, ◌≡◌, ◌≢◌, [], ◌∷◌, ◌++◌, ◌+◌, suc, zero,
  get_elem?, take, drop, refl, arith, Option-cases, inl, inr, ◌⊎◌, ap,
}
use sigma.Proc.Thread.{Thread, idle, blocked}
use sigma.Generic.Event.{Event}
use sigma.Proc.Scheduler.{Kernel, Found, modify, check_thread, scan, scan_from, round_robin}

module _ {ℓ} {A : Type ℓ} where
  pub get_elem?-modify_self :
      (xs : List A) (i : ℕ) (f : A → A) {x : A}
      → get_elem? xs i ≡ some x
      → get_elem? (modify i f xs) i ≡ some (f x)
  get_elem?-modify_self [] i f h = ground arith
  get_elem?-modify_self (x ∷ xs) zero f h = ground arith
  get_elem?-modify_self (x ∷ xs) (suc i) f h = get_elem?-modify_self xs i f h

  pub get_elem?-modify_ne :
      (xs : List A) (i j : ℕ) (f : A → A) → i ≢ j → get_elem? (modify i f xs) j ≡ get_elem? xs j
  get_elem?-modify_ne [] i j f h = refl
  get_elem?-modify_ne (x ∷ xs) zero zero f h = absurd (h refl)
  get_elem?-modify_ne (x ∷ xs) zero (suc j) f h = refl
  get_elem?-modify_ne (x ∷ xs) (suc i) zero f h = refl
  get_elem?-modify_ne (x ∷ xs) (suc i) (suc j) f h =
      get_elem?-modify_ne xs i j f (λ e. h (ap suc e))

  take-append-modify :
      (i j : ℕ) (f : A → A) (xs : List A)
      → take i xs ++ modify j f (drop i xs) ≡ modify (i + j) f xs
  take-append-modify zero j f xs = ap (λ k. modify k f xs) (omega arith)
  take-append-modify (suc i) j f [] = refl
  take-append-modify (suc i) j f (x ∷ xs) = rw suc-add (ap (◌∷◌ x) (take-append-modify i j f xs))

  modify-take-append :
      (i j : ℕ) (f : A → A) (xs : List A) {x : A}
      → get_elem? (take i xs) j ≡ some x
      → modify j f (take i xs) ++ drop i xs ≡ modify j f xs
  modify-take-append zero j f xs h = absurd (ground arith)
  modify-take-append (suc i) j f [] h = absurd (ground arith)
  modify-take-append (suc i) zero f (x ∷ xs) h = ap (◌∷◌ (f x)) (whole i xs)
    where
      whole : (i : ℕ) (xs : List A) → take i xs ++ drop i xs ≡ xs
      whole i xs = take-append-drop i xs
  modify-take-append (suc i) (suc j) f (x ∷ xs) h = ap (◌∷◌ x) (modify-take-append i j f xs h)

  get_elem?-take :
      (i j : ℕ) (xs : List A) {x : A} → get_elem? (take i xs) j ≡ some x → get_elem? xs j ≡ some x
  get_elem?-take zero j xs h = absurd (ground arith)
  get_elem?-take (suc i) j [] h = h
  get_elem?-take (suc i) zero (x ∷ xs) h = h
  get_elem?-take (suc i) (suc j) (x ∷ xs) h = get_elem?-take i j xs h

  get_elem?-drop : (i j : ℕ) (xs : List A) → get_elem? (drop i xs) j ≡ get_elem? xs (i + j)
  get_elem?-drop zero j xs = ap (get_elem? xs) (omega arith)
  get_elem?-drop (suc i) j [] = refl
  get_elem?-drop (suc i) j (x ∷ xs) = rw suc-add (get_elem?-drop i j xs)

-- A thread may be taken only while IDLE or BLOCKED, and is IDLE once it is.
pub check_thread_states :
    (t : Thread) (events : ℕ → Event) {t' : Thread} {events' : ℕ → Event}
    → check_thread t events ≡ some (t', events')
    → ((t.state ≡ idle) ⊎ (t.state ≡ blocked)) × (t'.state ≡ idle)
unfolding check_thread
check_thread_states t events h = ground arith

-- The search changes the one place at which it stops.
pub record StopsAt (events : ℕ → Event) (ts : List Thread) (f : Found) : Type 0 where
  pub thread : Thread
  pub thread' : Thread
  pub there : get_elem? ts f.index ≡ some thread
  pub taken : check_thread thread events ≡ some (thread', f.events)
  pub others : f.threads ≡ modify f.index (λ _. thread') ts

abbrev pub Stops : (ℕ → Event) → List Thread → Option Found → Type 0
Stops events ts none = Unit {0}
Stops events ts (some f) = StopsAt events ts f

scan-Stops : (events : ℕ → Event) (ts : List Thread) → Stops events ts (scan events ts)
unfolding scan
scan-Stops events [] = tt
scan-Stops events (t ∷ ts) = elim (Option-cases (check_thread t events)) [
  | inr ((t', events'), ready) ↦
      rw (ready, scan)
        (record { thread = t; thread' = t'; there = refl; taken = ready; others = refl })
  | inl missed ↦ rw (missed, scan) (later (scan events ts) (scan-Stops events ts))
]
  where
    later :
        (r : Option Found)
        → Stops events ts r
        → Stops events (t ∷ ts) (elim r [
          | some f ↦ some (record f { index = suc f.index; threads = t ∷ f.threads })
          | none ↦ none
        ])
    later none s = tt
    later (some f) s = record {
      thread = s.thread;
      thread' = s.thread';
      there = s.there;
      taken = s.taken;
      others = ap (◌∷◌ t) s.others;
    }

scan_from-Stops :
    (i : ℕ) (events : ℕ → Event) (ts : List Thread) → Stops events ts (scan_from i events ts)
unfolding scan_from
scan_from-Stops i events ts =
    from_drop (scan events (drop i ts)) (scan-Stops events (drop i ts)) _
      (from_take (scan events (take i ts)) (scan-Stops events (take i ts)))
  where
    from_take :
        (r : Option Found)
        → Stops events (take i ts) r
        → Stops events ts
            (elim r [ some f ↦ some (record f { threads = f.threads ++ drop i ts }) | none ↦ none ])
    from_take none s = tt
    from_take (some f) s = record {
      thread = s.thread;
      thread' = s.thread';
      there = get_elem?-take i f.index ts s.there;
      taken = s.taken;
      others =
          ap (λ l. l ++ drop i ts) s.others
          ∙ modify-take-append i f.index (λ _. s.thread') ts s.there;
    }

    from_drop :
        (r : Option Found)
        → Stops events (drop i ts) r
        → (other : Option Found) → Stops events ts other
        → Stops events ts (elim r [
          | some f ↦ some (record f { index = i + f.index; threads = take i ts ++ f.threads })
          | none ↦ other
        ])
    from_drop none s other rest = rest
    from_drop (some f) s other rest = record {
      thread = s.thread;
      thread' = s.thread';
      there = sym (get_elem?-drop i f.index ts) ∙ s.there;
      taken = s.taken;
      others = ap (◌++◌ (take i ts)) s.others ∙ take-append-modify i f.index (λ _. s.thread') ts;
    }

-- Whatever the scheduler finds, it stopped at a thread that could be taken.
pub round_robin-Stops :
    (current : Option ℕ) (k : Kernel) → Stops k.events k.threads (round_robin current k)
unfolding round_robin
round_robin-Stops none k = scan-Stops k.events k.threads
round_robin-Stops (some i) k = from_here (get_elem? k.threads i)
  where
    from_here :
        (r : Option Thread)
        → Stops k.events k.threads
            (elim r [ none ↦ none | some t ↦ scan_from i k.events k.threads ])
    from_here none = tt
    from_here (some t) = scan_from-Stops i k.events k.threads
