-- ===== src/Proc/Scheduler/RoundRobin.antt =====
-- Which thread the scheduler of kernel/source/proc/process.cpp takes.
use sigma.Base.{
  length-drop, length-append, sym, append_assoc, ◌≢◌, ap, List, Option, none, some, ℕ, ◌≡◌, [], ◌∷◌,
  suc, zero, ◌+◌, ◌<◌, get_elem?, take, drop, ◌++◌, length, refl, arith, Option-cases, inl, inr,
  ◌⊎◌,
}
use sigma.Proc.Thread.{Thread}
use sigma.Generic.Event.{Event}
use sigma.Proc.Scheduler.{Kernel, Found, check_thread, scan, scan_from, round_robin}

-- No thread of the list may be taken.
abbrev pub NoneReady : (ℕ → Event) → List Thread → Type 0
NoneReady events [] = Unit {0}
NoneReady events (t ∷ ts) = (check_thread t events ≡ none) × NoneReady events ts

-- A search that stops at the thread `t`, the first that may be taken.
pub record IsFirst (events : ℕ → Event) (ts : List Thread) (f : Found) : Type 0 where
  pub before : List Thread
  pub thread : Thread
  pub after : List Thread
  pub thread' : Thread
  pub place : ts ≡ before ++ thread ∷ after
  pub index : f.index ≡ length before
  pub refused : NoneReady events before
  pub taken : check_thread thread events ≡ some (thread', f.events)
  pub others : f.threads ≡ before ++ thread' ∷ after

abbrev pub Scanned : (ℕ → Event) → List Thread → Option Found → Type 0
Scanned events ts r =
    ((r ≡ none) × NoneReady events ts) ⊎ ((f : Found) × (r ≡ some f) × IsFirst events ts f)

scan-Scanned : (events : ℕ → Event) (ts : List Thread) → Scanned events ts (scan events ts)
unfolding scan
scan-Scanned events [] = inl (refl, tt)
scan-Scanned events (t ∷ ts) = elim (Option-cases (check_thread t events)) [
  | inr ((t', events'), ready) ↦
      rw (ready, scan)
        (inr (
          _,
          refl,
          record {
            before = [];
            thread = t;
            after = ts;
            thread' = t';
            place = refl;
            index = refl;
            refused = tt;
            taken = ready;
            others = refl;
          },
        ))
  | inl missed ↦
      rw (missed, scan)
        (elim (scan-Scanned events ts) [
          | inl (e, rest) ↦ rw (e, scan) (inl (refl, (refl, rest)))
          | inr (f, e, first) ↦
              rw (e, scan)
                (inr (
                  _,
                  refl,
                  record {
                    before = t ∷ first.before;
                    thread = first.thread;
                    after = first.after;
                    thread' = first.thread';
                    place = ap (◌∷◌ t) first.place;
                    index = ap suc first.index;
                    refused = (missed, first.refused);
                    taken = first.taken;
                    others = ap (◌∷◌ t) first.others;
                  },
                ))
        ])
]

-- The places of the list, from `i` on round the end to `i`.
abbrev pub rotation : ℕ → List Thread → List Thread
rotation i ts = drop i ts ++ take i ts

NoneReady-append :
    (events : ℕ → Event) (ts us : List Thread)
    → NoneReady events ts
    → NoneReady events us
    → NoneReady events (ts ++ us)
NoneReady-append events [] us a b = b
NoneReady-append events (t ∷ ts) us a b = (a.0, NoneReady-append events ts us a.1 b)

-- The thread found is the first of the rotation that may be taken, and its place in the thread
-- list is the rotation's place counted on from `i`, round the end.
abbrev pub IsNext : ℕ → Kernel → Found → Type 0
IsNext i k f =
    (before : List Thread) × (t : Thread) × (after : List Thread) × (t' : Thread) × (rotation i
        k.threads
      ≡ before ++ t ∷ after)
    × NoneReady k.events before
    × (check_thread t k.events ≡ some (t', f.events))
    × ((f.index ≡ i + length before) ⊎ (f.index + length k.threads ≡ i + length before))

in_range : (ts : List Thread) (i : ℕ) → i < length ts → get_elem? ts i ≢ none
in_range [] i h e = absurd (omega arith)
in_range (t ∷ ts) zero h e = absurd (ground arith)
in_range (t ∷ ts) (suc i) h e = in_range ts i (omega arith) e

abbrev pub Taken : ℕ → Kernel → Option Found → Type 0
Taken i k r =
    ((r ≡ none) × NoneReady k.events (rotation i k.threads))
    ⊎ ((f : Found) × (r ≡ some f) × IsNext i k f)

scan_from-Taken :
    (i : ℕ) (k : Kernel) → i < length k.threads → Taken i k (scan_from i k.events k.threads)
unfolding scan_from
scan_from-Taken i k h = elim (scan-Scanned k.events (drop i k.threads)) [
  | inr (f, e, r) ↦
      rw (e, scan_from)
        (inr (
          _,
          refl,
          (
            r.before,
            r.thread,
            r.after ++ take i k.threads,
            r.thread',
            rw r.place (append_assoc r.before (r.thread ∷ r.after) (take i k.threads)),
            r.refused,
            r.taken,
            inl (omega (arith, r.index)),
          ),
        ))
  | inl (e, refused) ↦
      rw (e, scan_from)
        (elim (scan-Scanned k.events (take i k.threads)) [
          | inl (e', refused') ↦
              rw (e', scan_from) (inl (refl, NoneReady-append k.events _ _ refused refused'))
          | inr (f, e', r) ↦
              rw (e', scan_from)
                (inr (
                  _,
                  refl,
                  (
                    drop i k.threads ++ r.before,
                    r.thread,
                    r.after,
                    r.thread',
                    rw r.place
                        (sym (append_assoc (drop i k.threads) r.before (r.thread ∷ r.after))),
                    NoneReady-append k.events _ _ refused r.refused,
                    r.taken,
                    inr (
                        omega (
                          arith,
                          r.index,
                          length-append (drop i k.threads) r.before,
                          length-drop i k.threads,
                        )),
                  ),
                ))
        ])
]

-- Starting from a thread of the list, the scheduler finds nothing only if no thread at all may be
-- taken; otherwise it takes the first one that may be, counting from that thread round the list.
pub round_robin-Taken :
    (i : ℕ) (k : Kernel) → i < length k.threads → Taken i k (round_robin (some i) k)
unfolding round_robin
round_robin-Taken i k h = elim (Option-cases (get_elem? k.threads i)) [
  | inl missing ↦ absurd (in_range k.threads i h missing)
  | inr (t, there) ↦ rw (there, round_robin) (scan_from-Taken i k h)
]
