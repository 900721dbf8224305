-- ===== src/Idt/FreeVector.antt =====
-- `get_free_vector` of kernel/source/arch/x86_64/idt.cpp gives each vector to one handler.
use sigma.Base.{
  ◌⊎◌, ℕ, zero, suc, ◌<◌, ◌≤◌, ◌≡◌, ◌≢◌, ◌==◌, refl, arith, if◌then◌else◌, true, false, Bool-cases,
  inl, inr, sym, ◌∙◌, ℕ_discrete, subst,
}
use sigma.Idt.{Handler, Handlers, is_taken, free_down, get_free_vector, register_interrupt_handler}

-- The highest vector from 1 to `n` without a handler, or 255 where there is none.
pub data IsHighestFree (n : ℕ) (hs : Handlers) (v : ℕ) : Type 0 where
  all_taken : v ≡ 255 → ((i : ℕ) → 0 < i → i ≤ n → is_taken (hs i) ≡ true) → IsHighestFree n hs v
  free :
      0 < v
      → v ≤ n
      → is_taken (hs v) ≡ false
      → ((i : ℕ) → v < i → i ≤ n → is_taken (hs i) ≡ true)
      → IsHighestFree n hs v

free_down-IsHighestFree : (n : ℕ) (hs : Handlers) → IsHighestFree n hs (free_down n hs)
unfolding free_down
free_down-IsHighestFree zero hs = all_taken refl (λ i a b. absurd (omega (arith, a, b)))
free_down-IsHighestFree (suc n) hs = elim (Bool-cases (is_taken (hs (suc n)))) [
  | inr unset ↦
      rw (unset, free_down)
        (free (omega arith) (omega arith) unset (λ i a b. absurd (omega (arith, a, b))))
  | inl used ↦ rw (used, free_down) (go used (free_down-IsHighestFree n hs))
]
  where
    top :
        (P : ℕ → Type 0)
        → is_taken (hs (suc n)) ≡ true
        → ((i : ℕ) → P i → i ≤ n → is_taken (hs i) ≡ true)
        → (i : ℕ) → P i
        → i ≤ suc n
        → is_taken (hs i) ≡ true
    top P used h i p b = elim (ℕ_discrete i (suc n)) [
      | yes e ↦ subst (λ z. is_taken (hs z) ≡ true) (sym e) used
      | no ne ↦ h i p (omega (arith, b, ne))
    ]

    go : is_taken (hs (suc n)) ≡ true → {v : ℕ} → IsHighestFree n hs v → IsHighestFree (suc n) hs v
    go used (all_taken e h) = all_taken e (top (λ i. 0 < i) used h)
    go used {v} (free a b u h) = free a (omega (arith, b)) u (top (λ i. v < i) used h)

free_vector-IsHighestFree : (hs : Handlers) → IsHighestFree 246 hs (get_free_vector hs)
unfolding get_free_vector
free_vector-IsHighestFree hs = free_down-IsHighestFree 246 hs

-- A vector that was given away and registered is not the next one.
taken_away :
    (n : ℕ) (hs : Handlers) (h : Handler) (v v' : ℕ)
    → is_taken h ≡ true
    → IsHighestFree n (register_interrupt_handler v h hs) v'
    → (v' ≢ v) ⊎ (v ≡ 255)
unfolding register_interrupt_handler
taken_away n hs h v v' called (all_taken e t) = elim (ℕ_discrete v' v) [
  | no ne ↦ inl ne
  | yes same ↦ inr (sym same ∙ e)
]
taken_away n hs h v v' called (free a b unset t) = inl (λ same. clash (sym (itself same) ∙ unset))
  where
    clash : true ≡ false → ⊥
    clash e = cc

    itself : v' ≡ v → is_taken (if v == v' then h else hs v') ≡ true
    itself same = rw (hit same) called
      where
        hit : v' ≡ v → (v == v') ≡ true
        hit e = ground (arith, e)

-- `get_free_vector` gives the highest of the vectors 1 to 246 that has no handler, or 255 where all
-- have one; and once a handler is registered for it, the next call gives another vector, unless it
-- was 255.
pub get_free_vector-fresh :
    (hs : Handlers) (h : Handler)
    → is_taken h ≡ true
    → IsHighestFree 246 hs (get_free_vector hs)
      × ((get_free_vector (register_interrupt_handler (get_free_vector hs) h hs)
            ≢ get_free_vector hs)
          ⊎ (get_free_vector hs ≡ 255))
get_free_vector-fresh hs h called = (
  free_vector-IsHighestFree hs,
  taken_away 246 hs h (get_free_vector hs) _ called
      (free_vector-IsHighestFree (register_interrupt_handler (get_free_vector hs) h hs)),
)
