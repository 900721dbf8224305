-- ===== src/Klibc/Copies.antt =====
-- What the copying loops of kernel/source/klibc/string.cpp leave in memory.
use sigma.Base.{
  subst, ap, ℕ, zero, suc, ◌+◌, ◌<◌, ◌≤◌, ◌≡◌, ◌≢◌, ◌⊎◌, inl, inr, refl, arith, ltb, Bool-cases,
  ℕ_discrete, ◌∙◌,
}
use sigma.Klibc.{Memory, write, copy_up, copy_down, memcpy, memmove}

write_there : (a v : ℕ) (mem : Memory) (x : ℕ) → a ≡ x → write a v mem x ≡ v
unfolding write
write_there a v mem x e = ground arith

write_elsewhere : (a v : ℕ) (mem : Memory) (x : ℕ) → a ≢ x → write a v mem x ≡ mem x
unfolding write
write_elsewhere a v mem x ne = ground arith

-- The `n` bytes from `d` on are those that stood at `s`; all other memory is as it was.
pub record IsCopied (d s n : ℕ) (mem mem' : Memory) : Type 0 where
  pub inside : (j : ℕ) → j < n → mem' (d + j) ≡ mem (s + j)
  pub outside : (x : ℕ) → (x < d) ⊎ (d + n ≤ x) → mem' x ≡ mem x

-- One byte more above, or below, than what is copied from there on.
module _ (d s n : ℕ) (mem mem' : Memory) where
  up_by_one :
      s ≤ d → IsCopied d s n (write (d + n) (mem (s + n)) mem) mem' → IsCopied d s (suc n) mem mem'
  up_by_one h c = record {
    inside = λ j lt. elim (ℕ_discrete j n) [
      | yes e ↦ rw e (
          c.outside (d + n) (inr (omega arith))
          ∙ write_there (d + n) (mem (s + n)) mem (d + n) refl)
      | no ne ↦
          c.inside j (omega arith) ∙ write_elsewhere (d + n) (mem (s + n)) mem (s + j) (omega arith)
    ];
    outside = λ x o.
        c.outside x (omega arith) ∙ write_elsewhere (d + n) (mem (s + n)) mem x (omega arith);
  }

  down_by_one :
      (d ≤ s) ⊎ (s + n < d)
      → IsCopied (suc d) (suc s) n (write d (mem s) mem) mem'
      → IsCopied d s (suc n) mem mem'
  down_by_one h c = record {
    inside = from;
    outside = λ x o. c.outside x (omega arith) ∙ write_elsewhere d (mem s) mem x (omega arith);
  }
    where
      from : (j : ℕ) → j < suc n → mem' (d + j) ≡ mem (s + j)
      from zero lt =
          ap mem' (omega arith)
          ∙ c.outside d (inl (omega arith))
          ∙ write_there d (mem s) mem d refl
          ∙ ap mem (omega arith)
      from (suc j) lt =
          ap mem' (omega arith)
          ∙ c.inside j (omega arith)
          ∙ write_elsewhere d (mem s) mem (suc s + j) (omega arith)
          ∙ ap mem (omega arith)

copy_down-IsCopied : (n d s : ℕ) (mem : Memory) → s ≤ d → IsCopied d s n mem (copy_down n d s mem)
unfolding copy_down
copy_down-IsCopied zero d s mem h = record {
  inside = λ j lt. absurd (omega arith);
  outside = λ x o. refl;
}
copy_down-IsCopied (suc n) d s mem h =
    up_by_one d s n mem _ h (copy_down-IsCopied n d s (write (d + n) (mem (s + n)) mem) h)

-- No byte is overwritten before it is read.
abbrev pub MayGoUp : ℕ → ℕ → ℕ → Type 0
MayGoUp d s n = (d ≤ s) ⊎ (s + n ≤ d)

copy_up_lem :
    (n i d s : ℕ) (mem : Memory)
    → MayGoUp d s (i + n)
    → IsCopied (d + i) (s + i) n mem (copy_up n i d s mem)
unfolding copy_up
copy_up_lem zero i d s mem h = record {
  inside = λ j lt. absurd (omega arith);
  outside = λ x o. refl;
}
copy_up_lem (suc n) i d s mem h = down_by_one (d + i) (s + i) n mem _ (omega arith) (
    subst (λ z. IsCopied z (suc (s + i)) n after (copy_up n (suc i) d s after)) (omega arith)
      (subst (λ z. IsCopied (d + suc i) z n after (copy_up n (suc i) d s after)) (omega arith)
        (copy_up_lem n (suc i) d s after (omega arith))))
  where
    after : Memory
    after = write (d + i) (mem (s + i)) mem

-- memcpy copies exactly where the destination starts below the source or the areas are apart.
pub memcpy-IsCopied :
    (d s n : ℕ) (mem : Memory) → MayGoUp d s n → IsCopied d s n mem (memcpy d s n mem)
unfolding memcpy
memcpy-IsCopied d s n mem h =
    subst (λ z. IsCopied z s n mem (copy_up n 0 d s mem)) (omega arith)
      (subst (λ z. IsCopied (d + 0) z n mem (copy_up n 0 d s mem)) (omega arith)
        (copy_up_lem n 0 d s mem (omega arith)))

-- memmove copies exactly, however the two areas overlap: afterwards the `n` bytes at the
-- destination are those that stood at the source, and all other memory is as it was.
pub memmove-IsCopied : (d s n : ℕ) (mem : Memory) → IsCopied d s n mem (memmove d s n mem)
unfolding memmove
memmove-IsCopied d s n mem = elim (Bool-cases (ltb d s)) [
  | inl up ↦ rw (up, memmove) (unfold memcpy in memcpy-IsCopied d s n mem (ground arith))
  | inr down ↦ rw (down, memmove) (copy_down-IsCopied n d s mem (ground arith))
]
