-- ===== src/Generic/Handles.antt =====
-- `generic::handles` of kernel/include/Sigma/generic/user_handle.hpp and `misc::id_generator` of
-- kernel/include/Sigma/misc/misc.h: a thread's catalogue of kernel objects by number. The objects
-- behind the handles are a type parameter; `none` is the null pointer.
use sigma.Base.{
  ap, subst, List, Option, Outcome, [], add64, arith, assert, none, ok, some, u64, ◌+◌, ◌<◌, ◌>>=◌,
  ◌>>◌, ◌≡◌, ◌≢◌, ◌∷◌, ◌++◌, ℕ, Bool, true, false,
}
use sigma.Types.HashMap.{find, push_back, at}

pub data HandleType : Type 0 where
  v_cpu v_space irq ipc_ring : HandleType

unfoldable pub same_type : HandleType → HandleType → Bool
same_type v_cpu v_cpu = true
same_type v_space v_space = true
same_type irq irq = true
same_type ipc_ring ipc_ring = true
same_type a b = false

pub record Handle {ℓ} (O : Type ℓ) : Type ℓ where
  pub type : HandleType
  pub object : O

-- `id_generator::id`: the id, and the generator's next state.
unfoldable pub next_id : ℕ → ℕ × ℕ
next_id n = (n, add64 n 1)

pub record Catalogue {ℓ} (O : Type ℓ) : Type ℓ where
  pub id_gen : ℕ
  pub catalogue : List (ℕ × Option (Handle O))

-- `nop_hasher<uint64_t>`.
abbrev pub nop_hasher : ℕ → ℕ
nop_hasher k = k

module _ {ℓ} {O : Type ℓ} where
  unfoldable pub empty : Catalogue O
  empty = record { id_gen = 0; catalogue = [] }

  unfoldable pub push : Option (Handle O) → Catalogue O → ℕ × Catalogue O
  unfolding next_id push_back
  push h c =
      let (id, gen) = next_id c.id_gen in
      (id, record { id_gen = gen; catalogue = push_back nop_hasher id h c.catalogue })

  unfoldable pub typed : HandleType → Option (Handle O) → Outcome (Option O)
  unfolding same_type
  typed t none = ok none
  typed t (some h) = do assert (same_type h.type t); ok (some h.object)

  -- `get<T>`, with `T::default_type` for the type.
  unfoldable pub get : HandleType → ℕ → Catalogue O → Outcome (Option O)
  unfolding at typed
  get t id c = do h ← at nop_hasher id c.catalogue; typed t h

  -- Every id in the catalogue was handed out.
  abbrev pub AreBelow : ℕ → List (ℕ × Option (Handle O)) → Type 0
  AreBelow n [] = Unit {0}
  AreBelow n ((k, h) ∷ es) = (k < n) × AreBelow n es

  AreBelow-push :
      (n : ℕ) (h : Option (Handle O)) (es : List (ℕ × Option (Handle O)))
      → AreBelow n es
      → AreBelow (n + 1) (es ++ (n, h) ∷ [])
  AreBelow-push n h [] b = (omega arith, tt)
  AreBelow-push n h ((k, g) ∷ es) b = (omega arith, AreBelow-push n h es b.1)

  find-append_new :
      (n : ℕ) (h : Option (Handle O)) (es : List (ℕ × Option (Handle O)))
      → AreBelow n es
      → find n (es ++ (n, h) ∷ []) ≡ ok h
  unfolding find
  find-append_new n h [] b = ground arith
  find-append_new n h ((k, g) ∷ es) b = ground (arith, find-append_new n h es b.1)

  find-append_old :
      (n j : ℕ) (h : Option (Handle O)) (es : List (ℕ × Option (Handle O)))
      → j ≢ n
      → find j (es ++ (n, h) ∷ []) ≡ find j es
  unfolding find
  find-append_old n j h [] b = ground arith
  find-append_old n j h ((k, g) ∷ es) b = ground (arith, find-append_old n j h es b)

  -- Until the counter wraps, a push hands out a number that no handle has, under which the new
  -- handle and nothing else is found, and every other number finds what it found before.
  pub push-get :
      (t : HandleType) (h : Option (Handle O)) (c : Catalogue O) (j : ℕ)
      → AreBelow c.id_gen c.catalogue
      → c.id_gen + 1 < u64
      → let (id, c') = push h c in
        AreBelow c'.id_gen c'.catalogue
        × (get t id c' ≡ typed t h)
        × (j ≢ id → get t j c' ≡ get t j c)
  unfolding push get
  push-get t h c j b w = (
    subst (λ n. AreBelow n (c.catalogue ++ (c.id_gen, h) ∷ [])) next
        (AreBelow-push c.id_gen h c.catalogue b),
    ap (λ r. r >>= typed t) (find-append_new c.id_gen h c.catalogue b),
    λ ne. ap (λ r. r >>= typed t) (find-append_old c.id_gen j h c.catalogue ne),
  )
    where
      next : c.id_gen + 1 ≡ add64 c.id_gen 1
      next = omega arith
