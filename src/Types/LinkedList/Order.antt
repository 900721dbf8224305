-- ===== src/Types/LinkedList/Order.antt =====
-- The entries of kernel/include/Sigma/types/linked_list.hpp stand in the order of their arrival.
use sigma.Base.{
  Option-cases, ℕ, zero, suc, ◌+◌, ◌<◌, ◌≡◌, ◌≢◌, ◌==◌, refl, arith, true, false, inl, inr, Option,
  none, some, List, [], ◌∷◌, ◌++◌, length, length-append, get_elem?, sym, ◌∙◌, ok, panic, u64,
}
use sigma.Types.LinkedList.{Entry, LinkedList, store, link_tail, push_back, walk, at_index}

abbrev pub IsNew : ℕ → List ℕ → Type 0
IsNew n [] = Unit {0}
IsNew n (a ∷ ps) = (n ≢ a) × IsNew n ps

abbrev pub AreDistinct : List ℕ → Type 0
AreDistinct [] = Unit {0}
AreDistinct (a ∷ ps) = IsNew a ps × AreDistinct ps

module _ {ℓ} {A : Type ℓ} where
  -- From `first` on stand the entries `ps` with the items `xs`; `prev` is before them.
  pub data IsChain (m : ℕ → Option (Entry A))
      : Option ℕ → Option ℕ → Option ℕ → List ℕ → List A → Type ℓ where
    ends : (prev : Option ℕ) → IsChain m prev none prev [] []
    goes :
        (prev : Option ℕ) (a : ℕ) (x : A) (next last : Option ℕ) (ps : List ℕ) (xs : List A)
        → m a ≡ some (record { item = x; prev = prev; next = next })
        → IsChain m (some a) next last ps xs
        → IsChain m prev (some a) last (a ∷ ps) (x ∷ xs)

-- The list has the items `xs` at distinct addresses, and the length that it says.
pub record IsList {ℓ} {A : Type ℓ} (l : LinkedList A) (ps : List ℕ) (xs : List A) : Type ℓ where
  pub chain : IsChain l.entries none l.head l.tail ps xs
  pub distinct : AreDistinct ps
  pub counted : l.n_entries ≡ length xs

snoc-IsNew : (a n : ℕ) (ps : List ℕ) → IsNew a ps → a ≢ n → IsNew a (ps ++ n ∷ [])
snoc-IsNew a n [] new ne = (ne, tt)
snoc-IsNew a n (b ∷ ps) new ne = (new.0, snoc-IsNew a n ps new.1 ne)

snoc-AreDistinct : (n : ℕ) (ps : List ℕ) → AreDistinct ps → IsNew n ps → AreDistinct (ps ++ n ∷ [])
snoc-AreDistinct n [] d new = (tt, tt)
snoc-AreDistinct n (a ∷ ps) d new =
    (snoc-IsNew a n ps d.0 (λ e. new.0 (sym e)), snoc-AreDistinct n ps d.1 new.1)

some-injective : {a b : ℕ} → some a ≡ some b → a ≡ b
some-injective e = cc

module _ {ℓ} {A : Type ℓ} where
  stored_self : (n : ℕ) (e : Entry A) (m : ℕ → Option (Entry A)) → store n e m n ≡ some e
  stored_self n e m = ground arith

  stored_other : (n a : ℕ) (e : Entry A) (m : ℕ → Option (Entry A)) → n ≢ a → store n e m a ≡ m a
  stored_other n a e m ne = ground (arith, ne)

  -- Entries elsewhere may change.
  same-IsChain :
      (m m' : ℕ → Option (Entry A)) (n : ℕ)
      → ((a : ℕ) → n ≢ a → m' a ≡ m a)
      → {prev first last : Option ℕ} {ps : List ℕ} {xs : List A} → IsNew n ps
      → IsChain m prev first last ps xs
      → IsChain m' prev first last ps xs
  same-IsChain m m' n h new (ends prev) = ends prev
  same-IsChain m m' n h new (goes prev a x next last ps xs e c) =
      goes prev a x next last ps xs (h a new.0 ∙ e) (same-IsChain m m' n h new.1 c)

  linked_self :
      (m : ℕ → Option (Entry A)) (n a : ℕ) (e : Entry A)
      → m a ≡ some e
      → link_tail (some a) n m a ≡ some (record e { next = some n })
  linked_self m n a e h = rw (h, link_tail) (stored_self a (record e { next = some n }) m)

  linked_other :
      (m : ℕ → Option (Entry A)) (n a : ℕ) (last : Option ℕ)
      → ((t : ℕ) → last ≡ some t → t ≢ a)
      → link_tail last n m a ≡ m a
  linked_other m n a none h = refl
  linked_other m n a (some t) h = elim (Option-cases (m t)) [
    | inl e ↦ rw (e, link_tail) refl
    | inr (e, f) ↦ rw (f, link_tail) (stored_other t a (record e { next = some n }) m (h t refl))
  ]

  last_apart :
      (m : ℕ → Option (Entry A)) (a : ℕ)
      → {prev first last : Option ℕ} {b : ℕ} {qs : List ℕ} {xs : List A} → IsNew a (b ∷ qs)
      → IsChain m prev first last (b ∷ qs) xs
      → (t : ℕ) → last ≡ some t
      → t ≢ a
  last_apart m a new (goes prev b x next last qs xs e (ends _)) t h same =
      new.0 (sym same ∙ sym (some-injective h))
  last_apart m a new (goes prev b x next last qs xs e (goes _ c y after _ rs ys f k)) t h same =
      last_apart m a {prev = some b} new.1 (goes (some b) c y after last rs ys f k) t h same

  -- The new entry comes after the last.
  snoc-IsChain :
      (m : ℕ → Option (Entry A)) (n : ℕ) (x : A)
      → {prev first last : Option ℕ} {ps : List ℕ} {xs : List A} → IsNew n ps
      → AreDistinct ps
      → 0 < length ps
      → IsChain m prev first last ps xs
      → IsChain
          (store n (record { item = x; prev = last; next = none }) (link_tail last n m))
          prev
          first
          (some n)
          (ps ++ n ∷ [])
          (xs ++ x ∷ [])
  snoc-IsChain m n x new apart some_entry (ends prev) = absurd (omega (arith, some_entry))
  snoc-IsChain m n x new apart some_entry (goes prev a y next last ps xs e (ends _)) =
      goes prev a y (some n) (some n) (n ∷ []) (x ∷ [])
        (stored_other n a _ (link_tail (some a) n m) new.0 ∙ linked_self m n a _ e)
        (goes (some a) n x none (some n) [] [] (stored_self n _ (link_tail (some a) n m))
          (ends (some n)))
  snoc-IsChain m n x new apart some_entry
        (goes prev a y next last ps xs e (goes _ b z next' _ qs ys f c)) =
      goes prev a y (some b) (some n) _ _
        (stored_other n a _ (link_tail last n m) new.0
          ∙ linked_other m n a last
              (last_apart m a apart.0 (goes (some a) b z next' last qs ys f c))
          ∙ e)
        (snoc-IsChain m n x {prev = some a} new.1 apart.1 (omega arith)
          (goes (some a) b z next' last qs ys f c))

  -- `push_back` at an address where no entry stands puts the item after all others, which keep their
  -- places and order, in a list whose pointers and length agree.
  pub push_back-IsList :
      (l : LinkedList A) (n : ℕ) (x : A) (ps : List ℕ) (xs : List A)
      → IsList l ps xs
      → IsNew n ps
      → length xs + 1 < u64
      → IsList (push_back n x l) (ps ++ n ∷ []) (xs ++ x ∷ [])
  unfolding push_back
  push_back-IsList l n x [] (y ∷ xs) v new small = elim (no_entries v.chain) [ ]
    where
      no_entries : {prev first last : Option ℕ} → IsChain l.entries prev first last [] (y ∷ xs) → ⊥
      no_entries c = elim c [ ]
  push_back-IsList l n x (p ∷ ps) [] v new small = elim (no_items v.chain) [ ]
    where
      no_items : {prev first last : Option ℕ} → IsChain l.entries prev first last (p ∷ ps) [] → ⊥
      no_items c = elim c [ ]
  push_back-IsList l n x [] [] v new small = rw is_empty (record {
    chain = goes none n x none (some n) [] [] (stored_self n _ l.entries) (ends (some n));
    distinct = (tt, tt);
    counted = omega (arith, v.counted);
  })
    where
      is_empty : (l.n_entries == 0) ≡ true
      is_empty = ground (arith, v.counted)
  push_back-IsList l n x (p ∷ ps) (y ∷ xs) v new small = rw has_some (record {
    chain = snoc-IsChain l.entries n x new v.distinct (omega arith) v.chain;
    distinct = snoc-AreDistinct n (p ∷ ps) v.distinct new;
    counted = omega (arith, v.counted, small, length-append (y ∷ xs) (x ∷ []));
  })
    where
      has_some : (l.n_entries == 0) ≡ false
      has_some = ground (arith, v.counted)

  walked :
      (m : ℕ → Option (Entry A)) (i : ℕ)
      → {prev first last : Option ℕ} {ps : List ℕ} {xs : List A} → IsChain m prev first last ps xs
      → walk i m first ≡ elim (get_elem? xs i) [ none ↦ panic | some x ↦ ok x ]
  unfolding walk
  walked m zero (ends prev) = refl
  walked m (suc i) (ends prev) = refl
  walked m zero (goes prev a x next last ps xs e c) = rw (e, walk) refl
  walked m (suc i) (goes prev a x next last ps xs e c) = rw (e, walk) (walked m i c)

  -- `operator[]` gives the item of that number, and halts past the end.
  pub at_index-get :
      (l : LinkedList A) (ps : List ℕ) (xs : List A) (i : ℕ)
      → IsList l ps xs
      → at_index i l ≡ elim (get_elem? xs i) [ none ↦ panic | some x ↦ ok x ]
  unfolding at_index
  at_index-get l ps xs i v = walked l.entries i v.chain
