-- ===== src/Types/LinkedList.antt =====
-- `types::linked_list` of kernel/include/Sigma/types/linked_list.hpp: entries by address, each with
-- pointers to those before and after it. Where a new entry stands is for the allocator to say.
pub mod Order
use sigma.Base.{
  ℕ, zero, suc, ◌+◌, ◌<◌, ◌≡◌, ◌≢◌, ◌⊎◌, ◌==◌, refl, arith, if◌then◌else◌, Bool, true, false,
  Bool-cases, inl, inr, Option, none, some, List, [], ◌∷◌, ◌++◌, length, length-append, get_elem?,
  ap, sym, ◌∙◌, Outcome, ok, panic, add64, u64,
}

pub record Entry {ℓ} (A : Type ℓ) : Type ℓ where
  pub item : A
  pub prev : Option ℕ
  pub next : Option ℕ

pub record LinkedList {ℓ} (A : Type ℓ) : Type ℓ where
  pub entries : ℕ → Option (Entry A)
  pub head : Option ℕ
  pub tail : Option ℕ
  pub n_entries : ℕ

module _ {ℓ} {A : Type ℓ} where
  abbrev pub store : ℕ → Entry A → (ℕ → Option (Entry A)) → ℕ → Option (Entry A)
  store n e m a = if n == a then some e else m a

  -- `tail->next = n`; a null tail is never written through, as the theorems show.
  abbrev pub link_tail : Option ℕ → ℕ → (ℕ → Option (Entry A)) → ℕ → Option (Entry A)
  link_tail none n m = m
  link_tail (some t) n m = elim (m t) [ none ↦ m | some e ↦ store t (record e { next = some n }) m ]

  unfoldable pub empty_list : LinkedList A
  empty_list = record { entries = λ a. none; head = none; tail = none; n_entries = 0 }

  -- `push_back`, `emplace_back` and `empty_entry`, with the address and the item of the new entry.
  unfoldable pub push_back : ℕ → A → LinkedList A → LinkedList A
  push_back n x l =
      if l.n_entries == 0
      then record {
        entries = store n (record { item = x; prev = none; next = none }) l.entries;
        head = some n;
        tail = some n;
        n_entries = add64 l.n_entries 1;
      }
      else record {
        entries =
            store n (record { item = x; prev = l.tail; next = none })
              (link_tail l.tail n l.entries);
        head = l.head;
        tail = some n;
        n_entries = add64 l.n_entries 1;
      }

  -- The iterator of `operator[]`, for a number of steps; PANIC at the end of the list.
  unfoldable pub walk : ℕ → (ℕ → Option (Entry A)) → Option ℕ → Outcome A
  walk i m none = panic
  walk zero m (some a) = elim (m a) [ none ↦ panic | some e ↦ ok e.item ]
  walk (suc i) m (some a) = elim (m a) [ none ↦ panic | some e ↦ walk i m e.next ]

  unfoldable pub at_index : ℕ → LinkedList A → Outcome A
  unfolding walk
  at_index i l = walk i l.entries l.head

  -- The loop of `get_entry_for_item`, which compares addresses of items: the entry with the given one.
  unfoldable pub find_entry : ℕ → ℕ → (ℕ → Option (Entry A)) → Option ℕ → Option ℕ
  find_entry fuel a m none = none
  find_entry zero a m (some b) = none
  find_entry (suc fuel) a m (some b) =
      let rest : Option ℕ = elim (m b) [ none ↦ none | some e ↦ find_entry fuel a m e.next ] in
      if a == b then some b else rest
