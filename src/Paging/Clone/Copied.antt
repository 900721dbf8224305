-- ===== src/Paging/Clone/Copied.antt =====
-- What a copy of page tables by kernel/source/arch/x86_64/paging.cpp is, and that it stays one.
use sigma.Base.{
  if◌then◌else◌, ℕ_discrete, ℕ, zero, suc, ◌+◌, ◌<◌, ◌≤◌, ◌≡◌, ◌≢◌, arith, true, false, none, some,
  List, [], ◌∷◌, length, ap, sym, ◌∙◌, subst,
}
use sigma.Mm.Pmm.Frames.{HasRoom, times}
use sigma.Paging.Entries.{get_frame, get_flags}
use sigma.Paging.Tree.{Owner, lookup, lookup-present, lookup_absent, same-IsTree, none-some}
use sigma.Paging.Space.{IsSpace, Took}
use sigma.Paging.{Store, present, huge}

-- An entry of a copy, which names a copy of the table that the old entry names.
pub data IsEntryCopy (Below : ℕ → ℕ → Type 0) (e old : ℕ) : Type 0 where
  absent : present e ≡ false → present old ≡ false → IsEntryCopy Below e old
  names :
      present e ≡ true
      → present old ≡ true
      → get_flags e ≡ get_flags old
      → Below (get_frame e) (get_frame old)
      → IsEntryCopy Below e old

-- In the store `s'`, the table `n` copies what `t` was in `s`, with `levels` of tables under it; its
-- tables are all among `fresh`. The last tables have the same entries.
abbrev pub Copied : List ℕ → Store → Store → ℕ → ℕ → ℕ → Type 0
Copied fresh s s' zero n t =
    (times n fresh ≢ 0) × ((i : ℕ) → i < 512 → s'.entries n i ≡ s.entries t i)
Copied fresh s s' (suc levels) n t =
    (times n fresh ≢ 0)
    × ((i : ℕ) → i < 512 → IsEntryCopy (Copied fresh s s' levels) (s'.entries n i) (s.entries t i))

pub root-fresh :
    (fresh : List ℕ) (s s' : Store) (levels n t : ℕ)
    → Copied fresh s s' levels n t
    → times n fresh ≢ 0
root-fresh fresh s s' zero n t c = c.0
root-fresh fresh s s' (suc levels) n t c = c.0

-- No entry above the last tables is huge.
abbrev pub HasNoHuge : Owner → Store → Type 0
HasNoHuge own s =
    (t i : ℕ) (p : List ℕ)
    → own t ≡ some p
    → length p < 3
    → present (s.entries t i) ≡ true
    → huge (s.entries t i) ≡ false

abbrev pub SameTables : Owner → Store → Store → Type 0
SameTables own s s' = (t i : ℕ) (p : List ℕ) → own t ≡ some p → s'.entries t i ≡ s.entries t i

abbrev pub AreIndices : List ℕ → Type 0
AreIndices [] = Unit
AreIndices (i ∷ is) = (i < 512) × AreIndices is

pub map-IsEntryCopy :
    (Below Below' : ℕ → ℕ → Type 0) (e old : ℕ)
    → (present old ≡ true
        → Below (get_frame e) (get_frame old)
        → Below' (get_frame e) (get_frame old))
    → IsEntryCopy Below e old
    → IsEntryCopy Below' e old
map-IsEntryCopy Below Below' e old f (absent a b) = absent a b
map-IsEntryCopy Below Below' e old f (names a b c d) = names a b c (f b d)

module _ {root : ℕ} {own : Owner} {s : Store} (v : IsSpace root own s) where
  -- Frames that were free are no tables.
  pub fresh-owned :
      (s' : Store) (fresh : List ℕ) {u : ℕ} {p : List ℕ}
      → Took fresh s s'
      → own u ≡ some p
      → times u fresh ≡ 0
  fresh-owned s' fresh {u} {p} took h = elim (ℕ_discrete (times u fresh) 0) [
    | yes z ↦ z
    | no ne ↦ absurd (none-some (sym (v.apart u (λ e. ne (omega (arith, took u, e)))) ∙ h))
  ]

  pub took-IsSpace :
      (s' : Store) (fresh : List ℕ)
      → Took fresh s s'
      → HasRoom s'.pmm
      → SameTables own s s'
      → IsSpace root own s'
  took-IsSpace s' fresh took room same = record {
    tree = same-IsTree root own s s' v.tree same;
    room = room;
    apart = λ x h. v.apart x (λ e. h (omega (arith, took x, e)));
    once = λ x. omega (arith, took x, v.once x);
    frames = λ x h. v.frames x (λ e. h (omega (arith, took x, e)));
  }

  pub same-HasNoHuge : (s' : Store) → SameTables own s s' → HasNoHuge own s → HasNoHuge own s'
  same-HasNoHuge s' same h t i p o short there =
      ap huge (same t i p o) ∙ h t i p o short (sym (ap present (same t i p o)) ∙ there)

  -- A copy stays one when its tables and those it copies do not change.
  module _ (s₁ s' s'' : Store) (fresh fresh' : List ℕ) (same : SameTables own s s₁)
      (kept : (u i : ℕ) → times u fresh ≢ 0 → s''.entries u i ≡ s'.entries u i)
      (more : (u : ℕ) → times u fresh ≢ 0 → times u fresh' ≢ 0) where
    pub same-Copied :
        (levels n t : ℕ) (p : List ℕ)
        → own t ≡ some p
        → length p + levels ≤ 3
        → Copied fresh s s' levels n t
        → Copied fresh' s₁ s'' levels n t
    same-Copied zero n t p o short c =
        (more n c.0, λ i h. kept n i c.0 ∙ c.1 i h ∙ sym (same t i p o))
    same-Copied (suc levels) n t p o short c = (
      more n c.0,
      λ i h.
          subst (λ e. IsEntryCopy (Copied fresh' s₁ s'' levels) e (s₁.entries t i))
            (sym (kept n i c.0))
            (subst (λ old. IsEntryCopy (Copied fresh' s₁ s'' levels) (s'.entries n i) old)
              (sym (same t i p o))
              (map-IsEntryCopy (Copied fresh s s' levels) (Copied fresh' s₁ s'' levels)
                (s'.entries n i) (s.entries t i)
                (λ there below.
                  same-Copied levels (get_frame (s'.entries n i)) (get_frame (s.entries t i))
                    (i ∷ p) (v.tree.below t i p o (omega arith) there) (omega arith) below)
                (c.1 i h))),
    )

-- A copy leads where the old tables lead.
module _ (fresh : List ℕ) (s s' : Store) where
  pub entry_leads :
      (Below : ℕ → ℕ → Type 0) (n t i : ℕ) (is : List ℕ)
      → ((a b : ℕ) → Below a b → lookup s' a is ≡ lookup s b is)
      → IsEntryCopy Below (s'.entries n i) (s.entries t i)
      → lookup s' n (i ∷ is) ≡ lookup s t (i ∷ is)
  entry_leads Below n t i is h (absent a b) =
      lookup_absent s' n i is a ∙ sym (lookup_absent s t i is b)
  entry_leads Below n t i is h (names a b c d) =
      lookup-present s' n i is a ∙ h _ _ d ∙ sym (lookup-present s t i is b)

  pub lookup-Copied :
      (levels n t : ℕ) (is : List ℕ)
      → length is ≡ suc levels
      → AreIndices is
      → Copied fresh s s' levels n t
      → lookup s' n is ≡ lookup s t is
  lookup-Copied levels n t [] len small c = absurd (omega (arith, len))
  lookup-Copied zero n t (i ∷ j ∷ is) len small c = absurd (omega (arith, len))
  lookup-Copied zero n t (i ∷ []) len small c =
      ap (λ e. if present e then some (get_frame e) else none) (c.1 i small.0)
  lookup-Copied (suc levels) n t (i ∷ is) len small c =
      entry_leads (Copied fresh s s' levels) n t i is
        (λ a b d. lookup-Copied levels a b is (omega (arith, len)) small.1 d) (c.1 i small.0)
