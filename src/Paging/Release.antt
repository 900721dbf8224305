-- ===== src/Paging/Release.antt =====
-- What `deinit` of kernel/source/arch/x86_64/paging.cpp gives back to the frame allocator.
use sigma.Base.{
  ℕ, zero, suc, ◌+◌, ◌*◌, ◌<◌, ◌≤◌, ◌≡◌, ◌≢◌, arith, Bool-cases, inl, inr, some, List, [], ◌∷◌,
  ◌++◌, length, ap, ◌∙◌, subst, ok, ◌>>=◌, u64, ℕ_discrete,
}
use sigma.Mm.Pmm.{Pmm, alloc_block}
use sigma.Mm.Pmm.Alloc.{alloc_block-Allocated}
use sigma.Mm.Pmm.Frames.{free_count, HasRoom, hit, times, times-append}
use sigma.Paging.Entries.{get_frame}
use sigma.Paging.Bits.{get_frame-IsFrame}
use sigma.Paging.Tree.{Owner}
use sigma.Paging.Space.{IsSpace}
use sigma.Paging.Clean.{
  has_table, children, concat_map, tables_below, tables_of, deinit, init, deinit-tables_of,
}
use sigma.Paging.Tables.{tables_of_once, tables_of_owned}
use sigma.Paging.{Store, clear_table, alloc_table}
use sigma.Proc.Lifecycle.Release.{AreAddresses, CanGrow, free_frames_lem}

AreAddresses-append : (fs gs : List ℕ) → AreAddresses fs → AreAddresses gs → AreAddresses (fs ++ gs)
AreAddresses-append [] gs a b = b
AreAddresses-append (f ∷ fs) gs a b = (a.0, AreAddresses-append fs gs a.1 b)

module _ (s : Store) where
  children-AreAddresses : (n t i : ℕ) → AreAddresses (children s t i n)
  children-AreAddresses zero t i = tt
  children-AreAddresses (suc n) t i = elim (Bool-cases (has_table (s.entries t i))) [
    | inl h ↦ rw h (frame_bound (s.entries t i), children-AreAddresses n t (suc i))
    | inr h ↦ rw h (children-AreAddresses n t (suc i))
  ]
    where
      frame_bound : (e : ℕ) → get_frame e < u64
      frame_bound e = omega (arith, (get_frame-IsFrame e).1)

  concat-AreAddresses :
      (f : ℕ → List ℕ) (cs : List ℕ)
      → ((c : ℕ) → AreAddresses (f c))
      → AreAddresses cs
      → AreAddresses (concat_map (λ c. f c ++ c ∷ []) cs)
  concat-AreAddresses f [] h a = tt
  concat-AreAddresses f (c ∷ cs) h a =
      AreAddresses-append (f c ++ c ∷ []) (concat_map (λ c. f c ++ c ∷ []) cs)
        (AreAddresses-append (f c) (c ∷ []) (h c) (a.0, tt)) (concat-AreAddresses f cs h a.1)

  below-AreAddresses : (levels t : ℕ) → AreAddresses (tables_below s levels t)
  below-AreAddresses zero t = tt
  below-AreAddresses (suc levels) t =
      concat-AreAddresses (tables_below s levels) (children s t 0 512) (below-AreAddresses levels)
        (children-AreAddresses 512 t 0)

  tables_of-AreAddresses : (root : ℕ) → root < u64 → AreAddresses (tables_of s root)
  tables_of-AreAddresses root h =
      AreAddresses-append (concat_map (λ c. tables_below s 2 c ++ c ∷ []) (children s root 0 256))
        (root ∷ [])
        (concat-AreAddresses (tables_below s 2) (children s root 0 256) (below-AreAddresses 2)
          (children-AreAddresses 256 root 0))
        (h, tt)

  -- The frame stack takes `k` frames more than the tables.
  pub record HasRoomFor (fs : List ℕ) (k : ℕ) : Type 0 where
    pub slots : length s.pmm.live + (length fs + k) + 2 ≤ s.pmm.n_slots
    pub slack : CanGrow (length fs + k) s.pmm.live

  freed_tables :
      (root k : ℕ)
      → root < u64
      → HasRoomFor (tables_of s root) k
      → (m : Pmm) × (deinit (some root) s ≡ ok (record s { pmm = m }))
        × (length m.live + k + 2 ≤ m.n_slots)
        × CanGrow k m.live
        × ((x : ℕ) → free_count m.live x ≡ times x (tables_of s root) + free_count s.pmm.live x)
  freed_tables root k h r =
      let (m, e, slots, slack, counts) =
        free_frames_lem k (tables_of s root) s.pmm (tables_of-AreAddresses root h) r.slots
          r.slack in
      (
        m,
        deinit-tables_of root s ∙ ap (λ z. z >>= λ m. ok (record s { pmm = m })) e,
        slots,
        slack,
        counts,
      )

-- In an address space whose tables form a tree apart from the free frames, where the frame stack has
-- room for the tables, `deinit` does not halt; each table below the lower half, and the upper table,
-- is free once more than before, nothing else is, and no frame is then listed as free twice.
pub deinit-frees :
    (root : ℕ) (own : Owner) (s : Store)
    → IsSpace root own s
    → root < u64
    → HasRoomFor s (tables_of s root) 0
    → (s' : Store) × (deinit (some root) s ≡ ok s')
      × ((x : ℕ) → free_count s'.pmm.live x ≡ times x (tables_of s root) + free_count s.pmm.live x)
      × ((x : ℕ) → free_count s'.pmm.live x ≤ 1)
deinit-frees root own s v h r =
    let (m, e, slots, slack, counts) = freed_tables s root 0 h r in
    (record s { pmm = m }, e, counts, λ x. bound m counts x)
  where
    bound :
        (m : Pmm)
        → ((x : ℕ) → free_count m.live x ≡ times x (tables_of s root) + free_count s.pmm.live x)
        → (x : ℕ) → free_count m.live x ≤ 1
    bound m counts x = elim (ℕ_discrete (times x (tables_of s root)) 0) [
      | yes z ↦ omega (arith, counts x, z, v.once x)
      | no ne ↦ elim (ℕ_discrete (free_count s.pmm.live x) 0) [
        | yes z ↦ omega (arith, counts x, z, tables_of_once root own s v.tree x)
        | no some_free ↦ absurd (tables_of_owned root own s v.tree x ne (v.apart x some_free))
      ]
    ]

-- `deinit` leaves the pointer to the upper table in place, so that the `init` that follows it in
-- `kill` calls it again: every table is then free twice more than before, but for the one frame that
-- `init` takes for the new upper table.
pub deinit-init_twice :
    (root : ℕ) (s : Store)
    → root < u64
    → HasRoomFor s (tables_of s root) (length (tables_of s root))
    → (n : ℕ) × (s' : Store) × ((deinit (some root) s >>= init (some root)) ≡ ok (n, s'))
      × ((x : ℕ)
          → hit n x + free_count s'.pmm.live x
            ≡ 2 * times x (tables_of s root) + free_count s.pmm.live x)
unfolding init alloc_table clear_table
deinit-init_twice root s h r =
    let (m, e, slots, slack, counts) = freed_tables s root (length (tables_of s root)) h r in
    let s₁ : Store = record s { pmm = m } in
    let (m₂, e₂, slots₂, slack₂, counts₂) = freed_tables s₁ root 0 h (again m slots slack) in
    let (n, q, e₃, counts₃) =
      taken m₂ (record { room = omega (arith, slots₂) }) (root_free m counts m₂ counts₂) in
    (
      n,
      clear_table n (record s { pmm = q }),
      ap (λ z. z >>= init (some root)) e
          ∙ ap (λ z. z >>= alloc_table) e₂
          ∙ ap (λ z. z >>= λ r. ok (r.0, clear_table r.0 (record s { pmm = r.1 }))) e₃,
      λ x. omega (arith, counts x, counts₂ x, counts₃ x),
    )
  where
    taken :
        (p : Pmm)
        → HasRoom p
        → free_count p.live root ≢ 0
        → (n : ℕ) × (q : Pmm) × (alloc_block p ≡ ok (n, q))
          × ((x : ℕ) → free_count p.live x ≡ hit n x + free_count q.live x)
    taken p room some_free = elim (alloc_block-Allocated p room) [
      | inl (e, empty) ↦ absurd (some_free (empty root))
      | inr (n, q, e, room', slots, counts) ↦ (n, q, e, counts)
    ]

    listed : times root (tables_of s root) ≢ 0
    listed z = ground (
      arith,
      z,
      times-append root (concat_map (λ c. tables_below s 2 c ++ c ∷ []) (children s root 0 256))
          (root ∷ []),
    )

    root_free :
        (m : Pmm)
        → ((x : ℕ) → free_count m.live x ≡ times x (tables_of s root) + free_count s.pmm.live x)
        → (m₂ : Pmm)
        → ((x : ℕ) → free_count m₂.live x ≡ times x (tables_of s root) + free_count m.live x)
        → free_count m₂.live root ≢ 0
    root_free m counts m₂ counts₂ z = listed (omega (arith, counts₂ root, z))

    again :
        (m : Pmm)
        → length m.live + length (tables_of s root) + 2 ≤ m.n_slots
        → CanGrow (length (tables_of s root)) m.live
        → HasRoomFor (record s { pmm = m }) (tables_of s root) 0
    again m slots slack = record {
      slots = omega (arith, slots);
      slack = subst (λ n. CanGrow n m.live) (no_more (length (tables_of s root))) slack;
    }
      where
        no_more : (n : ℕ) → n ≡ n + 0
        no_more n = omega arith
