-- ===== src/Paging/Clean.antt =====
-- An address space made and given up: `init`, `deinit`, `clean_pdpt` and `clean_pd` of
-- kernel/source/arch/x86_64/paging.cpp. A context is its pointer to the upper table, or none.
use sigma.Base.{
  ℕ, zero, suc, ◌≡◌, refl, ◌&&◌, not, if◌then◌else◌, Bool, true, false, Option, none, some, List,
  [], ◌∷◌, ◌++◌, Outcome, ok, panic, ◌>>=◌, ap, sym, ◌∙◌,
}
use sigma.Mm.Pmm.{Pmm, free_block}
use sigma.Proc.Lifecycle.{free_frames}
use sigma.Paging.Entries.{get_frame}
use sigma.Paging.{Store, present, huge, alloc_table}

-- `mm::pmm::free_block`.
unfoldable pub free_table : ℕ → Store → Outcome Store
free_table frame s = free_block frame s.pmm >>= λ m. ok (record s { pmm = m })

-- The entry names a table.
abbrev pub has_table : ℕ → Bool
has_table e = present e && not (huge e)

-- The loops go on from the index `i` for `n` entries.
unfoldable pub clean_pd : ℕ → ℕ → ℕ → Store → Outcome Store
unfolding free_table
clean_pd pd i zero s = ok s
clean_pd pd i (suc n) s =
    (if has_table (s.entries pd i) then free_table (get_frame (s.entries pd i)) s else ok s)
    >>= clean_pd pd (suc i) n

unfoldable pub clean_pdpt : ℕ → ℕ → ℕ → Store → Outcome Store
unfolding free_table clean_pd
clean_pdpt pdpt i zero s = ok s
clean_pdpt pdpt i (suc n) s =
    (if has_table (s.entries pdpt i)
      then clean_pd (get_frame (s.entries pdpt i)) 0 512 s
        >>= free_table (get_frame (s.entries pdpt i))
      else ok s)
    >>= clean_pdpt pdpt (suc i) n

-- The loop of `deinit`.
unfoldable pub clean_pml4 : ℕ → ℕ → ℕ → Store → Outcome Store
unfolding free_table clean_pdpt
clean_pml4 pml4 i zero s = ok s
clean_pml4 pml4 i (suc n) s =
    (if has_table (s.entries pml4 i)
      then clean_pdpt (get_frame (s.entries pml4 i)) 0 512 s
        >>= free_table (get_frame (s.entries pml4 i))
      else ok s)
    >>= clean_pml4 pml4 (suc i) n

-- The lower half of the upper table, then the table. The context keeps its pointer.
unfoldable pub deinit : Option ℕ → Store → Outcome Store
unfolding clean_pml4 free_table
deinit none s = ok s
deinit (some root) s = clean_pml4 root 0 256 s >>= free_table root

unfoldable pub init : Option ℕ → Store → Outcome (ℕ × Store)
unfolding deinit alloc_table
init context s = deinit context s >>= alloc_table

-- The frames that the `n` entries from `i` on name as tables.
abbrev pub children : Store → ℕ → ℕ → ℕ → List ℕ
children s t i zero = []
children s t i (suc n) =
    let rest = children s t (suc i) n in
    if has_table (s.entries t i) then get_frame (s.entries t i) ∷ rest else rest

abbrev pub concat_map : (ℕ → List ℕ) → List ℕ → List ℕ
concat_map f [] = []
concat_map f (c ∷ cs) = f c ++ concat_map f cs

-- The tables below a table with `levels` of them under it, each after those below it.
abbrev pub tables_below : Store → ℕ → ℕ → List ℕ
tables_below s zero t = []
tables_below s (suc levels) t =
    concat_map (λ c. tables_below s levels c ++ c ∷ []) (children s t 0 512)

-- All tables of the lower half, and the upper table.
abbrev pub tables_of : Store → ℕ → List ℕ
tables_of s root =
    concat_map (λ c. tables_below s 2 c ++ c ∷ []) (children s root 0 256) ++ root ∷ []

abbrev pub freed : List ℕ → Store → Outcome Store
freed fs s = free_frames fs s.pmm >>= λ m. ok (record s { pmm = m })

freed-append : (fs gs : List ℕ) (s : Store) → freed (fs ++ gs) s ≡ (freed fs s >>= freed gs)
unfolding free_frames
freed-append [] gs s = refl
freed-append (f ∷ fs) gs s =
    from (free_block f s.pmm) (λ m. freed-append fs gs (record s { pmm = m }))
  where
    from :
        (o : Outcome Pmm)
        → ((m : Pmm)
            → freed (fs ++ gs) (record s { pmm = m })
              ≡ (freed fs (record s { pmm = m }) >>= freed gs))
        → (o >>= free_frames (fs ++ gs) >>= λ m. ok (record s { pmm = m }))
          ≡ (o >>= free_frames fs >>= (λ m. ok (record s { pmm = m })) >>= freed gs)
    from panic h = refl
    from (ok m) h = h m

freed_one : (f : ℕ) (s : Store) → free_table f s ≡ freed (f ∷ []) s
unfolding free_table free_frames
freed_one f s = from (free_block f s.pmm)
  where
    from :
        (o : Outcome Pmm)
        → (o >>= λ m. ok (record s { pmm = m }))
          ≡ (o >>= free_frames [] >>= λ m. ok (record s { pmm = m }))
    from panic = refl
    from (ok m) = refl

module _ (s : Store) where
  freed_then :
      (fs gs : List ℕ) (rest : Store → Outcome Store)
      → ((m : Pmm) → rest (record s { pmm = m }) ≡ freed gs (record s { pmm = m }))
      → (freed fs s >>= rest) ≡ freed (fs ++ gs) s
  freed_then fs gs rest h = from (free_frames fs s.pmm) ∙ sym (freed-append fs gs s)
    where
      from :
          (o : Outcome Pmm)
          → ((o >>= λ m. ok (record s { pmm = m })) >>= rest)
            ≡ ((o >>= λ m. ok (record s { pmm = m })) >>= freed gs)
      from panic = refl
      from (ok m) = h m

  -- One round of a loop.
  round :
      (b : Bool) (o : Outcome Store) (below : ℕ → List ℕ) (c : ℕ) (cs : List ℕ)
      (rest : Store → Outcome Store)
      → o ≡ freed (below c) s
      → ((m : Pmm)
          → rest (record s { pmm = m }) ≡ freed (concat_map below cs) (record s { pmm = m }))
      → ((if b then o else ok s) >>= rest) ≡ freed (concat_map below (if b then c ∷ cs else cs)) s
  round true o below c cs rest e h =
      ap (λ z. z >>= rest) e ∙ freed_then (below c) (concat_map below cs) rest h
  round false o below c cs rest e h = h s.pmm

  then_table :
      (c : ℕ) (o : Outcome Store) (fs : List ℕ)
      → o ≡ freed fs s
      → (o >>= free_table c) ≡ freed (fs ++ c ∷ []) s
  then_table c o fs e =
      ap (λ z. z >>= free_table c) e
      ∙ freed_then fs (c ∷ []) (free_table c) (λ m. freed_one c (record s { pmm = m }))

clean_pd-freed :
    (n pd i : ℕ) (s : Store)
    → clean_pd pd i n s ≡ freed (concat_map (λ c. c ∷ []) (children s pd i n)) s
unfolding clean_pd free_frames
clean_pd-freed zero pd i s = refl
clean_pd-freed (suc n) pd i s =
    round s (has_table (s.entries pd i)) (free_table (get_frame (s.entries pd i)) s) (λ c. c ∷ [])
      (get_frame (s.entries pd i)) (children s pd (suc i) n) (clean_pd pd (suc i) n)
      (freed_one (get_frame (s.entries pd i)) s)
      (λ m. clean_pd-freed n pd (suc i) (record s { pmm = m }))

clean_pdpt-freed :
    (n pdpt i : ℕ) (s : Store)
    → clean_pdpt pdpt i n s
      ≡ freed (concat_map (λ c. tables_below s 1 c ++ c ∷ []) (children s pdpt i n)) s
unfolding clean_pdpt free_frames
clean_pdpt-freed zero pdpt i s = refl
clean_pdpt-freed (suc n) pdpt i s =
    round s (has_table (s.entries pdpt i)) _ (λ c. tables_below s 1 c ++ c ∷ [])
      (get_frame (s.entries pdpt i)) (children s pdpt (suc i) n) (clean_pdpt pdpt (suc i) n)
      (then_table s (get_frame (s.entries pdpt i)) _ _
        (clean_pd-freed 512 (get_frame (s.entries pdpt i)) 0 s))
      (λ m. clean_pdpt-freed n pdpt (suc i) (record s { pmm = m }))

clean_pml4-freed :
    (n pml4 i : ℕ) (s : Store)
    → clean_pml4 pml4 i n s
      ≡ freed (concat_map (λ c. tables_below s 2 c ++ c ∷ []) (children s pml4 i n)) s
unfolding clean_pml4 free_frames
clean_pml4-freed zero pml4 i s = refl
clean_pml4-freed (suc n) pml4 i s =
    round s (has_table (s.entries pml4 i)) _ (λ c. tables_below s 2 c ++ c ∷ [])
      (get_frame (s.entries pml4 i)) (children s pml4 (suc i) n) (clean_pml4 pml4 (suc i) n)
      (then_table s (get_frame (s.entries pml4 i)) _ _
        (clean_pdpt-freed 512 (get_frame (s.entries pml4 i)) 0 s))
      (λ m. clean_pml4-freed n pml4 (suc i) (record s { pmm = m }))

-- `deinit` frees, one after the other and without reading what it has freed, the tables that hang
-- below the lower half of the upper table, as a recursion over the levels lists them, each after
-- those below it, and then the upper table.
pub deinit-tables_of :
    (root : ℕ) (s : Store)
    → deinit (some root) s
      ≡ (free_frames (tables_of s root) s.pmm >>= λ m. ok (record s { pmm = m }))
unfolding deinit
deinit-tables_of root s = then_table s root _ _ (clean_pml4-freed 256 root 0 s)
