-- ===== src/Proc/Initrd/Archive.antt =====
-- What kernel/source/proc/initrd.cpp finds in an archive.
use sigma.Base.{
  ◌-◌, ltb, ℕ, zero, suc, ◌+◌, ◌*◌, ◌/◌, ◌<◌, ◌≤◌, ◌≡◌, ◌≢◌, ◌⊎◌, ◌↔◌, inl, inr, refl, arith, ltb,
  some, true, false, List, [], ◌∷◌, length, map, add64, u64, ap, sym, ◌∙◌,
}
use sigma.Klibc.{memcpy, Memory, ℤ, pos, negsuc, strcmp}
use sigma.Klibc.Copies.{IsCopied, MayGoUp, memcpy-IsCopied}
use sigma.Klibc.Strings.{HoldsString, strcmp_zero}
use sigma.Proc.Initrd.{
  get_header_number, size_field, data_offset, next_header, init, is_zero, find_file, get_size,
  read_file,
}

-- A header's address and its name.
abbrev pub Entry : Type 0
Entry = ℕ × List ℕ

abbrev pub address_of : Entry → ℕ
address_of e = e.0

-- The length that the header's size field gives.
abbrev pub size_of : Memory → ℕ → ℕ
size_of mem h = get_header_number (h + size_field) mem

-- From `a` on, memory holds the entries: each one's header with its name, then its data in blocks of
-- 512 bytes, as many as are needed; a zero byte ends the archive.
abbrev pub HoldsArchive : ℕ → Memory → ℕ → List Entry → Type 0
HoldsArchive fuel mem a [] = mem a ≡ 0
HoldsArchive fuel mem a ((h, name) ∷ es) =
    (h ≡ a)
    × (name ≢ [])
    × HoldsString mem h name
    × (length name < fuel)
    × (h + size_of mem h + 2048 < u64)
    × HoldsArchive fuel mem (h + data_offset + (size_of mem h + 511) / 512 * 512) es

-- The first entry of that name stands at `h`.
abbrev pub FirstNamed : List ℕ → ℕ → List Entry → Type 0
FirstNamed key h [] = ⊥
FirstNamed key h ((a, name) ∷ es) = ((name ≡ key) × (a ≡ h)) ⊎ ((name ≢ key) × FirstNamed key h es)

next_header_lem :
    (a n : ℕ) → a + n + 2048 < u64 → next_header a n ≡ a + data_offset + (n + 511) / 512 * 512
unfolding next_header
next_header_lem a n h = ground arith

init_end : (n a : ℕ) (mem : Memory) → mem a ≡ 0 → init (suc n) a mem ≡ []
unfolding init
init_end n a mem e = ground arith

init_step :
    (n a : ℕ) (mem : Memory)
    → mem a ≢ 0
    → init (suc n) a mem ≡ a ∷ init n (next_header a (size_of mem a)) mem
unfolding init
init_step n a mem ne = ground arith

begins : (mem : Memory) (h : ℕ) (name : List ℕ) → name ≢ [] → HoldsString mem h name → mem h ≢ 0
begins mem h [] ne s = absurd (ne refl)
begins mem h (c ∷ cs) ne s = λ e. s.0 (sym s.1 ∙ e)

-- `init` lists the headers of all entries, in order, given more rounds than there are.
pub init-HoldsArchive :
    (es : List Entry) (fuel n a : ℕ) (mem : Memory)
    → length es < n
    → HoldsArchive fuel mem a es
    → init n a mem ≡ map address_of es
init-HoldsArchive [] fuel zero a mem lt v = absurd (omega arith)
init-HoldsArchive [] fuel (suc n) a mem lt v = init_end n a mem v
init-HoldsArchive ((h, name) ∷ es) fuel zero a mem lt v = absurd (omega arith)
init-HoldsArchive ((h, name) ∷ es) fuel (suc n) a mem lt
      (here_it, some_name, text, short, room, rest) =
    ap (λ z. init (suc n) z mem) (sym here_it)
    ∙ init_step n h mem (begins mem h name some_name text)
    ∙ ap (◌∷◌ h) (
        ap (λ z. init n z mem) (next_header_lem h (size_of mem h) room)
        ∙ init-HoldsArchive es fuel n _ mem (omega arith) rest)

is_zero_lem : (v : ℤ) → ((v ≡ pos 0) × (is_zero v ≡ true)) ⊎ ((v ≢ pos 0) × (is_zero v ≡ false))
unfolding is_zero
is_zero_lem (pos zero) = inl (refl, refl)
is_zero_lem (pos (suc n)) = inr (λ e. cc, refl)
is_zero_lem (negsuc n) = inr (λ e. cc, refl)

module _ (fuel p g : ℕ) (mem : Memory) (hs : List ℕ) {v : ℤ}
    (e : strcmp fuel g p mem ≡ some v) where
  find_hit : is_zero v ≡ true → find_file fuel p mem (g ∷ hs) ≡ some (some g)
  unfolding find_file
  find_hit z = rw (e, find_file) (rw z refl)

  find_miss : is_zero v ≡ false → find_file fuel p mem (g ∷ hs) ≡ find_file fuel p mem hs
  unfolding find_file
  find_miss z = rw (e, find_file) (rw z refl)

-- The search finds the first entry of the name.
find_file-FirstNamed :
    (es : List Entry) (key : List ℕ) (fuel a h p : ℕ) (mem : Memory)
    → HoldsString mem p key
    → HoldsArchive fuel mem a es
    → FirstNamed key h es
    → find_file fuel p mem (map address_of es) ≡ some (some h)
find_file-FirstNamed [] key fuel a h p mem k v first = absurd first
find_file-FirstNamed ((g, name) ∷ es) key fuel a h p mem k v first =
    let (w, run, iff) = strcmp_zero name key fuel g p mem v.3 v.2 k in
    named first (is_zero_lem w) run iff
      (λ later. find_file-FirstNamed es key fuel _ h p mem k v.5 later)
  where
    named :
        {w : ℤ}
        → ((name ≡ key) × (g ≡ h)) ⊎ ((name ≢ key) × FirstNamed key h es)
        → ((w ≡ pos 0) × (is_zero w ≡ true)) ⊎ ((w ≢ pos 0) × (is_zero w ≡ false))
        → strcmp fuel g p mem ≡ some w
        → ((w ≡ pos 0) ↔ (name ≡ key))
        → (FirstNamed key h es → find_file fuel p mem (map address_of es) ≡ some (some h))
        → find_file fuel p mem (g ∷ map address_of es) ≡ some (some h)
    named (inl (same, at)) (inl (e, z)) run iff rest =
        find_hit fuel p g mem (map address_of es) run z ∙ ap (λ x. some (some x)) at
    named (inl (same, at)) (inr (ne, z)) run iff rest = absurd (ne (iff.1 same))
    named (inr (differ, later)) (inl (e, z)) run iff rest = absurd (differ (iff.0 e))
    named (inr (differ, later)) (inr (ne, z)) run iff rest =
        find_miss fuel p g mem (map address_of es) run z ∙ rest later

-- A read that passes the test of its bounds.
read_passes :
    (es : List Entry) (key : List ℕ) (fuel n a h p buf offset size : ℕ) (mem : Memory)
    → length es < n
    → HoldsArchive fuel mem a es
    → HoldsString mem p key
    → FirstNamed key h es
    → ltb (add64 (size_of mem h) 1) (add64 size offset) ≡ false
    → read_file fuel p buf offset size mem (init n a mem)
      ≡ some (true, memcpy buf (add64 (h + data_offset) offset) size mem)
unfolding read_file get_size
read_passes es key fuel n a h p buf offset size mem lt v k first within =
    rw (found, read_file, get_size) (rw within (rw found refl))
  where
    found : find_file fuel p mem (init n a mem) ≡ some (some h)
    found =
        ap (find_file fuel p mem) (init-HoldsArchive es fuel n a mem lt v)
        ∙ find_file-FirstNamed es key fuel a h p mem k v first

-- A read that stays within a file of the archive succeeds: exactly the bytes of that part of the
-- file, the first one of that name, are copied to the buffer, and no other memory changes. A read
-- of one byte more than the file has succeeds too, and copies a byte that is not the file's.
pub read_file-IsCopied :
    (es : List Entry) (key : List ℕ) (fuel n a h p buf offset size : ℕ) (mem : Memory)
    → length es < n
    → HoldsArchive fuel mem a es
    → HoldsString mem p key
    → FirstNamed key h es
    → h + data_offset + offset < u64
    → size + offset ≤ size_of mem h + 1
    → size_of mem h + 1 < u64
    → MayGoUp buf (h + data_offset + offset) size
    → (mem' : Memory) × (read_file fuel p buf offset size mem (init n a mem) ≡ some (true, mem'))
      × IsCopied buf (h + data_offset + offset) size mem mem'
read_file-IsCopied es key fuel n a h p buf offset size mem lt v k first room part small apart =
    let address : add64 (h + data_offset) offset ≡ h + data_offset + offset = omega arith in
    (
      _,
      read_passes es key fuel n a h p buf offset size mem lt v k first (ground arith)
          ∙ ap (λ z. some (true, memcpy buf z size mem)) address,
      memcpy-IsCopied buf (h + data_offset + offset) size mem apart,
    )

-- With an offset of 2 ^ 64 less the size, the sum that is tested wraps to 0: the read succeeds,
-- whatever the file's length, and copies as many bytes of memory before the file's data as asked.
pub read_file_wraps :
    (es : List Entry) (key : List ℕ) (fuel n a h p buf size : ℕ) (mem : Memory)
    → length es < n
    → HoldsArchive fuel mem a es
    → HoldsString mem p key
    → FirstNamed key h es
    → 0 < size
    → size ≤ h + data_offset
    → h + data_offset < u64
    → MayGoUp buf (h + data_offset - size) size
    → (mem' : Memory) × (read_file fuel p buf (u64 - size) size mem (init n a mem)
        ≡ some (true, mem'))
      × IsCopied buf (h + data_offset - size) size mem mem'
read_file_wraps es key fuel n a h p buf size mem lt v k first some_bytes low room apart =
    let sum : add64 size (u64 - size) ≡ 0 = omega arith in
    let address : add64 (h + data_offset) (u64 - size) ≡ h + data_offset - size = omega arith in
    (
      _,
      read_passes es key fuel n a h p buf (u64 - size) size mem lt v k first (ground (arith, sum))
          ∙ ap (λ z. some (true, memcpy buf z size mem)) address,
      memcpy-IsCopied buf (h + data_offset - size) size mem apart,
    )
