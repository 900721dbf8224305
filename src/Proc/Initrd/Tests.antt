-- ===== src/Proc/Initrd/Tests.antt =====
-- An archive at 4096 of one file, "a", with the three bytes "xyz".
use sigma.Base.{
  ◌||◌, ◌-◌, map, ◌≡◌, refl, arith, inl, some, true, [], ◌∷◌, if◌then◌else◌, leb, ◌==◌, ◌&&◌, List,
}
use sigma.Klibc.{Memory}
use sigma.Klibc.Copies.{IsCopied}
use sigma.Proc.Initrd.{init, read_file, get_header_number, digits_from, signed_char}
use sigma.Proc.Initrd.Archive.{
  Entry, HoldsArchive, size_of, init-HoldsArchive, read_file-IsCopied, read_file_wraps, address_of,
}

abbrev memory : Memory
memory x =
    if (x == 4096) || (x == 100)
    then 97
    else if x == 4230
    then 51
    else if leb 4220 x && leb x 4229
    then 48
    else if leb 4608 x && leb x 4610
    then x - 4488
    else 0

abbrev entries : List Entry
entries = (4096, 97 ∷ []) ∷ []

three : size_of memory 4096 ≡ 3
unfolding get_header_number digits_from signed_char
three = refl

entries-HoldsArchive : HoldsArchive 4 memory 4096 entries
unfolding get_header_number digits_from signed_char
entries-HoldsArchive = (refl, λ e. cc, (omega arith, refl, refl), omega arith, omega arith, refl)

init-HoldsArchive_example : init 9 4096 memory ≡ map address_of entries
init-HoldsArchive_example =
    init-HoldsArchive entries 4 9 4096 memory (omega arith) entries-HoldsArchive

read_file-IsCopied_example :
    (mem' : Memory) × (read_file 4 100 200 1 2 memory (init 9 4096 memory) ≡ some (true, mem'))
    × IsCopied 200 4609 2 memory mem'
read_file-IsCopied_example =
    read_file-IsCopied entries (97 ∷ []) 4 9 4096 4096 100 200 1 2 memory (omega arith)
      entries-HoldsArchive (omega arith, refl, refl) (inl (refl, refl)) (omega arith)
      (omega (arith, three)) (omega (arith, three)) (inl (omega arith))

read_file_wraps_example :
    (mem' : Memory) × (read_file 4 100 200
        (18446744073709551616 - 512)
        512
        memory
        (init 9 4096 memory)
      ≡ some (true, mem'))
    × IsCopied 200 4096 512 memory mem'
read_file_wraps_example =
    read_file_wraps entries (97 ∷ []) 4 9 4096 4096 100 200 512 memory (omega arith)
      entries-HoldsArchive (omega arith, refl, refl) (inl (refl, refl)) (omega arith) (omega arith)
      (omega arith) (inl (omega arith))
