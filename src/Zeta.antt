-- ===== src/Zeta.antt =====
-- The file server: zeta/source/vfs.cpp. A string is a list of characters. The calls of a file system
-- are functions of other programs, and what they answer is an argument.
pub mod Paths
pub mod Mounts
pub mod Descriptors
mod Tests
use sigma.Base.{
  ℕ, zero, suc, ◌+◌, ◌==◌, ◌&&◌, ◌||◌, not, ltb, leb, if◌then◌else◌, Bool, true, false, Option,
  none, some, List, [], ◌∷◌, ◌++◌, length, drop, get_or,
}

-- `path_separator` and `root_char`.
abbrev pub separator : ℕ
separator = 47

-- `==` of two strings.
abbrev pub same_string : List ℕ → List ℕ → Bool
same_string [] [] = true
same_string [] (d ∷ ds) = false
same_string (c ∷ cs) [] = false
same_string (c ∷ cs) (d ∷ ds) = (c == d) && same_string cs ds

-- The characters before the next separator.
unfoldable pub component : List ℕ → List ℕ
component [] = []
component (c ∷ cs) = if c == separator then [] else c ∷ component cs

-- The loop of `split_path`, at one character of the path after the other.
unfoldable pub split_path : List ℕ → List (List ℕ)
unfolding component
split_path [] = []
split_path (c ∷ cs) =
    let rest = split_path cs in
    if (c == separator) && not (length (component cs) == 0) then component cs ∷ rest else rest

abbrev pub is_dot : List ℕ → Bool
is_dot item = same_string item (46 ∷ [])

abbrev pub is_dot_dot : List ℕ → Bool
is_dot_dot item = same_string item (46 ∷ 46 ∷ [])

abbrev pub parent : List (List ℕ) → List (List ℕ)
parent [] = []
parent (b ∷ bs) = bs

abbrev pub is_empty : List (List ℕ) → Bool
is_empty [] = true
is_empty (b ∷ bs) = false

-- The loop of `make_path_absolute` over the parts: those before the iterator, the nearest first, and
-- those from it on. An erased part moves the iterator over the next one; `none` if it then lies past
-- the end, where the loop goes on reading.
unfoldable pub resolve : List (List ℕ) → List (List ℕ) → Option (List (List ℕ))
resolve before [] = some before
resolve before (item ∷ []) =
    if is_dot item
    then none
    else if is_dot_dot item
    then if is_empty before then some [] else none
    else some (item ∷ before)
resolve before (item ∷ next ∷ rest) =
    let skipped = resolve (next ∷ before) rest in
    let at_root = resolve [] (next ∷ rest) in
    let above = resolve (next ∷ parent before) rest in
    let after = resolve (item ∷ before) (next ∷ rest) in
    if is_dot item
    then skipped
    else if is_dot_dot item
    then if is_empty before then at_root else above
    else after

-- A separator before each part; the parts are given the last one first.
abbrev pub join_onto : List (List ℕ) → List ℕ → List ℕ
join_onto [] s = s
join_onto (b ∷ bs) s = join_onto bs (separator ∷ (b ++ s))

abbrev pub last_of : ℕ → List ℕ → ℕ
last_of c [] = c
last_of c (d ∷ ds) = last_of d ds

-- The string that is split: the path itself if it begins at the root, else it stands behind the
-- working directory; `none` if that is empty, where its last character is read all the same.
unfoldable pub absolute_of : List ℕ → List ℕ → Option (List ℕ)
absolute_of cwd path = if get_or path 0 0 == separator then some path else elim cwd [
  | [] ↦ none
  | c ∷ cs ↦
      (if last_of c cs == separator
        then some ((c ∷ cs) ++ path)
        else some ((c ∷ cs) ++ separator ∷ path))
]

unfoldable pub make_path_absolute : List ℕ → List ℕ → Option (List ℕ)
unfolding absolute_of resolve split_path
make_path_absolute cwd path = elim (absolute_of cwd path) [
  | none ↦ none
  | some absolute ↦ elim (resolve [] (split_path absolute)) [
    | none ↦ none
    | some parts ↦ some (join_onto parts [])
  ]
]

-- A mounted file system; its node and device are never read.
pub record VfsEntry : Type 0 where
  pub name : List ℕ
  pub file_system : ℕ

-- The comparison of the first characters, as many as `name` has.
abbrev pub is_prefix : List ℕ → List ℕ → Bool
is_prefix [] cs = true
is_prefix (n ∷ ns) [] = false
is_prefix (n ∷ ns) (c ∷ cs) = (n == c) && is_prefix ns cs

-- The mount point is above the path, or is the root.
unfoldable pub is_above : List ℕ → List ℕ → Bool
is_above absolute name =
    is_prefix name absolute
    && ((get_or absolute (length name) 0 == separator)
        || (get_or absolute (length name) 0 == 0)
        || same_string name (separator ∷ []))

-- The loop over the mount points with the best guess so far.
unfoldable pub best : List ℕ → ℕ → Option VfsEntry → List VfsEntry → ℕ × Option VfsEntry
unfolding is_above
best absolute guess_size guess [] = (guess_size, guess)
best absolute guess_size guess (m ∷ ms) =
    if is_above absolute m.name && ltb guess_size (length m.name)
    then best absolute (length m.name) (some m) ms
    else best absolute guess_size guess ms

-- If nothing is left of the path, a separator is written over the terminator of the empty string,
-- which is undefined; with libstdc++ the string stays empty, and what stood in the buffer follows.
abbrev pub or_root : List ℕ → Option (List ℕ)
or_root [] = none
or_root (c ∷ cs) = some ((if c == 0 then separator else c) ∷ cs)

-- `out_local_path`; `none` where `substr` throws, or where nothing is left of the path.
unfoldable pub local_path : ℕ → List ℕ → Option (List ℕ)
local_path guess_size path =
    if ltb 1 guess_size
    then if ltb (length path) guess_size then none else or_root (drop guess_size path)
    else or_root path

unfoldable pub get_mountpoint : List VfsEntry → List ℕ → List ℕ → Option (Option VfsEntry × List ℕ)
unfolding make_path_absolute best local_path
get_mountpoint mounts cwd path = elim (make_path_absolute cwd path) [
  | none ↦ none
  | some absolute ↦ elim (local_path (best absolute 0 none mounts).0 path) [
    | none ↦ none
    | some out ↦ some ((best absolute 0 none mounts).1, out)
  ]
]

-- The mount of a file system at a path from the root.
unfoldable pub mount : List ℕ → ℕ → List VfsEntry → List VfsEntry
mount path file_system mounts =
    if get_or path 0 0 == separator
    then mounts ++ record { name = path; file_system = file_system } ∷ []
    else mounts

-- The registered file system of a name; one registered later under the same name takes its place.
abbrev pub find_type : List ℕ → List (List ℕ × ℕ) → Option ℕ
find_type name [] = none
find_type name ((n, fs) ∷ rest) =
    let found = find_type name rest in if same_string n name then some fs else found

unfoldable pub register_fs : List ℕ → ℕ → List (List ℕ × ℕ) → List (List ℕ × ℕ)
register_fs name fs types = (name, fs) ∷ types

-- The mount by the name of a registered file system.
unfoldable pub mount_type : List ℕ → List ℕ → List (List ℕ × ℕ) → List VfsEntry → List VfsEntry
unfolding mount
mount_type path fs_type types mounts = elim (find_type fs_type types) [
  | none ↦ mounts
  | some fs ↦ mount path fs mounts
]
