-- ===== src/Zeta/Tests.antt =====
-- Paths and mount points of zeta/source/vfs.cpp at small inputs.
use sigma.Base.{ℕ, ◌≡◌, refl, arith, none, some, List, [], ◌∷◌}
use sigma.Zeta.{
  VfsEntry, split_path, component, resolve, is_above, best, local_path, make_path_absolute,
  get_mountpoint, absolute_of,
}
use sigma.Zeta.Descriptors.{new_entry, dup_result, ThreadVfsEntry, add_node, put, dup2}
use sigma.Zeta.Paths.{path_of, make_path_absolute-path_of, make_path_absolute_ends_in_dot}

-- "//ab/c/" and "/ab/c".
abbrev untidy : List ℕ
untidy = 47 ∷ 47 ∷ 97 ∷ 98 ∷ 47 ∷ 99 ∷ 47 ∷ []

abbrev tidy : List ℕ
tidy = 47 ∷ 97 ∷ 98 ∷ 47 ∷ 99 ∷ []

-- "/" and "/ab".
abbrev mounts : List VfsEntry
mounts =
    record { name = 47 ∷ []; file_system = 1 }
    ∷ record { name = 47 ∷ 97 ∷ 98 ∷ []; file_system = 2 }
    ∷ []

test_untidy : make_path_absolute [] untidy ≡ some tidy
unfolding make_path_absolute split_path component resolve absolute_of
test_untidy = refl

-- "/a/b/../c" is "/a/c", but "/a/b/../../c" keeps a "..".
test_one_up :
    resolve [] ((97 ∷ []) ∷ (98 ∷ []) ∷ (46 ∷ 46 ∷ []) ∷ (99 ∷ []) ∷ [])
    ≡ some ((99 ∷ []) ∷ (97 ∷ []) ∷ [])
unfolding resolve
test_one_up = refl

test_two_up :
    resolve [] ((97 ∷ []) ∷ (98 ∷ []) ∷ (46 ∷ 46 ∷ []) ∷ (46 ∷ 46 ∷ []) ∷ (99 ∷ []) ∷ [])
    ≡ some ((99 ∷ []) ∷ (46 ∷ 46 ∷ []) ∷ (97 ∷ []) ∷ [])
unfolding resolve
test_two_up = refl

-- The root itself becomes the empty string, which no mount point is above.
test_root : make_path_absolute [] (47 ∷ []) ≡ some []
unfolding make_path_absolute split_path component resolve absolute_of
test_root = refl

make_path_absolute-path_of_example :
    (make_path_absolute [] untidy ≡ some tidy) × (split_path tidy ≡ (97 ∷ 98 ∷ []) ∷ (99 ∷ []) ∷ [])
make_path_absolute-path_of_example =
    make_path_absolute-path_of [] ((1, 97 ∷ 98 ∷ []) ∷ (0, 99 ∷ []) ∷ []) 1 refl
      ((omega arith, (refl, (refl, tt))), ((omega arith, (refl, tt)), tt))
      (refl, refl, (refl, refl, tt))

make_path_absolute_ends_in_dot_example :
    make_path_absolute [] (path_of ((97 ∷ []) ∷ (46 ∷ []) ∷ [])) ≡ none
make_path_absolute_ends_in_dot_example =
    make_path_absolute_ends_in_dot [] ((97 ∷ []) ∷ []) ((omega arith, (refl, tt)), tt)
      (refl, refl, tt)

test_mountpoint :
    get_mountpoint mounts [] tidy
    ≡ some (some (record { name = 47 ∷ 97 ∷ 98 ∷ []; file_system = 2 }), 47 ∷ 99 ∷ [])
unfolding get_mountpoint make_path_absolute split_path component resolve absolute_of best is_above
    local_path
test_mountpoint = refl

-- A thread with its standard files, which opens one more and puts it in the place of the output.
abbrev entered : ThreadVfsEntry
unfolding add_node put dup2
entered = dup_result 2 (add_node 7 1 (dup_result 1 (add_node 7 1 new_entry)))

abbrev one_open : ThreadVfsEntry
unfolding add_node put dup2
one_open = (add_node 7 0 entered).1
