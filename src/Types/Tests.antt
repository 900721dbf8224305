-- ===== src/Types/Tests.antt =====
-- A bitmap of kernel/include/Sigma/types/bitmap.hpp with its first byte full, and short lists of
-- kernel/include/Sigma/types/linked_list.hpp.
use sigma.Base.{zero, suc, length, ℕ, none, ok, arith, refl, ◌≡◌, [], ◌∷◌}
use sigma.Types.Vector
use sigma.Types.Vector.{Vector, new_vector}
use sigma.Types.LinkedList.{empty_list, push_back, at_index}
use sigma.Types.LinkedList.Order.{IsList, ends, push_back-IsList}
use sigma.Types.Bitmap.{
  bitmap, set_bit, clear_bit, get_free_bit, free_from, IsLowest, free_from-IsLowest,
}

test_reserved : get_free_bit (set_bit 0 (bitmap 16)) ≡ 1
unfolding get_free_bit set_bit bitmap
test_reserved = refl

test_given_back : get_free_bit (clear_bit 3 (255 ∷ 7 ∷ [])) ≡ 3
unfolding get_free_bit clear_bit
test_given_back = refl

free_from-IsLowest_example : IsLowest 0 (255 ∷ 7 ∷ []) (free_from 0 (255 ∷ 7 ∷ []))
free_from-IsLowest_example = free_from-IsLowest (255 ∷ 7 ∷ []) 0

unfoldable push_back_all : ℕ → Vector ℕ → Vector ℕ
unfolding sigma.Types.Vector.push_back
push_back_all zero v = v
push_back_all (suc n) v = push_back_all n (sigma.Types.Vector.push_back n v)

empty_list-IsList : IsList (empty_list {A = ℕ}) [] []
unfolding empty_list
empty_list-IsList = record { chain = ends none; distinct = tt; counted = refl }

push_back-IsList_example : IsList {A = ℕ} (push_back 64 7 empty_list) (64 ∷ []) (7 ∷ [])
push_back-IsList_example = push_back-IsList empty_list 64 7 [] [] empty_list-IsList tt (omega arith)

test_order : at_index {A = ℕ} 1 (push_back 96 8 (push_back 64 7 empty_list)) ≡ ok 8
unfolding at_index push_back empty_list
test_order = refl

-- The seventeenth element is behind the sixteen that there is room for at first.
test_enlarged : length (Vector.cells (push_back_all 17 new_vector)) ≡ 49
unfolding push_back_all new_vector
test_enlarged = refl
