-- ===== src/Misc/Args.antt =====
-- Which keys kernel/source/misc/misc.cpp finds on the command line.
use sigma.Base.{
  ℕ_discrete, ℕ, suc, ◌+◌, ◌<◌, ◌≡◌, ◌≢◌, refl, arith, ◌==◌, ◌&&◌, ◌||◌, List, [], ◌∷◌, length,
  Option, none, some, Bool, true, false, ap, sym, ◌∙◌, if◌then◌else◌,
}
use sigma.Klibc.{Memory, memcmp}
use sigma.Klibc.Strings.{HoldsString, strlen_lem}
use sigma.Misc.{min, is_equal, matches, find_word, get_bool}

-- One of the two strings is the beginning of the other.
abbrev pub agree : List ℕ → List ℕ → Bool
agree [] ys = true
agree (x ∷ xs) [] = true
agree (x ∷ xs) (y ∷ ys) = (x == y) && agree xs ys

abbrev pub any_agrees : List (List ℕ) → List ℕ → Bool
any_agrees [] key = false
any_agrees (w ∷ ws) key = agree w key || any_agrees ws key

-- The words stand one after the other, each shorter than the fuel.
abbrev pub HoldsWords : ℕ → Memory → ℕ → List (List ℕ) → Type 0
HoldsWords fuel mem p [] = Unit {0}
HoldsWords fuel mem p (w ∷ ws) =
    HoldsString mem p w × (length w < fuel) × HoldsWords fuel mem (p + length w + 1) ws

none_right : (a : ℕ) → min a 0 ≡ 0
unfolding min
none_right a = ground arith

none_left : (b : ℕ) → min 0 b ≡ 0
unfolding min
none_left b = ground arith

min-suc : (a b : ℕ) → min (suc a) (suc b) ≡ suc (min a b)
unfolding min
min-suc a b = ground arith

module _ (n p q : ℕ) (mem : Memory) where
  memcmp_goes : mem p ≡ mem q → memcmp p q (suc n) mem ≡ memcmp (suc p) (suc q) n mem
  unfolding memcmp
  memcmp_goes e = ground arith

  memcmp_stops : mem p ≢ mem q → is_equal (memcmp p q (suc n) mem) ≡ false
  unfolding memcmp is_equal
  memcmp_stops ne = ground arith

memcmp-agree :
    (xs ys : List ℕ) (p q : ℕ) (mem : Memory)
    → HoldsString mem p xs
    → HoldsString mem q ys
    → is_equal (memcmp p q (min (length xs) (length ys)) mem) ≡ agree xs ys
unfolding is_equal memcmp min
memcmp-agree [] [] p q mem s t = refl
memcmp-agree [] (y ∷ ys) p q mem s t =
    ap (λ n. is_equal (memcmp p q n mem)) (none_left (suc (length ys)))
memcmp-agree (x ∷ xs) [] p q mem s t =
    ap (λ n. is_equal (memcmp p q n mem)) (none_right (suc (length xs)))
memcmp-agree (x ∷ xs) (y ∷ ys) p q mem s t =
    ap (λ n. is_equal (memcmp p q n mem)) (min-suc (length xs) (length ys))
    ∙ split_on (ℕ_discrete x y) (memcmp-agree xs ys (suc p) (suc q) mem s.2 t.2)
  where
    split_on :
        Dec (x ≡ y)
        → is_equal (memcmp (suc p) (suc q) (min (length xs) (length ys)) mem) ≡ agree xs ys
        → is_equal (memcmp p q (suc (min (length xs) (length ys))) mem) ≡ ((x == y) && agree xs ys)
    split_on (yes e) ih =
        ap is_equal (memcmp_goes _ p q mem (s.1 ∙ e ∙ sym t.1)) ∙ ih ∙ ground arith
    split_on (no ne) ih = memcmp_stops _ p q mem (λ z. ne (sym s.1 ∙ z ∙ t.1)) ∙ ground arith

-- Whether a word was found.
abbrev is_found : Option (Option ℕ) → Option Bool
is_found none = none
is_found (some none) = some false
is_found (some (some w)) = some true

find_word_agrees :
    (ws : List (List ℕ)) (key : List ℕ) (fuel p k : ℕ) (mem : Memory)
    → HoldsWords fuel mem p ws
    → HoldsString mem k key
    → length key < fuel
    → is_found (find_word fuel (length ws) p k mem) ≡ some (any_agrees ws key)
unfolding find_word matches
find_word_agrees [] key fuel p k mem v s lt = refl
find_word_agrees (w ∷ ws) key fuel p k mem (text, short, later) s lt =
    rw (strlen_lem w fuel p mem short text, strlen_lem key fuel k mem lt s, find_word)
      (rw (memcmp-agree w key p k mem text s, matches)
        (picked (agree w key) (find_word_agrees ws key fuel _ k mem later s lt)))
  where
    picked :
        (b : Bool)
        → is_found (find_word fuel (length ws) (p + length w + 1) k mem) ≡ some (any_agrees ws key)
        → is_found
            (if b then some (some p) else find_word fuel (length ws) (p + length w + 1) k mem)
          ≡ some (b || any_agrees ws key)
    picked true ih = refl
    picked false ih = ih

get_bool_found :
    (fuel n p k : ℕ) (mem : Memory) → get_bool fuel n p k mem ≡ is_found (find_word fuel n p k mem)
unfolding get_bool
get_bool_found fuel n p k mem = same (find_word fuel n p k mem)
  where
    same :
        (o : Option (Option ℕ))
        → (elim o as (λ _. Option Bool) [
          | none ↦ none
          | some x ↦ elim x as (λ _. Option Bool) [ none ↦ some false | some w ↦ some true ]
        ])
          ≡ is_found o
    same none = refl
    same (some none) = refl
    same (some (some w)) = refl

-- `get_bool` returns, and finds a key exactly if some word of the command line begins with the key
-- or is itself a beginning of the key.
pub get_bool_agrees :
    (ws : List (List ℕ)) (key : List ℕ) (fuel p k : ℕ) (mem : Memory)
    → HoldsWords fuel mem p ws
    → HoldsString mem k key
    → length key < fuel
    → get_bool fuel (length ws) p k mem ≡ some (any_agrees ws key)
get_bool_agrees ws key fuel p k mem v s lt =
    get_bool_found fuel (length ws) p k mem ∙ find_word_agrees ws key fuel p k mem v s lt
