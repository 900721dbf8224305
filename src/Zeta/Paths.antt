-- ===== src/Zeta/Paths.antt =====
-- Paths split, resolved and put together by zeta/source/vfs.cpp.
use sigma.Base.{
  ℕ, zero, suc, ◌≡◌, ◌≢◌, refl, arith, ◌==◌, true, false, none, some, List, [], ◌∷◌, ◌++◌,
  append-nil, append_assoc, length, get_or, ap, sym, ◌∙◌,
}
use sigma.Zeta.{
  separator, component, split_path, is_dot, is_dot_dot, resolve, join_onto, absolute_of,
  make_path_absolute,
}

abbrev pub HasNoSeparator : List ℕ → Type 0
HasNoSeparator [] = Unit {0}
HasNoSeparator (c ∷ cs) = ((c == separator) ≡ false) × HasNoSeparator cs

abbrev pub IsPart : List ℕ → Type 0
IsPart p = (length p ≢ 0) × HasNoSeparator p

abbrev pub AreParts : List (List ℕ) → Type 0
AreParts [] = Unit {0}
AreParts (p ∷ ps) = IsPart p × AreParts ps

-- None of the parts is "." or "..".
abbrev pub HasNoDots : List (List ℕ) → Type 0
HasNoDots [] = Unit {0}
HasNoDots (p ∷ ps) = (is_dot p ≡ false) × (is_dot_dot p ≡ false) × HasNoDots ps

-- The path with these parts.
abbrev pub path_of : List (List ℕ) → List ℕ
path_of [] = []
path_of (p ∷ ps) = separator ∷ (p ++ path_of ps)

component-path_of : (ps : List (List ℕ)) → component (path_of ps) ≡ []
unfolding component
component-path_of [] = refl
component-path_of (p ∷ ps) = refl

-- What a part is followed by: nothing, or a separator.
component-append :
    (p rest : List ℕ) → HasNoSeparator p → component rest ≡ [] → component (p ++ rest) ≡ p
unfolding component
component-append [] rest h e = e
component-append (c ∷ cs) rest h e = rw h.0 (ap (λ z. c ∷ z) (component-append cs rest h.1 e))

split_path-append : (p rest : List ℕ) → HasNoSeparator p → split_path (p ++ rest) ≡ split_path rest
unfolding split_path
split_path-append [] rest h = refl
split_path-append (c ∷ cs) rest h = rw h.0 (split_path-append cs rest h.1)

split_path-cons :
    (p rest : List ℕ)
    → IsPart p
    → component rest ≡ []
    → split_path (separator ∷ (p ++ rest)) ≡ p ∷ split_path rest
unfolding split_path
split_path-cons p rest h e =
    rw (component-append p rest h.1 e, some_left) (ap (λ z. p ∷ z) (split_path-append p rest h.1))
  where
    some_left : (length p == 0) ≡ false
    some_left = ground (arith, h.0)

pub split_path-path_of : (ps : List (List ℕ)) → AreParts ps → split_path (path_of ps) ≡ ps
unfolding split_path
split_path-path_of [] h = refl
split_path-path_of (p ∷ ps) h =
    split_path-cons p (path_of ps) h.0 (component-path_of ps)
    ∙ ap (λ z. p ∷ z) (split_path-path_of ps h.1)

-- `n` separators, and then `s`.
abbrev pub separators : ℕ → List ℕ → List ℕ
separators zero s = s
separators (suc n) s = separator ∷ separators n s

-- A path in which the parts stand after one separator and as many more as given, with `k` separators
-- at its end.
abbrev pub spelled : List (ℕ × List ℕ) → ℕ → List ℕ
spelled [] k = separators k []
spelled ((n, p) ∷ ps) k = separators n (separator ∷ (p ++ spelled ps k))

abbrev pub parts_of : List (ℕ × List ℕ) → List (List ℕ)
parts_of [] = []
parts_of ((n, p) ∷ ps) = p ∷ parts_of ps

component-separators : (n : ℕ) (s : List ℕ) → component s ≡ [] → component (separators n s) ≡ []
unfolding component
component-separators zero s e = e
component-separators (suc n) s e = refl

split_path-separators :
    (n : ℕ) (s : List ℕ) → component s ≡ [] → split_path (separators n s) ≡ split_path s
unfolding split_path
split_path-separators zero s e = refl
split_path-separators (suc n) s e = rw (component-separators n s e) (split_path-separators n s e)

component-spelled : (ps : List (ℕ × List ℕ)) (k : ℕ) → component (spelled ps k) ≡ []
unfolding component
component-spelled [] k = component-separators k [] refl
component-spelled ((n, p) ∷ ps) k = component-separators n _ refl

split_path-spelled :
    (ps : List (ℕ × List ℕ)) (k : ℕ)
    → AreParts (parts_of ps)
    → split_path (spelled ps k) ≡ parts_of ps
unfolding split_path component
split_path-spelled [] k h = split_path-separators k [] refl
split_path-spelled ((n, p) ∷ ps) k h =
    split_path-separators n _ refl
    ∙ split_path-cons p (spelled ps k) h.0 (component-spelled ps k)
    ∙ ap (λ z. p ∷ z) (split_path-spelled ps k h.1)

abbrev rev_onto : List (List ℕ) → List (List ℕ) → List (List ℕ)
rev_onto [] before = before
rev_onto (p ∷ ps) before = rev_onto ps (p ∷ before)

join_onto-rev_onto :
    (ps before : List (List ℕ)) (s : List ℕ)
    → join_onto (rev_onto ps before) s ≡ join_onto before (path_of ps ++ s)
join_onto-rev_onto [] before s = refl
join_onto-rev_onto (p ∷ ps) before s =
    join_onto-rev_onto ps (p ∷ before) s
    ∙ ap (λ z. join_onto before (separator ∷ z)) (sym (append_assoc p (path_of ps) s))

-- Parts that are no dots are passed over.
resolve-HasNoDots :
    (ps before : List (List ℕ)) → HasNoDots ps → resolve before ps ≡ some (rev_onto ps before)
unfolding resolve
resolve-HasNoDots [] before h = refl
resolve-HasNoDots (p ∷ []) before h = rw (h.0, h.1) refl
resolve-HasNoDots (p ∷ q ∷ ps) before h =
    rw (h.0, h.1, resolve) (resolve-HasNoDots (q ∷ ps) (p ∷ before) (h.2))

-- For a path that starts with a separator and is spelled out of parts without separators, none of
-- them empty, "." or "..", with any number of separators more before each and at the end, whatever
-- the working directory: `make_path_absolute` gives the same parts, each after a single separator;
-- and the result, split, has exactly these parts.
pub make_path_absolute-path_of :
    (cwd : List ℕ) (ps : List (ℕ × List ℕ)) (k : ℕ)
    → (get_or (spelled ps k) 0 0 == separator) ≡ true
    → AreParts (parts_of ps)
    → HasNoDots (parts_of ps)
    → (make_path_absolute cwd (spelled ps k) ≡ some (path_of (parts_of ps)))
      × (split_path (path_of (parts_of ps)) ≡ parts_of ps)
unfolding make_path_absolute absolute_of
make_path_absolute-path_of cwd ps k rooted parts plain = (
  rw
      (
        rooted,
        make_path_absolute,
        split_path-spelled ps k parts,
        resolve-HasNoDots (parts_of ps) [] plain,
      )
      (ap some (join_onto-rev_onto (parts_of ps) [] [] ∙ append-nil (path_of (parts_of ps)))),
  split_path-path_of (parts_of ps) parts,
)

-- After a "." that is the last part the iterator has passed the end.
resolve_last-dot :
    (ps before : List (List ℕ)) → HasNoDots ps → resolve before (ps ++ (46 ∷ []) ∷ []) ≡ none
unfolding resolve
resolve_last-dot [] before h = refl
resolve_last-dot (p ∷ []) before h = rw (h.0, h.1, resolve) refl
resolve_last-dot (p ∷ q ∷ ps) before h =
    rw (h.0, h.1, resolve) (resolve_last-dot (q ∷ ps) (p ∷ before) (h.2))

AreParts-append : (ps qs : List (List ℕ)) → AreParts ps → AreParts qs → AreParts (ps ++ qs)
AreParts-append [] qs a b = b
AreParts-append (p ∷ ps) qs a b = (a.0, AreParts-append ps qs a.1 b)

-- Whatever the parts before it, so long as none of them is "." or "..", a path from the root that
-- ends in the part "." makes `make_path_absolute` go on past the end of the parts.
pub make_path_absolute_ends_in_dot :
    (cwd : List ℕ) (ps : List (List ℕ))
    → AreParts ps
    → HasNoDots ps
    → make_path_absolute cwd (path_of (ps ++ (46 ∷ []) ∷ [])) ≡ none
unfolding make_path_absolute absolute_of
make_path_absolute_ends_in_dot cwd ps parts plain =
    rw
      (
        rooted ps,
        make_path_absolute,
        split_path-path_of (ps ++ (46 ∷ []) ∷ []) all_parts,
        resolve_last-dot ps [] plain,
      )
      refl
  where
    rooted :
        (ps : List (List ℕ)) → (get_or (path_of (ps ++ (46 ∷ []) ∷ [])) 0 0 == separator) ≡ true
    rooted [] = refl
    rooted (p ∷ ps) = refl

    all_parts : AreParts (ps ++ (46 ∷ []) ∷ [])
    all_parts = AreParts-append ps ((46 ∷ []) ∷ []) parts ((omega arith, (refl, tt)), tt)
