-- ===== src/Pci/Grows.antt =====
-- What the steps of the search for devices in kernel/source/arch/x86_64/drivers/pci.cpp do to the
-- lists of devices: they only grow, and what is listed exists.
use sigma.Base.{
  ℕ, zero, suc, ◌≡◌, ◌⊎◌, inl, inr, refl, if◌then◌else◌, Bool, true, false, Option, none, some,
  List, [], ◌∷◌, ◌++◌, length, get_elem?, ap, sym, ◌∙◌, subst,
}
use sigma.Pci.{◌>>=◌, Device}
use sigma.Pci.Enumerate.{change_at, Found, State, Search, empty_device}

-- The place holds a device that exists.
abbrev pub Known : ℕ → Found → Type 0
Known i f = (d : Device) × (get_elem? f.devices i ≡ some d) × (d.exists ≡ true)

abbrev pub IsAdded : ℕ → List ℕ → Type 0
IsAdded i [] = ⊥
IsAdded i (j ∷ js) = (i ≡ j) ⊎ IsAdded i js

-- Devices that exist stay, and the places newly added hold such devices.
pub record Grows (f f' : Found) : Type 0 where
  pub stay : (i : ℕ) → Known i f → Known i f'
  pub listed : (i : ℕ) → IsAdded i f'.added → IsAdded i f.added ⊎ Known i f'

pub Grows-refl : (f : Found) → Grows f f
Grows-refl f = record { stay = λ i k. k; listed = λ i a. inl a }

pub Grows-trans : (f f' f'' : Found) → Grows f f' → Grows f' f'' → Grows f f''
Grows-trans f f' f'' g h = record {
  stay = λ i k. h.stay i (g.stay i k);
  listed = λ i a. elim (h.listed i a) [
    | inr k ↦ inr k
    | inl b ↦ elim (g.listed i b) [ inl c ↦ inl c | inr k ↦ inr (h.stay i k) ]
  ];
}

-- A routine came to an end from the lists `f`, with a result as told.
pub record Ends {S A : Type 0} (f : Found) (P : A → Found → Type 0) (o : Option (A × State S))
    : Type 0 where
  pub result : A
  pub hardware : S
  pub found : Found
  pub ends : o ≡ some (result, (hardware, found))
  pub grows : Grows f found
  pub holds : P result found

abbrev pub Anything : {A : Type 0} → A → Found → Type 0
Anything a f = Unit {0}

module _ {S A B : Type 0} (f : Found) (P : A → Found → Type 0) (Q : B → Found → Type 0) where
  pub bind-Ends :
      (m : Search S A) (k : A → Search S B) (s : State S)
      → Ends f P (m s)
      → ((a : A) (s' : S) (f' : Found) → Grows f f' → P a f' → Ends f' Q (k a (s', f')))
      → Ends f Q ((m >>= k) s)
  bind-Ends m k s e h =
      let r : Ends e.found Q (k e.result (e.hardware, e.found)) =
        h e.result e.hardware e.found e.grows e.holds in
      record {
        result = r.result;
        hardware = r.hardware;
        found = r.found;
        ends = ap from e.ends ∙ r.ends;
        grows = Grows-trans f e.found r.found e.grows r.grows;
        holds = r.holds;
      }
    where
      from : Option (A × State S) → Option (B × State S)
      from none = none
      from (some (a, s')) = k a s'

module _ {S A : Type 0} (f : Found) (P : A → Found → Type 0) where
  pub if-Ends :
      (b : Bool) (m k : Search S A) (s : State S)
      → (b ≡ true → Ends f P (m s))
      → (b ≡ false → Ends f P (k s))
      → Ends f P ((if b then m else k) s)
  if-Ends true m k s h g = h refl
  if-Ends false m k s h g = g refl

  pub later-Ends : (f₀ : Found) (o : Option (A × State S)) → Grows f₀ f → Ends f P o → Ends f₀ P o
  later-Ends f₀ o g e = record {
    result = e.result;
    hardware = e.hardware;
    found = e.found;
    ends = e.ends;
    grows = Grows-trans f₀ f e.found g e.grows;
    holds = e.holds;
  }

append_kept :
    (ds : List Device) (i : ℕ) (d x : Device)
    → get_elem? ds i ≡ some d
    → get_elem? (ds ++ x ∷ []) i ≡ some d
append_kept [] i d x h = absurd (clash h)
  where
    clash : none ≡ some d → ⊥
    clash z = cc
append_kept (y ∷ ds) zero d x h = h
append_kept (y ∷ ds) (suc i) d x h = append_kept ds i d x h

append_last : (ds : List Device) (x : Device) → get_elem? (ds ++ x ∷ []) (length ds) ≡ some x
append_last [] x = refl
append_last (y ∷ ds) x = append_last ds x

changed_self :
    (ds : List Device) (i : ℕ) (change : Device → Device) (d : Device)
    → get_elem? ds i ≡ some d
    → get_elem? (change_at i change ds) i ≡ some (change d)
changed_self [] i change d h = absurd (clash h)
  where
    clash : none ≡ some d → ⊥
    clash z = cc
changed_self (x ∷ ds) zero change d h = ap (λ z. some (change z)) same
  where
    same : x ≡ d
    same = cc
changed_self (x ∷ ds) (suc i) change d h = changed_self ds i change d h

module _ (i : ℕ) (change : Device → Device)
    (keep : (d : Device) → d.exists ≡ true → (change d).exists ≡ true) where
  changed_known :
      (ds : List Device) (j k : ℕ) (d : Device)
      → get_elem? ds j ≡ some d
      → d.exists ≡ true
      → (d' : Device) × (get_elem? (change_at k change ds) j ≡ some d') × (d'.exists ≡ true)
  changed_known [] j k d h there = absurd (clash h)
    where
      clash : none ≡ some d → ⊥
      clash z = cc
  changed_known (x ∷ ds) zero zero d h there =
      (change x, refl, keep x (ap Device.exists same ∙ there))
    where
      same : x ≡ d
      same = cc
  changed_known (x ∷ ds) zero (suc k) d h there = (d, h, there)
  changed_known (x ∷ ds) (suc j) zero d h there = (d, h, there)
  changed_known (x ∷ ds) (suc j) (suc k) d h there = changed_known ds j k d h there

pub entry-Grows : (f : Found) → Grows f (record f { devices = f.devices ++ empty_device ∷ [] })
entry-Grows f = record {
  stay = λ i k. (k.0, append_kept f.devices i k.0 empty_device k.1, k.2);
  listed = λ i a. inl a;
}

pub entry_last :
    (f : Found) → get_elem? (f.devices ++ empty_device ∷ []) (length f.devices) ≡ some empty_device
entry_last f = append_last f.devices empty_device

pub change-Grows :
    (i : ℕ) (change : Device → Device) (f : Found)
    → ((d : Device) → d.exists ≡ true → (change d).exists ≡ true)
    → Grows f (record f { devices = change_at i change f.devices })
change-Grows i change f keep = record {
  stay = λ j k. changed_known i change keep f.devices j i k.0 k.1 k.2;
  listed = λ j a. inl a;
}

pub change-Known :
    (i : ℕ) (change : Device → Device) (f : Found) (d : Device)
    → get_elem? f.devices i ≡ some d
    → (change d).exists ≡ true
    → Known i (record f { devices = change_at i change f.devices })
change-Known i change f d h e = (change d, changed_self f.devices i change d h, e)

pub add-Grows : (i : ℕ) (f : Found) → Known i f → Grows f (record f { added = f.added ++ i ∷ [] })
add-Grows i f k = record {
  stay = λ j z. z;
  listed = λ j a. elim (last_added f.added j a) [
    | inl b ↦ inl b
    | inr e ↦ inr (subst (λ z. Known z f) (sym e) k)
  ];
}
  where
    last_added : (xs : List ℕ) (j : ℕ) → IsAdded j (xs ++ i ∷ []) → IsAdded j xs ⊎ (j ≡ i)
    last_added [] j (inl e) = inr e
    last_added [] j (inr a) = elim a [ ]
    last_added (x ∷ xs) j (inl e) = inl (inl e)
    last_added (x ∷ xs) j (inr a) = elim (last_added xs j a) [ inl b ↦ inl (inr b) | inr e ↦ inr e ]
