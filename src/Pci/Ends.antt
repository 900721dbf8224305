-- ===== src/Pci/Ends.antt =====
-- The search for devices in kernel/source/arch/x86_64/drivers/pci.cpp comes to an end.
use sigma.Base.{
  ℕ, zero, suc, ◌+◌, ◌%◌, ◌<◌, ◌≡◌, ◌⊎◌, ◌==◌, inl, inr, refl, arith, if◌then◌else◌, Bool, true,
  false, Option, none, some, List, [], ◌∷◌, ap,
}
use sigma.Paging.Entries.{bit_test}
use sigma.Pci.{Coord, Access, Run, ◌>>=◌, ◌>>◌, return, read, Bar, Device}
use sigma.Pci.Bars.{read_bar}
use sigma.Pci.Enumerate.{
  change_at, Found, State, Search, lift, modify, add_pci_device, setup_agp, read_capability,
  walk_capabilities, read_bars, read_capabilities, read_header,
}
use sigma.Pci.Grows.{
  Known, Grows, Grows-refl, Grows-trans, Ends, Anything, bind-Ends, if-Ends, later-Ends,
  change-Grows, add-Grows,
}
use sigma.Pci.Yields.{Yields, read_bar_ends}

-- What the search counts on, of the functions that are there: their capability lists have an end,
-- and bridges lead to buses of higher number, as the PCI standard and the firmware's numbering have
-- it. Nothing is asked of an absent function but that its vendor reads all ones.
pub record IsTopology {S : Type 0} (a : Access S) : Type 0 where
  pub is_present : Coord → Bool
  pub absent : (c : Coord) (s : S) → is_present c ≡ false → (a.read c 0 2 s).0 % 65536 ≡ 65535
  -- The places of the capability list of a function, and an upper bound of what follows each.
  pub is_listed : Coord → ℕ → Bool
  pub rank : Coord → ℕ → ℕ
  pub first :
      (c : Coord) (s s' : S)
      → is_present c ≡ true
      → bit_test (a.read c 6 2 s').0 4 ≡ true
      → let p = (a.read c 52 1 s).0 % 256 in (p ≡ 0) ⊎ ((is_listed c p ≡ true) × (rank c p < 256))
  pub next :
      (c : Coord) (p : ℕ) (s : S)
      → is_present c ≡ true
      → is_listed c p ≡ true
      → let q = (a.read c (p + 1) 1 s).0 % 256 in
        (q ≡ 0) ⊎ ((is_listed c q ≡ true) × (rank c q < rank c p))
  pub is_bridge : Coord → Bool
  pub bridges :
      (c : Coord) (s s' : S)
      → is_present c ≡ true
      → (a.read c 11 1 s).0 % 256 ≡ 6
      → (a.read c 10 1 s').0 % 256 ≡ 4
      → is_bridge c ≡ true
  pub upwards : (c : Coord) (s : S) → is_bridge c ≡ true → c.bus < (a.read c 25 1 s).0 % 256

module _ {S : Type 0} (a : Access S) where
  setup_agp-Ends :
      (c : Coord) (i p : ℕ) (s : S) (f : Found) → Ends f Anything (setup_agp a c i p (s, f))
  unfolding setup_agp modify
  setup_agp-Ends c i p s f = record {
    result = tt;
    hardware = _;
    found = _;
    ends = refl;
    grows = Grows-trans f _ _ (change-Grows i _ f (λ d h. h)) (change-Grows i _ _ (λ d h. h));
    holds = tt;
  }

  lift-Ends :
      {A : Type 0} (m : Run S A) (s : S) (f : Found)
      → Yields (m s)
      → Ends f Anything (lift m (s, f))
  lift-Ends {A} m s f (b, s', e) = record {
    result = b;
    hardware = s';
    found = f;
    ends = ap from e;
    grows = Grows-refl f;
    holds = tt;
  }
    where
      from : Option (A × S) → Option (A × State S)
      from none = none
      from (some (a, s')) = some (a, (s', f))

  pub done : (s : S) (f : Found) → Ends {A = Unit {0}} f Anything (return tt (s, f))
  done s f = record {
    result = tt;
    hardware = s;
    found = f;
    ends = refl;
    grows = Grows-refl f;
    holds = tt;
  }

  read_capability-Ends :
      (c : Coord) (i p id : ℕ) (s : S) (f : Found)
      → Ends f Anything (read_capability a c i p id (s, f))
  unfolding read_capability modify
  read_capability-Ends c i p id s f =
      if-Ends f Anything (id == 2) _ _ (s, f) (λ h. setup_agp-Ends c i p s f)
        (λ h.
          if-Ends f Anything (id == 5) _ _ (s, f) (λ h. changed _ _ (λ d e. e))
            (λ h.
              if-Ends f Anything (id == 17) _ _ (s, f) (λ h. changed _ _ (λ d e. e))
                (λ h. done s f)))
    where
      changed :
          (i : ℕ) (change : Device → Device)
          → ((d : Device) → d.exists ≡ true → (change d).exists ≡ true)
          → Ends f Anything (modify i change (s, f))
      changed i change keep = record {
        result = tt;
        hardware = s;
        found = _;
        ends = refl;
        grows = change-Grows i change f keep;
        holds = tt;
      }

  module _ (top : IsTopology a) where
    -- The end of a list, or a place of it that is followed by fewer than `n`.
    abbrev IsNear : Coord → ℕ → ℕ → Type 0
    IsNear c n p = (p ≡ 0) ⊎ ((top.is_listed c p ≡ true) × (top.rank c p < n))

    walk-Ends :
        (fuel : ℕ) (c : Coord) (i p : ℕ) (s : S) (f : Found)
        → top.is_present c ≡ true
        → IsNear c fuel p
        → Ends f Anything (walk_capabilities a fuel c i p (s, f))
    unfolding walk_capabilities
    walk-Ends zero c i p s f here (inr (l, h)) = absurd (omega (arith, h))
    walk-Ends zero c i p s f here (inl z) =
        if-Ends f Anything (p == 0) _ _ (s, f) (λ h. done s f) (λ h. absurd (ground (arith, z, h)))
    walk-Ends (suc fuel) c i p s f here h =
        if-Ends f Anything (p == 0) _ _ (s, f) (λ h. done s f)
          (λ ne.
            bind-Ends f Anything Anything (read_capability a c i p ((a.read c p 1 s).0 % 256))
              (λ _. lift (read a c (p + 1) 1) >>= λ next. walk_capabilities a fuel c i (next % 256))
              _ (read_capability-Ends c i p ((a.read c p 1 s).0 % 256) (a.read c p 1 s).1 f)
              (λ _ s' f' g x.
                walk-Ends fuel c i ((a.read c (p + 1) 1 s').0 % 256) (a.read c (p + 1) 1 s').1 f'
                  here (after ne s')))
      where
        after : (p == 0) ≡ false → (s' : S) → IsNear c fuel ((a.read c (p + 1) 1 s').0 % 256)
        after ne s' = elim h [
          | inl z ↦ absurd (ground (arith, z, ne))
          | inr (l, r) ↦ elim (top.next c p s' here l) [
            | inl z ↦ inl z
            | inr (l', m) ↦ inr (l', omega (arith, r, m))
          ]
        ]

    read_bars-Ends :
        (n number : ℕ) (c : Coord) (s : S) (f : Found)
        → Ends f Anything (read_bars a c n number (s, f))
    unfolding read_bars
    read_bars-Ends zero number c s f = record {
      result = [];
      hardware = s;
      found = f;
      ends = refl;
      grows = Grows-refl f;
      holds = tt;
    }
    read_bars-Ends (suc n) number c s f =
        bind-Ends f Anything Anything (lift (read_bar a c number)) (one_bar n number c) (s, f)
          (lift-Ends (read_bar a c number) s f (read_bar_ends a c number s))
          (λ b s' f' g x.
            bind-Ends f' Anything Anything (read_bars a c n (number + 1)) (λ bs. return (b ∷ bs))
              (s', f') (read_bars-Ends n (number + 1) c s' f')
              (λ bs s'' f'' g' y. record {
                result = b ∷ bs;
                hardware = s'';
                found = f'';
                ends = refl;
                grows = Grows-refl f'';
                holds = tt;
              }))
      where
        one_bar : ℕ → ℕ → Coord → Bar → Search S (List Bar)
        one_bar n number c b = read_bars a c n (number + 1) >>= λ bs. return (b ∷ bs)

    read_capabilities-Ends :
        (c : Coord) (i : ℕ) (s : S) (f : Found)
        → top.is_present c ≡ true
        → Ends f Anything (read_capabilities a c i (s, f))
    unfolding read_capabilities
    read_capabilities-Ends c i s f here =
        if-Ends f Anything (bit_test (a.read c 6 2 s).0 4) _ _ _
          (λ h.
            walk-Ends 256 c i ((a.read c 52 1 (a.read c 6 2 s).1).0 % 256) _ f here
              (top.first c (a.read c 6 2 s).1 s here h))
          (λ h. done _ f)

    pub read_header-Ends :
        (c : Coord) (i : ℕ) (s : S) (f : Found)
        → top.is_present c ≡ true
        → Known i f
        → Ends f Anything (read_header a c i (s, f))
    unfolding read_header modify add_pci_device
    read_header-Ends c i s f here known =
        bind-Ends f Anything Anything (read_bars a c (n_bars header) 0) (rest header) _
          (read_bars-Ends (n_bars header) 0 c _ f)
          (λ bars s₁ f₁ g₁ x.
            let g : Grows f₁ (changed header bars f₁) =
              change-Grows i (update header bars) f₁ (λ d h. h) in
            later-Ends (changed header bars f₁) Anything f₁ _ g (
              bind-Ends (changed header bars f₁) Anything Anything (read_capabilities a c i)
                (λ _. add_pci_device i) (s₁, changed header bars f₁)
                (read_capabilities-Ends c i s₁ (changed header bars f₁) here)
                (λ _ s₂ f₂ g₂ y. record {
                  result = tt;
                  hardware = s₂;
                  found = _;
                  ends = refl;
                  grows = add-Grows i f₂ (g₂.stay i (g.stay i (g₁.stay i known)));
                  holds = tt;
                })))
      where
        header : ℕ
        header = (a.read (record c { function = 0 }) 14 1 s).0

        n_bars : ℕ → ℕ
        n_bars h = if h % 128 == 0 then 6 else if h % 128 == 1 then 3 else 0

        update : ℕ → List Bar → Device → Device
        update h bars d = record d { header_type = h % 128; bars = bars }

        changed : ℕ → List Bar → Found → Found
        changed h bars f = record f { devices = change_at i (update h bars) f.devices }

        rest : ℕ → List Bar → Search S (Unit {0})
        rest h bars = modify i (update h bars) >> read_capabilities a c i >> add_pci_device i
