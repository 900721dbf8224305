-- ===== src/Generic/Device/Claims.antt =====
-- The claim of a device in `devctl` of kernel/source/generic/device.cpp.
use sigma.Base.{
  zero, suc, Bool, Option-cases, subst, ℕ, ◌≡◌, ◌≢◌, ◌==◌, refl, arith, if◌then◌else◌, true, false,
  Bool-cases, inl, inr, none, some, List, [], ◌∷◌, get_elem?, set, get_elem?-set_ne, Outcome, ok,
  panic, ◌>>=◌, ap, sym, ◌∙◌, ℕ_discrete,
}
use sigma.Generic.Device.{GenericDevice, Devices, at, claim}

-- Claims one after the other, each by a thread for a descriptor.
unfoldable pub claims : List (ℕ × ℕ) → Devices → Outcome Devices
unfolding claim
claims [] ds = ok ds
claims ((tid, dev) ∷ cs) ds = claim tid dev ds >>= λ r. claims cs r.1

-- The device is with a driver.
abbrev pub IsDriven : ℕ → ℕ → Devices → Type 0
IsDriven tid dev ds = (d : GenericDevice) × (get_elem? ds dev ≡ some d) × (d.driver ≡ tid)

claim_at :
    (t e : ℕ) (ds : Devices) (d : GenericDevice)
    → get_elem? ds e ≡ some d
    → claim t e ds ≡ ok (if d.driver == 0 then (0, set ds e (record d { driver = t })) else (1, ds))
unfolding claim at
claim_at t e ds d h = rw (h, at) refl

no_claim : (t e : ℕ) (ds : Devices) → get_elem? ds e ≡ none → claim t e ds ≡ panic
unfolding claim at
no_claim t e ds h = rw (h, at) refl

ok-injective : {a b : ℕ × Devices} → ok a ≡ ok b → a ≡ b
ok-injective e = cc

set_found :
    (ds : Devices) (i : ℕ) (d v : GenericDevice)
    → get_elem? ds i ≡ some d
    → get_elem? (set ds i v) i ≡ some v
set_found [] i d v h = absurd (clash h)
  where
    clash : none ≡ some d → ⊥
    clash z = cc
set_found (x ∷ ds) zero d v h = refl
set_found (x ∷ ds) (suc i) d v h = set_found ds i d v h

module _ (dev tid : ℕ) where
  claim_refused :
      (t : ℕ) (ds : Devices) → tid ≢ 0 → IsDriven tid dev ds → claim t dev ds ≡ ok (1, ds)
  claim_refused t ds real k =
      claim_at t dev ds k.0 k.1
      ∙ ap (λ b. ok (if b then (0, set ds dev (record k.0 { driver = t })) else (1, ds))) taken
    where
      taken : (k.0.driver == 0) ≡ false
      taken = ground (arith, k.2, real)

  -- A claim of another device.
  claim_other :
      (t e : ℕ) (ds ds' : Devices) (r : ℕ)
      → e ≢ dev
      → claim t e ds ≡ ok (r, ds')
      → get_elem? ds' dev ≡ get_elem? ds dev
  claim_other t e ds ds' r ne h = elim (Option-cases (get_elem? ds e)) [
    | inl gone ↦ absurd (clash (r, ds') (sym (no_claim t e ds gone) ∙ h))
    | inr (d, there) ↦ elim (Bool-cases (d.driver == 0)) [
      | inl free ↦
          ap (λ z. get_elem? z dev)
            (sym (
              ap (λ z. z.1)
                (ok-injective (
                  sym (
                    claim_at t e ds d there
                    ∙ ap (λ b. ok (if b then (0, set ds e (record d { driver = t })) else (1, ds)))
                        free)
                  ∙ h))))
          ∙ get_elem?-set_ne ds (record d { driver = t }) ne
      | inr taken ↦
          ap (λ z. get_elem? z dev)
            (sym (
              ap (λ z. z.1)
                (ok-injective (
                  sym (
                    claim_at t e ds d there
                    ∙ ap (λ b. ok (if b then (0, set ds e (record d { driver = t })) else (1, ds)))
                        taken)
                  ∙ h))))
    ]
  ]
    where
      clash : (x : ℕ × Devices) → panic ≡ ok x → ⊥
      clash x z = cc

  claim_keeps :
      (t e : ℕ) (ds ds' : Devices) (r : ℕ)
      → tid ≢ 0
      → IsDriven tid dev ds
      → claim t e ds ≡ ok (r, ds')
      → IsDriven tid dev ds'
  claim_keeps t e ds ds' r real k h = elim (ℕ_discrete e dev) [
    | yes same ↦
        subst (IsDriven tid dev)
          (ap (λ z. z.1)
            (ok-injective
              (sym (claim_refused t ds real k) ∙ ap (λ z. claim t z ds) (sym same) ∙ h)))
          k
    | no ne ↦ (k.0, claim_other t e ds ds' r ne h ∙ k.1, k.2)
  ]

  claims_keep :
      (cs : List (ℕ × ℕ)) (ds ds' : Devices)
      → tid ≢ 0
      → IsDriven tid dev ds
      → claims cs ds ≡ ok ds'
      → IsDriven tid dev ds'
  unfolding claims
  claims_keep [] ds ds' real k h = subst (IsDriven tid dev) same k
    where
      same : ds ≡ ds'
      same = cc
  claims_keep ((t, e) ∷ cs) ds ds' real k h =
      from (claim t e ds) h
        (λ r ds₁ q. claims_keep cs ds₁ ds' real (claim_keeps t e ds ds₁ r real k q))
    where
      from :
          (o : Outcome (ℕ × Devices))
          → (o >>= λ r. claims cs r.1) ≡ ok ds'
          → ((r : ℕ) (ds₁ : Devices)
              → o ≡ ok (r, ds₁)
              → claims cs ds₁ ≡ ok ds'
              → IsDriven tid dev ds')
          → IsDriven tid dev ds'
      from panic e f = absurd (clash e)
        where
          clash : panic ≡ ok ds' → ⊥
          clash z = cc
      from (ok (r, ds₁)) e f = f r ds₁ refl e

  -- Once a claim by a thread other than number 0 has succeeded, then after any claims, by whatever
  -- threads and for whatever devices, the device is still that thread's, and every claim of it is
  -- refused and changes nothing.
  pub claims-Exclusive :
      (ds ds₁ ds₂ : Devices) (cs : List (ℕ × ℕ))
      → tid ≢ 0
      → claim tid dev ds ≡ ok (0, ds₁)
      → claims cs ds₁ ≡ ok ds₂
      → IsDriven tid dev ds₂ × ((t : ℕ) → claim t dev ds₂ ≡ ok (1, ds₂))
  claims-Exclusive ds ds₁ ds₂ cs real won h =
      let k : IsDriven tid dev ds₂ = claims_keep cs ds₁ ds₂ real first h in
      (k, λ t. claim_refused t ds₂ real k)
    where
      first : IsDriven tid dev ds₁
      first = elim (Option-cases (get_elem? ds dev)) [
        | inl gone ↦ absurd (clash (0, ds₁) (sym (no_claim tid dev ds gone) ∙ won))
        | inr (d, there) ↦ elim (Bool-cases (d.driver == 0)) [
          | inr taken ↦ absurd (one_zero (ap (λ z. z.0) (result d there false taken)))
          | inl free ↦ subst (IsDriven tid dev) (ap (λ z. z.1) (result d there true free)) (
            record d { driver = tid },
            set_found ds dev d (record d { driver = tid }) there,
            refl,
          )
        ]
      ]
        where
          clash : (x : ℕ × Devices) → panic ≡ ok x → ⊥
          clash x z = cc

          one_zero : ◌≡◌ {A = ℕ} 1 0 → ⊥
          one_zero e = omega (arith, e)

          result :
              (d : GenericDevice)
              → get_elem? ds dev ≡ some d
              → (b : Bool) → (d.driver == 0) ≡ b
              → ◌≡◌ {A = ℕ × Devices}
                  (if b then (0, set ds dev (record d { driver = tid })) else (1, ds))
                  (0, ds₁)
          result d there b e = ok-injective (
              sym (
                claim_at tid dev ds d there
                ∙ ap (λ b. ok (if b then (0, set ds dev (record d { driver = tid })) else (1, ds)))
                    e)
              ∙ won)
