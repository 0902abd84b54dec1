-- ===== src/Ledger/Result.antt =====
-- The results of the ledger's checks: `common/result`, with a panic beside an error.
use theta_protocol_subchain.Prelude.{◌≡◌, refl, Bool, true, false, ◌⊎◌, inl, inr}

pub data Result {ℓ} (A : Type ℓ) : Type ℓ where
  panic undecided error : Result A
  ok : A → Result A

-- A test that has to hold.
abbrev pub guard : Bool → Result (Unit {0})
guard holds = elim holds [ false ↦ error | true ↦ ok tt ]

module _ {ℓ κ} {A : Type ℓ} {B : Type κ} where
  -- Whatever is not OK ends the call.
  infixl 5 ◌>>=◌
  abbrev pub ◌>>=◌ : Result A → (A → Result B) → Result B
  panic >>= next = panic
  undecided >>= next = undecided
  error >>= next = error
  ok value >>= next = next value

  pub >>=-eq-ok :
      (r : Result A) (next : A → Result B) {last : B}
      → (r >>= next) ≡ ok last
      → (value : A) × (r ≡ ok value) × (next value ≡ ok last)
  >>=-eq-ok panic next e = cc
  >>=-eq-ok undecided next e = cc
  >>=-eq-ok error next e = cc
  >>=-eq-ok (ok value) next e = (value, refl, e)

module _ {κ} {B : Type κ} where
  infixl 5 ◌>>◌
  abbrev pub ◌>>◌ : Result (Unit {0}) → Result B → Result B
  test >> next = test >>= (λ _. next)

pub guard-eq-ok {ℓ} :
    {B : Type ℓ} (c : Bool) (k : Result B) {b : B} → (guard c >> k) ≡ ok b → (c ≡ true) × (k ≡ ok b)
guard-eq-ok true k h = (refl, h)
guard-eq-ok false k h = cc

pub guard-is_ok : (c : Bool) → guard c ≡ ok tt → c ≡ true
guard-is_ok true h = refl
guard-is_ok false h = cc

pub Result-cases {ℓ} :
    {A : Type ℓ} (m : Result A)
    → ((a : A) × (m ≡ ok a)) ⊎ ((m ≡ error) ⊎ ((m ≡ undecided) ⊎ (m ≡ panic)))
Result-cases (ok a) = inl (a, refl)
Result-cases error = inr (inl refl)
Result-cases undecided = inr (inr (inl refl))
Result-cases panic = inr (inr (inr refl))

pub pair_eta : {A B : Type 0} (p : A × B) {b : B} → p.1 ≡ b → p ≡ (p.0, b)
pair_eta p h = cc
