-- ===== src/Outcome.antt =====
-- Results of the program's functions: Go's `(T, error)`, and actions on a state that may fail.
-- A wrapped error (`fmt.Errorf("%w …")`) is the error that `errors.Is` finds in it.
use cj_beer_company.Prelude.{String, ◌≡◌, refl, ap, ◌⊎◌, inl, inr}

-- internal/muflone/errors.go and the sentinel errors of eventstore.go.
pub data Error : Type 0 where
  invalid : String → Error  -- ErrInvalid, a violation of a domain rule
  not_found : Error  -- ErrNotFound, a miss in a read model
  aggregate_not_found : Error  -- ErrAggregateNotFound
  concurrency : Error  -- ErrConcurrency
  failed : String → Error  -- any other error value
  panicked : Error  -- a Go panic, which unwinds the handler

pub data Result {ℓ} (A : Type ℓ) : Type ℓ where
  ok : A → Result A
  err : Error → Result A

-- What was written before an error stays written, so the state comes back beside it.
abbrev pub Exec : Type 0 → Type 0 → Type 0
Exec S A = S → Result A × S

module _ {S A : Type 0} where
  abbrev pub pure : A → Exec S A
  pure a s = (ok a, s)

  abbrev pub raise : Error → Exec S A
  raise e s = (err e, s)

  abbrev pub lift : Result A → Exec S A
  lift r s = (r, s)

module _ {S A B : Type 0} where
  abbrev pub continue : Result A → (A → Exec S B) → Exec S B
  continue (ok a) f s = f a s
  continue (err e) f s = (err e, s)

  infixl 10 ◌>>=◌ ◌>>◌
  abbrev pub ◌>>=◌ : Exec S A → (A → Exec S B) → Exec S B
  ◌>>=◌ m f s = let (r, s') = m s in continue r f s'

  abbrev pub ◌>>◌ : Exec S A → Exec S B → Exec S B
  m >> n = m >>= λ _. n

-- The store of the events and the message bus, which the handlers of one module work on.
pub record World (S B : Type 0) : Type 0 where
  pub store : S
  pub bus : B

module _ {S B A : Type 0} where
  abbrev pub on_store : Exec S A → Exec (World S B) A
  on_store m w = let (r, s') = m w.store in (r, record w { store = s' })

  abbrev pub on_bus : Exec B A → Exec (World S B) A
  on_bus m w = let (r, b') = m w.bus in (r, record w { bus = b' })

pub Result-cases {ℓ} :
    {A : Type ℓ} (r : Result A) → ((a : A) × (r ≡ ok a)) ⊎ ((e : Error) × (r ≡ err e))
Result-cases (ok a) = inl (a, refl)
Result-cases (err e) = inr (e, refl)

module _ {S A B : Type 0} (m : Exec S A) (f : A → Exec S B) {s s' : S} where
  -- The state and the value of a bind whose first part returned.
  pub >>=-eq_ok : {a : A} → m s ≡ (ok a, s') → (m >>= f) s ≡ f a s'
  >>=-eq_ok h = ap (λ (p : Result A × S). continue p.0 f p.1) h

  pub >>=-eq_err : {e : Error} → m s ≡ (err e, s') → (m >>= f) s ≡ (err e, s')
  >>=-eq_err h = ap (λ (p : Result A × S). continue p.0 f p.1) h

pub ok-injective {ℓ} : {A : Type ℓ} {a b : A} → ok a ≡ ok b → a ≡ b
ok-injective h = cc

module _ {S A B : Type 0} where
  -- A property of the state that the rest of a block keeps.
  pub continue-keeps :
      (P : S → Type 0) (r : Result A) (f : A → Exec S B) (s : S)
      → P s
      → ((a : A) → P (f a s).1)
      → P (continue r f s).1
  continue-keeps P (ok a) f s h keep = keep a
  continue-keeps P (err e) f s h keep = h

  -- A block that returned has a first part that returned.
  pub continue-eq_ok :
      (r : Result A) (f : A → Exec S B) (s : S) {b : B}
      → (continue r f s).0 ≡ ok b
      → (a : A) × (r ≡ ok a) × ((f a s).0 ≡ ok b)
  continue-eq_ok (ok a) f s h = (a, refl, h)
  continue-eq_ok (err e) f s h = cc
