-- ===== src/Prelude/Stateful.antt =====
-- A computation on a state: it yields a value or an error, and the state behind it.
use krelay.Prelude.Results.{Result, ok, err}
use mathlib.Core.Logic.{◌⊎◌, inl, inr}
use mathlib.Core.Path.{◌≡◌, refl, ap}

abbrev pub Prog : Type 0 → Type 0 → Type 0 → Type 0
Prog S E A = S → Result E A × S

module _ {S E : Type 0} where
  abbrev pub returns : {A : Type 0} → A → Prog S E A
  returns a s = (ok a, s)

  abbrev pub throws : {A : Type 0} → E → Prog S E A
  throws e s = (err e, s)

  abbrev pub continue : {A B : Type 0} → (A → Prog S E B) → Result E A × S → Result E B × S
  continue f (ok a, s) = f a s
  continue f (err e, s) = (err e, s)

  infixl 5 ◌>>=◌ ◌>>◌
  abbrev pub ◌>>=◌ : {A B : Type 0} → Prog S E A → (A → Prog S E B) → Prog S E B
  ◌>>=◌ m f s = continue f (m s)

  abbrev pub ◌>>◌ : {A : Type 0} → Prog S E (Unit {0}) → Prog S E A → Prog S E A
  m >> k = m >>= λ _. k

  pub bind_ok :
      {A B : Type 0} (m : Prog S E A) (f : A → Prog S E B) {a : A} {s s' : S}
      → m s ≡ (ok a, s')
      → (m >>= f) s ≡ f a s'
  bind_ok m f h = ap (continue f) h

  pub bind_err :
      {A B : Type 0} (m : Prog S E A) (f : A → Prog S E B) {e : E} {s s' : S}
      → m s ≡ (err e, s')
      → (m >>= f) s ≡ (err e, s')
  bind_err m f h = ap (continue f) h

  -- Inversion of a chain that succeeds.
  pub bind-eq-ok :
      {A B : Type 0} (m : Prog S E A) (f : A → Prog S E B) {b : B} {s t : S}
      → (m >>= f) s ≡ (ok b, t)
      → (a : A) × (s' : S) × (m s ≡ (ok a, s')) × (f a s' ≡ (ok b, t))
  bind-eq-ok {A} {B} m f {b} {s} {t} h = go (m s) refl h
    where
      go :
          (x : Result E A × S)
          → m s ≡ x
          → continue f x ≡ (ok b, t)
          → (a : A) × (s' : S) × (m s ≡ (ok a, s')) × (f a s' ≡ (ok b, t))
      go (ok a, s') e g = (a, s', e, g)
      go (err e', s') e g = cc

  -- And of one that fails: its first part fails, or its second part does.
  pub bind-eq-err :
      {A B : Type 0} (m : Prog S E A) (f : A → Prog S E B) {e : E} {s t : S}
      → (m >>= f) s ≡ (err e, t)
      → (m s ≡ (err e, t)) ⊎ ((a : A) × (s' : S) × (m s ≡ (ok a, s')) × (f a s' ≡ (err e, t)))
  bind-eq-err {A} {B} m f {e} {s} {t} h = go (m s) refl h
    where
      go :
          (x : Result E A × S)
          → m s ≡ x
          → continue f x ≡ (err e, t)
          → (m s ≡ (err e, t)) ⊎ ((a : A) × (s' : S) × (m s ≡ (ok a, s')) × (f a s' ≡ (err e, t)))
      go (ok a, s') q g = inr (a, s', q, g)
      go (err e', s') q g = inl cc

  -- What holds after a chain, by the outcome of its first part.
  pub continue-cases :
      {A B : Type 0} (P : Result E B × S → Type 0) (f : A → Prog S E B) (x : Result E A × S)
      → ((a : A) (s : S) → x ≡ (ok a, s) → P (f a s))
      → ((e : E) (s : S) → x ≡ (err e, s) → P (err e, s))
      → P (continue f x)
  continue-cases P f (ok a, s) h k = h a s refl
  continue-cases P f (err e, s) h k = k e s refl
