-- ===== src/Base/Panic.antt =====
-- The outcome of a Go call that may panic, such as on a nil pointer.
use mathlib.Core.Path.{◌≡◌, refl, ap, ◌∙◌}

pub data Go {ℓ} (A : Type ℓ) : Type ℓ where
  done : A → Go A
  panic : Go A

infixl 5 ◌>>=◌
abbrev pub ◌>>=◌ {ℓ κ} : {A : Type ℓ} {B : Type κ} → Go A → (A → Go B) → Go B
done a >>= f = f a
panic >>= f = panic

pub >>=-eq-done {ℓ κ} :
    {A : Type ℓ} {B : Type κ} (m : Go A) (f : A → Go B) {b : B}
    → (m >>= f) ≡ done b
    → (a : A) × (m ≡ done a) × (f a ≡ done b)
>>=-eq-done (done a) f h = (a, refl, h)
>>=-eq-done panic f h = cc

pub eq_of_done-eq {ℓ} : {A : Type ℓ} {a b : A} → done a ≡ done b → a ≡ b
eq_of_done-eq e = cc

-- The call returns.
abbrev pub Returns {ℓ} : {A : Type ℓ} → Go A → Type ℓ
Returns {A} m = (a : A) × (m ≡ done a)

-- A call that returns, and a continuation that returns.
pub >>=-Returns {ℓ κ} :
    {A : Type ℓ} {B : Type κ} (m : Go A) (f : A → Go B)
    → Returns m
    → ((a : A) → Returns (f a))
    → Returns (m >>= f)
>>=-Returns m f (a, e) h = ((h a).0, ap (λ x. x >>= f) e ∙ (h a).1)

pub Returns-of_not_panic {ℓ} : {A : Type ℓ} (m : Go A) → ¬ (m ≡ panic) → Returns m
Returns-of_not_panic (done a) h = (a, refl)
Returns-of_not_panic panic h = absurd (h refl)

pub >>=-Returns_of_eq {ℓ κ} :
    {A : Type ℓ} {B : Type κ} (m : Go A) (f : A → Go B) (a : A)
    → m ≡ done a
    → Returns (f a)
    → Returns (m >>= f)
>>=-Returns_of_eq m f a e (b, q) = (b, ap (λ x. x >>= f) e ∙ q)
