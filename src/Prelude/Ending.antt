-- ===== src/Prelude/Ending.antt =====
-- How a call ends: with a value, with the error return (-1 or NULL), or in a failed
-- assertion, an access outside a buffer or, in the model, with the fuel used up.
use mathlib.Core.Path.{◌≡◌, refl, sym}
use mathlib.Core.Bool.{Bool, true, false}
use libcperciva.Prelude.Tests.{true-false, if◌then◌else◌}

pub data Outcome {ℓ} (A : Type ℓ) : Type ℓ where
  done : A → Outcome A
  fail : Outcome A
  abort : Outcome A

infixl 5 ◌>>=◌
abbrev pub ◌>>=◌ {ℓ κ} : {A : Type ℓ} {B : Type κ} → Outcome A → (A → Outcome B) → Outcome B
done a >>= f = f a
fail >>= f = fail
abort >>= f = abort

-- `assert(b)`, then the rest.
abbrev pub assert {ℓ} : {A : Type ℓ} → Bool → Outcome A → Outcome A
assert true r = r
assert false r = abort

-- `if (call) { … }`: an error return is answered by going on with another value.
abbrev pub recover {ℓ} : {A : Type ℓ} → Outcome A → A → Outcome A
recover (done a) b = done a
recover fail b = done b
recover abort b = abort

-- A call that returns keeps `P`, an error return has left the object as it was, and no
-- assertion fails.
abbrev pub Keeps {ℓ} : {A : Type ℓ} → (A → Type 0) → Outcome A → Type 0
Keeps P (done a) = P a
Keeps P fail = Unit
Keeps P abort = ⊥

-- The call returns a value, and the value satisfies `P`.
abbrev pub Returns {ℓ} : {A : Type ℓ} → (A → Type 0) → Outcome A → Type 0
Returns P (done a) = P a
Returns P fail = ⊥
Returns P abort = ⊥

-- If the call returns a value, the value satisfies `P`.
abbrev pub Settles {ℓ} : {A : Type ℓ} → (A → Type 0) → Outcome A → Type 0
Settles P (done a) = P a
Settles P fail = Unit
Settles P abort = Unit

module _ {ℓ} {A : Type ℓ} (P : A → Type 0) where
  pub Settles-if :
      (b : Bool) (x y : Outcome A)
      → (b ≡ true → Settles P x)
      → (b ≡ false → Settles P y)
      → Settles P (if b then x else y)
  Settles-if true x y p q = p refl
  Settles-if false x y p q = q refl

  pub Settles-assert :
      (b : Bool) (x : Outcome A) → (b ≡ true → Settles P x) → Settles P (assert b x)
  Settles-assert true x p = p refl
  Settles-assert false x p = tt

  pub Settles-Returns : (r : Outcome A) → Settles P r → Returns (λ a. Unit {0}) r → Returns P r
  Settles-Returns (done a) h k = h
  Settles-Returns fail h k = k
  Settles-Returns abort h k = k

  pub Keeps-if :
      (b : Bool) (x y : Outcome A)
      → (b ≡ true → Keeps P x)
      → (b ≡ false → Keeps P y)
      → Keeps P (if b then x else y)
  Keeps-if true x y p q = p refl
  Keeps-if false x y p q = q refl

  pub Returns-if :
      (b : Bool) (x y : Outcome A)
      → (b ≡ true → Returns P x)
      → (b ≡ false → Returns P y)
      → Returns P (if b then x else y)
  Returns-if true x y p q = p refl
  Returns-if false x y p q = q refl

  pub Returns-assert : (b : Bool) (x : Outcome A) → b ≡ true → Returns P x → Returns P (assert b x)
  Returns-assert true x e p = p
  Returns-assert false x e p = absurd (true-false (sym e))

  pub Returns-Keeps : (r : Outcome A) → Returns P r → Keeps P r
  Returns-Keeps (done a) h = h
  Returns-Keeps fail h = absurd h
  Returns-Keeps abort h = absurd h

  pub Returns-recover : (r : Outcome A) (b : A) → Keeps P r → P b → Returns P (recover r b)
  Returns-recover (done a) b h k = h
  Returns-recover fail b h k = k
  Returns-recover abort b h k = absurd h

  pub Returns-recover_done : (r : Outcome A) (b : A) → Returns P r → Returns P (recover r b)
  Returns-recover_done (done a) b h = h
  Returns-recover_done fail b h = absurd h
  Returns-recover_done abort b h = absurd h

  pub Returns-both :
      (Q : A → Type 0) (r : Outcome A) → Returns P r → Returns Q r → Returns (λ a. P a × Q a) r
  Returns-both Q (done a) h k = (h, k)
  Returns-both Q fail h k = absurd h
  Returns-both Q abort h k = absurd h

  pub Returns-inv : (r : Outcome A) → Returns P r → (a : A) × (r ≡ done a) × P a
  Returns-inv (done a) h = (a, refl, h)
  Returns-inv fail h = absurd h
  Returns-inv abort h = absurd h

  module _ (Q : A → Type 0) (weaken : (a : A) → P a → Q a) where
    pub Returns-map : (r : Outcome A) → Returns P r → Returns Q r
    Returns-map (done a) h = weaken a h
    Returns-map fail h = absurd h
    Returns-map abort h = absurd h

    pub Keeps-map : (r : Outcome A) → Keeps P r → Keeps Q r
    Keeps-map (done a) h = weaken a h
    Keeps-map fail h = tt
    Keeps-map abort h = absurd h

  module _ {κ} {B : Type κ} (Q : B → Type 0) where
    pub Keeps-bind :
        (r : Outcome A) (f : A → Outcome B)
        → Keeps P r
        → ((a : A) → P a → Keeps Q (f a))
        → Keeps Q (r >>= f)
    Keeps-bind (done a) f h k = k a h
    Keeps-bind fail f h k = tt
    Keeps-bind abort f h k = absurd h

    pub Returns-bind :
        (r : Outcome A) (f : A → Outcome B)
        → Returns P r
        → ((a : A) → P a → Returns Q (f a))
        → Returns Q (r >>= f)
    Returns-bind (done a) f h k = k a h
    Returns-bind fail f h k = absurd h
    Returns-bind abort f h k = absurd h
