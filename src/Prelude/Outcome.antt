-- ===== src/Prelude/Outcome.antt =====
-- What a call that may raise returns: its value, or the reason why it raised.
use mathlib.Core.Path.{◌≡◌, refl, ap, ◌∙◌}
use mathlib.Core.Bool.{Bool, true, false}

pub data Outcome {ℓ} (E : Type 0) (A : Type ℓ) : Type ℓ where
  returned : A → Outcome E A
  raised : E → Outcome E A

infixl 5 ◌>>=◌ ◌>>◌
abbrev pub ◌>>=◌ {ℓ κ} :
    {E : Type 0} {A : Type ℓ} {B : Type κ} → Outcome E A → (A → Outcome E B) → Outcome E B
returned a >>= f = f a
raised e >>= f = raised e

abbrev pub ◌>>◌ {ℓ} : {E : Type 0} {B : Type ℓ} → Outcome E (Unit {0}) → Outcome E B → Outcome E B
m >> k = m >>= λ _. k

-- assert b, or: if not b: raise e
abbrev pub require : {E : Type 0} → Bool → E → Outcome E (Unit {0})
require true e = returned tt
require false e = raised e

-- Inversion of a bind that returns.
pub >>=-eq-returned {ℓ κ} :
    {E : Type 0} {A : Type ℓ} {B : Type κ} (m : Outcome E A) (f : A → Outcome E B) {b : B}
    → (m >>= f) ≡ returned b
    → (a : A) × (m ≡ returned a) × (f a ≡ returned b)
>>=-eq-returned (returned a) f h = (a, refl, h)
>>=-eq-returned (raised e) f h = cc

-- Inversion of a test that passes.
pub >>-eq-returned {ℓ} :
    {E : Type 0} {B : Type ℓ} (b : Bool) (e : E) (m : Outcome E B) {r : B}
    → (require b e >> m) ≡ returned r
    → (b ≡ true) × (m ≡ returned r)
>>-eq-returned true e m h = (refl, h)
>>-eq-returned false e m h = cc

abbrev value_or {ℓ} : {E : Type 0} {A : Type ℓ} → A → Outcome E A → A
value_or d (returned a) = a
value_or d (raised e) = d

pub returned-injective {ℓ} :
    {E : Type 0} {A : Type ℓ} {a b : A} → ◌≡◌ {A = Outcome E A} (returned a) (returned b) → a ≡ b
returned-injective {a} h = ap (value_or a) h

abbrev failure_or {ℓ} : {E : Type 0} {A : Type ℓ} → E → Outcome E A → E
failure_or d (returned a) = d
failure_or d (raised e) = e

pub raised-injective {ℓ} :
    {E : Type 0} {A : Type ℓ} {d e : E} → ◌≡◌ {A = Outcome E A} (raised d) (raised e) → d ≡ e
raised-injective {d} h = ap (failure_or d) h

-- The converse: a bind of what returns, and a test that passes.
pub returned->>= {ℓ κ} :
    {E : Type 0} {A : Type ℓ} {B : Type κ} {m : Outcome E A} (f : A → Outcome E B) {a : A}
    {r : Outcome E B}
    → m ≡ returned a
    → f a ≡ r
    → (m >>= f) ≡ r
returned->>= f e h = ap (λ n. n >>= f) e ∙ h

pub require-true {ℓ} :
    {E : Type 0} {B : Type ℓ} {b : Bool} (e : E) {m r : Outcome E B}
    → b ≡ true
    → m ≡ r
    → (require b e >> m) ≡ r
require-true e {m} passed h = ap (λ t. require t e >> m) passed ∙ h

pub require-eq-returned : {E : Type 0} (b : Bool) (e : E) → require b e ≡ returned tt → b ≡ true
require-eq-returned true e h = refl
require-eq-returned false e h = cc

-- What only computes after m raises nothing of its own.
pub >>=-eq-raised {ℓ κ} :
    {E : Type 0} {A : Type ℓ} {B : Type κ} (m : Outcome E A) (f : A → B) {e : E}
    → (m >>= (λ a. returned (f a))) ≡ raised e
    → m ≡ raised e
>>=-eq-raised (returned a) f h = cc
>>=-eq-raised (raised d) f h = ap raised (raised-injective h)
