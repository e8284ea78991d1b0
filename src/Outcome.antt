-- ===== src/Outcome.antt =====
-- Go's pair of a value and an error: a step returns its value or fails. What a failed step had
-- written is rolled back with its bbolt transaction, so an error carries no state.
use l1_modular_blockchain.Common.{◌≡◌, refl, Bool, true, false, Option, none, some, subst}
use l1_modular_blockchain.Types.{Error}

pub data Outcome {ℓ} (A : Type ℓ) : Type ℓ where
  ok : A → Outcome A
  err : Error → Outcome A

infixl 5 ◌>>=◌ ◌>>◌
abbrev pub ◌>>=◌ {ℓ κ} : {A : Type ℓ} {B : Type κ} → Outcome A → (A → Outcome B) → Outcome B
ok a >>= f = f a
err e >>= f = err e

abbrev pub ◌>>◌ {ℓ} : {B : Type ℓ} → Outcome (Unit {0}) → Outcome B → Outcome B
m >> k = m >>= λ _. k

-- `if test { return err }`
unfoldable pub refuse_if : Bool → Error → Outcome (Unit {0})
refuse_if true e = err e
refuse_if false e = ok tt

unfoldable pub or_fail {ℓ} : {A : Type ℓ} → Option A → Error → Outcome A
or_fail none e = err e
or_fail (some a) e = ok a

-- How a step ends: by a value with `P`, or by an error with `Q`.
pub data Ends {ℓ κ} {A : Type ℓ} (Q : Error → Type 0) (P : A → Type κ)
    : Outcome A → Type (ℓ ⊔ κ) where
  returns : {a : A} → P a → Ends Q P (ok a)
  fails : {e : Error} → Q e → Ends Q P (err e)

-- It may fail; it never fails.
abbrev pub Any : Error → Type 0
Any e = Unit

abbrev pub Never : Error → Type 0
Never e = ⊥

infixl 6 ◌then_by◌
pub ◌then_by◌ {ℓ ℓ' κ κ'} :
    {A : Type ℓ} {B : Type ℓ'} {Q : Error → Type 0} {P : A → Type κ} {R : B → Type κ'}
    {m : Outcome A} {f : A → Outcome B}
    → Ends Q P m
    → ((a : A) → P a → Ends Q R (f a))
    → Ends Q R (m >>= f)
returns {a} h then_by k = k a h
fails q then_by k = fails q

-- Past a guard its test is known to have failed.
pub past_guard {ℓ κ} :
    {A : Type ℓ} {P : A → Type κ} (b : Bool) (e : Error) {m : Outcome A}
    → (b ≡ false → Ends Any P m)
    → Ends Any P (refuse_if b e >> m)
unfolding refuse_if
past_guard true e h = fails tt
past_guard false e h = h refl

-- Past a check nothing need be known of it.
pub past_check {ℓ κ} :
    {A : Type ℓ} {P : A → Type κ} (c : Outcome (Unit {0})) {m : Outcome A}
    → Ends Any P m
    → Ends Any P (c >> m)
past_check (ok x) h = h
past_check (err e) h = fails tt

module _ {ℓ κ} {A : Type ℓ} {P : A → Type κ} where
  pub Ends-ok : {Q : Error → Type 0} {m : Outcome A} {a : A} → Ends Q P m → m ≡ ok a → P a
  Ends-ok (returns h) e = subst P (cc) h
  Ends-ok (fails q) e = cc

  pub Ends-Never : {m : Outcome A} → Ends Never P m → (a : A) × (m ≡ ok a) × P a
  Ends-Never (returns {a} h) = (a, refl, h)
  Ends-Never (fails q) = absurd q

  pub or_fail-Ends :
      (o : Option A) (e : Error) → ((a : A) → o ≡ some a → P a) → Ends Any P (or_fail o e)
  unfolding or_fail
  or_fail-Ends none e h = fails tt
  or_fail-Ends (some a) e h = returns (h a refl)

  pub weaken {κ'} :
      {Q : Error → Type 0} {R : A → Type κ'} {m : Outcome A}
      → ((a : A) → P a → R a)
      → Ends Q P m
      → Ends Q R m
  weaken f (returns h) = returns (f _ h)
  weaken f (fails q) = fails q

  -- Errors under a wider description.
  pub widen :
      {Q R : Error → Type 0} {m : Outcome A} → ((e : Error) → Q e → R e) → Ends Q P m → Ends R P m
  widen f (returns h) = returns h
  widen f (fails q) = fails (f _ q)

  -- A step that never fails is one that may.
  pub Any-of_Never : {m : Outcome A} → Ends Never P m → Ends Any P m
  Any-of_Never (returns h) = returns h
  Any-of_Never (fails q) = fails tt

abbrev pub SomeValue {ℓ} : {A : Type ℓ} → A → Type 0
SomeValue a = Unit

-- How a step ends when nothing is asked.
pub anything {ℓ} : {A : Type ℓ} (m : Outcome A) → Ends Any SomeValue m
anything (ok a) = returns tt
anything (err e) = fails tt

-- Two facts on how a step ends.
pub Ends-both {ℓ κ κ'} :
    {A : Type ℓ} {Q R : Error → Type 0} {P : A → Type κ} {P' : A → Type κ'} {m : Outcome A}
    → Ends Q P m
    → Ends R P' m
    → Ends Q (λ a. P a × P' a) m
Ends-both (returns h) k = returns (h, Ends-ok k refl)
Ends-both (fails q) k = fails q
