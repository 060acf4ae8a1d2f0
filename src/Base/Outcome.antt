-- ===== src/Base/Outcome.antt =====
-- The outcome of a piece of C code: a value, an access outside every object, or more loop rounds
-- than the fuel allowed.
use mathlib.Core.Path.{◌≡◌, sym, ap, ◌∙◌, subst}

pub data Run {ℓ} (A : Type ℓ) : Type ℓ where
  ok : A → Run A
  fault : Run A
  timeout : Run A

infixl 5 ◌>>=◌
abbrev pub ◌>>=◌ {ℓ κ} : {A : Type ℓ} {B : Type κ} → Run A → (A → Run B) → Run B
ok a >>= k = k a
fault >>= k = fault
timeout >>= k = timeout

-- Total correctness: the run ends, in bounds, with a value of which `P` holds.
abbrev pub Returns {ℓ} : {A : Type ℓ} → (A → Type 0) → Run A → Type ℓ
Returns {A} P r = (a : A) × (r ≡ ok a) × P a

pub Returns-bind {ℓ κ} :
    {A : Type ℓ} {B : Type κ} {P : A → Type 0} {Q : B → Type 0} {r : Run A} {k : A → Run B}
    → Returns P r
    → ((a : A) → P a → Returns Q (k a))
    → Returns Q (r >>= k)
Returns-bind (a, e, p) next = rw e (next a p)

pub Returns-mono {ℓ} :
    {A : Type ℓ} {P Q : A → Type 0} {r : Run A} → Returns P r → ((a : A) → P a → Q a) → Returns Q r
Returns-mono (a, e, p) weaken = (a, e, weaken a p)

value_or {ℓ} : {A : Type ℓ} → A → Run A → A
value_or other (ok a) = a
value_or other fault = other
value_or other timeout = other

-- What is shown of a run by two ways holds of one value.
pub Returns-both {ℓ} :
    {A : Type ℓ} {P Q : A → Type 0} {r : Run A}
    → Returns P r
    → Returns Q r
    → Returns (λ a. P a × Q a) r
unfolding value_or
Returns-both {Q = Q} (a, e, p) (b, e', q) = (a, e, (p, subst Q (ap (value_or a) (sym e' ∙ e)) q))
