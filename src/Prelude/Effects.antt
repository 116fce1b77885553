-- ===== src/Prelude/Effects.antt =====
-- What a call of a port may do: return a value, or throw.
use Prim.Native.String.{String}
use mathlib.Core.Path.{◌≡◌, refl}
use mathlib.Core.Logic.{◌⊎◌, inl, inr}
use native.Mathlib.Omega.{arith}

-- A thrown value: an `Error` with its message, or anything else.
pub data Thrown : Type 0 where
  error : String → Thrown
  other : Thrown

-- `error instanceof Error ? error.message : fallback`
abbrev pub message_of : Thrown → String → String
message_of (error message) fallback = message
message_of other fallback = fallback

pub data Attempt (A : Type 0) : Type 0 where
  returns : A → Attempt A
  throws : Thrown → Attempt A

pub Attempt-cases :
    {A : Type 0} (t : Attempt A) → ((a : A) × (t ≡ returns a)) ⊎ ((e : Thrown) × (t ≡ throws e))
Attempt-cases (returns a) = inl (a, refl)
Attempt-cases (throws e) = inr (e, refl)

infixl 5 ◌>>=◌ ◌>>◌
abbrev pub ◌>>=◌ : {A B : Type 0} → Attempt A → (A → Attempt B) → Attempt B
returns a >>= f = f a
throws e >>= f = throws e

abbrev pub ◌>>◌ : {B : Type 0} → Attempt (Unit {0}) → Attempt B → Attempt B
m >> k = m >>= λ _. k

-- A chain that returned has returned at each step.
pub >>=-returns :
    {A B : Type 0} (m : Attempt A) (f : A → Attempt B) {b : B}
    → (m >>= f) ≡ returns b
    → (a : A) × (m ≡ returns a) × (f a ≡ returns b)
>>=-returns (returns a) f e = (a, refl, e)
>>=-returns (throws t) f e = absurd (ground arith)
