-- ===== src/Prelude/Errors.antt =====
-- Go's pair of a value and an error.
use Prim.Native.Char.{code}
use Prim.Native.Nat.{ℕ}
use Prim.Native.String.{String}
use mathlib.Core.Bool.{Bool, true, false}
use mathlib.Core.List.{List, [], ◌∷◌, ◌++◌}
use mathlib.Core.Path.{◌≡◌, refl}
use mathlib.Core.Logic.{◌⊎◌, inl, inr}

-- The bytes of an ASCII literal.
abbrev pub codes : String → List ℕ
codes String.[] = []
codes (String.◌∷◌ c s) = code c ∷ codes s

-- An error value: its text, and which sentinel errors `errors.Is` finds in its chain.
pub record Error : Type 0 where
  pub text : List ℕ
  pub is_not_found : Bool
  pub is_deadline : Bool
  pub is_canceled : Bool

-- `fmt.Errorf(text)`, with nothing wrapped
abbrev pub errorf : List ℕ → Error
errorf text = record { text = text; is_not_found = false; is_deadline = false; is_canceled = false }

-- `fmt.Errorf("context: %w", e)` keeps the chain.
abbrev pub wrap : List ℕ → Error → Error
wrap context e = record e { text = context ++ (codes ": " ++ e.text) }

pub data Result (A : Type 0) : Type 0 where
  ok : A → Result A
  err : Error → Result A

infixl 5 ◌>>=◌ ◌>>◌
abbrev pub ◌>>=◌ : {A B : Type 0} → Result A → (A → Result B) → Result B
ok a >>= f = f a
err e >>= f = err e

abbrev pub ◌>>◌ : {B : Type 0} → Result (Unit {0}) → Result B → Result B
m >> k = m >>= λ _. k

-- `if bad { return err }`
abbrev pub refuse_if : Bool → Error → Result (Unit {0})
refuse_if true e = err e
refuse_if false e = ok tt

pub Result-cases :
    {A : Type 0} (r : Result A) → ((a : A) × (r ≡ ok a)) ⊎ ((e : Error) × (r ≡ err e))
Result-cases (ok a) = inl (a, refl)
Result-cases (err e) = inr (e, refl)

-- The two halves of a success.
pub bind_ok :
    {A B : Type 0} (m : Result A) (f : A → Result B) (b : B)
    → (m >>= f) ≡ ok b
    → (a : A) × (m ≡ ok a) × (f a ≡ ok b)
bind_ok (ok a) f b h = (a, refl, h)
bind_ok (err e) f b h = cc
