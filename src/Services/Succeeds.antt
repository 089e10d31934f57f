-- ===== src/Services/Succeeds.antt =====
-- What a success of a chain of calls says of its calls.
use image_optimizer.Prelude.{◌≡◌, refl, ap, Bool, true, false, Error, Result, ok, err}
use image_optimizer.Text.{Bytes}
use image_optimizer.Services.Calls.{Action, fail_if, continue, ◌>>=◌, wrapped, context}

module _ {W : Type 0} where
  continue_ok :
      {A B : Type 0} (r : Result A) (w : W) (f : A → Action W B) (b : B) (w' : W)
      → continue (r, w) f ≡ (ok b, w')
      → (a : A) × (r ≡ ok a) × (f a w ≡ (ok b, w'))
  continue_ok (ok a) w f b w' h = (a, refl, h)
  continue_ok {A} {B} (err e) w f b w' h = let k = ap (λ (p : Result B × W). p.0) h in cc

  -- Both halves of a chain have succeeded.
  pub bind_succeeds :
      {A B : Type 0} (m : Action W A) (f : A → Action W B) (w : W) (b : B) (w' : W)
      → (m >>= f) w ≡ (ok b, w')
      → (a : A) × (w1 : W) × (m w ≡ (ok a, w1)) × (f a w1 ≡ (ok b, w'))
  bind_succeeds m f w b w' h =
      let (r, w1) = m w in
      let (a, e, k) = continue_ok r w1 f b w' h in (a, w1, ap (λ r. (r, w1)) e, k)

  wrapped_ok :
      {A : Type 0} (text : Bytes) (r : Result A) (w : W) (a : A) (w' : W)
      → wrapped text (r, w) ≡ (ok a, w')
      → Path (Result A × W) (r, w) (ok a, w')
  wrapped_ok text (ok b) w a w' h = h
  wrapped_ok {A} text (err e) w a w' h = let k = ap (λ (p : Result A × W). p.0) h in cc

  pub context_succeeds :
      {A : Type 0} (text : Bytes) (m : Action W A) (w : W) (a : A) (w' : W)
      → context text m w ≡ (ok a, w')
      → m w ≡ (ok a, w')
  context_succeeds text m w a w' h = wrapped_ok text (m w).0 (m w).1 a w' h

  -- A test that has passed leaves the world.
  pub fail_if_succeeds :
      (b : Bool) (e : Error) (w : W) (a : Unit {0}) (w' : W)
      → fail_if b e w ≡ (ok a, w')
      → (b ≡ false) × (w ≡ w')
  fail_if_succeeds false e w a w' h = (refl, ap (λ (p : Result (Unit {0}) × W). p.1) h)
  fail_if_succeeds true e w a w' h = let k = ap (λ (p : Result (Unit {0}) × W). p.0) h in cc

-- Every success of the action leaves a world of the kind.
abbrev pub Ends : {W : Type 0} → (W → Type 0) → Action W (Unit {0}) → Type 0
Ends P m = (w w' : _) → m w ≡ (ok tt, w') → P w'

module _ {W : Type 0} (P : W → Type 0) where
  pub bind-Ends :
      {A : Type 0} (m : Action W A) (f : A → Action W (Unit {0}))
      → ((a : A) → Ends P (f a))
      → Ends P (m >>= f)
  bind-Ends m f k w w' h = let (a, w1, e, h1) = bind_succeeds m f w tt w' h in k a w1 w' h1

  pub context-Ends : (text : Bytes) (m : Action W (Unit {0})) → Ends P m → Ends P (context text m)
  context-Ends text m k w w' h = k w w' (context_succeeds text m w tt w' h)
