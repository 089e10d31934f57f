-- ===== src/Services/Respects.antt =====
-- Relations between worlds that every call of an action respects: the action then respects them.
use image_optimizer.Prelude.{Bool, true, false, Error, Result, ok, err}
use image_optimizer.Text.{Bytes}
use image_optimizer.Services.Calls.{Action, fail_if, continue, ◌>>=◌, wrapped, context}

-- A relation that holds of a world and itself, and from one world to the next but one.
pub record IsPreorder {W : Type 0} (R : W → W → Type 0) : Type 0 where
  pub same : (w : W) → R w w
  pub next : (a b c : W) → R a b → R b c → R a c

-- An action leaves a world that the relation allows.
abbrev pub Respects : {W A : Type 0} → (W → W → Type 0) → Action W A → Type 0
Respects R m = (w : _) → R w (m w).1

module _ {W : Type 0} (R : W → W → Type 0) (p : IsPreorder R) where
  pub fail_if-Respects : (b : Bool) (e : Error) → Respects R (fail_if b e)
  fail_if-Respects true e w = p.same w
  fail_if-Respects false e w = p.same w

  pub continue-Respects :
      {A B : Type 0} (w : W) (r : Result A) (w' : W) (f : A → Action W B)
      → R w w'
      → ((a : A) → Respects R (f a))
      → R w (continue (r, w') f).1
  continue-Respects w (ok a) w' f e k = p.next w w' (f a w').1 e (k a w')
  continue-Respects w (err x) w' f e k = e

  pub bind-Respects :
      {A B : Type 0} (m : Action W A) (f : A → Action W B)
      → Respects R m
      → ((a : A) → Respects R (f a))
      → Respects R (m >>= f)
  bind-Respects m f k h w = continue-Respects w (m w).0 (m w).1 f (k w) h

  pub wrapped-Respects :
      {A : Type 0} (text : Bytes) (w : W) (r : Result A) (w' : W)
      → R w w'
      → R w (wrapped text (r, w')).1
  wrapped-Respects text w (ok a) w' h = h
  wrapped-Respects text w (err e) w' h = h

  pub context-Respects :
      {A : Type 0} (text : Bytes) (m : Action W A) → Respects R m → Respects R (context text m)
  context-Respects text m k w = wrapped-Respects text w (m w).0 (m w).1 (k w)
