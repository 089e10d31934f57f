-- ===== src/Services/Handles.antt =====
-- Handles that calls open and give back: connections, pools and listeners for signals.
use image_optimizer.Prelude.{
  if◌then◌else◌, ℕ, ◌≡◌, refl, ◌∙◌, ap, ◌+◌, Bool, true, false, Result, ok, err,
}
use image_optimizer.Text.{Bytes}
use image_optimizer.Services.Calls.{Action, continue, ◌>>=◌, context, deferred}
use image_optimizer.Services.Respects.{IsPreorder, bind-Respects, context-Respects}

module _ {W : Type 0} (handles : W → ℕ) where
  -- A call that leaves as many handles as it finds.
  abbrev pub Keeps : {A : Type 0} → Action W A → Type 0
  Keeps m = (w : W) → handles (m w).1 ≡ handles w

  -- A call that opens one handle, if it succeeds.
  abbrev pub Opens : {A : Type 0} → W → Result A × W → Type 0
  Opens w (ok _, w') = handles w' ≡ handles w + 1
  Opens w (err _, w') = handles w' ≡ handles w

  -- What is open after the call is given back by `close`: then, or after an error, `n` are left.
  abbrev pub Balanced : {A : Type 0} → (A → W → W) → ℕ → Result A × W → Type 0
  Balanced close n (ok a, w) = (w' : W) → handles w' ≡ handles w → handles (close a w') ≡ n
  Balanced close n (err e, w) = handles w ≡ n

  abbrev pub Same : W → W → Type 0
  Same w w' = handles w' ≡ handles w

  pub Same-IsPreorder : IsPreorder Same
  Same-IsPreorder = record { same = λ w. refl; next = λ a b c h k. k ∙ h }

  pub bind-Keeps :
      {A B : Type 0} (m : Action W A) (f : A → Action W B)
      → Keeps m
      → ((a : A) → Keeps (f a))
      → Keeps (m >>= f)
  bind-Keeps m f k h = bind-Respects Same Same-IsPreorder m f k h

  pub context-Keeps :
      {A : Type 0} (text : Bytes) (m : Action W A) → Keeps m → Keeps (context text m)
  context-Keeps text m k = context-Respects Same Same-IsPreorder text m k

  continue-Balanced :
      {A B : Type 0} (close : A → W → W) (body : A → Action W B) (n : ℕ) (r : Result A) (w : W)
      → ((a : A) → Keeps (body a))
      → Balanced close n (r, w)
      → handles (continue (r, w) (λ a. deferred (close a) (body a))).1 ≡ n
  continue-Balanced close body n (ok a) w k b = b (body a w).1 (k a w)
  continue-Balanced close body n (err e) w k b = b

  -- What is opened, used and given back.
  pub bracket-Keeps :
      {A B : Type 0} (m : Action W A) (close : A → W → W) (body : A → Action W B)
      → ((w : W) → Balanced close (handles w) (m w))
      → ((a : A) → Keeps (body a))
      → Keeps (m >>= λ a. deferred (close a) (body a))
  bracket-Keeps m close body b k w =
      continue-Balanced close body (handles w) (m w).0 (m w).1 k (b w)

  pub choice-Keeps :
      {A : Type 0} (b : Bool) (m k : Action W A)
      → Keeps m
      → Keeps k
      → Keeps (λ w. if b then m w else k w)
  choice-Keeps true m k h h' = h
  choice-Keeps false m k h h' = h'

  continue_of-Keeps :
      {A B : Type 0} (w : W) (r : Result A) (w' : W) (f : A → Action W B)
      → handles w' ≡ handles w
      → ((a : A) → r ≡ ok a → handles (f a w').1 ≡ handles w')
      → handles (continue (r, w') f).1 ≡ handles w
  continue_of-Keeps w (ok a) w' f e k = k a refl ∙ e
  continue_of-Keeps w (err x) w' f e k = e

  -- What follows a call knows that it has succeeded.
  pub bind_of-Keeps :
      {A B : Type 0} (m : Action W A) (f : A → Action W B)
      → Keeps m
      → ((a : A) (w w' : W) → m w ≡ (ok a, w') → handles (f a w').1 ≡ handles w')
      → Keeps (m >>= f)
  bind_of-Keeps m f k h w =
      continue_of-Keeps w (m w).0 (m w).1 f (k w) (λ a e. h a w (m w).1 (ap (λ r. (r, (m w).1)) e))
