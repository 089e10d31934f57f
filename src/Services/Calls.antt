-- ===== src/Services/Calls.antt =====
-- Calls that return a result and leave a world behind, which they do after an error too.
use image_optimizer.Prelude.{Bool, true, false, Error, wrap, Result, ok, err}
use image_optimizer.Text.{Bytes}

abbrev pub Action : Type 0 → Type 0 → Type 0
Action W A = W → Result A × W

module _ {W : Type 0} where
  abbrev pub pure : {A : Type 0} → A → Action W A
  pure a w = (ok a, w)

  abbrev pub fail : {A : Type 0} → Error → Action W A
  fail e w = (err e, w)

  -- A result that needs no world.
  abbrev pub lift : {A : Type 0} → Result A → Action W A
  lift r w = (r, w)

  abbrev pub fail_if : Bool → Error → Action W (Unit {0})
  fail_if true e w = (err e, w)
  fail_if false e w = (ok tt, w)

  abbrev pub continue : {A B : Type 0} → Result A × W → (A → Action W B) → Result B × W
  continue (ok a, w) f = f a w
  continue (err e, w) f = (err e, w)

  infixl 5 ◌>>=◌ ◌>>◌
  abbrev pub ◌>>=◌ : {A B : Type 0} → Action W A → (A → Action W B) → Action W B
  ◌>>=◌ m f w = continue (m w) f

  abbrev pub ◌>>◌ : {B : Type 0} → Action W (Unit {0}) → Action W B → Action W B
  m >> k = m >>= λ _. k

  abbrev pub wrapped : {A : Type 0} → Bytes → Result A × W → Result A × W
  wrapped text (ok a, w) = (ok a, w)
  wrapped text (err e, w) = (err (wrap text e), w)

  -- `if err != nil { return fmt.Errorf("context: %w", err) }`
  abbrev pub context : {A : Type 0} → Bytes → Action W A → Action W A
  context text m w = wrapped text (m w)

  -- A change of the world that cannot fail.
  abbrev pub modify : (W → W) → Action W (Unit {0})
  modify f w = (ok tt, f w)

  abbrev pub released : {A : Type 0} → (W → W) → Result A × W → Result A × W
  released f (r, w) = (r, f w)

  -- `defer f()`, before the calls of `body`
  abbrev pub deferred : {A : Type 0} → (W → W) → Action W A → Action W A
  deferred f body w = released f (body w)
