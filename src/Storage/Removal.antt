-- ===== src/Storage/Removal.antt =====
-- The bucket behind a page of deletePrefix in internal/storage/storage.go, and behind the last one.
use image_optimizer.Prelude.{
  ◌≡◌, ◌⊎◌, inl, inr, ◌∙◌, Bool, true, false, Option, none, some, Error, Result, ok, err,
}
use image_optimizer.Text.{Bytes, has_prefix}
use image_optimizer.Storage.Client.{Page, is_set, Fueled}
use image_optimizer.Storage.S3.{Objects}

-- The bucket behind deletePrefix from a token: other keys stand, nothing is made, and after a success no key
-- with the prefix is left that the token has not passed.
pub record IsRemoval (passed : Option Bytes → Bytes → Bool) (prefix : Bytes) (token : Option Bytes)
    (old : Objects) (r : Result (Unit {0})) (new : Objects) : Type 0 where
  pub other : (j : Bytes) → has_prefix prefix j ≡ false → new j ≡ old j
  pub gone : (j : Bytes) → old j ≡ none → new j ≡ none
  pub removed :
      r ≡ ok tt → (j : Bytes) → has_prefix prefix j ≡ true → passed token j ≡ false → new j ≡ none

-- What deletePrefix has done, if it has ended.
abbrev pub IsDone :
    {W : Type 0}
    → (W → Objects)
    → (Option Bytes → Bytes → Bool)
    → Bytes
    → Option Bytes
    → W
    → Fueled W
    → Type 0
IsDone view passed prefix token w none = Unit
IsDone view passed prefix token w (some (r, w')) =
    IsRemoval passed prefix token (view w) r (view w')

module _ (passed : Option Bytes → Bytes → Bool) (prefix : Bytes) where
  -- What one page leaves behind it.
  pub record IsStep (page : Page) (token : Option Bytes) (old new : Objects) : Type 0 where
    pub other : (j : Bytes) → has_prefix prefix j ≡ false → new j ≡ old j
    pub gone : (j : Bytes) → old j ≡ none → new j ≡ none
    pub served :
        (j : Bytes)
        → has_prefix prefix j ≡ true
        → passed token j ≡ false
        → (new j ≡ none) ⊎ ((is_set page.is_truncated ≡ true) × (passed page.next_token j ≡ false))

  pub halted :
      (token : Option Bytes) (old new : Objects) (e : Error)
      → ((j : Bytes) → has_prefix prefix j ≡ false → new j ≡ old j)
      → ((j : Bytes) → old j ≡ none → new j ≡ none)
      → IsRemoval passed prefix token old (err e) new
  halted token old new e other gone = record { other = other; gone = gone; removed = λ h. cc }

  pub stopped :
      (page : Page) (token : Option Bytes) (old new : Objects)
      → is_set page.is_truncated ≡ false
      → IsStep page token old new
      → IsRemoval passed prefix token old (ok tt) new
  stopped page token old new last st = record {
    other = st.other;
    gone = st.gone;
    removed = λ h j p n. elim (st.served j p n) [ inl e ↦ e | inr t ↦ (let k = t.0 in cc) ];
  }

  pub continued :
      (page : Page) (token : Option Bytes) {W : Type 0} (view : W → Objects) (w wm : W)
      (o : Fueled W)
      → IsStep page token (view w) (view wm)
      → IsDone view passed prefix page.next_token wm o
      → IsDone view passed prefix token w o
  continued page token view w wm none st h = tt
  continued page token view w wm (some (r, w')) st h = record {
    other = λ j n. h.other j n ∙ st.other j n;
    gone = λ j n. h.gone j (st.gone j n);
    removed =
        λ e j p n. elim (st.served j p n) [ inl k ↦ h.gone j k | inr t ↦ h.removed e j p t.1 ];
  }
