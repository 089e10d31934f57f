-- ===== src/Storage/Pages.antt =====
-- The fuel of deletePrefix in internal/storage/storage.go.
use image_optimizer.Prelude.{
  ℕ, zero, suc, ◌≡◌, ◌≤◌, ◌<◌, inl, inr, refl, ap, Bool, true, List, [], ◌∷◌, Option, none, some,
  arith, Result, ok, err, Bool-cases,
}
use image_optimizer.Text.{Bytes}
use image_optimizer.Storage.Client.{
  Page, Storage, page_keys, is_set, is_some, is_nil, Fueled, after_delete, delete_listed,
  after_page, delete_prefix,
}
use image_optimizer.Storage.S3.{Objects, IsS3}

-- It has not run out of fuel.
abbrev pub HasEnded : {W : Type 0} → Fueled W → Type 0
HasEnded none = ⊥
HasEnded (some r) = Unit

module _ {W : Type 0} (s : Storage W) (view : W → Objects) (passed : Option Bytes → Bytes → Bool)
    (left : W → Option Bytes → ℕ) (s3 : IsS3 s view passed left) (prefix : Bytes) where
  delete_listed-left :
      (ks : List Bytes) (w : W) (t : Option Bytes) → left (delete_listed s ks w).1 t ≤ left w t
  delete_listed-left [] w t = omega arith
  delete_listed-left (k ∷ ks) w t = s3.deletes_left (k ∷ ks) w t

  module _ (token : Option Bytes) (w : W) (again : Option Bytes → W → Fueled W)
      (ih : (t : Option Bytes) (w' : W) → left w' t < left w token → HasEnded (again t w')) where
    module _ (page : Page) (w1 : W)
        (answer : s.client.list_objects s.bucket prefix token w ≡ (ok page, w1)) where
      moves_on : is_set page.is_truncated ≡ true → left w1 page.next_token < left w token
      moves_on e =
          let on =
            (s3.list_next prefix token w page (ap (λ (p : Result Page × W). p.0) answer)
              (truncated page.is_truncated e)).1 in
          let same_world = ap (λ (p : Result Page × W). left p.1 page.next_token) answer in
          omega (arith, on, same_world)
        where
          truncated : (o : Option Bool) → is_set o ≡ true → o ≡ some true
          truncated none e = cc
          truncated (some b) e = ap some e

      after_delete-HasEnded :
          (p : Result (Unit {0}) × W)
          → left p.1 page.next_token ≤ left w1 page.next_token
          → HasEnded (after_delete s again page p)
      unfolding after_delete
      after_delete-HasEnded (err e, w2) h = tt
      after_delete-HasEnded (ok t, w2) h = elim (Bool-cases (is_set page.is_truncated)) [
        | inl e ↦ let on = moves_on e in rw e (ih page.next_token w2 (omega arith))
        | inr e ↦ rw e tt
      ]

      after_ok-HasEnded : HasEnded (after_page s again (ok page, w1))
      unfolding after_page
      after_ok-HasEnded = elim (Bool-cases (is_nil page.contents)) [
        | inr e ↦ rw e (
            after_delete-HasEnded (delete_listed s (page_keys page.contents) w1)
              (delete_listed-left (page_keys page.contents) w1 page.next_token))
        | inl e ↦ elim (Bool-cases (is_set page.is_truncated)) [
          | inr t ↦ rw (e, t) tt
          | inl t ↦ elim (Bool-cases (is_some page.next_token)) [
            | inl k ↦ rw (e, t, k) (ih page.next_token w1 (moves_on t))
            | inr k ↦ rw (e, t, k) tt
          ]
        ]
      ]

    after_page-HasEnded :
        (p : Result Page × W)
        → s.client.list_objects s.bucket prefix token w ≡ p
        → HasEnded (after_page s again p)
    after_page-HasEnded (ok page, w1) e = after_ok-HasEnded page w1 e
    after_page-HasEnded (err x, w1) e = unfold after_page in tt

  -- One unit of fuel for every page that can follow, and one more.
  pub delete_prefix-HasEnded :
      (fuel : ℕ) (token : Option Bytes) (w : W)
      → left w token < fuel
      → HasEnded (delete_prefix s fuel prefix token w)
  unfolding delete_prefix
  delete_prefix-HasEnded zero token w h = absurd (omega arith)
  delete_prefix-HasEnded (suc fuel) token w h =
      after_page-HasEnded token w (delete_prefix s fuel prefix)
        (λ t w' k. delete_prefix-HasEnded fuel t w' (omega arith))
        (s.client.list_objects s.bucket prefix token w) refl
