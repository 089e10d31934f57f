-- ===== src/Storage/Rounds.antt =====
-- deletePrefix of internal/storage/storage.go, page by page.
use mathlib.Core.Option.{none-ne-some}
use image_optimizer.Prelude.{
  ℕ, zero, suc, ◌≡◌, ◌≢◌, ◌⊎◌, inl, inr, refl, sym, ◌∙◌, ap, subst, Bool, true, false, List, [],
  ◌∷◌, Option, none, some, arith, any, Result, ok, err, Option-cases, Bool-cases,
}
use image_optimizer.Text.{Bytes, same, has_prefix}
use image_optimizer.Storage.Client.{
  Page, Storage, page_keys, is_set, is_some, is_nil, Fueled, after_delete, delete_listed,
  after_page, delete_prefix,
}
use image_optimizer.Storage.Removal.{IsDone, IsStep, halted, stopped, continued}
use image_optimizer.Storage.S3.{Objects, listed, IsS3, HasNoKeyErrors}

-- A key that a page names is deleted with it, unless it is empty.
listed-page_keys :
    (c : ℕ) (k : Bytes) (cs : List (Option Bytes))
    → listed (c ∷ k) cs ≡ any (same (c ∷ k)) (page_keys cs)
unfolding page_keys same
listed-page_keys c k [] = refl
listed-page_keys c k (none ∷ cs) = listed-page_keys c k cs
listed-page_keys c k (some [] ∷ cs) = listed-page_keys c k cs
listed-page_keys c k (some (d ∷ j) ∷ cs) = rw (listed-page_keys c k cs) refl

not_in_page :
    (k : Bytes) (cs : List (Option Bytes))
    → listed k cs ≡ false
    → any (same k) (page_keys cs) ≡ false
unfolding page_keys
not_in_page k [] h = refl
not_in_page k (none ∷ cs) h = not_in_page k cs h
not_in_page k (some [] ∷ cs) h = not_in_page k cs (ground arith)
not_in_page k (some (d ∷ j) ∷ cs) h = ground (arith, not_in_page k cs)

module _ {W : Type 0} (s : Storage W) (view : W → Objects) (passed : Option Bytes → Bytes → Bool)
    (left : W → Option Bytes → ℕ) (s3 : IsS3 s view passed left) (c : ℕ) (rest : Bytes) where
  abbrev prefix : Bytes
  prefix = c ∷ rest

  delete_listed-other :
      (ks : List Bytes) (w : W) (j : Bytes)
      → any (same j) ks ≡ false
      → view (delete_listed s ks w).1 j ≡ view w j
  delete_listed-other [] w j n = refl
  delete_listed-other (k ∷ ks) w j n = s3.deletes_other (k ∷ ks) w j n

  delete_listed-none :
      (ks : List Bytes) (w : W) (j : Bytes)
      → view w j ≡ none
      → view (delete_listed s ks w).1 j ≡ none
  delete_listed-none [] w j n = n
  delete_listed-none (k ∷ ks) w j n = s3.deletes_none (k ∷ ks) w j n

  module _ (token : Option Bytes) (w w1 : W) (page : Page)
      (answer : s.client.list_objects s.bucket prefix token w ≡ (ok page, w1)) where
    kept : (j : Bytes) → view w1 j ≡ view w j
    kept j = ap (λ (p : Result Page × W). view p.1 j) (sym answer) ∙ s3.list_keeps prefix token w j

    is_page : (s.client.list_objects s.bucket prefix token w).0 ≡ ok page
    is_page = ap (λ (p : Result Page × W). p.0) answer

    -- A key that is there and not passed is on the page, or behind its next token.
    ahead :
        (j : Bytes)
        → has_prefix prefix j ≡ true
        → passed token j ≡ false
        → view w j ≢ none
        → (listed j page.contents ≡ true)
          ⊎ ((is_set page.is_truncated ≡ true) × (passed page.next_token j ≡ false))
    ahead j p n there = elim (s3.list_complete prefix token w page j is_page p n there) [
      | inl l ↦ inl l
      | inr (t, f) ↦ inr (ap is_set t, f)
    ]

    empty-IsStep : page.contents ≡ [] → IsStep passed prefix page token (view w) (view w1)
    empty-IsStep nothing = record {
      other = λ j n. kept j;
      gone = λ j n. kept j ∙ n;
      served = λ j p n. elim (Option-cases (view w j)) [
        | inl e ↦ inl (kept j ∙ e)
        | inr (v, e) ↦ elim (ahead j p n (λ (no : view w j ≡ none). none-ne-some v (sym no ∙ e))) [
          | inl l ↦ (let k = rw nothing at l in cc)
          | inr t ↦ inr t
        ]
      ];
    }

    unlisted : (j : Bytes) → has_prefix prefix j ≡ false → listed j page.contents ≡ false
    unlisted j n = elim (Bool-cases (listed j page.contents)) [
      | inr e ↦ e
      | inl l ↦ (let k = s3.list_prefix prefix token w page j is_page l in cc)
    ]

    page_keys_deleted :
        HasNoKeyErrors s view
        → (ks : List Bytes) (j : Bytes) → (delete_listed s ks w1).0 ≡ ok tt
        → any (same j) ks ≡ true
        → view (delete_listed s ks w1).1 j ≡ none
    page_keys_deleted clean [] j done l = cc
    page_keys_deleted clean (k ∷ ks) j done l = clean (k ∷ ks) w1 j done l

    abbrev behind : Result (Unit {0}) × W
    behind = delete_listed s (page_keys page.contents) w1

    behind-other : (j : Bytes) → has_prefix prefix j ≡ false → view behind.1 j ≡ view w j
    behind-other j n =
        delete_listed-other (page_keys page.contents) w1 j
          (not_in_page j page.contents (unlisted j n))
        ∙ kept j

    behind-gone : (j : Bytes) → view w j ≡ none → view behind.1 j ≡ none
    behind-gone j n = delete_listed-none (page_keys page.contents) w1 j (kept j ∙ n)

    listed-gone :
        HasNoKeyErrors s view
        → behind.0 ≡ ok tt
        → (j : Bytes) → has_prefix prefix j ≡ true
        → listed j page.contents ≡ true
        → view behind.1 j ≡ none
    unfolding has_prefix
    listed-gone clean done [] p l = cc
    listed-gone clean done (d ∷ j) p l =
        page_keys_deleted clean (page_keys page.contents) (d ∷ j) done
          (sym (listed-page_keys d j page.contents) ∙ l)

    behind-IsStep :
        HasNoKeyErrors s view
        → behind.0 ≡ ok tt
        → IsStep passed prefix page token (view w) (view behind.1)
    behind-IsStep clean done = record {
      other = behind-other;
      gone = behind-gone;
      served = λ j p n. elim (Option-cases (view w j)) [
        | inl e ↦ inl (behind-gone j e)
        | inr (v, e) ↦ elim (ahead j p n (λ (no : view w j ≡ none). none-ne-some v (sym no ∙ e))) [
          | inl l ↦ inl (listed-gone clean done j p l)
          | inr t ↦ inr t
        ]
      ];
    }

    -- The next token of a truncated page is there.
    has_next : is_set page.is_truncated ≡ true → is_some page.next_token ≡ true
    has_next e = elim (Option-cases page.next_token) [
      | inr (t, k) ↦ rw k refl
      | inl k ↦
          absurd ((s3.list_next prefix token w page is_page (truncated page.is_truncated e)).0 k)
    ]
      where
        truncated : (o : Option Bool) → is_set o ≡ true → o ≡ some true
        truncated none e = cc
        truncated (some b) e = ap some e

    module _ (again : Option Bytes → W → Fueled W)
        (ih : (t : Option Bytes) (w : W) → IsDone view passed prefix t w (again t w))
        (clean : HasNoKeyErrors s view) where
      after_delete-IsDone :
          (p : Result (Unit {0}) × W)
          → behind ≡ p
          → IsDone view passed prefix token w (after_delete s again page p)
      unfolding after_delete
      after_delete-IsDone (err e, w2) same_pair =
          halted passed prefix token (view w) (view w2) e
            (λ j n.
              ap (λ (p : Result (Unit {0}) × W). view p.1 j) (sym same_pair) ∙ behind-other j n)
            (λ j n.
              ap (λ (p : Result (Unit {0}) × W). view p.1 j) (sym same_pair) ∙ behind-gone j n)
      after_delete-IsDone (ok t, w2) same_pair =
          let st =
            subst
              (λ (p : Result (Unit {0}) × W). IsStep passed prefix page token (view w) (view p.1))
              same_pair (behind-IsStep clean (ap (λ (p : Result (Unit {0}) × W). p.0) same_pair)) in
          elim (Bool-cases (is_set page.is_truncated)) [
            | inl e ↦
                rw e (continued passed prefix page token view w w2 _ st (ih page.next_token w2))
            | inr e ↦ rw e (stopped passed prefix page token (view w) (view w2) e st)
          ]

      after_page-IsDone : IsDone view passed prefix token w (after_page s again (ok page, w1))
      unfolding after_page
      after_page-IsDone = elim (Bool-cases (is_nil page.contents)) [
        | inr e ↦ rw e (after_delete-IsDone behind refl)
        | inl e ↦
            let st = empty-IsStep (nil_of page.contents e) in
            elim (Bool-cases (is_set page.is_truncated)) [
              | inl t ↦
                  rw (e, t, has_next t)
                    (continued passed prefix page token view w w1 _ st (ih page.next_token w1))
              | inr t ↦ rw (e, t) (stopped passed prefix page token (view w) (view w1) t st)
            ]
      ]
        where
          nil_of : (cs : List (Option Bytes)) → is_nil cs ≡ true → cs ≡ []
          nil_of [] e = refl
          nil_of (x ∷ xs) e = cc

  listing-IsDone :
      (token : Option Bytes) (w : W) (again : Option Bytes → W → Fueled W)
      → ((t : Option Bytes) (w : W) → IsDone view passed prefix t w (again t w))
      → HasNoKeyErrors s view
      → (p : Result Page × W) → s.client.list_objects s.bucket prefix token w ≡ p
      → IsDone view passed prefix token w (after_page s again p)
  listing-IsDone token w again ih clean (ok page, w1) e =
      after_page-IsDone token w w1 page e again ih clean
  listing-IsDone token w again ih clean (err x, w1) e =
      unfold after_page in
      halted passed prefix token (view w) (view w1) x (λ j n. same_objects j)
        (λ j n. same_objects j ∙ n)
    where
      same_objects : (j : Bytes) → view w1 j ≡ view w j
      same_objects j =
          ap (λ (p : Result Page × W). view p.1 j) (sym e) ∙ s3.list_keeps prefix token w j

  -- Whatever the fuel, where DeleteObjects reports no error for a key.
  pub delete_prefix-IsDone :
      HasNoKeyErrors s view
      → (fuel : ℕ) (token : Option Bytes) (w : W)
      → IsDone view passed prefix token w (delete_prefix s fuel prefix token w)
  unfolding delete_prefix
  delete_prefix-IsDone clean zero token w = tt
  delete_prefix-IsDone clean (suc fuel) token w =
      listing-IsDone token w (delete_prefix s fuel prefix) (delete_prefix-IsDone clean fuel) clean
        (s.client.list_objects s.bucket prefix token w) refl
