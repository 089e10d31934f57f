-- ===== src/Storage/S3.antt =====
-- What internal/storage/storage.go relies on in S3: the documented behaviour of the calls of the SDK.
use image_optimizer.Prelude.{
  ℕ, ◌≡◌, ◌≢◌, ◌≤◌, ◌<◌, ◌⊎◌, Bool, true, false, List, Option, none, some, any, ok,
}
use image_optimizer.Text.{Bytes, same, has_prefix}
use image_optimizer.Storage.Client.{Page, Storage}

-- The objects of the bucket, by their keys.
abbrev pub Objects : Type 0
Objects = Bytes → Option Bytes

-- A page names the key.
abbrev pub is_key : Bytes → Option Bytes → Bool
is_key k none = false
is_key k (some j) = same k j

abbrev pub listed : Bytes → List (Option Bytes) → Bool
listed k contents = any (is_key k) contents

-- `view` is the bucket, `passed` tells which keys a token has left behind, and `left` bounds the pages from
-- a token on. A call that fails may have run. Keys are listed in order, so that a page holds every key between
-- its token and the next one; a truncated page has a next token, which is further on.
pub record IsS3 {W : Type 0} (s : Storage W) (view : W → Objects)
    (passed : Option Bytes → Bytes → Bool) (left : W → Option Bytes → ℕ) : Type 0 where
  pub put_ok :
      (k v : Bytes) (w : W)
      → (s.client.put_object s.bucket k v w).0 ≡ ok tt
      → view (s.client.put_object s.bucket k v w).1 k ≡ some v
  pub put_other :
      (k v : Bytes) (w : W) (j : Bytes)
      → j ≢ k
      → view (s.client.put_object s.bucket k v w).1 j ≡ view w j
  pub get_ok :
      (k v : Bytes) (size : Option ℕ) (w : W)
      → (s.client.get_object s.bucket k w).0 ≡ ok (v, size)
      → view w k ≡ some v
  pub get_keeps :
      (k : Bytes) (w : W) (j : Bytes) → view (s.client.get_object s.bucket k w).1 j ≡ view w j
  pub delete_ok :
      (k : Bytes) (w : W)
      → (s.client.delete_object s.bucket k w).0 ≡ ok tt
      → view (s.client.delete_object s.bucket k w).1 k ≡ none
  pub delete_other :
      (k : Bytes) (w : W) (j : Bytes)
      → j ≢ k
      → view (s.client.delete_object s.bucket k w).1 j ≡ view w j
  pub delete_left :
      (k : Bytes) (w : W) (t : Option Bytes)
      → left (s.client.delete_object s.bucket k w).1 t ≤ left w t
  pub deletes_other :
      (ks : List Bytes) (w : W) (j : Bytes)
      → any (same j) ks ≡ false
      → view (s.client.delete_objects s.bucket ks w).1 j ≡ view w j
  pub deletes_none :
      (ks : List Bytes) (w : W) (j : Bytes)
      → view w j ≡ none
      → view (s.client.delete_objects s.bucket ks w).1 j ≡ none
  pub deletes_left :
      (ks : List Bytes) (w : W) (t : Option Bytes)
      → left (s.client.delete_objects s.bucket ks w).1 t ≤ left w t
  pub list_keeps :
      (p : Bytes) (t : Option Bytes) (w : W) (j : Bytes)
      → view (s.client.list_objects s.bucket p t w).1 j ≡ view w j
  pub list_prefix :
      (p : Bytes) (t : Option Bytes) (w : W) (page : Page) (j : Bytes)
      → (s.client.list_objects s.bucket p t w).0 ≡ ok page
      → listed j page.contents ≡ true
      → has_prefix p j ≡ true
  pub list_complete :
      (p : Bytes) (t : Option Bytes) (w : W) (page : Page) (j : Bytes)
      → (s.client.list_objects s.bucket p t w).0 ≡ ok page
      → has_prefix p j ≡ true
      → passed t j ≡ false
      → view w j ≢ none
      → (listed j page.contents ≡ true)
        ⊎ ((page.is_truncated ≡ some true) × (passed page.next_token j ≡ false))
  pub list_next :
      (p : Bytes) (t : Option Bytes) (w : W) (page : Page)
      → (s.client.list_objects s.bucket p t w).0 ≡ ok page
      → page.is_truncated ≡ some true
      → (page.next_token ≢ none)
        × (left (s.client.list_objects s.bucket p t w).1 page.next_token < left w t)
  pub list_start : (j : Bytes) → passed none j ≡ false

-- DeleteObjects has deleted every key: its output, which the program does not read, reports no error.
abbrev pub HasNoKeyErrors : {W : Type 0} → Storage W → (W → Objects) → Type 0
HasNoKeyErrors {W} s view =
    (ks : List Bytes) (w : W) (j : Bytes)
    → (s.client.delete_objects s.bucket ks w).0 ≡ ok tt
    → any (same j) ks ≡ true
    → view (s.client.delete_objects s.bucket ks w).1 j ≡ none
