-- ===== src/Folder/Kinds.antt =====
-- The media kinds that the layout expressions of internal/folder/folder.go ask for.
use image_optimizer.Prelude.{
  codes, ◌≡◌, ◌⊎◌, inl, inr, refl, true, ◌||◌, List, [], ◌∷◌, ◌++◌, arith, any, All, All-map,
}
use image_optimizer.Text.{Bytes, slash, is_digit, Lacks}
use image_optimizer.Text.Split.{split, split-append, split_of_Lacks}
use image_optimizer.Text.Contains.{rest_of}
use image_optimizer.Text.Regex.{match_string, match_string_sound, InLanguage, either}
use image_optimizer.Folder.{
  catalog, avatars, legacy_kind_seg, shop_kind_pattern, theme_pattern, panel_pattern, is_safe_byte,
}

abbrev pub IsKind : Bytes → Type 0
IsKind p =
    (p ≡ codes "catalog") ⊎ (p ≡ codes "avatars") ⊎ (p ≡ codes "themes") ⊎ (p ≡ codes "admins")

abbrev pub HasKind : List Bytes → Type 0
HasKind [] = ⊥
HasKind (p ∷ ps) = IsKind p ⊎ HasKind ps

IsKind-sound : (p : Bytes) → match_string legacy_kind_seg p ≡ true → IsKind p
IsKind-sound p h = match_string_sound legacy_kind_seg p h

kind_complete : (p : Bytes) → IsKind p → match_string legacy_kind_seg p ≡ true
unfolding match_string
kind_complete p (inl e) = rw e refl
kind_complete p (inr (inl e)) = rw e refl
kind_complete p (inr (inr (inl e))) = rw e refl
kind_complete p (inr (inr (inr e))) = rw e refl

pub HasKind-any : (ps : List Bytes) → any (match_string legacy_kind_seg) ps ≡ true → HasKind ps
HasKind-any [] h = cc
HasKind-any (p ∷ ps) h = ground (arith, IsKind-sound p, HasKind-any ps)

pub any_of_HasKind : (ps : List Bytes) → HasKind ps → any (match_string legacy_kind_seg) ps ≡ true
any_of_HasKind [] h = absurd h
any_of_HasKind (p ∷ ps) h = ground (arith, kind_complete p, any_of_HasKind ps)

digits-Lacks : (n : Bytes) → All (λ c. is_digit c ≡ true) n → Lacks slash n
digits-Lacks n h = All-map (λ c e. ground arith) n h

safe-Lacks : (n : Bytes) → All (λ c. is_safe_byte c ≡ true) n → Lacks slash n
safe-Lacks n h = All-map (λ c e. ground arith) n h

-- A folder below a first element and one more has a known kind if the rest has one.
layout-HasKind :
    (n k : Bytes)
    → Lacks slash n
    → HasKind (split slash k)
    → HasKind (rest_of (split slash (codes "storely" ++ (slash ∷ (n ++ (slash ∷ k))))))
layout-HasKind n k hn hk =
    rw
      (
        split-append slash (codes "storely") (n ++ (slash ∷ k)) (omega arith),
        split-append slash n k hn,
      )
      (inr hk)

alone-HasKind : (k : Bytes) → Lacks slash k → IsKind k → HasKind (split slash k)
alone-HasKind k l h = rw (split_of_Lacks slash k l) (inl h)

first-HasKind : (k m : Bytes) → Lacks slash k → IsKind k → HasKind (split slash (k ++ (slash ∷ m)))
first-HasKind k m l h = rw (split-append slash k m l) (inl h)

shop_kind-HasKind : (k : Bytes) → InLanguage (either catalog avatars) k → HasKind (split slash k)
shop_kind-HasKind k (inl e) = rw e (alone-HasKind (codes "catalog") (omega arith) (inl refl))
shop_kind-HasKind k (inr e) = rw e (alone-HasKind (codes "avatars") (omega arith) (inr (inl refl)))

shop-HasKind : (f : Bytes) → InLanguage shop_kind_pattern f → HasKind (rest_of (split slash f))
shop-HasKind f (a, b, ea, (n, t, (_, hn), (x, k, ex, hk, et), eb), ef) =
    rw (ef, ea, eb, et, ex) (layout-HasKind n k (digits-Lacks n hn) (shop_kind-HasKind k hk))

theme-HasKind : (f : Bytes) → InLanguage theme_pattern f → HasKind (rest_of (split slash f))
theme-HasKind f (a, b, ea, (n, t, (_, hn), (x, m, ex, hm, et), eb), ef) =
    rw (ef, ea, eb, et, ex)
      (layout-HasKind n (codes "themes" ++ (slash ∷ m)) (digits-Lacks n hn)
        (first-HasKind (codes "themes") m (omega arith) (inr (inr (inl refl)))))

panel-HasKind : (f : Bytes) → InLanguage panel_pattern f → HasKind (rest_of (split slash f))
panel-HasKind f (a, n, ea, hn, ef) =
    rw (ef, ea)
      (layout-HasKind (codes "panel") (codes "admins" ++ (slash ∷ n)) (omega arith)
        (first-HasKind (codes "admins") n (omega arith) (inr (inr (inr refl)))))

-- A folder that one of the three layout expressions matches has an element behind its first one that
-- is catalog, avatars, themes or admins, so the three tests accept nothing that the last check would
-- refuse.
pub layouts-HasKind :
    (f : Bytes)
    → (match_string shop_kind_pattern f
        || match_string theme_pattern f
        || match_string panel_pattern f)
      ≡ true
    → HasKind (rest_of (split slash f))
layouts-HasKind f h = ground (
  arith,
  λ (e : match_string shop_kind_pattern f ≡ true).
      shop-HasKind f (match_string_sound shop_kind_pattern f e),
  λ (e : match_string theme_pattern f ≡ true).
      theme-HasKind f (match_string_sound theme_pattern f e),
  λ (e : match_string panel_pattern f ≡ true).
      panel-HasKind f (match_string_sound panel_pattern f e),
)
