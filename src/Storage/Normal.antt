-- ===== src/Storage/Normal.antt =====
-- What normalizeKey accepts and returns.
use mathlib.Core.List.{cons-ne-nil}
use image_optimizer.Prelude.{
  ℕ, ◌≡◌, ◌≢◌, inl, inr, refl, sym, ◌∙◌, ap, subst, false, List, [], ◌∷◌, ◌++◌, arith, ◌==◌, All,
  All-map, All-append, ok, Bool-cases,
}
use image_optimizer.Text.{
  Bytes, same, is_empty, has_prefix, contains, replace_byte, trim_byte_prefix, slash, backslash,
  Lacks,
}
use image_optimizer.Text.Laws.{same_iff}
use image_optimizer.Text.Split.{split, extend, join, join-split, split-join, split-ne-nil}
use image_optimizer.Text.Clean.{elements, one_dot, two_dots}
use image_optimizer.Text.Elements.{
  IsName, elements-IsName, elements-join, elements-All, clean_rooted, no_part,
}
use image_optimizer.Text.Contains.{contains_of_parts}
use image_optimizer.Text.Trim.{replace-Lacks, replace_of_Lacks}
use image_optimizer.Storage.Keys.{key_of, normalize_key}

-- A relative path of names with no backslash that does not begin with two dots.
abbrev pub IsKey : Bytes → Type 0
IsKey key = All IsName (split slash key) × Lacks backslash key × (has_prefix two_dots key ≡ false)

key_of-elements :
    (s : Bytes) → key_of s ≡ join slash (elements (slash ∷ replace_byte backslash slash s))
unfolding key_of trim_byte_prefix
key_of-elements s = rw (clean_rooted (replace_byte backslash slash s)) refl

extend-All :
    (Q : ℕ → Type 0) (c : ℕ) (ps : List Bytes) → Q c → All (All Q) ps → All (All Q) (extend c ps)
unfolding extend
extend-All Q c [] q h = ((q, tt), tt)
extend-All Q c (p ∷ ps) q (hp, h) = ((q, hp), h)

split-All : (Q : ℕ → Type 0) (s : Bytes) → All Q s → All (All Q) (split slash s)
unfolding split
split-All Q [] h = (tt, tt)
split-All Q (c ∷ s) (q, h) = elim (Bool-cases (c == slash)) [
  | inl e ↦ rw e (tt, split-All Q s h)
  | inr e ↦ rw e (extend-All Q c (split slash s) q (split-All Q s h))
]

pub join-All : (Q : ℕ → Type 0) (ps : List Bytes) → Q slash → All (All Q) ps → All Q (join slash ps)
unfolding join
join-All Q [] q h = tt
join-All Q (p ∷ []) q h = h.0
join-All Q (p ∷ p' ∷ ps) q (hp, h) = All-append Q p _ hp (q, join-All Q (p' ∷ ps) q h)

-- Nothing is left of a path with no element.
key-empty : (ps : List Bytes) → is_empty (join slash ps) ≡ false → ps ≢ []
unfolding is_empty join
key-empty [] h = cc
key-empty (p ∷ ps) h = cons-ne-nil _ _

accepted :
    (rel_path key : Bytes)
    → normalize_key rel_path ≡ ok key
    → (key ≡ key_of rel_path) × (is_empty key ≡ false) × (has_prefix two_dots key ≡ false)
unfolding normalize_key
accepted rel_path key h = ground arith

names_split : (ps : List Bytes) → ps ≢ [] → All IsName ps → split slash (join slash ps) ≡ ps
names_split ps n h = split-join slash ps n (All-map (λ p e. e.3) ps h)

-- Whatever the path, a key that normalizeKey returns has no empty, dot or dot-dot element, no
-- backslash and no two leading dots.
pub normalize_key-IsKey : (rel_path key : Bytes) → normalize_key rel_path ≡ ok key → IsKey key
normalize_key-IsKey rel_path key h =
    let (e, filled, undotted) = accepted rel_path key h in
    let flat = replace_byte backslash slash rel_path in
    let ps = elements (slash ∷ flat) in
    let whole : key ≡ join slash ps = e ∙ key_of-elements rel_path in
    let some_part = key-empty ps (subst (λ k. is_empty k ≡ false) whole filled) in
    let parts : split slash key ≡ ps =
      ap (split slash) whole ∙ names_split ps some_part (elements-IsName flat) in
    let clean-parts =
      elements-All (Lacks backslash) (omega arith) flat
        (split-All _ flat (replace-Lacks backslash slash rel_path (omega arith))) in
    (
      subst (All IsName) (sym parts) (elements-IsName flat),
      subst (Lacks backslash) (sym whole) (join-All _ ps (omega arith) clean-parts),
      undotted,
    )

join-one_dot : (ps : List Bytes) → ps ≢ [] → All IsName ps → same (join slash ps) one_dot ≡ false
unfolding split extend
join-one_dot ps n h = elim (Bool-cases (same (join slash ps) one_dot)) [
  | inr e ↦ e
  | inl e ↦
      absurd (dot_part ps h (sym (names_split ps n h) ∙ ap (split slash) ((same_iff _ _).0 e)))
]
  where
    dot_part : (ps : List Bytes) → All IsName ps → ps ≡ one_dot ∷ [] → ⊥
    dot_part [] h e = cc
    dot_part (p ∷ ps) h e = h.0.1 (cc)

key_parts : (key : Bytes) → IsKey key → elements (slash ∷ key) ≡ split slash key
key_parts key h = go (split slash key) refl
  where
    go : (ps : List Bytes) → split slash key ≡ ps → elements (slash ∷ key) ≡ ps
    go [] e = absurd (split-ne-nil slash key e)
    go (p ∷ ps) e =
        let whole : key ≡ join slash (p ∷ ps) = sym (join-split slash key) ∙ ap (join slash) e in
        rw whole (elements-join p ps (subst (All IsName) e h.0))

key_of-IsKey : (key : Bytes) → IsKey key → key_of key ≡ key
key_of-IsKey key h =
    key_of-elements key
    ∙ ap (λ k. join slash (elements (slash ∷ k))) (replace_of_Lacks backslash slash key h.1)
    ∙ ap (join slash) (key_parts key h)
    ∙ join-split slash key

IsKey-not_empty : (key : Bytes) → IsKey key → is_empty key ≡ false
unfolding is_empty split
IsKey-not_empty [] h = absurd (h.0.0.0 refl)
IsKey-not_empty (c ∷ key) h = refl

IsKey-not_dot : (key : Bytes) → IsKey key → same key one_dot ≡ false
IsKey-not_dot key h =
    subst (λ k. same k one_dot ≡ false) (join-split slash key)
      (join-one_dot (split slash key) (split-ne-nil slash key) h.0)

IsKey-no_dots :
    (key : Bytes) → IsKey key → contains (slash ∷ (two_dots ++ (slash ∷ []))) key ≡ false
IsKey-no_dots key h =
    contains_of_parts slash two_dots (omega arith) key
      (no_part two_dots (split slash key) (All-map (λ p n e. n.2 (sym e)) (split slash key) h.0))

-- A key without empty, dot and dot-dot elements, without backslashes and without two leading dots is
-- returned by normalizeKey unchanged.
pub normalize_key_of_IsKey : (key : Bytes) → IsKey key → normalize_key key ≡ ok key
unfolding normalize_key
normalize_key_of_IsKey key h =
    rw (key_of-IsKey key h, IsKey-not_empty key h, IsKey-not_dot key h, h.2, IsKey-no_dots key h)
      refl
