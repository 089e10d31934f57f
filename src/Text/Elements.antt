-- ===== src/Text/Elements.antt =====
-- Which elements a cleaned path has, and which paths path.Clean leaves as they are.
use mathlib.Core.List.{reverse-cons, cons-ne-nil}
use image_optimizer.Prelude.{
  ◌≡◌, ◌≢◌, refl, sym, Bool, true, false, List, [], ◌∷◌, ◌++◌, reverse, any, All, All-reverse,
  arith, append-nil, append_assoc, ◌≡⟨◌⟩◌, ◌∎, ap,
}
use image_optimizer.Text.{Bytes, same, is_empty, has_prefix, slash, Lacks}
use image_optimizer.Text.Laws.{same_iff}
use image_optimizer.Text.Split.{split, join, split-Lacks, split-join}
use image_optimizer.Text.Clean.{
  one_dot, two_dots, back, resolve, resolve_all, elements, or_dot, clean,
}

-- The name of a file or directory: not empty, no dot or two dots, no slash.
abbrev pub IsName : Bytes → Type 0
IsName p = (p ≢ []) × (p ≢ one_dot) × (p ≢ two_dots) × Lacks slash p

is_empty-ne : (p : Bytes) → is_empty p ≡ false → p ≢ []
unfolding is_empty
is_empty-ne [] h = cc
is_empty-ne (c ∷ p) h = cons-ne-nil _ _

back-IsName : (stack : List Bytes) → All IsName stack → All IsName (back true stack)
unfolding back
back-IsName [] h = tt
back-IsName (top ∷ stack) (n, h) = ground (arith, same_iff top two_dots)

resolve-IsName :
    (stack : List Bytes) (p : Bytes)
    → All IsName stack
    → Lacks slash p
    → All IsName (resolve true stack p)
unfolding resolve
resolve-IsName stack p h l =
    ground (arith, back-IsName stack h, is_empty-ne p, same_iff p one_dot, same_iff p two_dots)

resolve_all-IsName :
    (stack ps : List Bytes)
    → All IsName stack
    → All (Lacks slash) ps
    → All IsName (resolve_all true stack ps)
unfolding resolve_all
resolve_all-IsName stack [] h l = All-reverse IsName stack h
resolve_all-IsName stack (p ∷ ps) h (l, ls) =
    resolve_all-IsName (resolve true stack p) ps (resolve-IsName stack p h l) ls

has_prefix-slash : (s : Bytes) → has_prefix (slash ∷ []) (slash ∷ s) ≡ true
unfolding has_prefix
has_prefix-slash s = refl

-- Every element of a rooted path that was cleaned is a name.
pub elements-IsName : (s : Bytes) → All IsName (elements (slash ∷ s))
unfolding elements
elements-IsName s =
    resolve_all-IsName [] (split slash (slash ∷ s)) tt (split-Lacks slash (slash ∷ s))

resolve_of_IsName :
    (rooted : Bool) (stack : List Bytes) (p : Bytes) → IsName p → resolve rooted stack p ≡ p ∷ stack
unfolding resolve is_empty
resolve_of_IsName rooted stack [] n = absurd (n.0 refl)
resolve_of_IsName rooted stack (c ∷ p) n =
    ground (arith, same_iff (c ∷ p) one_dot, same_iff (c ∷ p) two_dots)

resolve_all_of_IsName :
    (rooted : Bool) (stack ps : List Bytes)
    → All IsName ps
    → resolve_all rooted stack ps ≡ reverse stack ++ ps
unfolding resolve_all
resolve_all_of_IsName rooted stack [] h = sym (append-nil _)
resolve_all_of_IsName rooted stack (p ∷ ps) (n, h) =
    resolve_all rooted (resolve rooted stack p) ps
    ≡⟨ ap (λ t. resolve_all rooted t ps) (resolve_of_IsName rooted stack p n) ⟩
      resolve_all rooted (p ∷ stack) ps
    ≡⟨ resolve_all_of_IsName rooted (p ∷ stack) ps h ⟩ reverse (p ∷ stack) ++ ps
    ≡⟨ (simp (reverse-cons, append_assoc)) ⟩ reverse stack ++ p ∷ ps ∎

IsName-Lacks : (ps : List Bytes) → All IsName ps → All (Lacks slash) ps
IsName-Lacks [] h = tt
IsName-Lacks (p ∷ ps) (n, h) = (n.3, IsName-Lacks ps h)

-- A text that begins with a name is not empty and does not begin with a slash.
join-has_prefix :
    (p : Bytes) (ps : List Bytes) → IsName p → has_prefix (slash ∷ []) (join slash (p ∷ ps)) ≡ false
unfolding has_prefix join
join-has_prefix [] ps n = absurd (n.0 refl)
join-has_prefix (c ∷ p) [] n = ground arith
join-has_prefix (c ∷ p) (q ∷ ps) n = ground arith

or_dot-join :
    (p : Bytes) (ps : List Bytes) → IsName p → or_dot (join slash (p ∷ ps)) ≡ join slash (p ∷ ps)
unfolding or_dot join
or_dot-join [] ps n = absurd (n.0 refl)
or_dot-join (c ∷ p) [] n = refl
or_dot-join (c ∷ p) (q ∷ ps) n = refl

elements-join_relative :
    (p : Bytes) (ps : List Bytes) → All IsName (p ∷ ps) → elements (join slash (p ∷ ps)) ≡ p ∷ ps
unfolding elements
elements-join_relative p ps h =
    rw
      (
        join-has_prefix p ps h.0,
        split-join slash (p ∷ ps) (cons-ne-nil _ _) (IsName-Lacks (p ∷ ps) h),
      )
      (resolve_all_of_IsName false [] (p ∷ ps) h)

-- A relative path of names is clean.
pub clean-join :
    (p : Bytes) (ps : List Bytes)
    → All IsName (p ∷ ps)
    → clean (join slash (p ∷ ps)) ≡ join slash (p ∷ ps)
unfolding clean
clean-join p ps h =
    rw (join-has_prefix p ps h.0, elements-join_relative p ps h) (or_dot-join p ps h.0)

elements_rooted : (s : Bytes) → elements (slash ∷ s) ≡ resolve_all true [] (split slash s)
unfolding elements
elements_rooted s = refl

-- Below the root a path of names keeps its elements.
pub elements-join :
    (p : Bytes) (ps : List Bytes)
    → All IsName (p ∷ ps)
    → elements (slash ∷ join slash (p ∷ ps)) ≡ p ∷ ps
elements-join p ps h =
    rw (elements_rooted, split-join slash (p ∷ ps) (cons-ne-nil _ _) (IsName-Lacks (p ∷ ps) h))
      (resolve_all_of_IsName true [] (p ∷ ps) h)

-- A cleaned rooted path is a slash and its elements, joined.
pub clean_rooted : (s : Bytes) → clean (slash ∷ s) ≡ slash ∷ join slash (elements (slash ∷ s))
unfolding clean
clean_rooted s = rw (has_prefix-slash s)

pub no_part : (w : Bytes) (ps : List Bytes) → All (λ p. w ≢ p) ps → any (same w) ps ≡ false
no_part w [] h = refl
no_part w (p ∷ ps) (n, h) = ground (arith, same_iff w p, no_part w ps h)

module _ (Q : Bytes → Type 0) (dots : Q two_dots) where
  back-All : (stack : List Bytes) → All Q stack → All Q (back true stack)
  unfolding back
  back-All [] h = tt
  back-All (top ∷ stack) h = ground arith

  resolve_all-All :
      (stack ps : List Bytes) → All Q stack → All Q ps → All Q (resolve_all true stack ps)
  unfolding resolve_all
  resolve_all-All stack [] h l = All-reverse Q stack h
  resolve_all-All stack (p ∷ ps) h (l, ls) =
      resolve_all-All (resolve true stack p) ps (unfold resolve in ground (arith, back-All stack h))
        ls

  -- What holds of the parts of a path, and of two dots, holds of its cleaned elements.
  pub elements-All : (s : Bytes) → All Q (split slash s) → All Q (elements (slash ∷ s))
  elements-All s h = rw elements_rooted (resolve_all-All [] (split slash s) tt h)
