-- ===== src/Text/Laws.antt =====
-- Laws of the string functions.
use image_optimizer.Prelude.{ℕ, ◌≡◌, ◌↔◌, refl, true, false, [], ◌∷◌, ◌++◌, arith}
use image_optimizer.Text.{Bytes, same, has_prefix, contains, Lacks}

pub same_refl : (s : Bytes) → same s s ≡ true
unfolding same
same_refl [] = refl
same_refl (c ∷ s) = ground (arith, same_refl s)

eq_of_same : (s t : Bytes) → same s t ≡ true → s ≡ t
unfolding same
eq_of_same [] [] h = refl
eq_of_same [] (d ∷ t) h = cc
eq_of_same (c ∷ s) [] h = cc
eq_of_same (c ∷ s) (d ∷ t) h = ground (arith, eq_of_same s t)

pub same_iff : (s t : Bytes) → (same s t ≡ true) ↔ (s ≡ t)
same_iff s t = (eq_of_same s t, λ e. rw e (same_refl t))

pub has_prefix-append : (p s : Bytes) → has_prefix p (p ++ s) ≡ true
unfolding has_prefix
has_prefix-append [] s = refl
has_prefix-append (c ∷ p) s = ground (arith, has_prefix-append p s)

-- A text of one byte is contained exactly if the byte occurs.
pub Lacks-of_contains : (b : ℕ) (s : Bytes) → contains (b ∷ []) s ≡ false → Lacks b s
unfolding contains
Lacks-of_contains b [] h = tt
Lacks-of_contains b (c ∷ s) h = (ground arith, Lacks-of_contains b s (ground arith))
