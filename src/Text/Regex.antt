-- ===== src/Text/Regex.antt =====
-- The anchored regular expressions of the program, package regexp's syntax as data: a matcher that
-- returns every remainder of the text, and the language of a pattern.
use mathlib.Core.List.{cons-ne-nil}
use image_optimizer.Prelude.{
  ℕ, ◌≡◌, ◌≢◌, refl, ◌⊎◌, inl, inr, Bool, true, List, [], ◌∷◌, ◌++◌, ◌==◌, if◌then◌else◌, any, All,
  All-append, All-map, append_assoc, append-nil, Bool-cases, ==_iff, subst, sym, ◌∙◌,
}
use image_optimizer.Text.{Bytes, is_empty}

pub data Pattern : Type 0 where
  literal : Bytes → Pattern
  one_or_more : (ℕ → Bool) → Pattern
  either : Pattern → Pattern → Pattern
  followed_by : Pattern → Pattern → Pattern

-- What is left of the text behind a literal, if it begins with it.
unfoldable pub behind : Bytes → Bytes → List Bytes
behind [] s = s ∷ []
behind (p ∷ ps) [] = []
behind (p ∷ ps) (c ∷ s) = let rest = behind ps s in if p == c then rest else []

unfoldable pub runs : (ℕ → Bool) → Bytes → List Bytes
runs p [] = []
runs p (c ∷ s) = let rest = runs p s in if p c then s ∷ rest else []

unfoldable pub each : (Bytes → List Bytes) → List Bytes → List Bytes
each f [] = []
each f (s ∷ ss) = f s ++ each f ss

unfoldable pub remainders : Pattern → Bytes → List Bytes
unfolding behind runs each
remainders (literal w) s = behind w s
remainders (one_or_more p) s = runs p s
remainders (either p q) s = remainders p s ++ remainders q s
remainders (followed_by p q) s = each (remainders q) (remainders p s)

-- MatchString of `^p$`
unfoldable pub match_string : Pattern → Bytes → Bool
unfolding remainders is_empty
match_string p s = any is_empty (remainders p s)

abbrev pub InLanguage : Pattern → Bytes → Type 0
InLanguage (literal w) t = t ≡ w
InLanguage (one_or_more p) t = (t ≢ []) × All (λ c. p c ≡ true) t
InLanguage (either p q) t = InLanguage p t ⊎ InLanguage q t
InLanguage (followed_by p q) t =
    (a : Bytes) × (b : Bytes) × InLanguage p a × InLanguage q b × (t ≡ a ++ b)

-- `r` is what is left of `s` behind a text of the pattern.
abbrev Leaves : Pattern → Bytes → Bytes → Type 0
Leaves p s r = (t : Bytes) × InLanguage p t × (s ≡ t ++ r)

literal_cons :
    (p c : ℕ) (ps s r : Bytes)
    → p ≡ c
    → Leaves (literal ps) s r
    → Leaves (literal (p ∷ ps)) (c ∷ s) r
literal_cons p c ps s r e (t, same, cut) = (p ∷ ps, refl, cc)

behind_sound : (w s : Bytes) → All (Leaves (literal w) s) (behind w s)
unfolding behind
behind_sound [] s = (([], refl, refl), tt)
behind_sound (p ∷ ps) [] = tt
behind_sound (p ∷ ps) (c ∷ s) = elim (Bool-cases (p == c)) [
  | inl e ↦ rw e (
      All-map (λ r l. literal_cons p c ps s r ((==_iff p c).0 e) l) (behind ps s)
        (behind_sound ps s))
  | inr e ↦ rw e tt
]

run_cons :
    (p : ℕ → Bool) (c : ℕ) (s r : Bytes)
    → p c ≡ true
    → Leaves (one_or_more p) s r
    → Leaves (one_or_more p) (c ∷ s) r
run_cons p c s r e (t, (n, h), cut) = (c ∷ t, (cons-ne-nil _ _, (e, h)), cc)

runs_sound : (p : ℕ → Bool) (s : Bytes) → All (Leaves (one_or_more p) s) (runs p s)
unfolding runs
runs_sound p [] = tt
runs_sound p (c ∷ s) = elim (Bool-cases (p c)) [
  | inl e ↦ rw e (
    (c ∷ [], (cons-ne-nil _ _, (e, tt)), refl),
    All-map (λ r l. run_cons p c s r e l) (runs p s) (runs_sound p s),
  )
  | inr e ↦ rw e tt
]

followed_by_step :
    (p q : Pattern) (s r r' : Bytes) → Leaves p s r → Leaves q r r' → Leaves (followed_by p q) s r'
followed_by_step p q s r r' (t, h, e) (t', h', e') =
    (t ++ t', (t, t', h, h', refl), rw (append_assoc, ← e') e)

each_sound :
    (p q : Pattern) (s : Bytes) (f : Bytes → List Bytes)
    → ((r : Bytes) → All (Leaves q r) (f r))
    → (rs : List Bytes) → All (Leaves p s) rs
    → All (Leaves (followed_by p q) s) (each f rs)
unfolding each
each_sound p q s f g [] h = tt
each_sound p q s f g (r ∷ rs) (l, h) =
    All-append _ (f r) (each f rs) (All-map (λ r' l'. followed_by_step p q s r r' l l') (f r) (g r))
      (each_sound p q s f g rs h)

remainders_sound : (p : Pattern) (s : Bytes) → All (Leaves p s) (remainders p s)
unfolding remainders
remainders_sound (literal w) s = behind_sound w s
remainders_sound (one_or_more p) s = runs_sound p s
remainders_sound (either p q) s =
    All-append _ (remainders p s) (remainders q s)
      (All-map (λ r (l : Leaves p s r). (l.0, inl l.1, l.2)) (remainders p s)
        (remainders_sound p s))
      (All-map (λ r (l : Leaves q s r). (l.0, inr l.1, l.2)) (remainders q s)
        (remainders_sound q s))
remainders_sound (followed_by p q) s =
    each_sound p q s (remainders q) (remainders_sound q) (remainders p s) (remainders_sound p s)

any_empty :
    (p : Pattern) (s : Bytes) (rs : List Bytes)
    → All (Leaves p s) rs
    → any is_empty rs ≡ true
    → InLanguage p s
unfolding is_empty
any_empty p s [] h e = cc
any_empty p s ([] ∷ rs) ((t, l, cut), h) e = subst (InLanguage p) (sym (cut ∙ append-nil t)) l
any_empty p s ((c ∷ r) ∷ rs) (l, h) e = any_empty p s rs h e

-- A match is a text of the pattern's language.
pub match_string_sound : (p : Pattern) (s : Bytes) → match_string p s ≡ true → InLanguage p s
unfolding match_string
match_string_sound p s = any_empty p s (remainders p s) (remainders_sound p s)
