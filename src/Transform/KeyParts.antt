-- ===== src/Transform/KeyParts.antt =====
-- The parts of a cache key, as canonicalKey of internal/transform/params.go joins them.
use mathlib.Core.List.{cons-eq-cons, append_cancel_left}
use image_optimizer.Prelude.{
  ℕ, codes, ◌≡◌, ◌≢◌, refl, sym, ◌∙◌, ap, List, [], ◌∷◌, ◌++◌, Option, none, some, arith, subst,
  append-nil, All, All-append, ℤ,
}
use image_optimizer.Text.{Bytes}
use image_optimizer.Text.Number.{itoa, IsInt}
use image_optimizer.Text.NumberLaws.{itoa-injective}
use image_optimizer.Transform.{Params, text_part, number_part, key_parts}

-- A part whose first byte is another one.
abbrev Not : ℕ → Bytes → Type 0
Not b [] = Unit
Not b (c ∷ s) = c ≢ b

abbrev pub AreInts : Option ℤ → Type 0
AreInts none = Unit
AreInts (some n) = IsInt n

-- At most one part under a tag, and then parts under other tags: both can be read off.
module _ (b : ℕ) (tag : Bytes) where
  clash : (x : Bytes) (ps qs : List Bytes) → All (Not b) ps → ps ≡ (b ∷ x) ∷ qs → ⊥
  clash x ps qs h e = (subst (All (Not b)) e h).0 refl

  same_part :
      (s t : Bytes) (ps qs : List Bytes)
      → ((b ∷ tag) ++ s) ∷ ps ≡ ((b ∷ tag) ++ t) ∷ qs
      → (s ≡ t) × (ps ≡ qs)
  same_part s t ps qs e =
      let (head, tail) = cons-eq-cons.0 e in (append_cancel_left (b ∷ tag) s t head, tail)

  text_part-inj :
      (s t : Bytes) (ps qs : List Bytes)
      → All (Not b) ps
      → All (Not b) qs
      → text_part (b ∷ tag) s ++ ps ≡ text_part (b ∷ tag) t ++ qs
      → (s ≡ t) × (ps ≡ qs)
  text_part-inj [] [] ps qs h k e = (refl, e)
  text_part-inj [] (d ∷ t) ps qs h k e = absurd (clash _ ps qs h e)
  text_part-inj (c ∷ s) [] ps qs h k e = absurd (clash _ qs ps k (sym e))
  text_part-inj (c ∷ s) (d ∷ t) ps qs h k e = same_part (c ∷ s) (d ∷ t) ps qs e

  number_part-inj :
      (m n : Option ℤ) (ps qs : List Bytes)
      → AreInts m
      → AreInts n
      → All (Not b) ps
      → All (Not b) qs
      → number_part (b ∷ tag) m ++ ps ≡ number_part (b ∷ tag) n ++ qs
      → (m ≡ n) × (ps ≡ qs)
  number_part-inj none none ps qs hm hn h k e = (refl, e)
  number_part-inj none (some n) ps qs hm hn h k e = absurd (clash _ ps qs h e)
  number_part-inj (some m) none ps qs hm hn h k e = absurd (clash _ qs ps k (sym e))
  number_part-inj (some m) (some n) ps qs hm hn h k e =
      let (digits, tail) = same_part (itoa m) (itoa n) ps qs e in
      (ap some (itoa-injective m n hm hn digits), tail)

text_part-Not : (b c : ℕ) (tag s : Bytes) → c ≢ b → All (Not b) (text_part (c ∷ tag) s)
text_part-Not b c tag [] n = tt
text_part-Not b c tag (d ∷ s) n = (n, tt)

number_part-Not :
    (b c : ℕ) (tag : Bytes) (m : Option ℤ) → c ≢ b → All (Not b) (number_part (c ∷ tag) m)
number_part-Not b c tag none n = tt
number_part-Not b c tag (some m) n = (n, tt)

-- The parts behind crop, behind fit and behind h.
abbrev after_h : Params → List Bytes
after_h p = (codes "q=" ++ itoa p.q) ∷ number_part (codes "w=") p.w

abbrev after_fit : Params → List Bytes
after_fit p = number_part (codes "h=") p.h ++ after_h p

abbrev after_crop : Params → List Bytes
after_crop p = text_part (codes "fit=") p.fit ++ after_fit p

module _ (p : Params) (b : ℕ) where
  after_h-Not : b'q' ≢ b → b'w' ≢ b → All (Not b) (after_h p)
  after_h-Not nq nw = (nq, number_part-Not b b'w' (codes "=") p.w nw)

  after_fit-Not : b'h' ≢ b → b'q' ≢ b → b'w' ≢ b → All (Not b) (after_fit p)
  after_fit-Not nh nq nw =
      All-append _ _ _ (number_part-Not b b'h' (codes "=") p.h nh) (after_h-Not nq nw)

  after_crop-Not : b'f' ≢ b → b'h' ≢ b → b'q' ≢ b → b'w' ≢ b → All (Not b) (after_crop p)
  after_crop-Not nf nh nq nw =
      All-append _ _ _ (text_part-Not b b'f' (codes "it=") p.fit nf) (after_fit-Not nh nq nw)

-- Parameters whose numbers are ints are determined by the parts of their key.
pub record HasInts (p : Params) : Type 0 where
  pub w : AreInts p.w
  pub h : AreInts p.h
  pub q : IsInt p.q

abbrev SameParams : Params → Params → Type 0
SameParams p p' = (p.w ≡ p'.w) × (p.h ≡ p'.h) × (p.crop ≡ p'.crop) × (p.fit ≡ p'.fit) × (p.q ≡ p'.q)

pub key_parts-injective :
    (p p' : Params) → HasInts p → HasInts p' → key_parts p ≡ key_parts p' → p ≡ p'
unfolding key_parts
key_parts-injective p p' i i' e =
    let (crop, e1) =
      text_part-inj b'c' (codes "rop=") p.crop p'.crop (after_crop p) (after_crop p')
        (after_crop-Not p b'c' (omega arith) (omega arith) (omega arith) (omega arith))
        (after_crop-Not p' b'c' (omega arith) (omega arith) (omega arith) (omega arith)) e in
    let (fit, e2) =
      text_part-inj b'f' (codes "it=") p.fit p'.fit (after_fit p) (after_fit p')
        (after_fit-Not p b'f' (omega arith) (omega arith) (omega arith))
        (after_fit-Not p' b'f' (omega arith) (omega arith) (omega arith)) e1 in
    let (h, e3) =
      number_part-inj b'h' (codes "=") p.h p'.h (after_h p) (after_h p') i.h i'.h
        (after_h-Not p b'h' (omega arith) (omega arith))
        (after_h-Not p' b'h' (omega arith) (omega arith)) e2 in
    let (digits, e4) = same_part b'q' (codes "=") (itoa p.q) (itoa p'.q) _ _ e3 in
    let (w, _) =
      number_part-inj b'w' (codes "=") p.w p'.w [] [] i.w i'.w tt tt
        (append-nil _ ∙ e4 ∙ sym (append-nil _)) in
    let q = itoa-injective p.q p'.q i.q i'.q digits in
    λ j. record { w = w j; h = h j; crop = crop j; fit = fit j; q = q j }
