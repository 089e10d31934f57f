-- ===== src/Text/Join.antt =====
-- path.Join on names, and texts without a byte.
use image_optimizer.Prelude.{
  ℕ, ◌≡◌, ◌≢◌, refl, sym, ◌∙◌, ap, false, List, [], ◌∷◌, ◌++◌, append_assoc, append-nil, arith, All,
}
use image_optimizer.Text.{Bytes, is_empty, has_prefix, contains, slash, Lacks}
use image_optimizer.Text.Split.{join}
use image_optimizer.Text.Clean.{clean, clean_joined, glue, path_join}
use image_optimizer.Text.Elements.{IsName, clean-join}

-- Every element behind a slash.
unfoldable pub slashed : List Bytes → Bytes
slashed [] = []
slashed (p ∷ ps) = slash ∷ (p ++ slashed ps)

glue-slashed : (c : ℕ) (buf : Bytes) (ps : List Bytes) → glue (c ∷ buf) ps ≡ (c ∷ buf) ++ slashed ps
unfolding glue slashed
glue-slashed c buf [] = sym (append-nil (c ∷ buf))
glue-slashed c buf (p ∷ ps) =
    glue-slashed c (buf ++ (slash ∷ p)) ps ∙ append_assoc (c ∷ buf) (slash ∷ p) (slashed ps)

join-slashed : (p : Bytes) (ps : List Bytes) → join slash (p ∷ ps) ≡ p ++ slashed ps
unfolding join slashed
join-slashed p [] = sym (append-nil p)
join-slashed p (q ∷ ps) = ap (λ t. p ++ (slash ∷ t)) (join-slashed q ps)

slashed-append : (ps qs : List Bytes) → slashed (ps ++ qs) ≡ slashed ps ++ slashed qs
unfolding slashed
slashed-append [] qs = refl
slashed-append (p ∷ ps) qs = simp (slashed-append ps qs, append_assoc)

pub join-append :
    (p : Bytes) (ps qs : List Bytes)
    → join slash (p ∷ (ps ++ qs)) ≡ join slash (p ∷ ps) ++ slashed qs
join-append p ps qs = simp (join-slashed, slashed-append, append_assoc)

glue_first : (p : Bytes) (ps : List Bytes) → glue [] (p ∷ ps) ≡ glue p ps
unfolding glue
glue_first p ps = refl

path_join-clean :
    (c : ℕ) (s : Bytes) (qs : List Bytes) → path_join ((c ∷ s) ∷ qs) ≡ clean ((c ∷ s) ++ slashed qs)
unfolding path_join
path_join-clean c s qs =
    ap clean_joined (glue_first (c ∷ s) qs ∙ glue-slashed c s qs) ∙ unfold clean_joined in refl

join_filled :
    (p : Bytes) (ps : List Bytes) → p ≢ [] → (c : ℕ) × (s : Bytes) × (join slash (p ∷ ps) ≡ c ∷ s)
unfolding join
join_filled [] ps n = absurd (n refl)
join_filled (c ∷ p) [] n = (c, p, refl)
join_filled (c ∷ p) (q ∷ ps) n = (c, p ++ (slash ∷ join slash (q ∷ ps)), refl)

-- path.Join of a path of names and more names puts a slash between them, and that is all.
pub path_join-names :
    (p : Bytes) (ps qs : List Bytes)
    → All IsName (p ∷ (ps ++ qs))
    → path_join (join slash (p ∷ ps) ∷ qs) ≡ join slash (p ∷ (ps ++ qs))
path_join-names p ps qs h =
    let (c, s, e) = join_filled p ps h.0.0 in
    ap (λ t. path_join (t ∷ qs)) e
    ∙ path_join-clean c s qs
    ∙ ap (λ t. clean (t ++ slashed qs)) (sym e)
    ∙ ap clean (sym (join-append p ps qs))
    ∙ clean-join p (ps ++ qs) h

-- A text without a byte contains nothing that begins with it.
pub contains_of_Lacks : (c : ℕ) (w s : Bytes) → Lacks c s → contains (c ∷ w) s ≡ false
unfolding contains has_prefix is_empty
contains_of_Lacks c w [] h = refl
contains_of_Lacks c w (d ∷ s) (n, h) = ground (arith, contains_of_Lacks c w s h)
