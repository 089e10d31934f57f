-- ===== src/Text/Clean.antt =====
-- path.Clean, path.Join and path.Ext, on the elements of a slash-separated path.
use image_optimizer.Prelude.{
  codes, ◌≡◌, refl, Bool, true, false, ◌||◌, List, [], ◌∷◌, ◌++◌, reverse, ◌==◌, if◌then◌else◌,
}
use image_optimizer.Text.{Bytes, same, is_empty, has_prefix, slash, dot}
use image_optimizer.Text.Split.{split, extend, join}

abbrev pub one_dot : Bytes
one_dot = dot ∷ []

abbrev pub two_dots : Bytes
two_dots = dot ∷ dot ∷ []

-- The elements kept so far, the last one first; `..` drops the last one, is kept at the start of
-- a relative path, and is ignored at the root.
unfoldable pub back : Bool → List Bytes → List Bytes
unfolding same
back true [] = []
back false [] = two_dots ∷ []
back rooted (top ∷ stack) = if same top two_dots then two_dots ∷ top ∷ stack else stack

unfoldable pub resolve : Bool → List Bytes → Bytes → List Bytes
unfolding same is_empty back
resolve rooted stack part =
    if is_empty part || same part one_dot
    then stack
    else if same part two_dots
    then back rooted stack
    else part ∷ stack

unfoldable pub resolve_all : Bool → List Bytes → List Bytes → List Bytes
unfolding resolve
resolve_all rooted stack [] = reverse stack
resolve_all rooted stack (p ∷ ps) = resolve_all rooted (resolve rooted stack p) ps

-- The elements of the cleaned path.
unfoldable pub elements : Bytes → List Bytes
unfolding resolve_all split extend has_prefix
elements s = resolve_all (has_prefix (slash ∷ []) s) [] (split slash s)

-- An empty result is written as a dot.
unfoldable pub or_dot : Bytes → Bytes
or_dot [] = one_dot
or_dot (c ∷ s) = c ∷ s

-- path.Clean
unfoldable pub clean : Bytes → Bytes
clean s =
    if has_prefix (slash ∷ []) s
    then slash ∷ join slash (elements s)
    else or_dot (join slash (elements s))

-- The loop of path.Join: a slash in front of every element once something is written.
unfoldable pub glue : Bytes → List Bytes → Bytes
glue buf [] = buf
glue [] (p ∷ ps) = glue p ps
glue (c ∷ buf) (p ∷ ps) = glue ((c ∷ buf) ++ (slash ∷ p)) ps

-- Nothing is joined to the empty path, which is not cleaned.
unfoldable pub clean_joined : Bytes → Bytes
clean_joined [] = []
clean_joined (c ∷ s) = clean (c ∷ s)

-- path.Join
unfoldable pub path_join : List Bytes → Bytes
path_join ps = clean_joined (glue [] ps)

-- The reversed text up to its first dot, if no slash stands before it.
unfoldable pub ext_from : Bytes → Bytes → Bytes
ext_from [] acc = []
ext_from (c ∷ s) acc =
    let longer = ext_from s (c ∷ acc) in
    if c == slash then [] else if c == dot then dot ∷ acc else longer

-- path.Ext
unfoldable pub ext : Bytes → Bytes
unfolding ext_from
ext s = ext_from (reverse s) []

clean_tests :
    (clean (codes "/a//b/../c/./") ≡ codes "/a/c")
    × (clean (codes "../x/..") ≡ codes "..")
    × (clean [] ≡ codes ".")
    × (clean (codes "/../..") ≡ codes "/")
    × (clean (codes "a/../../..") ≡ codes "../..")
unfolding clean elements or_dot join has_prefix
clean_tests = (refl, refl, refl, refl, refl)

ext_tests : (ext (codes "a.b/c.tar.gz") ≡ codes ".gz") × (ext (codes "a.b/c") ≡ [])
unfolding ext
ext_tests = (refl, refl)
