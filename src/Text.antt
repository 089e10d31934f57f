-- ===== src/Text.antt =====
-- Go strings as lists of bytes, with the functions of package strings that the program calls.
pub mod Laws
pub mod Split
pub mod Clean
pub mod Elements
pub mod Number
pub mod Contains
pub mod Trim
pub mod Regex
pub mod Join
pub mod NumberLaws
use image_optimizer.Prelude.{
  ℕ, ◌+◌, ◌≡◌, ◌≢◌, Bool, true, false, not, ◌&&◌, ◌||◌, List, [], ◌∷◌, ◌++◌, map, reverse, leb, ltb,
  ◌==◌, if◌then◌else◌, all, any, All,
}

abbrev pub Bytes : Type 0
Bytes = List ℕ

-- `s == t`
unfoldable pub same : Bytes → Bytes → Bool
same [] [] = true
same [] (d ∷ t) = false
same (c ∷ s) [] = false
same (c ∷ s) (d ∷ t) = c == d && same s t

unfoldable pub is_empty : Bytes → Bool
is_empty [] = true
is_empty (c ∷ s) = false

-- strings.HasPrefix(s, p); the prefix comes first here.
unfoldable pub has_prefix : Bytes → Bytes → Bool
has_prefix [] s = true
has_prefix (p ∷ ps) [] = false
has_prefix (p ∷ ps) (c ∷ s) = p == c && has_prefix ps s

-- strings.Contains(s, p)
unfoldable pub contains : Bytes → Bytes → Bool
unfolding has_prefix
contains p [] = is_empty p
contains p (c ∷ s) = has_prefix p (c ∷ s) || contains p s

-- strings.ContainsAny(s, bytes) for ASCII bytes
unfoldable pub contains_any : Bytes → Bytes → Bool
contains_any bs s = any (λ c. any (λ b. b == c) bs) s

-- strings.ReplaceAll(s, old, new) for strings of one byte
unfoldable pub replace_byte : ℕ → ℕ → Bytes → Bytes
replace_byte old new s = map (λ c. if c == old then new else c) s

unfoldable pub trim_left : (ℕ → Bool) → Bytes → Bytes
trim_left p [] = []
trim_left p (c ∷ s) = let rest = trim_left p s in if p c then rest else c ∷ s

-- strings.Trim with the set of bytes where `p` holds
unfoldable pub trim : (ℕ → Bool) → Bytes → Bytes
trim p s = reverse (trim_left p (reverse (trim_left p s)))

-- strings.TrimPrefix(s, p) for a prefix of one byte
unfoldable pub trim_byte_prefix : ℕ → Bytes → Bytes
trim_byte_prefix b [] = []
trim_byte_prefix b (c ∷ s) = if c == b then s else c ∷ s

abbrev pub slash : ℕ
slash = b'/'

abbrev pub backslash : ℕ
backslash = 92

abbrev pub dot : ℕ
dot = b'.'

abbrev pub is_digit : ℕ → Bool
is_digit c = leb b'0' c && leb c b'9'

abbrev pub is_lower : ℕ → Bool
is_lower c = leb b'a' c && leb c b'z'

abbrev pub is_upper : ℕ → Bool
is_upper c = leb b'A' c && leb c b'Z'

abbrev pub is_ascii : Bytes → Bool
is_ascii s = all (λ c. ltb c 128) s

-- '\t', '\n', '\v', '\f', '\r', ' '
abbrev pub is_space : ℕ → Bool
is_space c = (leb 9 c && leb c 13) || c == 32

-- What package unicode does to a string that holds a byte above 127: strings.ToLower and
-- strings.TrimSpace take this path then.
pub record Unicode : Type 0 where
  pub lower_text : Bytes → Bytes
  pub trim_text : Bytes → Bytes

-- strings.ToLower
unfoldable pub to_lower : Unicode → Bytes → Bytes
to_lower u s = if is_ascii s then map (λ c. if is_upper c then c + 32 else c) s else u.lower_text s

-- strings.TrimSpace
unfoldable pub trim_space : Unicode → Bytes → Bytes
trim_space u s = if is_ascii s then trim is_space s else u.trim_text s

-- A byte that does not occur in a text.
abbrev pub Lacks : ℕ → Bytes → Type 0
Lacks b s = All (λ c. c ≢ b) s
