-- ===== src/Go/Strings.antt =====
-- `strings.Split` and `strings.Join` by a one-byte separator, `strings.HasPrefix`.
pub mod Laws
use cpak.Base.{
  ℕ, ◌+◌, ◌-◌, Bool, true, false, ◌&&◌, ◌||◌, is_empty, List, [], ◌∷◌, ◌++◌, if◌then◌else◌, ◌==◌,
  nat_eq, Text, text_eq,
}

-- One more byte in front of the first piece.
abbrev pub cons_first : ℕ → List Text → List Text
cons_first c [] = (c ∷ []) ∷ []
cons_first c (piece ∷ pieces) = (c ∷ piece) ∷ pieces

unfoldable pub split : ℕ → Text → List Text
split sep [] = [] ∷ []
split sep (c ∷ cs) =
    let pieces = split sep cs in if c == sep then [] ∷ pieces else cons_first c pieces

-- Each piece behind a separator.
unfoldable pub join_rest : ℕ → List Text → Text
join_rest sep [] = []
join_rest sep (piece ∷ pieces) = sep ∷ (piece ++ join_rest sep pieces)

-- The pieces with the separator between them: `strings.Join`.
unfoldable pub join : ℕ → List Text → Text
unfolding join_rest
join sep [] = []
join sep (piece ∷ pieces) = piece ++ join_rest sep pieces

unfoldable pub has_prefix : Text → Text → Bool
has_prefix cs [] = true
has_prefix [] (p ∷ ps) = false
has_prefix (c ∷ cs) (p ∷ ps) = c == p && has_prefix cs ps

-- The text behind as many bytes as the second text has.
unfoldable pub behind : Text → Text → Text
behind cs [] = cs
behind [] (p ∷ ps) = []
behind (c ∷ cs) (p ∷ ps) = behind cs ps

-- `strings.TrimPrefix`
unfoldable pub trim_prefix : Text → Text → Text
unfolding has_prefix behind
trim_prefix cs prefix = if has_prefix cs prefix then behind cs prefix else cs

-- `strings.TrimSuffix` by one byte
unfoldable pub trim_suffix : Text → ℕ → Text
trim_suffix [] sep = []
trim_suffix (c ∷ []) sep = if c == sep then [] else c ∷ []
trim_suffix (c ∷ d ∷ cs) sep = c ∷ trim_suffix (d ∷ cs) sep

-- `bytes.Replace(value, old, nil, 1)` for a non-empty `old`
unfoldable pub remove_first : Text → Text → Text
unfolding has_prefix trim_prefix
remove_first [] old = []
remove_first (c ∷ cs) old =
    let later = remove_first cs old in
    if has_prefix (c ∷ cs) old then trim_prefix (c ∷ cs) old else c ∷ later

-- `strings.Contains`
unfoldable pub has_infix : Text → Text → Bool
unfolding has_prefix
has_infix [] part = is_empty part
has_infix (c ∷ cs) part = has_prefix (c ∷ cs) part || has_infix cs part
