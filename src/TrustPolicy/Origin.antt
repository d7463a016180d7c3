-- ===== src/TrustPolicy/Origin.antt =====
-- pkg/trustpolicy/origin.go: the one shape in which an origin is compared.
pub mod Laws
use cpak.Base.{
  ℕ, ◌+◌, ◌-◌, Bool, false, ◌&&◌, Option, none, some, List, [], ◌∷◌, map, leb, if◌then◌else◌, ◌==◌,
  ◌!=◌, nat_eq, Text, text_eq,
}
use cpak.Go.Strings.{split}
use cpak.Go.Regexp.{Regexp, class, seq, star, char, plus, optional, match_string}

-- `[a-z0-9]`, `[a-z0-9-]` and `[a-z0-9._-]`
abbrev pub alnum : Regexp
alnum = class ((b'a', b'z') ∷ (b'0', b'9') ∷ [])

abbrev pub alnum_dash : Regexp
alnum_dash = class ((b'a', b'z') ∷ (b'0', b'9') ∷ (b'-', b'-') ∷ [])

abbrev pub name_class : Regexp
name_class = class ((b'a', b'z') ∷ (b'0', b'9') ∷ (b'.', b'.') ∷ (b'_', b'_') ∷ (b'-', b'-') ∷ [])

-- `[a-z0-9]([a-z0-9-]*[a-z0-9])?`, which stands twice in `hostPattern`.
abbrev host_label : Regexp
host_label = seq alnum (optional (seq (star alnum_dash) alnum))

abbrev pub host_pattern : Regexp
host_pattern = seq host_label (plus (seq (char b'.') host_label))

abbrev pub segment_pattern : Regexp
segment_pattern = seq alnum (star name_class)

fold_byte : ℕ → ℕ
fold_byte c = if leb b'A' c && leb c b'Z' then c + (b'a' - b'A') else c

-- A byte above 127 is left alone, as the source leaves every rune that is no ASCII letter. (Of bytes
-- that are no UTF-8 `strings.Map` makes U+FFFD; the patterns refuse either.)
unfoldable pub fold_ascii : Text → Text
unfolding fold_byte
fold_ascii value = map fold_byte value

-- The guards on the three parts; `len(parts) != 3` is the last clause.
parts_fit : List Text → Bool
parts_fit (host ∷ owner ∷ repository ∷ []) =
    match_string host_pattern host
    && (match_string segment_pattern owner && match_string segment_pattern repository)
parts_fit _ = false

unfoldable pub canonical_origin : Text → Option Text
unfolding fold_ascii parts_fit
canonical_origin value =
    let folded = fold_ascii value in if parts_fit (split b'/' folded) then some folded else none

-- Whether both sides were read, and read alike.
same_read : Option Text → Option Text → Bool
same_read (some left) (some right) = left == right
same_read _ _ = false

unfoldable pub same_origin : Text → Text → Bool
unfolding canonical_origin same_read
same_origin first second = same_read (canonical_origin first) (canonical_origin second)
