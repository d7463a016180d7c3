-- ===== src/ApplicationTrust/SafeText.antt =====
-- pkg/applicationtrust/decision.go: `safeText`, `SanitizeText`, `oneOf` and the two patterns.
pub mod Laws
use cpak.Base.{
  ℕ, zero, suc, ◌-◌, ◌<◌, Bool, true, false, not, ◌&&◌, ◌||◌, List, [], ◌∷◌, ltb, leb,
  if◌then◌else◌, ◌==◌, nat_eq, any, length, contains, Outcome, ◌>>=◌, ◌>>◌, refuse_if, Text,
  text_eq, int_eq,
}
use cpak.Go.Regexp.{Regexp, class, seq, char, times, up_to, match_string}
use cpak.Go.Utf8.{valid, to_valid}
use cpak.Reputation.{name_pattern}
use cpak.TrustPolicy.Origin.{alnum}

pub data TextError : Type 0 where
  not_utf8 empty_text too_long control_character : TextError

-- `char < 0x20 || char == 0x7f`; such a rune is one byte.
unfoldable pub is_control : ℕ → Bool
is_control c = ltb c 0x20 || c == 0x7f

unfoldable pub safe_text : Text → ℕ → Bool → Outcome TextError Unit
safe_text value limit may_be_empty = do
  refuse_if (not (valid value)) not_utf8
  refuse_if (not may_be_empty && value == []) empty_text
  refuse_if (ltb limit (length value)) too_long
  refuse_if (any is_control value) control_character

-- `strings.Map` with a control character mapped to -1.
unfoldable pub strip : Text → Text
strip [] = []
strip (c ∷ cs) = let rest = strip cs in if is_control c then rest else c ∷ rest

abbrev pub take {ℓ} : {A : Type ℓ} → ℕ → List A → List A
take zero xs = []
take (suc n) [] = []
take (suc n) (x ∷ xs) = x ∷ take n xs

-- The loop that drops the last byte until the rest is valid; `n` is the length that is tried.
unfoldable pub shrink : ℕ → Text → Text
shrink zero value = []
shrink (suc n) value = elim (valid (take (suc n) value)) [
  | true ↦ take (suc n) value
  | false ↦ shrink n value
]

cut : ℕ → Text → Text
unfolding shrink
cut limit value = if leb (length value) limit then value else shrink limit value

-- A limit below 1 is 0 here.
unfoldable pub sanitize_text : Text → ℕ → Text
unfolding cut
sanitize_text value limit = if limit == 0 then [] else cut limit (strip (to_valid value))

unfoldable pub one_of : Text → List Text → Bool
one_of value choices = contains value choices

-- `^[a-z0-9][a-z0-9+._-]{0,31}:[0-9a-f]{32,128}$`
abbrev digest_pattern : Regexp
digest_pattern = seq alnum (
    seq
      (up_to 31 (
        class (
          (b'a', b'z')
          ∷ (b'0', b'9')
          ∷ (b'+', b'+')
          ∷ (b'.', b'.')
          ∷ (b'_', b'_')
          ∷ (b'-', b'-')
          ∷ [])))
      (seq (char b':') (seq (times 32 hex) (up_to 96 hex))))
  where
    hex : Regexp
    hex = class ((b'0', b'9') ∷ (b'a', b'f') ∷ [])

unfoldable pub valid_reason_code : Text → Bool
valid_reason_code value = match_string name_pattern value

unfoldable pub valid_artifact_digest : Text → Bool
valid_artifact_digest value = match_string digest_pattern value
