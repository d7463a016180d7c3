-- ===== src/Types/Dbus.antt =====
-- pkg/types/dbus.go: the calls an application may make on the session bus.
pub mod Laws
use cpak.Base.{
  ℕ, zero, ◌+◌, ◌-◌, Bool, false, not, ◌&&◌, ◌||◌, List, [], ◌∷◌, ◌++◌, map, ltb, leb,
  if◌then◌else◌, ◌!=◌, nat_eq, any, all, length, is_empty, contains, Outcome, ok, ◌>>=◌, ◌>>◌,
  refuse_if, Text, text_eq, int_eq,
}
use cpak.Go.Regexp.{Regexp, class, seq, char, alt, star, plus, blank, match_string}
use cpak.Go.Sort.{sort, text_less}

pub record DbusCallGrant : Type 0 where
  pub name : Text
  pub path : Text
  pub interface : Text
  pub members : List Text

pub record DbusPolicy : Type 0 where
  pub talk : List DbusCallGrant
  pub own : List Text

unfoldable pub enabled : DbusPolicy → Bool
enabled p = not (is_empty p.talk) || not (is_empty p.own)

abbrev letters : List (ℕ × ℕ)
letters = (b'A', b'Z') ∷ (b'a', b'z') ∷ (b'_', b'_') ∷ []

abbrev word : List (ℕ × ℕ)
word = (b'0', b'9') ∷ letters

-- `[A-Za-z_]` and then any number of the class.
abbrev element : List (ℕ × ℕ) → Regexp
element rest = seq (class letters) (star (class rest))

abbrev dotted : List (ℕ × ℕ) → Regexp
dotted rest = seq (element rest) (plus (seq (char b'.') (element rest)))

abbrev name_pattern : Regexp
name_pattern = dotted ((b'-', b'-') ∷ word)

abbrev interface_pattern : Regexp
interface_pattern = dotted word

abbrev member_pattern : Regexp
member_pattern = element word

abbrev path_pattern : Regexp
path_pattern = seq (char b'/') (alt blank (seq segment (star (seq (char b'/') segment))))
  where
    segment : Regexp
    segment = plus (class ((b'0', b'9') ∷ (b'A', b'Z') ∷ (b'a', b'z') ∷ (b'_', b'_') ∷ []))

pub data DbusError : Type 0 where
  too_large : DbusError
  invalid_name duplicate_name invalid_destination invalid_path invalid_interface : Text → DbusError
  invalid_count invalid_member duplicate_member : Text → DbusError
  duplicate_rule : DbusCallGrant → DbusError

unfoldable pub valid_name : Text → Bool
valid_name name = leb (length name) 255 && match_string name_pattern name

-- The loop over the owned names; `owned` is the map, as the list of its keys.
unfoldable pub validate_own : List Text → List Text → Outcome DbusError Unit
validate_own owned [] = ok tt
validate_own owned (name ∷ names) = do
  refuse_if (not (valid_name name)) (invalid_name name)
  refuse_if (contains name owned) (duplicate_name name)
  validate_own (name ∷ owned) names

unfoldable pub validate_members : List Text → List Text → Outcome DbusError Unit
validate_members seen [] = ok tt
validate_members seen (member ∷ members) = do
  refuse_if (ltb 255 (length member) || not (match_string member_pattern member))
      (invalid_member member)
  refuse_if (contains member seen) (duplicate_member member)
  validate_members (member ∷ seen) members

-- The key of a rule: its three names with a zero byte between them.
unfoldable pub rule_key : DbusCallGrant → Text
rule_key r = r.name ++ (0 ∷ (r.path ++ (0 ∷ r.interface)))

unfoldable pub validate_rule : DbusCallGrant → Outcome DbusError Unit
unfolding validate_members
validate_rule r = do
  refuse_if (not (valid_name r.name)) (invalid_destination r.name)
  refuse_if (ltb 255 (length r.path) || not (match_string path_pattern r.path))
      (invalid_path r.path)
  refuse_if (ltb 255 (length r.interface) || not (match_string interface_pattern r.interface))
      (invalid_interface r.interface)
  refuse_if (is_empty r.members || ltb 64 (length r.members)) (invalid_count r.name)
  validate_members [] r.members

unfoldable pub validate_talk : List Text → List DbusCallGrant → Outcome DbusError Unit
unfolding validate_rule
validate_talk keys [] = ok tt
validate_talk keys (rule ∷ rules) = do
  validate_rule rule
  refuse_if (contains (rule_key rule) keys) (duplicate_rule rule)
  validate_talk (rule_key rule ∷ keys) rules

unfoldable pub validate_dbus_policy : DbusPolicy → Outcome DbusError Unit
unfolding validate_own validate_talk
validate_dbus_policy p = do
  refuse_if (ltb 64 (length p.talk) || ltb 32 (length p.own)) too_large
  validate_own [] p.own
  validate_talk [] p.talk

-- A rule that names the call.
unfoldable pub covers : Text → Text → Text → Text → DbusCallGrant → Bool
covers name path interface_name member rule =
    if (rule.name != name) || ((rule.path != path) || (rule.interface != interface_name))
    then false
    else contains member rule.members

unfoldable pub allows_call : DbusPolicy → Text → Text → Text → Text → Bool
unfolding covers
allows_call p name path interface_name member = any (covers name path interface_name member) p.talk

unfoldable pub allows_own : DbusPolicy → Text → Bool
allows_own p name = contains name p.own

unfoldable pub restricts : DbusPolicy → DbusPolicy → Bool
restricts current candidate =
    all (allows_own current) candidate.own
    && all (λ rule. all (allows_call current rule.name rule.path rule.interface) rule.members)
        candidate.talk

unfoldable pub keep : (Text → Bool) → List Text → List Text
keep p [] = []
keep p (x ∷ xs) = let rest = keep p xs in if p x then x ∷ rest else rest

unfoldable pub shared_rules : DbusPolicy → List DbusCallGrant → List DbusCallGrant
unfolding keep
shared_rules right [] = []
shared_rules right (rule ∷ rules) =
    let shared = keep (allows_call right rule.name rule.path rule.interface) rule.members in
    let rest = shared_rules right rules in
    if is_empty shared then rest else record rule { members = shared } ∷ rest

unfoldable pub sort_members : List DbusCallGrant → List DbusCallGrant
sort_members [] = []
sort_members (rule ∷ rules) =
    record rule { members = sort text_less rule.members } ∷ sort_members rules

unfoldable pub canonical_dbus_policy : DbusPolicy → DbusPolicy
unfolding sort_members
canonical_dbus_policy p = record {
  talk = sort (λ a b. text_less (rule_key a) (rule_key b)) (sort_members p.talk);
  own = sort text_less p.own;
}

unfoldable pub intersect_dbus_policies : DbusPolicy → DbusPolicy → DbusPolicy
unfolding shared_rules canonical_dbus_policy
intersect_dbus_policies left right =
    canonical_dbus_policy
      (record { talk = shared_rules right left.talk; own = keep (allows_own right) left.own })
