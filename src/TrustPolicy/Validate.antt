-- ===== src/TrustPolicy/Validate.antt =====
-- pkg/trustpolicy/policy.go: `Policy.Validate`, with `validateV2` and
-- `validateReputationException` of reputation.go and `validIssuer` of origin.go. `net/url` and
-- `strings.TrimSpace` are parameters. A Go map that only remembers what was seen is the list of
-- its keys.
pub mod Laws
pub mod Unreadable
use cpak.Base.{
  ℕ, ◌+◌, ◌-◌, Bool, true, false, not, ◌&&◌, ◌||◌, Option, none, some, List, [], ◌∷◌, ◌++◌, map,
  ltb, leb, if◌then◌else◌, ◌==◌, ◌!=◌, nat_eq, length, is_empty, contains, Outcome, ok, err, ◌>>=◌,
  ◌>>◌, refuse_if, wrap, Text, ascii, text_eq, ℤ, pos, int_eq,
}
use cpak.Go.Regexp.{match_string}
use cpak.Go.Strings.{join}
use cpak.Go.Sort.{sort, text_less}
use cpak.Go.Time.{canonical}
use cpak.Reputation.{
  Status, unknown, established, caution, blocked, unavailable, status_eq, name_pattern,
  valid_publisher_id,
}
use cpak.Reputation
use cpak.TrustPolicy.Origin.{canonical_origin}
use cpak.TrustPolicy.Policy.{
  Signer, Revocation, X509Policy, ReputationMode, ReputationException, ReputationPolicy, Policy,
  abi_version, current_abi_version, is_none, empty,
}

pub data InvalidPolicy : Type 0 where
  unsupported_abi : ℤ → InvalidPolicy
  abi_1_fields abi_2_sections : InvalidPolicy
  nothing_published nothing_approved : InvalidPolicy
  names_nobody no_repository : Text → InvalidPolicy
  not_an_issuer not_an_origin not_as_compared : Text → Text → InvalidPolicy
  long_reason : ℕ → InvalidPolicy
  control_in_reason : Text → InvalidPolicy
  invalid_revocation off_with_provider : InvalidPolicy
  invalid_provider unsupported_mode : ReputationMode → InvalidPolicy
  invalid_publisher_id duplicate_publisher_id duplicate_scope : InvalidPolicy
  in_exception : InvalidPolicy → InvalidPolicy
  empty_scope duplicate_origin duplicate_status : InvalidPolicy
  not_excepted : Status → InvalidPolicy
  invalid_expiry invalid_reason_code : InvalidPolicy

abbrev pub Check : Type 0
Check = Outcome InvalidPolicy Unit

-- `for _, x := range xs { if err := check(x); err != nil { return err } }`
unfoldable pub each {ℓ} : {A : Type ℓ} → (A → Check) → List A → Check
each check [] = ok tt
each check (x ∷ xs) = do check x; each check xs

unfoldable pub same_as_read : Text → Text → Option Text → Check
same_as_read field origin none = err (not_an_origin field origin)
same_as_read field origin (some read) = refuse_if (read != origin) (not_as_compared field origin)

unfoldable pub validate_origin : Text → Text → Check
unfolding same_as_read
validate_origin field origin = same_as_read field origin (canonical_origin origin)

-- A control character in UTF-8: an ASCII one, or one of U+0080 to U+009F in its two bytes.
unfoldable pub has_control : Text → Bool
has_control [] = false
has_control (c ∷ cs) =
    let rest = has_control cs in
    if ltb c 0x20 || (c == 0x7f) then true else if (c == 0xc2) && second cs then true else rest
  where
    second : Text → Bool
    second [] = false
    second (d ∷ ds) = leb 0x80 d && leb d 0x9f

unfoldable pub validate_reason : Text → Check
validate_reason reason = do
  refuse_if (ltb 200 (length reason)) (long_reason (length reason))
  refuse_if (has_control reason) (control_in_reason reason)

unfoldable pub validate_revocation : Revocation → Check
unfolding validate_reason validate_origin
validate_revocation r = do validate_origin (ascii "revoked") r.origin; validate_reason r.reason

unfoldable pub validate_publisher_ids : List Text → List Text → Check
validate_publisher_ids seen [] = ok tt
validate_publisher_ids seen (id ∷ ids) = do
  refuse_if (not (valid_publisher_id id)) invalid_publisher_id
  refuse_if (contains id seen) duplicate_publisher_id
  validate_publisher_ids (id ∷ seen) ids

unfoldable pub validate_origins : List Text → List Text → Check
validate_origins seen [] = ok tt
validate_origins seen (origin ∷ origins) = do
  validate_origin (ascii "reputation exception") origin
  refuse_if (contains origin seen) duplicate_origin
  validate_origins (origin ∷ seen) origins

unfoldable pub validate_statuses : List Status → List Status → Check
validate_statuses seen [] = ok tt
validate_statuses seen (status ∷ statuses) = do
  refuse_if ((status != unknown) && (status != caution)) (not_excepted status)
  refuse_if (contains status seen) duplicate_status
  validate_statuses (status ∷ seen) statuses

unfoldable pub valid_expiry : Text → Bool
valid_expiry value = if value == [] then true else not (is_none (canonical value))

unfoldable pub validate_exception : ReputationException → Check
unfolding validate_origins validate_statuses valid_expiry
validate_exception e = do
  refuse_if (not (valid_publisher_id e.publisher_id)) invalid_publisher_id
  refuse_if (is_empty e.origins || is_empty e.statuses) empty_scope
  validate_origins [] e.origins
  validate_statuses [] e.statuses
  refuse_if (not (valid_expiry e.expires_at)) invalid_expiry
  refuse_if (not (match_string name_pattern e.reason_code)) invalid_reason_code

abbrev pub status_text : Status → Text
status_text unknown = ascii "unknown"
status_text established = ascii "established"
status_text caution = ascii "caution"
status_text blocked = ascii "blocked"
status_text unavailable = ascii "unavailable"
status_text (Status.other text) = text

-- `fmt.Sprint` of a slice of strings.
abbrev bracketed : List Text → Text
bracketed xs = b'[' ∷ (join b' ' xs ++ (b']' ∷ []))

unfoldable pub scope_key : ReputationException → Text
scope_key e =
    e.publisher_id
    ++ (0
        ∷ (bracketed (sort text_less e.origins)
            ++ (0
                ∷ (bracketed (sort text_less (map status_text e.statuses)) ++ (0 ∷ e.expires_at)))))

unfoldable pub validate_exceptions : List Text → List ReputationException → Check
validate_exceptions seen [] = ok tt
validate_exceptions seen (e ∷ es) = do
  wrap in_exception (validate_exception e)
  refuse_if (contains (scope_key e) seen) duplicate_scope
  validate_exceptions (scope_key e ∷ seen) es

unfoldable pub validate_mode : ReputationMode → ReputationPolicy → Check
validate_mode ReputationMode.off rp =
    refuse_if ((rp.provider_id != []) || not (is_empty rp.exceptions)) off_with_provider
validate_mode (ReputationMode.other text) rp = err (unsupported_mode (ReputationMode.other text))
validate_mode mode rp =
    refuse_if (not (match_string name_pattern rp.provider_id)) (invalid_provider mode)

unfoldable pub validate_v2 : X509Policy → ReputationPolicy → List Text → Check
unfolding validate_mode validate_publisher_ids validate_exceptions
validate_v2 x509 rp publisher_ids = do
  refuse_if
      ((x509.revocation != ascii "allow-unknown") && (x509.revocation != ascii "require-good"))
      invalid_revocation
  validate_mode rp.mode rp
  validate_publisher_ids [] publisher_ids
  validate_exceptions [] rp.exceptions

-- The sections that the second ABI requires.
unfoldable pub validate_sections : Option X509Policy → Option ReputationPolicy → List Text → Check
unfolding validate_v2
validate_sections (some x509) (some rp) publisher_ids = validate_v2 x509 rp publisher_ids
validate_sections _ _ publisher_ids = err abi_2_sections

-- The fields of a parsed URL that are read.
pub record Url : Type 0 where
  pub scheme : Text
  pub host : Text
  pub has_user : Bool
  pub raw_query : Text
  pub fragment : Text

module _ (parse_url : Text → Option Url) (trim_space : Text → Text) where
  is_issuer_url : Option Url → Bool
  is_issuer_url none = false
  is_issuer_url (some url) =
      if (url.scheme != ascii "https") || ((url.host == []) || url.has_user)
      then false
      else (url.raw_query == []) && (url.fragment == [])

  unfoldable pub valid_issuer : Text → Bool
  unfolding is_issuer_url
  valid_issuer value =
      if (value == []) || (value != trim_space value)
      then false
      else is_issuer_url (parse_url value)

  unfoldable pub validate_signer : Text → Bool → Signer → Check
  validate_signer field repo_required s = do
    refuse_if ((s.issuer == []) && (s.repo == [])) (names_nobody field)
    refuse_if ((s.issuer != []) && not (valid_issuer s.issuer)) (not_an_issuer field s.issuer)
    if s.repo == []
        then refuse_if repo_required (no_repository field)
        else validate_origin field s.repo

  unfoldable pub validate_lists : Policy → Check
  unfolding validate_signer validate_revocation each
  validate_lists p = do
    refuse_if
        (p.require_publisher && (is_empty p.approved_signers && is_empty p.approved_publisher_ids))
        nothing_published
    refuse_if (p.require_approval && is_empty p.approval_signers) nothing_approved
    each (validate_signer (ascii "approved_signers") false) p.approved_signers
    each (validate_signer (ascii "approval_signers") true) p.approval_signers
    each (validate_origin (ascii "approved_origins")) p.approved_origins
    each validate_revocation p.revoked

  unfoldable pub validate_abi : Policy → Check
  unfolding validate_sections
  validate_abi p = do
    refuse_if ((p.abi != abi_version) && (p.abi != current_abi_version)) (unsupported_abi p.abi)
    refuse_if
        ((p.abi == abi_version)
          && (not (is_empty p.approved_publisher_ids)
              || (not (is_none p.x509) || not (is_none p.reputation))))
        abi_1_fields
    if p.abi == current_abi_version
        then validate_sections p.x509 p.reputation p.approved_publisher_ids
        else ok tt

  unfoldable pub validate_policy : Policy → Check
  unfolding validate_abi validate_lists empty
  validate_policy p =
      if (p.abi == pos 0) && empty p then ok tt else (do validate_abi p; validate_lists p)
