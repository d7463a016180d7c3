-- ===== src/ApplicationTrust/Fields.antt =====
-- pkg/applicationtrust/decision.go: the checks of the sections of a result, and the errors.
use cpak.Base.{
  ℕ, Bool, true, false, not, ◌&&◌, none, some, [], ◌∷◌, if◌then◌else◌, ◌==◌, ◌!=◌, nat_eq, Outcome,
  ok, err, ◌>>◌, refuse_if, wrap, Text, ascii, text_eq, int_eq,
}
use cpak.Go.Regexp.{match_string}
use cpak.Go.Time.{canonical}
use cpak.Reputation.{name_pattern}
use cpak.ApplicationTrust.SafeText.{
  TextError, safe_text, one_of, valid_reason_code, valid_artifact_digest,
}
use cpak.ApplicationTrust.Model.{
  Operation, InvocationContext, DecisionSource, VerificationStatus, PublisherStatus, Subject,
  Verification, Publisher, Trust, Reputation,
}

-- The errors, by what they say; the wrapped ones carry the error that they wrap.
pub data InvalidResult : Type 0 where
  unsupported_schema invalid_actor invalid_operation invalid_context invalid_source : InvalidResult
  in_subject in_verification in_publisher in_trust in_reputation : InvalidResult → InvalidResult
  in_policy in_final : InvalidResult → InvalidResult
  invalid_text : TextError → InvalidResult
  invalid_digest invalid_status invalid_evidence_kind : InvalidResult
  evidence_contradicts unsigned_with_evidence : InvalidResult
  invalid_reason_code unverified_identity unverified_name : InvalidResult
  invalid_authorization unverified_authorization : InvalidResult
  invalid_chain invalid_signing_time invalid_revocation : InvalidResult
  invalid_provider invalid_freshness invalid_time : InvalidResult
  invalid_signature_mode invalid_reputation_mode invalid_action : InvalidResult
  confirmation_without_warning invalid_confirmation : InvalidResult
  inferred_confirmation confirmation_unavailable : InvalidResult
  mapping_disagrees : InvalidResult
  allows_other_policy warns_unconfirmed denies_unconfirmed denies_other_policy : InvalidResult
  asks_outside_warning overrides_prerequisite foreign_publisher : InvalidResult

abbrev pub Check : Type 0
Check = Outcome InvalidResult Unit

abbrev pub check_text : Text → ℕ → Bool → Check
check_text value limit may_be_empty = wrap invalid_text (safe_text value limit may_be_empty)

abbrev pub check_reason : Text → Check
check_reason code = refuse_if (not (valid_reason_code code)) invalid_reason_code

unfoldable pub valid_operation : Operation → Bool
valid_operation (Operation.other _) = false
valid_operation _ = true

unfoldable pub valid_context : InvocationContext → Bool
valid_context (InvocationContext.other _) = false
valid_context _ = true

abbrev pub valid_source : DecisionSource → Bool
valid_source (DecisionSource.other _) = false
valid_source _ = true

unfoldable pub validate_subject : Subject → Check
validate_subject s = do
  check_text s.origin 512 false
  refuse_if ((s.artifact_digest != []) && not (valid_artifact_digest s.artifact_digest))
      invalid_digest

abbrev known_status : VerificationStatus → Bool
known_status (VerificationStatus.other _) = false
known_status _ = true

abbrev is_unsigned : VerificationStatus → Bool
is_unsigned VerificationStatus.unsigned = true
is_unsigned _ = false

abbrev may_lack_evidence : VerificationStatus → Bool
may_lack_evidence VerificationStatus.unsigned = true
may_lack_evidence VerificationStatus.not_evaluated = true
may_lack_evidence _ = false

unfoldable pub validate_verification : Verification → Check
validate_verification v = do
  refuse_if (not (known_status v.status)) invalid_status
  refuse_if
      (not (
        one_of v.evidence_kind
          (ascii "sigstore-bundle-v1" ∷ ascii "x509-cms-v1" ∷ ascii "none" ∷ ascii "unknown" ∷ [])))
      invalid_evidence_kind
  refuse_if ((v.evidence_kind == ascii "none") && not (may_lack_evidence v.status))
      evidence_contradicts
  refuse_if (is_unsigned v.status && (v.evidence_kind != ascii "none")) unsigned_with_evidence
  check_reason v.reason_code
  check_text v.diagnostic 512 true

abbrev known_publisher : PublisherStatus → Bool
known_publisher (PublisherStatus.other _) = false
known_publisher _ = true

abbrev pub is_verified : PublisherStatus → Bool
is_verified PublisherStatus.verified = true
is_verified _ = false

unfoldable pub validate_publisher : Publisher → Check
validate_publisher p = do
  refuse_if (not (known_publisher p.status)) invalid_status
  if is_verified p.status
      then check_text p.id 512 false
      else refuse_if (p.id != []) unverified_identity
  refuse_if (not (is_verified p.status) && (p.display_name != [])) unverified_name
  refuse_if
      (not (
        one_of p.origin_authorization (
          ascii "authorized" ∷ ascii "foreign" ∷ ascii "unsupported" ∷ ascii "not-evaluated" ∷ [])))
      invalid_authorization
  refuse_if (not (is_verified p.status) && (p.origin_authorization != ascii "not-evaluated"))
      unverified_authorization
  check_text p.display_name 200 true
  check_reason p.reason_code

unfoldable pub validate_trust : Trust → Check
validate_trust t = do
  refuse_if
      (not (
        one_of t.chain (
          ascii "trusted-public"
          ∷ ascii "trusted-local"
          ∷ ascii "not-applicable"
          ∷ ascii "untrusted"
          ∷ ascii "invalid"
          ∷ ascii "not-evaluated"
          ∷ [])))
      invalid_chain
  refuse_if
      (not (
        one_of t.signing_time (
          ascii "current"
          ∷ ascii "timestamped"
          ∷ ascii "missing"
          ∷ ascii "expired"
          ∷ ascii "not-yet-valid"
          ∷ ascii "invalid"
          ∷ ascii "not-applicable"
          ∷ ascii "not-evaluated"
          ∷ [])))
      invalid_signing_time
  refuse_if
      (not (
        one_of t.revocation (
          ascii "good"
          ∷ ascii "revoked"
          ∷ ascii "unknown"
          ∷ ascii "stale"
          ∷ ascii "not-applicable"
          ∷ ascii "not-evaluated"
          ∷ [])))
      invalid_revocation
  check_text t.root_source 512 true
  check_reason t.reason_code

-- `canonicalTime`; the empty text is accepted.
unfoldable pub canonical_time : Text → Check
canonical_time value =
    if value == []
    then ok tt
    else elim (canonical value) [ none ↦ err invalid_time | some t ↦ ok tt ]

unfoldable pub validate_reputation : Reputation → Check
validate_reputation r = do
  refuse_if ((r.provider_id != []) && not (match_string name_pattern r.provider_id))
      invalid_provider
  refuse_if
      (not (
        one_of r.status (
          ascii "established"
          ∷ ascii "unknown"
          ∷ ascii "caution"
          ∷ ascii "blocked"
          ∷ ascii "unavailable"
          ∷ ascii "not-consulted"
          ∷ [])))
      invalid_status
  refuse_if
      (not (
        one_of r.freshness
          (ascii "fresh" ∷ ascii "stale" ∷ ascii "unavailable" ∷ ascii "not-applicable" ∷ [])))
      invalid_freshness
  canonical_time r.issued_at
  canonical_time r.expires_at
  check_reason r.reason_code
