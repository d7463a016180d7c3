-- ===== src/Examples/Results.antt =====
-- Tests of pkg/applicationtrust, and of the reputation stage that feeds it.
use cpak.Base.{
  ◌≡◌, refl, ◌≢◌, ◌↔◌, ◌⊎◌, true, false, some, [], ◌∷◌, Text, ascii, pos, ok, text_beq, any,
}
use cpak.Go.Time.{zero_time, canonical}
use cpak.Go.Utf8.{completes, advance}
use cpak.Go.Regexp.{match_string}
use cpak.Reputation.{established, unknown, name_pattern}
use cpak.Reputation
use cpak.TrustPolicy.Policy.{
  Policy, ReputationPolicy, ReputationException, require_established, zero_policy,
}
use cpak.TrustPolicy.Reputation.{evaluates_reputation}
use cpak.TrustPolicy.Reputation.Exceptions.{require_established_iff, IsExcepted}
use cpak.ApplicationTrust.Model as Trust
use cpak.ApplicationTrust.SafeText.{safe_text, is_control, one_of, valid_reason_code, sanitize_text}
use cpak.ApplicationTrust.SafeText.Laws.{sanitize_text_safe}
use cpak.ApplicationTrust.Fields.{
  valid_context, valid_operation, validate_subject, validate_verification, validate_publisher,
  validate_trust, validate_reputation, canonical_time,
}
use cpak.ApplicationTrust.Validate.{
  validate, validate_final, validate_policy, validate_resolution, goes_ahead, is_verify,
}
use cpak.ApplicationTrust.Validate.Laws.{validate_exit_zero, validate_identity, IsCovered}
use cpak.ApplicationTrust.Resolve.{resolve_policy_action, final_for, new_final}
use cpak.ApplicationTrust.Resolve.Laws.{resolve_policy_action_sound, IsAccepted, IsConsented}

abbrev publisher : Text
publisher = ascii "x509-spki-sha256:00"

abbrev vendor_exception : ReputationException
vendor_exception = record {
  publisher_id = publisher;
  origins = ascii "ghcr.io/fab/editor" ∷ [];
  statuses = unknown ∷ [];
  expires_at = ascii "2031-01-01T00:00:00Z";
  reason_code = ascii "vendor-review";
}

abbrev stage : ReputationPolicy
stage = record {
  mode = require_established;
  provider_id = ascii "provider";
  exceptions = vendor_exception ∷ [];
}

abbrev host : Policy
host = record zero_policy {
  abi = pos 2;
  x509 = some (record { revocation = ascii "require-good" });
  reputation = some stage;
}

abbrev answer : Reputation.Result
answer = record {
  provider_id = ascii "provider";
  publisher_id = publisher;
  status = unknown;
  issued_at = zero_time;
  expires_at = zero_time;
  sequence = 1;
  reason_code = ascii "no-record";
}

require_established_iff_example :
    ((evaluates_reputation host answer publisher (ascii "ghcr.io/fab/editor") zero_time).allowed
      ≡ true)
    ↔ ((answer.provider_id ≡ stage.provider_id)
        × (answer.publisher_id ≡ publisher)
        × ((answer.status ≡ established)
            ⊎ IsExcepted answer.status publisher (ascii "ghcr.io/fab/editor") zero_time stage))
require_established_iff_example =
    require_established_iff host stage answer publisher (ascii "ghcr.io/fab/editor") zero_time refl
      refl refl

abbrev consented : Trust.Final
consented = record {
  action = Trust.FinalAction.warn;
  class = Trust.ExitClass.allowed;
  reason_code = ascii "confirmed";
  exit_code = pos 0;
}

consented-resolved :
    resolve_policy_action Trust.PolicyAction.warn Trust.InvocationContext.graphical
      Trust.ConfirmationResponse.confirm
      (ascii "confirmed")
    ≡ ok (Trust.ConfirmationState.accepted, consented)
unfolding resolve_policy_action valid_context valid_reason_code match_string final_for
consented-resolved = refl

resolve_policy_action_sound_example :
    IsAccepted Trust.PolicyAction.warn Trust.InvocationContext.graphical
      Trust.ConfirmationState.accepted consented
    × ((goes_ahead Trust.FinalAction.warn ≡ true)
        ↔ IsConsented Trust.PolicyAction.warn Trust.InvocationContext.graphical
            Trust.ConfirmationResponse.confirm)
    × ((pos 0 ≡ pos 0) ↔ (goes_ahead Trust.FinalAction.warn ≡ true))
resolve_policy_action_sound_example =
    resolve_policy_action_sound Trust.PolicyAction.warn Trust.InvocationContext.graphical
      Trust.ConfirmationResponse.confirm (ascii "confirmed") Trust.ConfirmationState.accepted
      consented consented-resolved

consented-made : new_final Trust.FinalAction.warn (ascii "confirmed") ≡ ok consented
unfolding new_final valid_reason_code match_string
consented-made = refl

sanitize_text_safe_example :
    (safe_text (sanitize_text (7 ∷ ascii "bell") 3) 3 true ≡ ok tt)
    × ((sanitize_text (7 ∷ ascii "bell") 3 ≡ (7 ∷ ascii "bell"))
        ↔ (safe_text (7 ∷ ascii "bell") 3 true ≡ ok tt))
sanitize_text_safe_example = sanitize_text_safe (7 ∷ ascii "bell") 3

-- A warned launch of a signed application, which the user accepted.
abbrev launch : Trust.Result
launch = record {
  schema_version = pos 1;
  actor = ascii "cpak";
  operation = Trust.Operation.launch;
  context = Trust.InvocationContext.graphical;
  decision_source = Trust.DecisionSource.evaluated;
  subject = record { origin = ascii "ghcr.io/fab/editor"; artifact_digest = []; generation = 7 };
  verification = record {
    status = Trust.VerificationStatus.verified;
    evidence_kind = ascii "x509-cms-v1";
    reason_code = ascii "verified";
    diagnostic = [];
  };
  publisher = record {
    status = Trust.PublisherStatus.verified;
    id = ascii "x509-spki-sha256:00";
    display_name = ascii "Fab";
    origin_authorization = ascii "authorized";
    reason_code = ascii "verified";
  };
  trust = record {
    chain = ascii "trusted-public";
    root_source = [];
    signing_time = ascii "current";
    revocation = ascii "good";
    reason_code = ascii "trusted";
  };
  reputation = record {
    provider_id = ascii "provider";
    status = ascii "unknown";
    freshness = ascii "fresh";
    issued_at = ascii "2026-01-01T00:00:00Z";
    expires_at = [];
    reason_code = ascii "no-record";
  };
  policy = record {
    signature_mode = ascii "required";
    reputation_mode = ascii "warn";
    action = Trust.PolicyAction.warn;
    confirmation = Trust.ConfirmationState.accepted;
    exception_ = false;
    reason_code = ascii "no-record";
  };
  final = consented;
}

launch-valid : validate launch ≡ ok tt
unfolding validate match_string valid_operation valid_context validate_subject validate_verification
    validate_publisher validate_trust validate_reputation validate_policy validate_final
    validate_resolution safe_text one_of valid_reason_code canonical_time canonical completes
    advance is_control any text_beq
launch-valid = refl

validate_exit_zero_example :
    (goes_ahead launch.final.action ≡ true)
    × IsCovered launch
    × ((is_verify launch.operation ≡ true)
        ⊎ (launch.publisher.status ≢ Trust.PublisherStatus.verified)
        ⊎ (launch.publisher.origin_authorization ≡ ascii "authorized"))
validate_exit_zero_example = validate_exit_zero launch launch-valid refl

validate_identity_example :
    ((launch.publisher.status ≡ Trust.PublisherStatus.verified) × (launch.publisher.id ≢ []))
    ⊎ ((launch.publisher.status ≢ Trust.PublisherStatus.verified)
        × (launch.publisher.id ≡ [])
        × (launch.publisher.display_name ≡ [])
        × (launch.publisher.origin_authorization ≡ ascii "not-evaluated"))
validate_identity_example = validate_identity launch launch-valid
