-- ===== src/ApplicationTrust/Validate.antt =====
-- pkg/applicationtrust/decision.go: `Result.Validate` and what it calls, in its order.
pub mod Laws
use cpak.Base.{
  ◌-◌, Bool, true, false, not, ◌&&◌, ◌||◌, Option, none, some, [], ◌∷◌, if◌then◌else◌, ◌!=◌, nat_eq,
  ok, err, ◌>>=◌, ◌>>◌, refuse_if, wrap, ascii, text_beq, text_eq, ℤ, pos, int_eq,
}
use cpak.Go.Regexp.{match_string}
use cpak.Reputation.{name_pattern}
use cpak.ApplicationTrust.SafeText.{one_of}
use cpak.ApplicationTrust.Model.{
  Operation, InvocationContext, DecisionSource, PolicyAction, ConfirmationState, FinalAction,
  ExitClass, Policy, Final, Result, final_mapping,
}
use cpak.ApplicationTrust.Fields.{
  Check, check_reason, valid_operation, valid_context, valid_source, validate_subject,
  validate_verification, is_verified, validate_publisher, validate_trust, validate_reputation,
  allows_other_policy, asks_outside_warning, confirmation_unavailable, confirmation_without_warning,
  denies_other_policy, denies_unconfirmed, foreign_publisher, in_final, in_policy, in_publisher,
  in_reputation, in_subject, in_trust, in_verification, inferred_confirmation, invalid_action,
  invalid_actor, invalid_confirmation, invalid_context, invalid_operation, invalid_reputation_mode,
  invalid_signature_mode, invalid_source, mapping_disagrees, overrides_prerequisite,
  unsupported_schema, warns_unconfirmed,
}

abbrev pub is_non_interactive : InvocationContext → Bool
is_non_interactive InvocationContext.non_interactive = true
is_non_interactive _ = false

abbrev pub is_recorded : DecisionSource → Bool
is_recorded DecisionSource.recorded = true
is_recorded _ = false

abbrev pub is_not_required : ConfirmationState → Bool
is_not_required ConfirmationState.not_required = true
is_not_required _ = false

abbrev pub is_not_available : ConfirmationState → Bool
is_not_available ConfirmationState.not_available = true
is_not_available _ = false

abbrev pub is_accepted : ConfirmationState → Bool
is_accepted ConfirmationState.accepted = true
is_accepted _ = false

abbrev pub is_declined : ConfirmationState → Bool
is_declined ConfirmationState.declined = true
is_declined _ = false

abbrev pub is_required : ConfirmationState → Bool
is_required ConfirmationState.required = true
is_required _ = false

abbrev pub may_follow_warning : ConfirmationState → Bool
may_follow_warning c = is_required c || is_accepted c || is_declined c || is_not_available c

-- The switch over the action.
unfoldable pub validate_confirmation :
    PolicyAction → ConfirmationState → InvocationContext → DecisionSource → Check
validate_confirmation PolicyAction.warn c context source = do
  refuse_if (not (may_follow_warning c)) invalid_confirmation
  refuse_if (is_non_interactive context && not (is_not_available c) && not (is_recorded source))
      inferred_confirmation
  refuse_if (not (is_non_interactive context) && is_not_available c) confirmation_unavailable
validate_confirmation (PolicyAction.other _) c context source = err invalid_action
validate_confirmation _ c context source =
    refuse_if (not (is_not_required c)) confirmation_without_warning

unfoldable pub validate_policy : Policy → InvocationContext → DecisionSource → Check
unfolding validate_confirmation
validate_policy p context source = do
  refuse_if
      (not (
        one_of p.signature_mode
          (ascii "optional" ∷ ascii "required" ∷ ascii "not-applicable" ∷ [])))
      invalid_signature_mode
  refuse_if
      (not (
        one_of p.reputation_mode (
          ascii "off"
          ∷ ascii "audit"
          ∷ ascii "warn"
          ∷ ascii "require-established"
          ∷ ascii "not-applicable"
          ∷ [])))
      invalid_reputation_mode
  validate_confirmation p.action p.confirmation context source
  check_reason p.reason_code

abbrev pub class_beq : ExitClass → ExitClass → Bool
class_beq ExitClass.allowed ExitClass.allowed = true
class_beq ExitClass.denied ExitClass.denied = true
class_beq ExitClass.invalid ExitClass.invalid = true
class_beq ExitClass.unavailable ExitClass.unavailable = true
class_beq ExitClass.confirmation_required ExitClass.confirmation_required = true
class_beq (ExitClass.other a) (ExitClass.other b) = text_beq a b
class_beq _ _ = false

mapping_agrees : Final → Option (ExitClass × ℤ) → Check
mapping_agrees f none = err invalid_action
mapping_agrees f (some (class, code)) =
    refuse_if (not (class_beq f.class class) || (f.exit_code != code)) mapping_disagrees

unfoldable pub validate_final : Final → Check
unfolding mapping_agrees final_mapping
validate_final f = do check_reason f.reason_code; mapping_agrees f (final_mapping f.action)

abbrev pub is_warn : PolicyAction → Bool
is_warn PolicyAction.warn = true
is_warn _ = false

abbrev pub is_deny : PolicyAction → Bool
is_deny PolicyAction.deny = true
is_deny _ = false

abbrev pub allows : PolicyAction → Bool
allows PolicyAction.allow = true
allows PolicyAction.not_evaluated = true
allows _ = false

-- The switch of `validateResolution`; an action that is no constant passes it.
unfoldable pub resolution_of :
    FinalAction → PolicyAction → ConfirmationState → InvocationContext → DecisionSource → Check
resolution_of FinalAction.allow action c context source =
    refuse_if (not (allows action)) allows_other_policy
resolution_of FinalAction.warn action c context source =
    refuse_if
      (not (is_warn action)
        || not (is_accepted c)
        || is_non_interactive context && not (is_recorded source))
      warns_unconfirmed
resolution_of FinalAction.deny action c context source =
    if is_warn action
    then refuse_if (not (is_declined c)) denies_unconfirmed
    else refuse_if (not (is_deny action)) denies_other_policy
resolution_of FinalAction.confirmation_required action c context source =
    refuse_if (not (is_warn action) || not (is_required c) && not (is_not_available c))
      asks_outside_warning
resolution_of FinalAction.invalid action c context source =
    refuse_if (not (is_not_required c)) overrides_prerequisite
resolution_of FinalAction.unavailable action c context source =
    refuse_if (not (is_not_required c)) overrides_prerequisite
resolution_of (FinalAction.other _) action c context source = ok tt

abbrev pub is_verify : Operation → Bool
is_verify Operation.verify = true
is_verify _ = false

abbrev pub goes_ahead : FinalAction → Bool
goes_ahead FinalAction.allow = true
goes_ahead FinalAction.warn = true
goes_ahead _ = false

unfoldable pub validate_resolution : Result → Check
unfolding resolution_of
validate_resolution r = do
  resolution_of r.final.action r.policy.action r.policy.confirmation r.context r.decision_source
  refuse_if
      (not (is_verify r.operation)
        && goes_ahead r.final.action
        && is_verified r.publisher.status
        && (r.publisher.origin_authorization != ascii "authorized"))
      foreign_publisher

unfoldable pub validate : Result → Check
validate r = do
  refuse_if (r.schema_version != pos 1) unsupported_schema
  refuse_if (not (match_string name_pattern r.actor)) invalid_actor
  refuse_if (not (valid_operation r.operation)) invalid_operation
  refuse_if (not (valid_context r.context)) invalid_context
  refuse_if (not (valid_source r.decision_source)) invalid_source
  wrap in_subject (validate_subject r.subject)
  wrap in_verification (validate_verification r.verification)
  wrap in_publisher (validate_publisher r.publisher)
  wrap in_trust (validate_trust r.trust)
  wrap in_reputation (validate_reputation r.reputation)
  wrap in_policy (validate_policy r.policy r.context r.decision_source)
  wrap in_final (validate_final r.final)
  validate_resolution r
