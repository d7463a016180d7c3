-- ===== src/ApplicationTrust/Resolve.antt =====
-- pkg/applicationtrust/decision.go: `ResolvePolicyAction`, `NewFinal` and `finalFor`.
pub mod Laws
use cpak.Base.{
  zero, ◌-◌, Bool, true, false, not, Option, none, some, [], if◌then◌else◌, Outcome, ok, err, ◌>>=◌,
  ◌>>◌, refuse_if, Text, ascii, ℤ, pos,
}
use cpak.ApplicationTrust.SafeText.{valid_reason_code}
use cpak.ApplicationTrust.Model.{
  InvocationContext, PolicyAction, ConfirmationState, ConfirmationResponse, FinalAction, ExitClass,
  Final, final_mapping,
}
use cpak.ApplicationTrust.Fields.{valid_context}
use cpak.ApplicationTrust.Validate.{is_non_interactive}

pub data ResolveError : Type 0 where
  invalid_context invalid_reason_code allow_confirmed deny_confirmed : ResolveError
  unattended_answer invalid_response unresolvable invalid_action : ResolveError

-- A mapping that failed gives the zero values.
final_of : FinalAction → Text → Option (ExitClass × ℤ) → Final
final_of a reason none = record {
  action = a;
  class = ExitClass.other [];
  reason_code = reason;
  exit_code = pos 0;
}
final_of a reason (some (c, code)) = record {
  action = a;
  class = c;
  reason_code = reason;
  exit_code = code;
}

unfoldable pub final_for : FinalAction → Text → Final
unfolding final_of final_mapping
final_for a reason = final_of a reason (final_mapping a)

abbrev is_no_confirmation : ConfirmationResponse → Bool
is_no_confirmation ConfirmationResponse.no_confirmation = true
is_no_confirmation _ = false

abbrev pub Resolution : Type 0
Resolution = Outcome ResolveError (ConfirmationState × Final)

-- The inner switch, in a context where somebody can answer.
answered : ConfirmationResponse → Text → Resolution
answered ConfirmationResponse.no_confirmation reason = ok (
  ConfirmationState.required,
  final_for FinalAction.confirmation_required (ascii "confirmation-required"),
)
answered ConfirmationResponse.confirm reason =
    ok (ConfirmationState.accepted, final_for FinalAction.warn reason)
answered ConfirmationResponse.decline reason =
    ok (ConfirmationState.declined, final_for FinalAction.deny (ascii "confirmation-declined"))
answered (ConfirmationResponse.other _) reason = err invalid_response

resolved : PolicyAction → InvocationContext → ConfirmationResponse → Text → Resolution
unfolding answered
resolved PolicyAction.allow context response reason = do
  refuse_if (not (is_no_confirmation response)) allow_confirmed
  ok (ConfirmationState.not_required, final_for FinalAction.allow reason)
resolved PolicyAction.deny context response reason = do
  refuse_if (not (is_no_confirmation response)) deny_confirmed
  ok (ConfirmationState.not_required, final_for FinalAction.deny reason)
resolved PolicyAction.warn context response reason =
    if is_non_interactive context
    then (do
      refuse_if (not (is_no_confirmation response)) unattended_answer
      ok (
        ConfirmationState.not_available,
        final_for FinalAction.confirmation_required (ascii "confirmation-required"),
      ))
    else answered response reason
resolved _ context response reason = err unresolvable

unfoldable pub resolve_policy_action :
    PolicyAction → InvocationContext → ConfirmationResponse → Text → Resolution
unfolding resolved
resolve_policy_action a context response reason = do
  refuse_if (not (valid_context context)) invalid_context
  refuse_if (not (valid_reason_code reason)) invalid_reason_code
  resolved a context response reason

new_final_of : FinalAction → Text → Option (ExitClass × ℤ) → Outcome ResolveError Final
new_final_of a reason none = err invalid_action
new_final_of a reason (some (c, code)) =
    ok (record { action = a; class = c; reason_code = reason; exit_code = code })

unfoldable pub new_final : FinalAction → Text → Outcome ResolveError Final
unfolding new_final_of final_mapping
new_final a reason = do
  refuse_if (not (valid_reason_code reason)) invalid_reason_code
  new_final_of a reason (final_mapping a)
