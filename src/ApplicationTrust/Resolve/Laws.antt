-- ===== src/ApplicationTrust/Resolve/Laws.antt =====
-- What `ResolvePolicyAction` and `NewFinal` return is what `Validate` accepts.
use cpak.Base.{
  ◌≡◌, refl, ◌↔◌, ◌⊎◌, true, false, arith, nat_eq, ok, Text, ascii, text_eq, pos, int_eq,
}
use cpak.Go.Regexp.{match_string}
use cpak.ApplicationTrust.SafeText.{valid_reason_code}
use cpak.ApplicationTrust.Model.{
  InvocationContext, DecisionSource, PolicyAction, ConfirmationState, ConfirmationResponse,
  FinalAction, Final,
}
use cpak.ApplicationTrust.Validate.{
  is_non_interactive, goes_ahead, validate_final, validate_confirmation, resolution_of,
}
use cpak.ApplicationTrust.Resolve.{final_for, resolve_policy_action, new_final}

reason_required : valid_reason_code (ascii "confirmation-required") ≡ true
unfolding valid_reason_code match_string
reason_required = refl

reason_declined : valid_reason_code (ascii "confirmation-declined") ≡ true
unfolding valid_reason_code match_string
reason_declined = refl

-- What the checks of a result say of a resolution that was just made.
pub record IsAccepted (a : PolicyAction) (context : InvocationContext) (c : ConfirmationState)
    (f : Final) : Type 0 where
  pub confirmation_ok : validate_confirmation a c context DecisionSource.evaluated ≡ ok tt
  pub final_ok : validate_final f ≡ ok tt
  pub resolution_ok : resolution_of f.action a c context DecisionSource.evaluated ≡ ok tt

-- The conditions under which a resolution lets the operation go ahead.
abbrev pub IsConsented : PolicyAction → InvocationContext → ConfirmationResponse → Type 0
IsConsented a context response =
    ((a ≡ PolicyAction.allow) × (response ≡ ConfirmationResponse.no_confirmation))
    ⊎ ((a ≡ PolicyAction.warn)
        × (is_non_interactive context ≡ false)
        × (response ≡ ConfirmationResponse.confirm))

-- Every resolution passes the checks of the confirmation, of the final action and of the two
-- together, and it goes ahead, with exit code 0, exactly if the policy allows and nothing was
-- answered, or it warns and somebody who could answer confirmed.
pub resolve_policy_action_sound :
    (a : PolicyAction) (context : InvocationContext) (response : ConfirmationResponse)
    (reason : Text) (c : ConfirmationState) (f : Final)
    → resolve_policy_action a context response reason ≡ ok (c, f)
    → IsAccepted a context c f
      × ((goes_ahead f.action ≡ true) ↔ IsConsented a context response)
      × ((f.exit_code ≡ pos 0) ↔ (goes_ahead f.action ≡ true))
unfolding resolve_policy_action final_for validate_confirmation validate_final resolution_of
resolve_policy_action_sound PolicyAction.allow context response reason c f h = ground arith
resolve_policy_action_sound PolicyAction.deny context response reason c f h = ground arith
resolve_policy_action_sound PolicyAction.warn context response reason c f h =
    ground (arith, reason_required, reason_declined)
resolve_policy_action_sound _ context response reason c f h = ground arith

-- A final result that is made passes the check of final results, and has the action and the reason
-- that it was asked for.
pub new_final_valid :
    (a : FinalAction) (reason : Text) (f : Final)
    → new_final a reason ≡ ok f
    → (validate_final f ≡ ok tt) × (f.action ≡ a) × (f.reason_code ≡ reason)
unfolding new_final validate_final
new_final_valid a reason f h = ground arith
