-- ===== src/ApplicationTrust/Model.antt =====
-- pkg/applicationtrust/decision.go: the types of a result. A Go string type is a data type of its
-- constants, with `other` for any text that is none of them.
use cpak.Base.{ℕ, Bool, Option, none, some, nat_eq, Text, text_eq, ℤ, pos, int_eq}

pub data Operation : Type 0 where
  verify install update audit explain launch service_start : Operation
  other : Text → Operation

pub data InvocationContext : Type 0 where
  graphical interactive_terminal non_interactive : InvocationContext
  other : Text → InvocationContext

pub data DecisionSource : Type 0 where
  evaluated recorded : DecisionSource
  other : Text → DecisionSource

pub data VerificationStatus : Type 0 where
  verified unsigned invalid unavailable not_evaluated : VerificationStatus
  other : Text → VerificationStatus

pub data PublisherStatus : Type 0 where
  verified absent invalid unavailable not_evaluated : PublisherStatus
  other : Text → PublisherStatus

pub data PolicyAction : Type 0 where
  allow warn deny not_evaluated : PolicyAction
  other : Text → PolicyAction

pub data ConfirmationState : Type 0 where
  not_required required accepted declined not_available : ConfirmationState
  other : Text → ConfirmationState

-- A uint8 with three constants.
pub data ConfirmationResponse : Type 0 where
  no_confirmation confirm decline : ConfirmationResponse
  other : ℕ → ConfirmationResponse

pub data FinalAction : Type 0 where
  allow warn deny invalid unavailable confirmation_required : FinalAction
  other : Text → FinalAction

pub data ExitClass : Type 0 where
  allowed denied invalid unavailable confirmation_required : ExitClass
  other : Text → ExitClass

pub record Subject : Type 0 where
  pub origin : Text
  pub artifact_digest : Text
  pub generation : ℕ

pub record Verification : Type 0 where
  pub status : VerificationStatus
  pub evidence_kind : Text
  pub reason_code : Text
  pub diagnostic : Text

pub record Publisher : Type 0 where
  pub status : PublisherStatus
  pub id : Text
  pub display_name : Text
  pub origin_authorization : Text
  pub reason_code : Text

pub record Trust : Type 0 where
  pub chain : Text
  pub root_source : Text
  pub signing_time : Text
  pub revocation : Text
  pub reason_code : Text

pub record Reputation : Type 0 where
  pub provider_id : Text
  pub status : Text
  pub freshness : Text
  pub issued_at : Text
  pub expires_at : Text
  pub reason_code : Text

pub record Policy : Type 0 where
  pub signature_mode : Text
  pub reputation_mode : Text
  pub action : PolicyAction
  pub confirmation : ConfirmationState
  pub exception_ : Bool
  pub reason_code : Text

pub record Final : Type 0 where
  pub action : FinalAction
  pub class : ExitClass
  pub reason_code : Text
  pub exit_code : ℤ

pub record Result : Type 0 where
  pub schema_version : ℤ
  pub actor : Text
  pub operation : Operation
  pub context : InvocationContext
  pub decision_source : DecisionSource
  pub subject : Subject
  pub verification : Verification
  pub publisher : Publisher
  pub trust : Trust
  pub reputation : Reputation
  pub policy : Policy
  pub final : Final

-- The zero value of `Final`'s class and code stand for `"", 0, false`.
unfoldable pub final_mapping : FinalAction → Option (ExitClass × ℤ)
final_mapping FinalAction.allow = some (ExitClass.allowed, pos 0)
final_mapping FinalAction.warn = some (ExitClass.allowed, pos 0)
final_mapping FinalAction.deny = some (ExitClass.denied, pos 20)
final_mapping FinalAction.invalid = some (ExitClass.invalid, pos 21)
final_mapping FinalAction.unavailable = some (ExitClass.unavailable, pos 22)
final_mapping FinalAction.confirmation_required = some (ExitClass.confirmation_required, pos 23)
final_mapping (FinalAction.other _) = none
