-- ===== src/ApplicationTrust/Validate/Laws.antt =====
-- What a result that passes `Validate` guarantees to whoever acts on its exit code.
use cpak.Base.{
  ℕ, ◌≡◌, refl, ◌≢◌, ◌⊎◌, inl, inr, true, false, [], arith, nat_eq, Bool-cases, ok, Text, ascii,
  text_beq_iff, text_eq, pos, int_eq,
}
use cpak.ApplicationTrust.SafeText.{safe_text}
use cpak.ApplicationTrust.Model.{
  InvocationContext, DecisionSource, PolicyAction, ConfirmationState, FinalAction, Result, Final,
  Publisher, PublisherStatus, final_mapping,
}
use cpak.ApplicationTrust.Fields.{validate_publisher, is_verified}
use cpak.ApplicationTrust.Validate.{
  validate, validate_policy, validate_final, validate_resolution, resolution_of, mapping_agrees,
  allows, is_non_interactive, is_recorded, goes_ahead, is_verify,
}

-- The checks that a valid result has passed, which the rest of this file reads.
record Passed (r : Result) : Type 0 where
  pub publisher_ok : validate_publisher r.publisher ≡ ok tt
  pub policy_ok : validate_policy r.policy r.context r.decision_source ≡ ok tt
  pub final_ok : validate_final r.final ≡ ok tt
  pub resolution_ok : validate_resolution r ≡ ok tt

validate-Passed : (r : Result) → validate r ≡ ok tt → Passed r
unfolding validate
validate-Passed r h = record {
  publisher_ok = ground arith;
  policy_ok = ground arith;
  final_ok = ground arith;
  resolution_ok = ground arith;
}

-- A final action with exit code 0 allows or warns.
final-goes_ahead :
    (f : Final) → validate_final f ≡ ok tt → f.exit_code ≡ pos 0 → goes_ahead f.action ≡ true
unfolding validate_final mapping_agrees final_mapping
final-goes_ahead f h z = ground arith

-- Who may go ahead: nobody was warned, or the warning was accepted, in a context where somebody can
-- answer or in a decision that was recorded.
abbrev pub IsCovered : Result → Type 0
IsCovered r =
    (allows r.policy.action ≡ true)
    ⊎ ((r.policy.action ≡ PolicyAction.warn)
        × (r.policy.confirmation ≡ ConfirmationState.accepted)
        × ((is_non_interactive r.context ≡ false) ⊎ (is_recorded r.decision_source ≡ true)))

of_parts :
    (f : FinalAction) (action : PolicyAction) (c : ConfirmationState) (context : InvocationContext)
    (source : DecisionSource)
    → resolution_of f action c context source ≡ ok tt
    → goes_ahead f ≡ true
    → (allows action ≡ true)
      ⊎ ((action ≡ PolicyAction.warn)
          × (c ≡ ConfirmationState.accepted)
          × ((is_non_interactive context ≡ false) ⊎ (is_recorded source ≡ true)))
unfolding resolution_of
of_parts FinalAction.allow action c context source h g = inl (ground arith)
of_parts FinalAction.warn PolicyAction.warn c context source h g = inr (ground arith)
of_parts FinalAction.warn action c context source h g = ground arith
of_parts f action c context source h g = ground arith

resolution-IsCovered :
    (r : Result) → validate_resolution r ≡ ok tt → goes_ahead r.final.action ≡ true → IsCovered r
unfolding validate_resolution
resolution-IsCovered r h g =
    of_parts r.final.action r.policy.action r.policy.confirmation r.context r.decision_source
      (ground arith) g

resolution-authorized :
    (r : Result)
    → validate_resolution r ≡ ok tt
    → goes_ahead r.final.action ≡ true
    → (is_verify r.operation ≡ true)
      ⊎ (r.publisher.status ≢ PublisherStatus.verified)
      ⊎ (r.publisher.origin_authorization ≡ ascii "authorized")
unfolding validate_resolution
resolution-authorized r h g =
    ground (arith, text_beq_iff r.publisher.origin_authorization (ascii "authorized"))

-- A valid result with exit code 0 allows or warns, and the policy let it: it allowed or was not
-- evaluated, or its warning was accepted by somebody who could answer or in a recorded decision;
-- and outside `verify` a verified publisher is authorized for the origin.
pub validate_exit_zero :
    (r : Result)
    → validate r ≡ ok tt
    → r.final.exit_code ≡ pos 0
    → (goes_ahead r.final.action ≡ true)
      × IsCovered r
      × ((is_verify r.operation ≡ true)
          ⊎ (r.publisher.status ≢ PublisherStatus.verified)
          ⊎ (r.publisher.origin_authorization ≡ ascii "authorized"))
validate_exit_zero r h z =
    let passed = validate-Passed r h in
    let onward = final-goes_ahead r.final passed.final_ok z in
    (
      onward,
      resolution-IsCovered r passed.resolution_ok onward,
      resolution-authorized r passed.resolution_ok onward,
    )

-- What `validate_publisher` lets through, with the status as a value of its own.
abbrev Identified : PublisherStatus → Text → Text → Text → Type 0
Identified status id name authorization =
    ((status ≡ PublisherStatus.verified) × (id ≢ []))
    ⊎ ((status ≢ PublisherStatus.verified)
        × (id ≡ [])
        × (name ≡ [])
        × (authorization ≡ ascii "not-evaluated"))

required_text : (value : Text) (limit : ℕ) → safe_text value limit false ≡ ok tt → value ≢ []
unfolding safe_text
required_text value limit h e = ground (arith, text_beq_iff value [])

is_verified-true : (s : PublisherStatus) → is_verified s ≡ true → s ≡ PublisherStatus.verified
is_verified-true PublisherStatus.verified h = refl
is_verified-true s h = cc

publisher-Identified :
    (p : Publisher)
    → validate_publisher p ≡ ok tt
    → Identified p.status p.id p.display_name p.origin_authorization
unfolding validate_publisher
publisher-Identified p h = elim (Bool-cases (is_verified p.status)) [
  | inl v ↦ inl (is_verified-true p.status v, required_text p.id 512 (ground arith))
  | inr v ↦ inr (
    ground arith,
    ground (arith, text_beq_iff p.id []),
    ground (arith, text_beq_iff p.display_name []),
    ground (arith, text_beq_iff p.origin_authorization (ascii "not-evaluated")),
  )
]

-- A valid result names a publisher exactly if it is verified: the identity of a verified one is not
-- empty, and that of any other is, with its display name, and no origin authorization is claimed.
pub validate_identity :
    (r : Result)
    → validate r ≡ ok tt
    → ((r.publisher.status ≡ PublisherStatus.verified) × (r.publisher.id ≢ []))
      ⊎ ((r.publisher.status ≢ PublisherStatus.verified)
          × (r.publisher.id ≡ [])
          × (r.publisher.display_name ≡ [])
          × (r.publisher.origin_authorization ≡ ascii "not-evaluated"))
validate_identity r h = publisher-Identified r.publisher (validate-Passed r h).publisher_ok
