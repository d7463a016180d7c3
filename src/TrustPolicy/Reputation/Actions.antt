-- ===== src/TrustPolicy/Reputation/Actions.antt =====
-- What the stage may answer at all, and what an unattended invocation gets.
use cpak.Base.{
  if_keeps, ◌≡◌, refl, ap, ◌⊎◌, inl, inr, Bool, true, false, Option, none, some, List, [], ◌∷◌,
  arith, ◌==◌, nat_eq, Bool-cases, all, ok, Text, ascii, text_eq, int_eq,
}
use mathlib.Core.Option
use cpak.Go.Regexp.{match_string}
use cpak.Go.Time.{Instant}
use cpak.Reputation.{
  Status, status_eq, blocked, established, unavailable_result, Result, name_pattern,
}
use cpak.TrustPolicy.Policy.{
  ReputationMode, audit, require_established, ReputationException, ReputationPolicy, Policy,
}
use cpak.TrustPolicy.Reputation.{
  InvocationContext, ReputationDecision, is_warn, is_interactive, evaluates_reputation,
  decides_reputation, confirmation, not_enforced, excepted, blocked_or_established, reputation_deny,
  reputation_allow, validate_decision, evaluated, by_mode, first_exception, reputation_exception,
  checked_result,
}

-- Where nobody can answer, the stage never warns: it allows only what needs no confirmation, and
-- then as it would allow it anywhere.
unattended_never_warns :
    (p : Policy) (result : Result) (publisher_id origin : Text) (now : Instant)
    (context : InvocationContext)
    → is_interactive context ≡ false
    → (is_warn (decides_reputation p result publisher_id origin now context).action ≡ false)
      × (((decides_reputation p result publisher_id origin now context).allowed ≡ false)
          ⊎ (decides_reputation p result publisher_id origin now context
              ≡ evaluates_reputation p result publisher_id origin now))
unfolding decides_reputation
unattended_never_warns p result publisher_id origin now context h = ground arith

abbrev pub has_name : ReputationException → Bool
has_name e = match_string name_pattern e.reason_code

abbrev IsValid : ReputationDecision → Type 0
IsValid d = validate_decision d ≡ ok tt

not_enforced-IsValid : IsValid not_enforced
unfolding validate_decision match_string reputation_allow
not_enforced-IsValid = refl

confirmation-IsValid : IsValid confirmation
unfolding validate_decision match_string
confirmation-IsValid = refl

blocked_or_established-IsValid :
    (status : Status) (d : ReputationDecision)
    → IsValid d
    → IsValid (blocked_or_established status d)
unfolding blocked_or_established validate_decision match_string reputation_allow reputation_deny
blocked_or_established-IsValid status d h = elim (Bool-cases (status == blocked)) [
  | inl b ↦ rw b
  | inr b ↦ elim (Bool-cases (status == established)) [ inl e ↦ rw (b, e) | inr e ↦ rw (b, e) h ]
]

excepted-IsValid :
    (o : Option ReputationException)
    → ((e : ReputationException) → o ≡ some e → has_name e ≡ true)
    → IsValid (excepted o)
excepted-IsValid none h = unfold validate_decision match_string reputation_deny in refl
excepted-IsValid (some e) h = unfold validate_decision reputation_allow in rw (h e refl) refl

first_exception-has_name :
    (es : List ReputationException) (status : Status) (publisher_id origin : Text) (now : Instant)
    (e : ReputationException)
    → all has_name es ≡ true
    → first_exception es status publisher_id origin now ≡ some e
    → has_name e ≡ true
unfolding first_exception all
first_exception-has_name [] status publisher_id origin now e a h = cc
first_exception-has_name (x ∷ es) status publisher_id origin now e a h = ground (
  arith,
  first_exception-has_name es status publisher_id origin now e,
  ap (Option.map has_name) h,
)

reputation_exception-has_name :
    (rp : ReputationPolicy) (status : Status) (publisher_id origin : Text) (now : Instant)
    (e : ReputationException)
    → all has_name rp.exceptions ≡ true
    → reputation_exception rp status publisher_id origin now ≡ some e
    → has_name e ≡ true
unfolding reputation_exception
reputation_exception-has_name rp status publisher_id origin now e a h =
    first_exception-has_name rp.exceptions status publisher_id origin now e a (ground arith)

abbrev IsNamed : Result → Type 0
IsNamed r = match_string name_pattern r.reason_code ≡ true

provider_mismatch-IsNamed :
    (rp : ReputationPolicy) (id : Text)
    → IsNamed (unavailable_result rp.provider_id id (ascii "provider-mismatch"))
unfolding match_string unavailable_result
provider_mismatch-IsNamed rp id = refl

publisher_mismatch-IsNamed :
    (rp : ReputationPolicy) (id : Text)
    → IsNamed (unavailable_result rp.provider_id id (ascii "publisher-mismatch"))
unfolding match_string unavailable_result
publisher_mismatch-IsNamed rp id = refl

checked_result-name :
    (rp : ReputationPolicy) (result : Result) (publisher_id : Text)
    → match_string name_pattern result.reason_code ≡ true
    → match_string name_pattern (checked_result rp result publisher_id).reason_code ≡ true
unfolding checked_result unavailable_result
checked_result-name rp result publisher_id h =
    ground
      (arith, publisher_mismatch-IsNamed rp publisher_id, provider_mismatch-IsNamed rp publisher_id)

by_mode-IsValid :
    (mode : ReputationMode) (rp : ReputationPolicy) (result : Result) (publisher_id origin : Text)
    (now : Instant)
    → match_string name_pattern result.reason_code ≡ true
    → all has_name rp.exceptions ≡ true
    → IsValid (by_mode mode rp result publisher_id origin now)
by_mode-IsValid audit rp result publisher_id origin now h a =
    unfold by_mode validate_decision match_string in refl
by_mode-IsValid ReputationMode.warn rp result publisher_id origin now h a =
    unfold by_mode in
    blocked_or_established-IsValid result.status _ (unfold validate_decision in rw h refl)
by_mode-IsValid require_established rp result publisher_id origin now h a =
    unfold by_mode in
    blocked_or_established-IsValid result.status _ (
      excepted-IsValid _
        (λ e. reputation_exception-has_name rp result.status publisher_id origin now e a))
by_mode-IsValid _ rp result publisher_id origin now h a =
    unfold by_mode validate_decision match_string in refl

evaluated-IsValid :
    (o : Option ReputationPolicy) (result : Result) (publisher_id origin : Text) (now : Instant)
    → match_string name_pattern result.reason_code ≡ true
    → ((rp : ReputationPolicy) → o ≡ some rp → all has_name rp.exceptions ≡ true)
    → IsValid (evaluated o result publisher_id origin now)
unfolding evaluated
evaluated-IsValid none result publisher_id origin now h x = not_enforced-IsValid
evaluated-IsValid (some rp) result publisher_id origin now h x =
    if_keeps IsValid _ _ _ not_enforced-IsValid (
      by_mode-IsValid rp.mode rp (checked_result rp result publisher_id) publisher_id origin now
        (checked_result-name rp result publisher_id h) (x rp refl))

-- Whatever the stage decides is a decision that `Validate` accepts, where the result and the
-- exceptions of the policy carry well-formed reason codes.
pub decides_reputation-valid :
    (p : Policy) (result : Result) (publisher_id origin : Text) (now : Instant)
    (context : InvocationContext)
    → match_string name_pattern result.reason_code ≡ true
    → ((rp : ReputationPolicy) → p.reputation ≡ some rp → all has_name rp.exceptions ≡ true)
    → validate_decision (decides_reputation p result publisher_id origin now context) ≡ ok tt
unfolding decides_reputation evaluates_reputation
decides_reputation-valid p result publisher_id origin now context h x =
    if_keeps IsValid _ _ _ confirmation-IsValid (
      if_keeps IsValid _ _ _ not_enforced-IsValid
        (evaluated-IsValid p.reputation result publisher_id origin now h x))
