-- ===== src/TrustPolicy/Reputation.antt =====
-- pkg/trustpolicy/reputation.go: the reputation stage of a host policy.
pub mod Exceptions
pub mod Actions
use cpak.Base.{
  zero, ◌-◌, Bool, true, false, not, ◌&&◌, ◌||◌, Option, none, some, List, [], ◌∷◌, ltb,
  if◌then◌else◌, ◌==◌, ◌!=◌, nat_eq, any, length, is_empty, contains, Outcome, err, ◌>>=◌, ◌>>◌,
  refuse_if, Text, ascii, text_eq, int_eq,
}
use cpak.Go.Regexp.{match_string}
use cpak.Go.Time.{Instant, zero_time, parse, instant, Stamp}
use cpak.Reputation.{
  Status, unknown, established, caution, blocked, unavailable, status_eq, Result, name_pattern,
  unavailable_result,
}
use cpak.TrustPolicy.Origin.{same_origin}
use cpak.TrustPolicy.Policy.{
  ReputationMode, off, audit, require_established, ReputationException, ReputationPolicy, Policy,
  current_abi_version,
}

-- Go's `InvocationContext` and `DecisionAction` are strings; `other` is any other text.
pub data InvocationContext : Type 0 where
  graphical interactive_terminal non_interactive : InvocationContext
  other : Text → InvocationContext

pub data Action : Type 0 where
  allow warn deny confirmation_required : Action
  other : Text → Action

pub record ReputationDecision : Type 0 where
  pub allowed : Bool
  pub action : Action
  pub reason_code : Text
  pub reason : Text
  pub exception_ : Bool

unfoldable pub reputation_allow : Text → Text → ReputationDecision
reputation_allow c r = record {
  allowed = true;
  action = Action.allow;
  reason_code = c;
  reason = r;
  exception_ = false;
}

unfoldable pub reputation_deny : Text → Text → ReputationDecision
reputation_deny c r = record {
  allowed = false;
  action = Action.deny;
  reason_code = c;
  reason = r;
  exception_ = false;
}

-- When an exception ends; an unreadable date is the zero time, which is past.
unfoldable pub expiry : Option Stamp → Instant
expiry none = zero_time
expiry (some t) = instant t

unfoldable pub is_expired : ReputationException → Instant → Bool
unfolding expiry
is_expired e now = (e.expires_at != []) && not (ltb now (expiry (parse e.expires_at)))

unfoldable pub in_scope : ReputationException → Status → Text → Text → Bool
in_scope e status publisher_id origin =
    (e.publisher_id == publisher_id)
    && (any (λ o. same_origin o origin) e.origins && contains status e.statuses)

-- The loop of `reputationException`.
unfoldable pub first_exception :
    List ReputationException → Status → Text → Text → Instant → Option ReputationException
first_exception [] status publisher_id origin now = none
first_exception (e ∷ es) status publisher_id origin now =
    let rest = first_exception es status publisher_id origin now in
    if not (in_scope e status publisher_id origin)
    then rest
    else if is_expired e now
    then rest
    else some e

unfoldable pub reputation_exception :
    ReputationPolicy → Status → Text → Text → Instant → Option ReputationException
unfolding first_exception
reputation_exception rp status publisher_id origin now =
    if (status != unknown) && (status != caution)
    then none
    else first_exception rp.exceptions status publisher_id origin now

-- A result of another provider, or about another publisher, counts as unavailable.
unfoldable pub checked_result : ReputationPolicy → Result → Text → Result
unfolding unavailable_result
checked_result rp result publisher_id =
    let own =
      if (result.provider_id != rp.provider_id) && (result.status != unavailable)
      then unavailable_result rp.provider_id publisher_id (ascii "provider-mismatch")
      else result in
    if own.publisher_id != publisher_id
    then unavailable_result rp.provider_id publisher_id (ascii "publisher-mismatch")
    else own

abbrev pub excepted : Option ReputationException → ReputationDecision
excepted none =
    reputation_deny (ascii "publisher-not-established")
      (ascii "this host requires an established publisher")
excepted (some e) =
    record (reputation_allow e.reason_code
      (ascii "a scoped administrator exception permits this reputation result")) {
        exception_ = true;
      }

blocked_or_established : Status → ReputationDecision → ReputationDecision
blocked_or_established status otherwise =
    if status == blocked
    then reputation_deny (ascii "publisher-blocked")
        (ascii "the configured reputation provider blocks this publisher")
    else if status == established
    then reputation_allow (ascii "publisher-established")
        (ascii "the configured reputation provider reports an established publisher")
    else otherwise

-- The switch over the mode, on the checked result.
by_mode : ReputationMode → ReputationPolicy → Result → Text → Text → Instant → ReputationDecision
unfolding blocked_or_established reputation_exception reputation_allow reputation_deny
by_mode audit rp result publisher_id origin now =
    reputation_allow (ascii "reputation-audited")
      (ascii "publisher reputation was recorded without changing the host decision")
by_mode ReputationMode.warn rp result publisher_id origin now =
    blocked_or_established result.status (record {
      allowed = true;
      action = Action.warn;
      reason_code = result.reason_code;
      reason = ascii "publisher reputation requires a warning before continuing";
      exception_ = false;
    })
by_mode require_established rp result publisher_id origin now =
    blocked_or_established result.status
      (excepted (reputation_exception rp result.status publisher_id origin now))
by_mode _ rp result publisher_id origin now =
    reputation_deny (ascii "reputation-policy-invalid")
      (ascii "the reputation policy cannot be applied")

abbrev pub is_off : ReputationMode → Bool
is_off off = true
is_off _ = false

abbrev pub not_enforced : ReputationDecision
not_enforced =
    reputation_allow (ascii "reputation-off")
      (ascii "publisher reputation is not enforced on this host")

evaluated : Option ReputationPolicy → Result → Text → Text → Instant → ReputationDecision
unfolding by_mode checked_result
evaluated none result publisher_id origin now = not_enforced
evaluated (some rp) result publisher_id origin now =
    if is_off rp.mode
    then not_enforced
    else by_mode rp.mode rp (checked_result rp result publisher_id) publisher_id origin now

unfoldable pub evaluates_reputation : Policy → Result → Text → Text → Instant → ReputationDecision
unfolding evaluated
evaluates_reputation p result publisher_id origin now =
    if p.abi != current_abi_version
    then not_enforced
    else evaluated p.reputation result publisher_id origin now

abbrev pub is_warn : Action → Bool
is_warn Action.warn = true
is_warn _ = false

-- The contexts in which a person can answer.
abbrev pub is_interactive : InvocationContext → Bool
is_interactive graphical = true
is_interactive interactive_terminal = true
is_interactive _ = false

abbrev pub confirmation : ReputationDecision
confirmation = record {
  allowed = false;
  action = Action.confirmation_required;
  reason_code = ascii "reputation-confirmation-required";
  reason =
      ascii "publisher reputation requires confirmation, and this invocation is non-interactive";
  exception_ = false;
}

unfoldable pub decides_reputation :
    Policy → Result → Text → Text → Instant → InvocationContext → ReputationDecision
decides_reputation p result publisher_id origin now context =
    let decision = evaluates_reputation p result publisher_id origin now in
    if is_warn decision.action && not (is_interactive context) then confirmation else decision

-- `ReputationDecision.Validate`, and the errors it tells apart.
pub data DecisionError : Type 0 where
  allowing_refused refusing_allowed unknown_action bad_reason_code bad_reason : DecisionError

action_ok : Action → Bool → Outcome DecisionError Unit
action_ok Action.allow allowed = refuse_if (not allowed) allowing_refused
action_ok Action.warn allowed = refuse_if (not allowed) allowing_refused
action_ok Action.deny allowed = refuse_if allowed refusing_allowed
action_ok Action.confirmation_required allowed = refuse_if allowed refusing_allowed
action_ok (Action.other _) allowed = err unknown_action

unfoldable pub validate_decision : ReputationDecision → Outcome DecisionError Unit
unfolding action_ok
validate_decision d = do
  action_ok d.action d.allowed
  refuse_if (not (match_string name_pattern d.reason_code)) bad_reason_code
  refuse_if (is_empty d.reason || ltb 200 (length d.reason)) bad_reason
