-- ===== src/SystemAuthority/Admission.antt =====
-- pkg/systemauthority: `admitSignature` of anchor.go, and `admitTrust` of trust.go with its stages.
pub mod Laws
use cpak.Base.{
  ℕ, zero, suc, ◌+◌, ◌-◌, ◌*◌, ◌/◌, ◌%◌, ◌^◌, ◌≤◌, ◌<◌, ◌≡◌, refl, sym, ap, ◌∙◌, ◌≢◌, ◌↔◌, ◌⊎◌, inl,
  inr, Bool, true, false, not, ◌&&◌, ◌||◌, Option, none, some, List, [], ◌∷◌, ◌++◌, map, Memᴰ,
  arith, ltb, leb, nat_beq, nat_beq_iff, if◌then◌else◌, Eq, ◌==◌, ◌!=◌, nat_eq, Bool-cases,
  Option-cases, any, all, length, is_empty, length-append, any-eq-true, any_of_mem, all_mem,
  all_of_mem, all-append, any-append, all_mono, not_true, contains, contains_mem, contains_of_mem,
  Outcome, ok, err, ◌>>=◌, ◌>>◌, refuse_if, wrap, Text, ascii, text_beq, text_beq_iff, text_eq, ℤ,
  pos, int_eq, int_beq_iff, all_mono, ℤ, pos, negsuc, int_eq, not_true,
}
use cpak.TrustPolicy.Policy.{
  Policy, ReputationMode, ReputationPolicy, off, other, current_abi_version, empty, Decision,
  is_none,
}
use cpak.TrustPolicy.Decide.{
  allows_origin, allows_normalized_publisher, allows_approval, is_revoked,
}
use cpak.TrustPolicy.Reputation.{ReputationDecision, evaluates_reputation, is_warn, is_off}
use cpak.Reputation.{Result}
use cpak.Signature.{State}
use cpak.Signature.Evidence.{VerificationResult, PublisherIdentity, not_verified}
use cpak.SystemAuthority.Confirmations.{Challenge, Entries, issue, consume, matches_warning}
use cpak.SystemAuthority.{
  SignedState, evidence_of, Enrolment, Tombstone, LedgerError, World, anchor_downgrade,
  signature_downgrade, signature_lost, signature_required, trust_refused, trust_refused_unsigned,
  approval_unavailable, approval_refused, reputation_refused, confirmation_required,
  no_publisher_identity, no_verification_result, confirmation_failed, other_abi, bad_origin,
  bad_digest, bad_root, bad_launch_root, state_invalid, evidence_invalid, other_package, unbound,
  other_image, other_manifest, bundle_too_large, verification_missing, verification_unsigned,
  verification_other_state, verification_not_authorized, verification_chain, verification_time,
  verification_revoked, reputation_apart, bad_signature_mode, bad_reputation_mode,
  reputation_unsigned, reputation_invalid, decision_invalid, schema_without_policy,
  policy_not_its_root, schema_failed, names_another_package, not_standing, setting_unreadable,
  path_not_absolute, directory_invalid, file_not_trusted, file_too_large, file_undecodable,
  not_its_file, create_failed, write_failed, remove_failed,
}

-- `SignedState.VerifyPublisher`, whose identity the authority does not read.
unfoldable pub verify_publisher :
    World → SignedState → Text → Outcome LedgerError VerificationResult
unfolding not_verified
verify_publisher w s origin = do
  refuse_if (s.state.origin != origin) (names_another_package s.state.origin)
  result ← wrap not_standing (w.verify_evidence (evidence_of s))
  refuse_if (not_verified result) (not_standing result.reason_code)
  refuse_if (result.origin_authorization != ascii "authorized") (not_standing result.reason_code)
  ok result

signature_stands : World → Text → Enrolment → Option SignedState → Outcome LedgerError Enrolment
unfolding verify_publisher
signature_stands w mode e none = do
  refuse_if (mode == ascii "required") (signature_required e.anchor.origin)
  ok e
signature_stands w mode e (some s) = do
  result ← verify_publisher w s e.anchor.origin
  ok (record e { verification = some result })

unfoldable pub admit_signature : World → Enrolment → Outcome LedgerError Enrolment
unfolding signature_stands
admit_signature w e = do
  mode ← wrap setting_unreadable w.signature_policy
  signature_stands w mode (record e { signature_mode = mode }) e.signature

-- `refusedBy`, of a decision that does not allow.
unfoldable pub allowed_by : Decision → Outcome LedgerError Unit
allowed_by d = refuse_if (not d.allowed) (trust_refused d.reason)

publisher_of : Option VerificationResult → Outcome LedgerError PublisherIdentity
publisher_of none = err no_verification_result
publisher_of (some r) = or_else r.publisher
  where
    or_else : Option PublisherIdentity → Outcome LedgerError PublisherIdentity
    or_else none = err no_verification_result
    or_else (some p) = ok p

unfoldable pub admit_publisher : Policy → Enrolment → Outcome LedgerError (Option PublisherIdentity)
unfolding publisher_of allowed_by
admit_publisher policy e = signed_by e.signature
  where
    signed_by : Option SignedState → Outcome LedgerError (Option PublisherIdentity)
    signed_by none = do
      refuse_if policy.require_publisher (trust_refused_unsigned e.anchor.origin)
      ok none
    signed_by (some s) = do
      p ← publisher_of e.verification
      allowed_by (allows_normalized_publisher policy p.id p.issuer p.repository e.anchor.origin)
      ok (some p)

unfoldable pub publisher_generation : Option SignedState → ℕ
publisher_generation none = 0
publisher_generation (some s) = s.state.generation

unfoldable pub admit_approval : World → Policy → Enrolment → Outcome LedgerError Unit
unfolding allowed_by
admit_approval w policy e = if not policy.require_approval then ok tt else asked w.verify_approval
  where
    asked : Option (Enrolment → Outcome Text (Text × Text)) → Outcome LedgerError Unit
    asked none = err (approval_unavailable e.anchor.origin)
    asked (some check) = do
      (issuer, repo) ← wrap approval_refused (check e)
      allowed_by (allows_approval policy issuer repo)

-- What `admitTrust` asks of a policy that decides something, in front of the reputation stage.
unfoldable pub admit_rules :
    World → Policy → Enrolment → Outcome LedgerError (Option PublisherIdentity)
unfolding allowed_by admit_publisher publisher_generation admit_approval
admit_rules w policy e = do
  allowed_by (allows_origin policy e.anchor.origin)
  publisher ← admit_publisher policy e
  allowed_by (is_revoked policy e.anchor.origin (publisher_generation e.signature))
  admit_approval w policy e
  ok publisher

-- The mode that is recorded; the stage is skipped in mode `off`.
unfoldable pub recorded_mode : Policy → ReputationMode
recorded_mode policy = if policy.abi == current_abi_version then mode_of policy.reputation else off
  where
    mode_of : Option ReputationPolicy → ReputationMode
    mode_of none = off
    mode_of (some rp) = rp.mode

confirms : Option Challenge → Result → ReputationDecision → Bool
confirms none result decision = false
confirms (some c) result decision = matches_warning c result decision

-- The store of tokens is changed also where the enrolment is refused.
abbrev pub Admitted : Type 0
Admitted = Entries × Outcome LedgerError Enrolment

asks_again : Enrolment → Result → ReputationDecision → Entries × Option Text → Admitted
asks_again e result decision (entries, none) = (entries, err confirmation_failed)
asks_again e result decision (entries, some token) =
    (entries, err (confirmation_required result decision token))

decided : Enrolment → Result → ReputationDecision → Enrolment
decided e result decision = record e {
  reputation = some result;
  reputation_decision = some decision;
}

-- Behind the token: the warning is confirmed or a new token issued, then the decision counts.
weighed : World → Enrolment → Result → ReputationDecision → Entries → Option Challenge → Admitted
unfolding asks_again confirms decided
weighed w e result decision entries challenge =
    if is_warn decision.action && not (confirms challenge result decision)
    then asks_again e result decision (issue w.sha256_hex entries e result decision w.now w.token)
    else if not decision.allowed
    then (entries, err (reputation_refused result decision))
    else (entries, ok (decided e result decision))

unfoldable pub admit_reputation :
    World → Policy → Enrolment → Option PublisherIdentity → Text → Entries → Admitted
unfolding weighed recorded_mode
admit_reputation w policy e publisher confirmation entries =
    if is_off (recorded_mode policy) then (entries, ok e) else with_publisher publisher
  where
    with_publisher : Option PublisherIdentity → Admitted
    with_publisher none = (entries, err no_publisher_identity)
    with_publisher (some p) =
        let (remaining, challenge) = consume w.sha256_hex entries confirmation e w.now in
        let result = w.lookup p.id w.now in
        weighed w e result (evaluates_reputation policy result p.id e.anchor.origin w.now) remaining
          challenge

unfoldable pub admit_trust : World → Enrolment → Text → Entries → Admitted
unfolding admit_rules admit_reputation recorded_mode
admit_trust w e confirmation entries = under w.host_policy
  where
    ruled : Policy → Enrolment → Outcome LedgerError (Option PublisherIdentity) → Admitted
    ruled policy moded (err refusal) = (entries, err refusal)
    ruled policy moded (ok publisher) =
        admit_reputation w policy moded publisher confirmation entries

    under : Outcome Text Policy → Admitted
    under (err reason) = (entries, err (setting_unreadable reason))
    under (ok policy) =
        let moded = record e { reputation_mode = recorded_mode policy } in
        if empty policy
        then (entries, ok moded)
        else ruled policy moded (admit_rules w policy moded)
