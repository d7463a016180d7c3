-- ===== src/SystemAuthority/Checks.antt =====
-- pkg/systemauthority: the checks on an enrolment and on a tombstone, `validateOrigin` of session.go
-- and the validations of anchor.go.
pub mod Laws
use cpak.Base.{
  ℕ, zero, suc, ◌+◌, ◌-◌, ◌*◌, ◌/◌, ◌%◌, ◌^◌, ◌≤◌, ◌<◌, ◌≡◌, refl, sym, ap, ◌∙◌, ◌≢◌, ◌↔◌, ◌⊎◌, inl,
  inr, Bool, true, false, not, ◌&&◌, ◌||◌, Option, none, some, List, [], ◌∷◌, ◌++◌, map, Memᴰ,
  arith, ltb, leb, nat_beq, nat_beq_iff, if◌then◌else◌, Eq, ◌==◌, ◌!=◌, nat_eq, Bool-cases,
  Option-cases, any, all, length, is_empty, length-append, any-eq-true, any_of_mem, all_mem,
  all_of_mem, all-append, any-append, all_mono, not_true, contains, contains_mem, contains_of_mem,
  Outcome, ok, err, ◌>>=◌, ◌>>◌, refuse_if, wrap, Text, ascii, text_beq, text_beq_iff, text_eq, ℤ,
  pos, int_eq, int_beq_iff, all_mono, ℤ, pos, negsuc, int_eq, not_true,
}
use cpak.Go.Regexp.{match_string}
use cpak.Go.Strings.{split, has_infix}
use cpak.TrustPolicy.Origin.{fold_ascii, segment_pattern}
use cpak.TrustPolicy.Policy.{ReputationMode, off, audit, warn, require_established, other, is_none}
use cpak.TrustPolicy.Reputation.{ReputationDecision, validate_decision}
use cpak.Reputation.{Result}
use cpak.Reputation.Snapshot.{validate_result}
use cpak.Integrity.{Anchor, root_pattern, digests_ok, launch_root}
use cpak.Integrity.Policy.{SchemaError, policy_root_for_schema}
use cpak.Signature.{State, StateError, validate_state, state_digest}
use cpak.Signature.Evidence.{VerificationResult, PublisherIdentity, validate_envelope}
use cpak.Types.Override.{Override}
use cpak.SystemAuthority.{
  SignedState, evidence_of, Enrolment, Tombstone, LedgerError, World, anchor_downgrade,
  signature_downgrade, signature_lost, signature_required, trust_refused, trust_refused_unsigned,
  approval_unavailable, approval_refused, reputation_refused, confirmation_required,
  no_publisher_identity, no_verification_result, confirmation_failed, other_abi, bad_origin,
  bad_digest, bad_root, bad_launch_root, state_invalid, evidence_invalid, other_package, unbound,
  other_image, other_manifest, bundle_too_large, verification_missing, verification_unsigned,
  verification_other_state, verification_not_authorized, verification_chain, verification_time,
  verification_revoked, reputation_apart, bad_signature_mode, bad_reputation_mode,
  reputation_unsigned, reputation_invalid, decision_invalid, schema_without_policy,
  policy_not_its_root, schema_failed, names_another_package, not_standing, setting_unreadable,
  path_not_absolute, directory_invalid, file_not_trusted, file_too_large, file_undecodable,
  not_its_file, create_failed, write_failed, remove_failed,
}

-- One part of the loop of `validateOrigin`.
part_ok : Text → Bool
unfolding has_infix
part_ok part = not (
    ltb 100 (length part)
    || (not (match_string segment_pattern part) || has_infix part (ascii "..")))

three_parts : List Text → Bool
unfolding part_ok
three_parts (host ∷ owner ∷ name ∷ []) =
    (part_ok host && (part_ok owner && part_ok name)) && contains b'.' host
three_parts _ = false

-- `strings.ToLower` also changes letters beyond ASCII, which the pattern of the parts refuses.
unfoldable pub validate_origin : Text → Outcome LedgerError Unit
unfolding three_parts
validate_origin origin = do
  refuse_if (is_empty origin || (ltb 263 (length origin) || origin != fold_ascii origin)) bad_origin
  refuse_if (not (three_parts (split b'/' origin))) bad_origin

unfoldable pub validate_anchor : World → Anchor → Outcome LedgerError Unit
unfolding validate_origin
validate_anchor w a = do
  refuse_if (a.abi != pos 1) other_abi
  validate_origin a.origin
  refuse_if (not (digests_ok a)) bad_digest
  refuse_if
      (not (match_string root_pattern a.package_root)
        || (not (match_string root_pattern a.policy_root)
            || not (match_string root_pattern a.launch_root)))
      bad_root
  refuse_if (a.launch_root != launch_root w.sha256_hex a.package_root a.policy_root) bad_launch_root

unfoldable pub binds_the_anchor : Anchor → State → Outcome LedgerError Unit
binds_the_anchor a s = do
  refuse_if (a.image_digest == [] || a.manifest_digest == []) unbound
  refuse_if (s.image_digest != a.image_digest) other_image
  refuse_if (s.manifest_sha256 != a.manifest_digest) other_manifest

unfoldable pub validate_signed_state : Anchor → Option SignedState → Outcome LedgerError Unit
unfolding binds_the_anchor
validate_signed_state a none = ok tt
validate_signed_state a (some s) = do
  wrap state_invalid (validate_state s.state)
  refuse_if (s.state.origin != a.origin) other_package
  binds_the_anchor a s.state
  wrap evidence_invalid (validate_envelope (evidence_of s))
  refuse_if (ltb 262144 (length (evidence_of s).payload)) bundle_too_large

same_hash : Outcome StateError Text → Text → Bool
same_hash (ok digest) expected = digest == expected
same_hash (err _) expected = false

names_publisher : Option PublisherIdentity → Bool
names_publisher none = false
names_publisher (some p) = p.id != []

unfoldable pub validate_recorded_verification : World → Enrolment → Outcome LedgerError Unit
unfolding same_hash names_publisher
validate_recorded_verification w e = recorded e.verification e.signature
  where
    recorded : Option VerificationResult → Option SignedState → Outcome LedgerError Unit
    recorded none none = ok tt
    recorded none (some s) = refuse_if (e.signature_mode != []) verification_missing
    recorded (some r) none = err verification_unsigned
    recorded (some r) (some s) = do
      refuse_if
          (not (same_hash (state_digest w.sha256_hex s.state) r.state_digest)
            || (r.evidence_kind != (evidence_of s).kind))
          verification_other_state
      refuse_if
          ((r.cryptographic != ascii "verified")
            || (not (names_publisher r.publisher)
                || (r.origin_authorization != ascii "authorized")))
          verification_not_authorized
      refuse_if
          (not (
            contains r.chain
              (ascii "not-applicable" ∷ ascii "trusted-public" ∷ ascii "trusted-local" ∷ [])))
          verification_chain
      refuse_if (not (contains r.signing_time (ascii "current" ∷ ascii "timestamped" ∷ [])))
          verification_time
      refuse_if (not (contains r.revocation ([] ∷ ascii "good" ∷ ascii "unknown" ∷ [])))
          verification_revoked

-- The loop over the schemas; an error counts only for the one schema that was declared.
try_schemas : World → Bool → Override → Text → List ℤ → Outcome LedgerError ℤ
try_schemas w declared policy root [] = err policy_not_its_root
try_schemas w declared policy root (schema ∷ schemas) =
    let rest = try_schemas w declared policy root schemas in
    next (policy_root_for_schema w.marshal_policy w.sha256_hex policy schema) rest
  where
    next : Outcome SchemaError Text → Outcome LedgerError ℤ → Outcome LedgerError ℤ
    next (err e) rest = if declared then err (schema_failed e) else rest
    next (ok candidate) rest = if candidate == root then ok schema else rest

unfoldable pub matching_policy_schema : World → Option Override → Text → ℤ → Outcome LedgerError ℤ
unfolding try_schemas
matching_policy_schema w none root declared = do
  refuse_if (declared != pos 0) schema_without_policy
  ok (pos 0)
matching_policy_schema w (some policy) root declared =
    try_schemas w (declared != pos 0) policy root
      (if declared == pos 0 then pos 4 ∷ pos 3 ∷ pos 2 ∷ pos 1 ∷ [] else declared ∷ [])

-- `SignaturePolicy.valid`
abbrev pub signature_mode_ok : Text → Bool
signature_mode_ok mode = contains mode (ascii "optional" ∷ ascii "required" ∷ [])

reputation_mode_ok : ReputationMode → Bool
reputation_mode_ok (other mode) = mode == []
reputation_mode_ok _ = true

reputation_ok :
    Option Result → Option ReputationDecision → Option SignedState → Outcome LedgerError Unit
reputation_ok (some r) (some d) signature = do
  wrap reputation_invalid (validate_result r)
  wrap decision_invalid (validate_decision d)
  refuse_if (is_none signature) reputation_unsigned
reputation_ok _ _ signature = ok tt

unfoldable pub complete_policy_schema : World → Enrolment → Outcome LedgerError Enrolment
unfolding validate_anchor validate_signed_state validate_recorded_verification reputation_mode_ok
    reputation_ok matching_policy_schema
complete_policy_schema w e = do
  validate_anchor w e.anchor
  validate_signed_state e.anchor e.signature
  validate_recorded_verification w e
  refuse_if
      (if is_none e.reputation
        then not (is_none e.reputation_decision)
        else is_none e.reputation_decision)
      reputation_apart
  refuse_if ((e.signature_mode != []) && not (signature_mode_ok e.signature_mode))
      bad_signature_mode
  refuse_if (not (reputation_mode_ok e.reputation_mode)) bad_reputation_mode
  reputation_ok e.reputation e.reputation_decision e.signature
  schema ← matching_policy_schema w e.policy e.anchor.policy_root e.policy_schema
  ok (record e { policy_schema = schema })

unfoldable pub complete_tombstone_schema : World → Tombstone → Outcome LedgerError Tombstone
unfolding validate_origin matching_policy_schema
complete_tombstone_schema w t = do
  validate_origin t.origin
  refuse_if (not (match_string root_pattern t.policy_root)) bad_root
  schema ← matching_policy_schema w t.policy t.policy_root t.policy_schema
  ok (record t { policy_schema = schema })
