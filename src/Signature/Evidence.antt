-- ===== src/Signature/Evidence.antt =====
-- pkg/signature/evidence.go: the envelope of a signature, and what a verifier answers about it. The
-- claims of a publisher are left out, and so is the identity that only the result of `LegacyVerified`
-- names, which no check reads.
use cpak.Base.{
  Bool, true, false, not, ◌&&◌, ◌||◌, Option, none, some, [], ◌∷◌, if◌then◌else◌, ◌==◌, ◌!=◌,
  nat_eq, is_empty, contains, Outcome, err, ◌>>◌, refuse_if, wrap, Text, ascii, text_eq, ℤ, pos,
  int_eq, ℤ, pos, int_eq,
}
use cpak.Go.Utf8.{valid}
use cpak.TrustPolicy.Policy.{is_none}
use cpak.Signature.{State, StateError, validate_state}

pub record Evidence : Type 0 where
  pub abi : ℤ
  pub kind : Text
  pub state : State
  pub media_type : Text
  pub payload : Text

pub record PublisherIdentity : Type 0 where
  pub kind : Text
  pub id : Text
  pub display_name : Text
  pub issuer : Text
  pub repository : Text
  pub assurance : Text

-- `has_legacy_identity`: the unexported identity is set.
pub record VerificationResult : Type 0 where
  pub evidence_kind : Text
  pub state_digest : Text
  pub cryptographic : Text
  pub chain : Text
  pub signing_time : Text
  pub revocation : Text
  pub publisher : Option PublisherIdentity
  pub root_source : Text
  pub origin_authorization : Text
  pub reason_code : Text
  pub diagnostic : Text
  pub has_legacy_identity : Bool

abbrev pub sigstore_kind : Text
sigstore_kind = ascii "sigstore-bundle-v1"

abbrev pub sigstore_media_type : Text
sigstore_media_type = ascii "application/vnd.dev.sigstore.bundle.v0.3+json"

-- `NewSigstoreEvidence`
abbrev pub new_sigstore_evidence : State → Text → Evidence
new_sigstore_evidence state bundle = record {
  abi = pos 1;
  kind = sigstore_kind;
  state = state;
  media_type = sigstore_media_type;
  payload = bundle;
}

pub data EvidenceError : Type 0 where
  unsupported_envelope : ℤ → EvidenceError
  bad_state : StateError → EvidenceError
  unsupported_kind unsupported_media_type payload_not_text payload_empty : EvidenceError

-- `evidenceProfiles`: the media type of a kind, and whether its payload is text.
profile_of : Text → Option (Text × Bool)
profile_of kind =
    if kind == sigstore_kind
    then some (sigstore_media_type, true)
    else if kind == ascii "x509-cms-v1"
    then some (ascii "application/pkcs7-signature", false)
    else none

fits_profile : Option (Text × Bool) → Text → Text → Outcome EvidenceError Unit
fits_profile none media_type payload = err unsupported_kind
fits_profile (some (expected, text)) media_type payload = do
  refuse_if (media_type != expected) unsupported_media_type
  refuse_if (text && not (valid payload)) payload_not_text
  refuse_if (is_empty payload) payload_empty

-- `ValidateEnvelope`
unfoldable pub validate_envelope : Evidence → Outcome EvidenceError Unit
unfolding profile_of fits_profile validate_state
validate_envelope e = do
  refuse_if (e.abi != pos 1) (unsupported_envelope e.abi)
  wrap bad_state (validate_state e.state)
  fits_profile (profile_of e.kind) e.media_type e.payload

-- The conditions under which `LegacyVerified` answers an error.
unfoldable pub not_verified : VerificationResult → Bool
not_verified r =
    (r.cryptographic != ascii "verified")
    || (contains r.chain (ascii "untrusted" ∷ ascii "invalid" ∷ [])
        || (contains r.signing_time
              (ascii "missing" ∷ ascii "expired" ∷ ascii "not-yet-valid" ∷ ascii "invalid" ∷ [])
            || (contains r.revocation (ascii "revoked" ∷ ascii "stale" ∷ [])
                || (not r.has_legacy_identity && is_none r.publisher))))
