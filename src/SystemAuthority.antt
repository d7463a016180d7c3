-- ===== src/SystemAuthority.antt =====
-- pkg/systemauthority: what the authority records of an application, and what it leaves behind when
-- an application is forgotten.
pub mod Confirmations
pub mod Checks
pub mod Orders
pub mod Admission
pub mod Ledger
use cpak.Base.{
  ℕ, zero, suc, ◌+◌, ◌-◌, ◌*◌, ◌/◌, ◌%◌, ◌^◌, ◌≤◌, ◌<◌, ◌≡◌, refl, sym, ap, ◌∙◌, ◌≢◌, ◌↔◌, ◌⊎◌, inl,
  inr, Bool, true, false, not, ◌&&◌, ◌||◌, Option, none, some, List, [], ◌∷◌, ◌++◌, map, Memᴰ,
  arith, ltb, leb, nat_beq, nat_beq_iff, if◌then◌else◌, Eq, ◌==◌, ◌!=◌, nat_eq, Bool-cases,
  Option-cases, any, all, length, is_empty, length-append, any-eq-true, any_of_mem, all_mem,
  all_of_mem, all-append, any-append, all_mono, not_true, contains, contains_mem, contains_of_mem,
  Outcome, ok, err, ◌>>=◌, ◌>>◌, refuse_if, wrap, Text, ascii, text_beq, text_beq_iff, text_eq, ℤ,
  pos, int_eq, int_beq_iff, all_mono, ℤ, pos, negsuc, int_eq, not_true,
}
use cpak.Integrity.{Anchor}
use cpak.Integrity.Policy.{SchemaError}
use cpak.Reputation.{Result}
use cpak.Reputation.Snapshot.{InvalidResult}
use cpak.Signature.{State, StateError}
use cpak.Signature.Evidence.{Evidence, EvidenceError, VerificationResult, new_sigstore_evidence}
use cpak.TrustPolicy.Policy.{Reason, ReputationMode}
use cpak.TrustPolicy.Reputation.{ReputationDecision, DecisionError}
use cpak.Types.Override.{Override}

pub record SignedState : Type 0 where
  pub state : State
  pub bundle : Text
  pub abi : ℤ
  pub kind : Text
  pub media_type : Text

-- `SignedState.Evidence`: a record of the older shape is a Sigstore bundle.
unfoldable pub evidence_of : SignedState → Evidence
evidence_of s =
    if s.abi == pos 0 && (s.kind == [] && s.media_type == [])
    then new_sigstore_evidence s.state s.bundle
    else record {
      abi = s.abi;
      kind = s.kind;
      state = s.state;
      media_type = s.media_type;
      payload = s.bundle;
    }

-- `SignedStateFromEvidence`
unfoldable pub signed_state_of : Evidence → SignedState
signed_state_of e = record {
  state = e.state;
  bundle = e.payload;
  abi = e.abi;
  kind = e.kind;
  media_type = e.media_type;
}

-- `SignedState.MarshalJSON` writes the evidence, and `UnmarshalJSON` makes a signed state of it: the
-- older shape comes back as a tagged one.
unfoldable pub stored_state : Option SignedState → Option SignedState
unfolding evidence_of signed_state_of
stored_state none = none
stored_state (some s) = some (signed_state_of (evidence_of s))

pub record Enrolment : Type 0 where
  pub anchor : Anchor
  pub policy : Option Override
  pub policy_schema : ℤ
  pub signature : Option SignedState
  pub verification : Option VerificationResult
  pub reputation : Option Result
  pub reputation_decision : Option ReputationDecision
  pub signature_mode : Text
  pub reputation_mode : ReputationMode

-- An enrolment as its JSON holds it.
unfoldable pub as_stored : Enrolment → Enrolment
unfolding stored_state
as_stored e = record e { signature = stored_state e.signature }

pub record Tombstone : Type 0 where
  pub uid : ℕ
  pub origin : Text
  pub generation : ℕ
  pub policy_root : Text
  pub policy : Option Override
  pub policy_schema : ℤ
  pub signed : Bool
  pub signature_generation : ℕ

-- `ErrAnchorDowngrade`, `ErrSignatureLost`, `ErrSignatureDowngrade`, `ErrSignatureRequired` and
-- `ErrTrustRefused` are the first five; the others are the sentences of the package.
pub data LedgerError : Type 0 where
  anchor_downgrade signature_downgrade : ℕ → ℕ → LedgerError
  signature_lost signature_required : Text → LedgerError
  trust_refused : Reason → LedgerError
  trust_refused_unsigned approval_unavailable : Text → LedgerError
  approval_refused : Text → LedgerError
  reputation_refused : Result → ReputationDecision → LedgerError
  confirmation_required : Result → ReputationDecision → Text → LedgerError
  no_publisher_identity no_verification_result confirmation_failed : LedgerError
  other_abi bad_origin bad_digest bad_root bad_launch_root : LedgerError
  state_invalid : StateError → LedgerError
  evidence_invalid : EvidenceError → LedgerError
  other_package unbound other_image other_manifest bundle_too_large : LedgerError
  verification_missing verification_unsigned verification_other_state : LedgerError
  verification_not_authorized verification_chain verification_time verification_revoked :
      LedgerError
  reputation_apart bad_signature_mode bad_reputation_mode reputation_unsigned : LedgerError
  reputation_invalid : InvalidResult → LedgerError
  decision_invalid : DecisionError → LedgerError
  schema_without_policy policy_not_its_root : LedgerError
  schema_failed : SchemaError → LedgerError
  names_another_package : Text → LedgerError
  not_standing : Text → LedgerError
  setting_unreadable : Text → LedgerError
  path_not_absolute directory_invalid file_not_trusted file_too_large file_undecodable : LedgerError
  not_its_file encode_failed create_failed write_failed remove_failed : LedgerError

-- What the code asks of the machine, of other packages' stores and of the libraries.
pub record World : Type 0 where
  -- SHA-256 in hexadecimal digits, and `json.Marshal` of a permission set
  pub sha256_hex : Text → Text
  pub marshal_policy : Override → Option Text
  -- `filepath.Clean`
  pub clean : Text → Text
  -- `EnforcementStore.SignaturePolicy` and `TrustStore.Policy`, which read two files
  pub signature_policy : Outcome Text Text
  pub host_policy : Outcome Text cpak.TrustPolicy.Policy.Policy
  -- the separated verifier, and the check of a counter-signature, which a build may lack
  pub verify_evidence : Evidence → Outcome Text VerificationResult
  pub verify_approval : Option (Enrolment → Outcome Text (Text × Text))
  -- the reputation store, the clock, and the token made of 32 random bytes
  pub lookup : Text → ℕ → Result
  pub now : ℕ
  pub token : Option Text
