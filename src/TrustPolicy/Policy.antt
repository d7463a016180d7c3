-- ===== src/TrustPolicy/Policy.antt =====
-- pkg/trustpolicy/policy.go, with the policy types of pkg/trustpolicy/reputation.go.
use cpak.Base.{
  ℕ, Bool, true, false, not, ◌&&◌, Option, none, some, List, [], nat_eq, is_empty, Text, text_eq, ℤ,
  pos, int_eq,
}
use cpak.Reputation.{Status}

pub record Signer : Type 0 where
  pub issuer : Text
  pub repo : Text

-- `generation` is a uint64; 0 stands for every generation.
pub record Revocation : Type 0 where
  pub origin : Text
  pub generation : ℕ
  pub reason : Text

pub record X509Policy : Type 0 where
  pub revocation : Text

-- Go's `ReputationMode` is a string; `other` is any text that is no constant of the package.
pub data ReputationMode : Type 0 where
  off audit warn require_established : ReputationMode
  other : Text → ReputationMode

pub record ReputationException : Type 0 where
  pub publisher_id : Text
  pub origins : List Text
  pub statuses : List Status
  pub expires_at : Text
  pub reason_code : Text

pub record ReputationPolicy : Type 0 where
  pub mode : ReputationMode
  pub provider_id : Text
  pub exceptions : List ReputationException

pub record Policy : Type 0 where
  pub abi : ℤ
  pub require_publisher : Bool
  pub require_approval : Bool
  pub approved_signers : List Signer
  pub approved_origins : List Text
  pub approval_signers : List Signer
  pub revoked : List Revocation
  pub approved_publisher_ids : List Text
  pub x509 : Option X509Policy
  pub reputation : Option ReputationPolicy

-- `ABIVersion` and `CurrentABIVersion`
abbrev pub abi_version : ℤ
abi_version = pos 1

abbrev pub current_abi_version : ℤ
current_abi_version = pos 2

abbrev pub is_none {ℓ} : {A : Type ℓ} → Option A → Bool
is_none none = true
is_none (some a) = false

-- The sentence of a decision: a constructor for each format string, with what it prints.
pub data Reason : Type 0 where
  unsupported_abi : ℤ → Reason
  missing_section no_policy : Reason
  not_an_origin : Text → Reason
  revoked_every_generation : Text → Text → Reason
  revoked_generation : ℕ → Text → Text → Reason
  not_revoked_unknown_generation : Text → Reason
  not_revoked : ℕ → Text → Reason
  origins_unrestricted : Reason
  origin_approved : Text → Reason
  origin_not_approved : Text → ℕ → Reason
  nothing_signed : Text → Reason
  nobody_can_publish : Text → Reason
  publishers_unrestricted : Reason
  signer_approved : Text → Text → Reason
  signer_is_origin : Text → Text → Text → Reason
  signer_not_origin : Text → Text → Text → Reason
  signer_not_approved : Text → Text → ℕ → Reason
  publisher_approved : Text → Reason
  no_normalized_identity : Text → Reason
  publisher_not_approved : Text → ℕ → Reason
  nothing_countersigned nobody_may_approve no_approval_expected : Reason
  may_countersign : Text → Text → Reason
  may_not_countersign : Text → Text → ℕ → Reason

pub record Decision : Type 0 where
  pub allowed : Bool
  pub reason : Reason

abbrev pub allow : Reason → Decision
allow r = record { allowed = true; reason = r }

abbrev pub refuse : Reason → Decision
refuse r = record { allowed = false; reason = r }

unfoldable pub empty : Policy → Bool
empty p =
    (not p.require_publisher && not p.require_approval)
    && ((is_empty p.approved_signers && is_empty p.approved_origins)
        && ((is_empty p.approval_signers && is_empty p.revoked)
            && (is_empty p.approved_publisher_ids && (is_none p.x509 && is_none p.reputation))))

-- The zero value of the struct.
abbrev pub zero_policy : Policy
zero_policy = record {
  abi = pos 0;
  require_publisher = false;
  require_approval = false;
  approved_signers = [];
  approved_origins = [];
  approval_signers = [];
  revoked = [];
  approved_publisher_ids = [];
  x509 = none;
  reputation = none;
}
