-- ===== src/SystemAuthority/Ledger/Steps/Trust.antt =====
-- What the host policy said of an enrolment that was recorded.
use cpak.Base.{
  ◌≡◌, refl, sym, ap, ◌∙◌, true, false, Option, none, some, nat_eq, Outcome, ok, err, Text, text_eq,
  int_eq, int_eq,
}
use mathlib.Core.Path.{subst}
use cpak.Base.{passed}
use cpak.TrustPolicy.Policy.{Policy, empty}
use cpak.TrustPolicy.Decide.{allows_origin, is_revoked}
use cpak.SystemAuthority.{Enrolment, SignedState, LedgerError, World}
use cpak.SystemAuthority.Orders.Laws.{is_signed}
use cpak.SystemAuthority.Checks.{complete_policy_schema}
use cpak.SystemAuthority.Checks.Laws.{complete_policy_schema-IsChecked}
use cpak.SystemAuthority.Confirmations.{Entries}
use cpak.SystemAuthority.Admission.{publisher_generation, admit_trust, Admitted}
use cpak.SystemAuthority.Admission.Laws.{
  SameOffer, IsTrusted, admit_trust-moded, admit_signature-SameOffer,
}
use cpak.SystemAuthority.Ledger.{Disk, Codec, Io}
use cpak.SystemAuthority.Ledger.Record.{cleared, record_enrolment, after_trust, after_signature}

-- The rules of the policy that do not depend on the verifier's answer.
pub record IsAllowed (policy : Policy) (e : Enrolment) : Type 0 where
  pub origin_ok : (allows_origin policy e.anchor.origin).allowed ≡ true
  pub not_revoked :
      (is_revoked policy e.anchor.origin (publisher_generation e.signature)).allowed ≡ true
  pub signed_ok : policy.require_publisher ≡ true → is_signed e.signature ≡ true

-- What the client says of the verification and of the reputation, said of another enrolment.
abbrev pub with_claims : Enrolment → Enrolment → Enrolment
with_claims e claims = record e {
  verification = claims.verification;
  reputation = claims.reputation;
  reputation_decision = claims.reputation_decision;
  signature_mode = claims.signature_mode;
  reputation_mode = claims.reputation_mode;
}

module _ {D : Type 0} (codec : Codec D) (w : World) (io : Io) (disk : Disk D) (entries : Entries)
    (c : Text) where
  after_trust-admitted :
      (p : Admitted)
      → (after_trust codec w io disk p).1 ≡ ok tt
      → (admitted : Enrolment) × (p.1 ≡ ok admitted)
  unfolding after_trust
  after_trust-admitted (remaining, err x) h = cc
  after_trust-admitted (remaining, ok admitted) h = (admitted, refl)

  after_signature-admitted :
      (m : Outcome LedgerError Enrolment)
      → (after_signature codec w io disk entries c m).1 ≡ ok tt
      → (a : Enrolment) × (m ≡ ok a)
        × (admitted : Enrolment) × ((admit_trust w a c entries).1 ≡ ok admitted)
  unfolding after_signature
  after_signature-admitted (err x) h = cc
  after_signature-admitted (ok a) h =
      let (admitted, good) = after_trust-admitted (admit_trust w a c entries) h in
      (a, refl, admitted, good)

  signed_or_not : (s : Option SignedState) → (s ≡ none → true ≡ false) → is_signed s ≡ true
  signed_or_not none h = cc (h refl)
  signed_or_not (some s) h = refl

  trusted-IsAllowed :
      (policy : Policy) (e a admitted : Enrolment)
      → SameOffer a e
      → IsTrusted w policy a admitted
      → IsAllowed policy e
  trusted-IsAllowed policy e a admitted same t = record {
    origin_ok =
        subst (λ x. (allows_origin policy x.origin).allowed ≡ true) same.same_anchor
          t.rules.origin_ok;
    not_revoked =
        subst (λ s. (is_revoked policy e.anchor.origin (publisher_generation s)).allowed ≡ true)
          same.same_signature
          (subst
            (λ x. (is_revoked policy x.origin (publisher_generation a.signature)).allowed ≡ true)
            same.same_anchor t.rules.not_revoked);
    signed_ok = λ required.
        ap is_signed (sym same.same_signature)
        ∙ signed_or_not a.signature (λ unsigned. sym required ∙ t.rules.unsigned_ok unsigned);
  }

  -- An enrolment that is recorded on a host whose trust policy decides something is one that the
  -- policy allows: its origin is approved, neither the origin nor the release that was signed is
  -- revoked, and it is signed if the policy requires a publisher. And the same enrolment with any
  -- other claims of the client about the verification and the reputation has the same answer and
  -- leaves the same files and tokens.
  pub record-IsAllowed :
      (e claims : Enrolment) (policy : Policy)
      → (record_enrolment codec w io (disk, entries) e c).1 ≡ ok tt
      → w.host_policy ≡ ok policy
      → empty policy ≡ false
      → IsAllowed policy e
        × (record_enrolment codec w io (disk, entries) (with_claims e claims) c
            ≡ record_enrolment codec w io (disk, entries) e c)
  unfolding record_enrolment cleared
  record-IsAllowed e claims policy good is_policy decides =
      let (a, passes, admitted, admits) = after_signature-admitted _ good in
      let (x, checked, signed) = passed (complete_policy_schema w (cleared e)) _ passes in
      let one = complete_policy_schema-IsChecked w (cleared e) x checked in
      let two = admit_signature-SameOffer w x a signed in
      let trusted_ = admit_trust-moded w policy a c entries admitted is_policy decides admits in
      (
        trusted-IsAllowed policy e _ admitted
            (record {
              same_anchor = two.same_anchor ∙ one.same_anchor;
              same_signature = two.same_signature ∙ one.same_signature;
            })
            trusted_,
        refl,
      )
