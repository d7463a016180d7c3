-- ===== src/SystemAuthority/Admission/Laws.antt =====
-- What an admitted enrolment has passed, and what admitting leaves alone.
use cpak.Base.{
  ◌≡◌, refl, sym, ap, ◌∙◌, ◌≢◌, ◌⊎◌, inl, inr, true, false, not, ◌&&◌, Option, none, some, arith,
  ◌==◌, nat_eq, Bool-cases, Option-cases, ok, wrap, Text, ascii, text_eq, int_eq, int_eq,
}
use cpak.Base.{passed, passed_check, ok_inj, Outcome-cases, not_refused, not_refused_last}
use cpak.TrustPolicy.Policy.{Policy, empty, Decision}
use cpak.TrustPolicy.Decide.{allows_origin, allows_normalized_publisher, is_revoked}
use cpak.TrustPolicy.Reputation.{ReputationDecision, evaluates_reputation, is_warn, is_off}
use cpak.Reputation.{Result}
use cpak.Signature.Evidence.{PublisherIdentity}
use cpak.SystemAuthority.Confirmations.{Challenge, Entries}
use cpak.SystemAuthority.Admission.{
  allowed_by, publisher_of, admit_signature, signature_stands, verify_publisher, admit_publisher,
  publisher_generation, admit_approval, admit_rules, recorded_mode, confirms, asks_again, decided,
  weighed, admit_reputation, admit_trust,
}
use cpak.SystemAuthority.{
  SignedState, Enrolment, World, signature_required, trust_refused, trust_refused_unsigned,
  setting_unreadable,
}

-- The same anchor and the same signature.
pub record SameOffer (a b : Enrolment) : Type 0 where
  pub same_anchor : a.anchor ≡ b.anchor
  pub same_signature : a.signature ≡ b.signature

abbrev same_offer : (e : Enrolment) → SameOffer e e
same_offer e = record { same_anchor = refl; same_signature = refl }

asks_again-refused :
    (e admitted : Enrolment) (result : Result) (decision : ReputationDecision)
    (issued : Entries × Option Text)
    → (asks_again e result decision issued).1 ≢ ok admitted
unfolding asks_again
asks_again-refused e admitted result decision (entries, none) = λ h. cc h
asks_again-refused e admitted result decision (entries, some token) = λ h. cc h

-- What an enrolment that passed the reputation stage carries.
pub record IsWeighed (e admitted : Enrolment) (result : Result) (decision : ReputationDecision)
    : Type 0 where
  pub same : SameOffer admitted e
  pub allowed_ok : decision.allowed ≡ true
  pub result_kept : admitted.reputation ≡ some result
  pub decision_kept : admitted.reputation_decision ≡ some decision

weighed-IsWeighed :
    (w : World) (e : Enrolment) (result : Result) (decision : ReputationDecision)
    (entries : Entries) (challenge : Option Challenge) (admitted : Enrolment)
    → (weighed w e result decision entries challenge).1 ≡ ok admitted
    → IsWeighed e admitted result decision
unfolding weighed decided
weighed-IsWeighed w e result decision entries challenge admitted h =
    elim (Bool-cases (is_warn decision.action && not (confirms challenge result decision))) [
      | inl warns ↦ absurd (asks_again-refused e admitted result decision _ (rw warns at h))
      | inr settled ↦ elim (Bool-cases (not decision.allowed)) [
        | inl refused ↦ cc (rw (settled, refused) at h)
        | inr allowed ↦
            let whole = ok_inj (rw (settled, allowed) at h) in
            record {
              same = record {
                same_anchor = ap (λ x. x.anchor) (sym whole);
                same_signature = ap (λ x. x.signature) (sym whole);
              };
              allowed_ok = ground (arith, allowed);
              result_kept = ap (λ x. x.reputation) (sym whole);
              decision_kept = ap (λ x. x.reputation_decision) (sym whole);
            }
      ]
    ]

-- The stage is passed by a mode that is off, or for a publisher that the decision allows.
pub Reputable : World → Policy → Enrolment → Enrolment → Option PublisherIdentity → Type 0
Reputable w policy e admitted publisher =
    ((is_off (recorded_mode policy) ≡ true) × SameOffer admitted e)
    ⊎ ((p : PublisherIdentity) × (publisher ≡ some p)
        × IsWeighed e admitted (w.lookup p.id w.now)
            (evaluates_reputation policy (w.lookup p.id w.now) p.id e.anchor.origin w.now))

pub admit_reputation-Reputable :
    (w : World) (policy : Policy) (e : Enrolment) (publisher : Option PublisherIdentity)
    (confirmation : Text) (entries : Entries) (admitted : Enrolment)
    → (admit_reputation w policy e publisher confirmation entries).1 ≡ ok admitted
    → Reputable w policy e admitted publisher
unfolding admit_reputation Reputable
admit_reputation-Reputable w policy e publisher confirmation entries admitted h =
    elim (Bool-cases (is_off (recorded_mode policy))) [
      | inl off ↦
          let whole = ok_inj (rw off at h) in
          inl (
            off,
            record {
              same_anchor = ap (λ x. x.anchor) (sym whole);
              same_signature = ap (λ x. x.signature) (sym whole);
            },
          )
      | inr on ↦ elim (Option-cases publisher) [
        | inl nobody ↦ cc (rw (on, nobody) at h)
        | inr (p, is_p) ↦ inr (p, is_p, weighed-IsWeighed w e _ _ _ _ admitted (rw (on, is_p) at h))
      ]
    ]

allowed_by-ok : (d : Decision) → allowed_by d ≡ ok tt → d.allowed ≡ true
unfolding allowed_by
allowed_by-ok d h = ground (arith, not_refused_last (not d.allowed) (trust_refused d.reason) h)

-- What the rules of a policy say of an enrolment.
pub record PassesRules (policy : Policy) (e : Enrolment) (publisher : Option PublisherIdentity)
    : Type 0 where
  pub origin_ok : (allows_origin policy e.anchor.origin).allowed ≡ true
  pub not_revoked :
      (is_revoked policy e.anchor.origin (publisher_generation e.signature)).allowed ≡ true
  pub unsigned_ok : e.signature ≡ none → policy.require_publisher ≡ false
  pub publisher_ok :
      (s : SignedState)
      → e.signature ≡ some s
      → (p : PublisherIdentity) × (publisher ≡ some p)
        × ((allows_normalized_publisher policy p.id p.issuer p.repository e.anchor.origin).allowed
            ≡ true)

admit_publisher-unsigned :
    (policy : Policy) (e : Enrolment) (publisher : Option PublisherIdentity)
    → admit_publisher policy e ≡ ok publisher
    → e.signature ≡ none
    → policy.require_publisher ≡ false
unfolding admit_publisher
admit_publisher-unsigned policy e publisher h unsigned =
    let (lax, _) =
      not_refused policy.require_publisher (trust_refused_unsigned e.anchor.origin) (ok none)
        (rw unsigned at h) in
    lax

admit_publisher-signed :
    (policy : Policy) (e : Enrolment) (publisher : Option PublisherIdentity) (s : SignedState)
    → admit_publisher policy e ≡ ok publisher
    → e.signature ≡ some s
    → (p : PublisherIdentity) × (publisher ≡ some p)
      × ((allows_normalized_publisher policy p.id p.issuer p.repository e.anchor.origin).allowed
          ≡ true)
unfolding admit_publisher
admit_publisher-signed policy e publisher s h signed =
    let (p, _, h1) = passed (publisher_of e.verification) _ (rw signed at h) in
    let (d, h2) =
      passed_check
        (allowed_by (allows_normalized_publisher policy p.id p.issuer p.repository e.anchor.origin))
        (ok (some p)) h1 in
    (p, sym (ok_inj h2), allowed_by-ok _ d)

admit_rules-PassesRules :
    (w : World) (policy : Policy) (e : Enrolment) (publisher : Option PublisherIdentity)
    → admit_rules w policy e ≡ ok publisher
    → PassesRules policy e publisher
unfolding admit_rules
admit_rules-PassesRules w policy e publisher h =
    let (o, h1) = passed_check (allowed_by (allows_origin policy e.anchor.origin)) _ h in
    let (p, admits, h2) = passed (admit_publisher policy e) _ h1 in
    let (r, h3) =
      passed_check
        (allowed_by (is_revoked policy e.anchor.origin (publisher_generation e.signature))) _ h2 in
    let (a, h4) = passed_check (admit_approval w policy e) (ok p) h3 in
    let same : p ≡ publisher = ok_inj h4 in
    let admits_it : admit_publisher policy e ≡ ok publisher = admits ∙ ap ok same in
    record {
      origin_ok = allowed_by-ok _ o;
      not_revoked = allowed_by-ok _ r;
      unsigned_ok = admit_publisher-unsigned policy e publisher admits_it;
      publisher_ok = λ s signed. admit_publisher-signed policy e publisher s admits_it signed;
    }

-- What `admitTrust` lets through under a policy.
pub record IsTrusted (w : World) (policy : Policy) (e admitted : Enrolment) : Type 0 where
  pub publisher : Option PublisherIdentity
  pub rules : PassesRules policy e publisher
  pub reputable : Reputable w policy e admitted publisher

abbrev moded : Policy → Enrolment → Enrolment
moded policy e = record e { reputation_mode = recorded_mode policy }

pub admit_trust-moded :
    (w : World) (policy : Policy) (e : Enrolment) (confirmation : Text) (entries : Entries)
    (admitted : Enrolment)
    → w.host_policy ≡ ok policy
    → empty policy ≡ false
    → (admit_trust w e confirmation entries).1 ≡ ok admitted
    → IsTrusted w policy (moded policy e) admitted
unfolding admit_trust
admit_trust-moded w policy e confirmation entries admitted is_policy decides h =
    elim (Outcome-cases (admit_rules w policy (moded policy e))) [
      | inl (x, refused) ↦ cc (rw (is_policy, decides, refused) at h)
      | inr (publisher, passes) ↦ record {
        publisher = publisher;
        rules = admit_rules-PassesRules w policy (moded policy e) publisher passes;
        reputable =
            admit_reputation-Reputable w policy (moded policy e) publisher confirmation entries
              admitted (rw (is_policy, decides, passes) at h);
      }
    ]

same_offer_trans : (a b c : Enrolment) → SameOffer a b → SameOffer b c → SameOffer a c
same_offer_trans a b c h k = record {
  same_anchor = h.same_anchor ∙ k.same_anchor;
  same_signature = h.same_signature ∙ k.same_signature;
}

Reputable-SameOffer :
    (w : World) (policy : Policy) (e admitted : Enrolment) (publisher : Option PublisherIdentity)
    → Reputable w policy e admitted publisher
    → SameOffer admitted e
unfolding Reputable
Reputable-SameOffer w policy e admitted publisher (inl (_, same)) = same
Reputable-SameOffer w policy e admitted publisher (inr (p, _, weighed_)) = weighed_.same

moded-SameOffer : (policy : Policy) (e : Enrolment) → SameOffer (moded policy e) e
moded-SameOffer policy e = record { same_anchor = refl; same_signature = refl }

pub admit_trust-SameOffer :
    (w : World) (e : Enrolment) (confirmation : Text) (entries : Entries) (admitted : Enrolment)
    → (admit_trust w e confirmation entries).1 ≡ ok admitted
    → SameOffer admitted e
unfolding admit_trust
admit_trust-SameOffer w e confirmation entries admitted h = elim (Outcome-cases w.host_policy) [
  | inl (x, unreadable) ↦ cc (rw unreadable at h)
  | inr (policy, is_policy) ↦ elim (Bool-cases (empty policy)) [
    | inl undecided ↦
        let whole : moded policy e ≡ admitted = ok_inj (rw (is_policy, undecided) at h) in
        record {
          same_anchor = ap (λ x. x.anchor) (sym whole);
          same_signature = ap (λ x. x.signature) (sym whole);
        }
    | inr decides ↦
        let t = admit_trust-moded w policy e confirmation entries admitted is_policy decides h in
        same_offer_trans admitted (moded policy e) e
          (Reputable-SameOffer w policy (moded policy e) admitted t.publisher t.reputable)
          (moded-SameOffer policy e)
  ]
]

pub admit_signature-SameOffer :
    (w : World) (e admitted : Enrolment) → admit_signature w e ≡ ok admitted → SameOffer admitted e
unfolding admit_signature signature_stands
admit_signature-SameOffer w e admitted h =
    let (mode, _, h1) = passed (wrap setting_unreadable w.signature_policy) _ h in
    stands mode e.signature h1
  where
    stands :
        (mode : Text) (s : Option SignedState)
        → signature_stands w mode (record e { signature_mode = mode }) s ≡ ok admitted
        → SameOffer admitted e
    stands mode none k =
        let (_, k1) =
          not_refused (mode == ascii "required") (signature_required e.anchor.origin)
            (ok (record e { signature_mode = mode })) k in
        let whole = ok_inj k1 in
        record {
          same_anchor = ap (λ x. x.anchor) (sym whole);
          same_signature = ap (λ x. x.signature) (sym whole);
        }
    stands mode (some s) k =
        let (result, _, k1) = passed (verify_publisher w s e.anchor.origin) _ k in
        let whole = ok_inj k1 in
        record {
          same_anchor = ap (λ x. x.anchor) (sym whole);
          same_signature = ap (λ x. x.signature) (sym whole);
        }
