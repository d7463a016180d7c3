-- ===== src/TrustPolicy/Validate/Laws.antt =====
-- What a validated policy is to the decisions.
use cpak.Base.{
  ◌≡◌, refl, sym, ap, ◌⊎◌, inl, inr, true, false, ◌&&◌, Option, none, some, List, [], ◌∷◌, Memᴰ,
  arith, nat_eq, all, is_empty, ok, Text, ascii, text_beq_iff, text_eq, pos, int_eq, int_beq_iff,
  pos, int_eq,
}
use cpak.Base.{is_empty_of_mem}
use cpak.Go.Time.{Instant}
use cpak.Go.Regexp.{match_string}
use cpak.Reputation.{name_pattern}
use cpak.Reputation
use cpak.TrustPolicy.Origin.{canonical_origin}
use cpak.TrustPolicy.Policy.{
  Revocation, ReputationException, ReputationPolicy, Policy, allow, no_policy, empty, X509Policy,
}
use cpak.TrustPolicy.Decide.{settled}
use cpak.TrustPolicy.Reputation.{InvocationContext, decides_reputation, validate_decision}
use cpak.TrustPolicy.Reputation.Actions.{decides_reputation-valid, has_name}
use cpak.TrustPolicy.Validate.{
  Check, each, validate_policy, validate_abi, validate_lists, validate_sections, validate_v2,
  validate_exceptions, validate_exception, validate_origin, validate_revocation, Url, same_as_read,
  scope_key,
}

each_mem :
    {A : Type 0} (check : A → Check) (x : A) (xs : List A)
    → each check xs ≡ ok tt
    → Memᴰ x xs
    → check x ≡ ok tt
unfolding each
each_mem check x [] h m = elim m [ ]
each_mem check x (y ∷ ys) h (Memᴰ.head e) = rw e (ground arith)
each_mem check x (y ∷ ys) h (Memᴰ.tail m) = each_mem check x ys (ground arith) m

validate_origin-read :
    (field o : Text) → validate_origin field o ≡ ok tt → canonical_origin o ≡ some o
unfolding validate_origin same_as_read
validate_origin-read field o h = at (canonical_origin o) refl h
  where
    at : (r : Option Text) → canonical_origin o ≡ r → same_as_read field o r ≡ ok tt → r ≡ some o
    at none e k = cc
    at (some w) e k = ap some (ground (arith, text_beq_iff w o))

validate_exceptions-has_name :
    (seen : List Text) (es : List ReputationException)
    → validate_exceptions seen es ≡ ok tt
    → all has_name es ≡ true
unfolding validate_exceptions validate_exception all
validate_exceptions-has_name seen [] h = refl
validate_exceptions-has_name seen (e ∷ es) h =
    ground (arith, validate_exceptions-has_name (scope_key e ∷ seen) es (ground arith))

revocation-origin :
    (r : Revocation)
    → validate_revocation r ≡ ok tt
    → validate_origin (ascii "revoked") r.origin ≡ ok tt
unfolding validate_revocation
revocation-origin r h = ground arith

sections-has_name :
    (x : Option X509Policy) (o : Option ReputationPolicy) (ids : List Text) (rp : ReputationPolicy)
    → validate_sections x o ids ≡ ok tt
    → o ≡ some rp
    → all has_name rp.exceptions ≡ true
unfolding validate_sections validate_v2
sections-has_name (some x) (some q) ids rp h e =
    ground (arith, validate_exceptions-has_name [] q.exceptions (ground arith))
sections-has_name _ _ ids rp h e = cc

module _ (parse_url : Text → Option Url) (trim_space : Text → Text) where
  readable :
      (p : Policy)
      → validate_policy parse_url trim_space p ≡ ok tt
      → (settled p ≡ none) ⊎ (settled p ≡ some (allow no_policy))
  unfolding validate_policy validate_abi validate_sections settled
  readable p h = ground (arith, int_beq_iff p.abi (pos 0))

  requires_publisher :
      (p : Policy)
      → validate_policy parse_url trim_space p ≡ ok tt
      → p.require_publisher ≡ true
      → (is_empty p.approved_signers && is_empty p.approved_publisher_ids) ≡ false
  unfolding validate_policy validate_lists empty
  requires_publisher p h r = ground arith

  requires_approval :
      (p : Policy)
      → validate_policy parse_url trim_space p ≡ ok tt
      → p.require_approval ≡ true
      → is_empty p.approval_signers ≡ false
  unfolding validate_policy validate_lists empty
  requires_approval p h r = ground arith

  -- A validated policy is one that this build can read: it leaves the question open, or it decides
  -- nothing and allows. And it requires no publisher without naming a signer or a publisher ID, and
  -- no approval without naming a signer of approvals.
  pub validate_policy-settled :
      (p : Policy)
      → validate_policy parse_url trim_space p ≡ ok tt
      → ((settled p ≡ none) ⊎ (settled p ≡ some (allow no_policy)))
        × (p.require_publisher ≡ true
            → (is_empty p.approved_signers && is_empty p.approved_publisher_ids) ≡ false)
        × (p.require_approval ≡ true → is_empty p.approval_signers ≡ false)
  validate_policy-settled p h = (readable p h, requires_publisher p h, requires_approval p h)

  policy-lists :
      (p : Policy)
      → validate_policy parse_url trim_space p ≡ ok tt
      → empty p ≡ false
      → validate_lists parse_url trim_space p ≡ ok tt
  unfolding validate_policy
  policy-lists p h e = ground arith

  lists-approved :
      (p : Policy)
      → validate_lists parse_url trim_space p ≡ ok tt
      → each (validate_origin (ascii "approved_origins")) p.approved_origins ≡ ok tt
  unfolding validate_lists
  lists-approved p h = ground arith

  lists-revoked :
      (p : Policy)
      → validate_lists parse_url trim_space p ≡ ok tt
      → each validate_revocation p.revoked ≡ ok tt
  unfolding validate_lists
  lists-revoked p h = ground arith

  -- A validated policy spells every origin that it approves or revokes the way it is compared.
  pub validate_policy-canonical :
      (p : Policy) (o : Text)
      → validate_policy parse_url trim_space p ≡ ok tt
      → Memᴰ o p.approved_origins ⊎ ((r : Revocation) × Memᴰ r p.revoked × (r.origin ≡ o))
      → canonical_origin o ≡ some o
  validate_policy-canonical p o h (inl m) =
      let named : empty p ≡ false =
        unfold empty in ground (arith, is_empty_of_mem o p.approved_origins m) in
      validate_origin-read (ascii "approved_origins") o (
        each_mem (validate_origin (ascii "approved_origins")) o p.approved_origins
          (lists-approved p (policy-lists p h named)) m)
  validate_policy-canonical p o h (inr (r, m, e)) =
      let named : empty p ≡ false = unfold empty in ground (arith, is_empty_of_mem r p.revoked m) in
      rw (sym e) (
        validate_origin-read (ascii "revoked") r.origin (
          revocation-origin r (
            each_mem validate_revocation r p.revoked (lists-revoked p (policy-lists p h named)) m)))

  named :
      (p : Policy) (rp : ReputationPolicy)
      → validate_policy parse_url trim_space p ≡ ok tt
      → p.reputation ≡ some rp
      → all has_name rp.exceptions ≡ true
  unfolding validate_policy validate_abi empty
  named p rp h e =
      sections-has_name p.x509 p.reputation p.approved_publisher_ids rp (ground arith) e

  -- Under a validated policy, whatever the reputation stage decides about an answer with a
  -- well-formed reason code is a decision that `Validate` accepts.
  pub validate_policy-decides :
      (p : Policy) (result : Reputation.Result) (publisher_id origin : Text) (now : Instant)
      (context : InvocationContext)
      → validate_policy parse_url trim_space p ≡ ok tt
      → match_string name_pattern result.reason_code ≡ true
      → validate_decision (decides_reputation p result publisher_id origin now context) ≡ ok tt
  validate_policy-decides p result publisher_id origin now context h n =
      decides_reputation-valid p result publisher_id origin now context n λ rp e. named p rp h e
