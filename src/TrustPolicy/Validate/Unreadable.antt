-- ===== src/TrustPolicy/Validate/Unreadable.antt =====
-- What becomes of a policy that this build cannot read.
use cpak.Base.{
  ◌≢◌, inl, inr, false, Option, arith, nat_eq, ok, Text, text_eq, pos, int_eq, int_beq_iff, pos,
  int_eq,
}
use cpak.TrustPolicy.Policy.{Policy}
use cpak.TrustPolicy.Decide.Settled.{IsUnreadable, AllAnswer, Question, unreadable_refuses_all}
use cpak.TrustPolicy.Validate.{Url, validate_policy, validate_abi, validate_sections}

module _ (parse_url : Text → Option Url) (trim_space : Text → Text) where
  unreadable_invalid :
      (p : Policy) → IsUnreadable p → validate_policy parse_url trim_space p ≢ ok tt
  unfolding validate_policy validate_abi validate_sections
  unreadable_invalid p (inl h) = λ k.
      ground
        (arith, k, int_beq_iff p.abi (pos 0), int_beq_iff p.abi (pos 1), int_beq_iff p.abi (pos 2))
  unreadable_invalid p (inr h) = λ k. ground (
    arith,
    k,
    h.0,
    h.1,
    int_beq_iff p.abi (pos 0),
    int_beq_iff p.abi (pos 1),
    int_beq_iff p.abi (pos 2),
  )

  -- A policy of an ABI that is neither zero nor one of the two that this build knows, or of the second
  -- one without its X.509 or its reputation section, does not pass `Validate`; and where it is used
  -- all the same, each of the five decisions about origins, publishers, approvals and revocations
  -- refuses, whatever it is asked, also if the policy states nothing. The reputation stage is not one
  -- of the five.
  pub unreadable_refused :
      (p : Policy) (q : Question)
      → IsUnreadable p
      → AllAnswer p q false × (validate_policy parse_url trim_space p ≢ ok tt)
  unreadable_refused p q h = (unreadable_refuses_all p q h, unreadable_invalid p h)
