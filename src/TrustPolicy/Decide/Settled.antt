-- ===== src/TrustPolicy/Decide/Settled.antt =====
-- The answers that do not depend on what was asked.
use cpak.Base.{
  int_beq_iff, ℕ, ◌≡◌, refl, ◌≢◌, ◌⊎◌, inl, inr, Bool, true, false, none, some, arith, nat_eq, Text,
  text_eq, pos, int_eq,
}
use cpak.TrustPolicy.Policy.{
  Policy, Decision, abi_version, current_abi_version, empty, allow, refuse, no_policy,
  unsupported_abi, missing_section,
}
use cpak.TrustPolicy.Decide.{
  settled, allows_origin, allows_publisher, allows_normalized_publisher, allows_approval,
  is_revoked,
}

-- What the five decisions are asked.
pub record Question : Type 0 where
  pub origin : Text
  pub issuer : Text
  pub repo : Text
  pub publisher_id : Text
  pub generation : ℕ

-- All five decisions about the question have the answer.
abbrev pub AllAnswer : Policy → Question → Bool → Type 0
AllAnswer p q b =
    ((allows_origin p q.origin).allowed ≡ b)
    × ((allows_publisher p q.issuer q.repo q.origin).allowed ≡ b)
    × ((allows_normalized_publisher p q.publisher_id q.issuer q.repo q.origin).allowed ≡ b)
    × ((allows_approval p q.issuer q.repo).allowed ≡ b)
    × ((is_revoked p q.origin q.generation).allowed ≡ b)

settled-AllAnswer :
    (p : Policy) (q : Question) (d : Decision) → settled p ≡ some d → AllAnswer p q d.allowed
unfolding allows_origin allows_publisher allows_normalized_publisher allows_approval is_revoked
settled-AllAnswer p q d h = rw h (refl, refl, refl, refl, refl)

-- A policy that decides nothing, and that names no ABI or the first one, allows every question.
pub empty_allows_all :
    (p : Policy) (q : Question)
    → (p.abi ≡ pos 0) ⊎ (p.abi ≡ abi_version)
    → empty p ≡ true
    → AllAnswer p q true
empty_allows_all p q v e = settled-AllAnswer p q (allow no_policy) (
    unfold settled in
    ground (arith, int_beq_iff p.abi (pos 0), int_beq_iff p.abi (pos 1), int_beq_iff p.abi (pos 2)))

-- A policy of an unknown ABI, or of the second one without its sections.
abbrev pub IsUnreadable : Policy → Type 0
IsUnreadable p =
    ((p.abi ≢ pos 0) × (p.abi ≢ abi_version) × (p.abi ≢ current_abi_version))
    ⊎ ((p.abi ≡ current_abi_version) × ((p.x509 ≡ none) ⊎ (p.reputation ≡ none)))

-- The five decisions of a policy that this build cannot read, or that lacks a section its ABI
-- requires, refuse.
pub unreadable_refuses_all : (p : Policy) (q : Question) → IsUnreadable p → AllAnswer p q false
unreadable_refuses_all p q (inl h) = settled-AllAnswer p q (refuse (unsupported_abi p.abi)) (
    unfold settled in
    ground (arith, int_beq_iff p.abi (pos 0), int_beq_iff p.abi (pos 1), int_beq_iff p.abi (pos 2)))
unreadable_refuses_all p q (inr h) = settled-AllAnswer p q (refuse missing_section) (
    unfold settled in
    ground (arith, int_beq_iff p.abi (pos 0), int_beq_iff p.abi (pos 1), int_beq_iff p.abi (pos 2)))
