-- ===== src/TrustPolicy/Decide.antt =====
-- pkg/trustpolicy/decide.go: the decisions. Each answers first what does not depend on the question
-- (`settled`), then reads the origin, then its own rules. Each loop is a recursion on its list.
pub mod Origins
pub mod Revocations
pub mod Publishers
pub mod Approvals
pub mod Settled
use cpak.Base.{
  ℕ, ◌-◌, Bool, true, false, not, ◌&&◌, ◌||◌, Option, none, some, List, [], ◌∷◌, if◌then◌else◌,
  ◌==◌, ◌!=◌, nat_eq, any, length, is_empty, contains, Text, text_eq, pos, int_eq,
}
use cpak.TrustPolicy.Origin.{canonical_origin, same_origin}
use cpak.TrustPolicy.Policy.{
  Signer, Revocation, Policy, abi_version, current_abi_version, is_none, empty, Reason, Decision,
  allow, refuse, unsupported_abi, missing_section, no_policy, not_an_origin,
  revoked_every_generation, revoked_generation, not_revoked_unknown_generation, not_revoked,
  origins_unrestricted, origin_approved, origin_not_approved, nothing_signed, nobody_can_publish,
  publishers_unrestricted, signer_approved, signer_is_origin, signer_not_origin,
  signer_not_approved, publisher_approved, no_normalized_identity, publisher_not_approved,
  nothing_countersigned, nobody_may_approve, no_approval_expected, may_countersign,
  may_not_countersign,
}

-- `settled`: the answer that does not depend on what was asked, if there is one.
unfoldable pub settled : Policy → Option Decision
unfolding empty
settled p =
    if (p.abi != pos 0) && ((p.abi != abi_version) && (p.abi != current_abi_version))
    then some (refuse (unsupported_abi p.abi))
    else if (p.abi == current_abi_version) && (is_none p.x509 || is_none p.reputation)
    then some (refuse missing_section)
    else if empty p
    then some (allow no_policy)
    else none

-- `Signer.matches`
unfoldable pub matches : Signer → Text → Text → Bool
matches s issuer repo =
    if (s.issuer != []) && (s.issuer != issuer)
    then false
    else if s.repo == []
    then true
    else same_origin s.repo repo

-- The first revocation of the whole origin.
unfoldable pub withdrawn : List Revocation → Text → Option Decision
withdrawn [] wanted = none
withdrawn (r ∷ rs) wanted =
    if (r.generation == 0) && same_origin r.origin wanted
    then some (refuse (revoked_every_generation wanted r.reason))
    else withdrawn rs wanted

abbrev pub decided_or : Option Decision → Decision → Decision
decided_or none d = d
decided_or (some d) _ = d

unfoldable pub listed_origin : List Text → Text → Decision
listed_origin approved wanted =
    if is_empty approved
    then allow origins_unrestricted
    else if any (λ o. same_origin o wanted) approved
    then allow (origin_approved wanted)
    else refuse (origin_not_approved wanted (length approved))

-- What is asked of an origin once it is read; an unreadable one is refused.
abbrev pub for_origin : Text → (Text → Decision) → Option Text → Decision
for_origin origin rules none = refuse (not_an_origin origin)
for_origin origin rules (some wanted) = rules wanted

origin_rules : Policy → Text → Decision
unfolding withdrawn listed_origin
origin_rules p wanted =
    decided_or (withdrawn p.revoked wanted) (listed_origin p.approved_origins wanted)

unfoldable pub allows_origin : Policy → Text → Decision
unfolding settled origin_rules
allows_origin p origin =
    decided_or (settled p) (for_origin origin (origin_rules p) (canonical_origin origin))

-- The loop over the signers; the flag is `openEntry`, the number is the length of the whole list.
unfoldable pub signer_rules : ℕ → Bool → List Signer → Text → Text → Text → Decision
unfolding matches
signer_rules n open_entry [] issuer repo wanted =
    if open_entry
    then refuse (signer_not_origin issuer repo wanted)
    else refuse (signer_not_approved issuer repo n)
signer_rules n open_entry (s ∷ ss) issuer repo wanted =
    let skipped = signer_rules n open_entry ss issuer repo wanted in
    let opened = signer_rules n true ss issuer repo wanted in
    if not (matches s issuer repo)
    then skipped
    else if s.repo != []
    then allow (signer_approved issuer repo)
    else if same_origin repo wanted
    then allow (signer_is_origin issuer repo wanted)
    else opened

unfoldable pub publisher_rules : Policy → Text → Text → Text → Decision
unfolding signer_rules
publisher_rules p issuer repo wanted =
    if (issuer == []) && (repo == [])
    then refuse (nothing_signed wanted)
    else if is_empty p.approved_signers
    then (if p.require_publisher
        then refuse (nobody_can_publish wanted)
        else allow publishers_unrestricted)
    else signer_rules (length p.approved_signers) false p.approved_signers issuer repo wanted

unfoldable pub allows_publisher : Policy → Text → Text → Text → Decision
unfolding settled publisher_rules
allows_publisher p issuer repo origin =
    decided_or (settled p)
      (for_origin origin (publisher_rules p issuer repo) (canonical_origin origin))

unfoldable pub normalized_rules : Policy → Text → Text → Text → Text → Decision
unfolding allows_publisher
normalized_rules p publisher_id issuer repo origin =
    if (publisher_id != []) && contains publisher_id p.approved_publisher_ids
    then allow (publisher_approved publisher_id)
    else if not (is_empty p.approved_signers)
    then allows_publisher p issuer repo origin
    else if is_empty p.approved_publisher_ids && not p.require_publisher
    then allow publishers_unrestricted
    else if publisher_id == []
    then refuse (no_normalized_identity origin)
    else refuse (publisher_not_approved publisher_id (length p.approved_publisher_ids))

unfoldable pub allows_normalized_publisher : Policy → Text → Text → Text → Text → Decision
unfolding settled normalized_rules
allows_normalized_publisher p publisher_id issuer repo origin =
    decided_or (settled p) (normalized_rules p publisher_id issuer repo origin)

approval_rules : Policy → Text → Text → Decision
unfolding matches
approval_rules p issuer repo =
    if (issuer == []) && (repo == [])
    then refuse nothing_countersigned
    else if is_empty p.approval_signers
    then (if p.require_approval then refuse nobody_may_approve else allow no_approval_expected)
    else if any (λ s. matches s issuer repo) p.approval_signers
    then allow (may_countersign issuer repo)
    else refuse (may_not_countersign issuer repo (length p.approval_signers))

unfoldable pub allows_approval : Policy → Text → Text → Decision
unfolding settled approval_rules
allows_approval p issuer repo = decided_or (settled p) (approval_rules p issuer repo)

-- The loop of `IsRevoked`: the first revocation that names the whole origin or this generation.
unfoldable pub revocation_of : List Revocation → Text → ℕ → Option Decision
revocation_of [] wanted generation = none
revocation_of (r ∷ rs) wanted generation =
    let later = revocation_of rs wanted generation in
    if not (same_origin r.origin wanted)
    then later
    else if r.generation == 0
    then some (refuse (revoked_every_generation wanted r.reason))
    else if (generation != 0) && (r.generation == generation)
    then some (refuse (revoked_generation generation wanted r.reason))
    else later

revocation_rules : Policy → ℕ → Text → Decision
unfolding revocation_of
revocation_rules p generation wanted = decided_or (revocation_of p.revoked wanted generation) (
    if generation == 0
    then allow (not_revoked_unknown_generation wanted)
    else allow (not_revoked generation wanted))

unfoldable pub is_revoked : Policy → Text → ℕ → Decision
unfolding settled revocation_rules
is_revoked p origin generation =
    decided_or (settled p)
      (for_origin origin (revocation_rules p generation) (canonical_origin origin))
