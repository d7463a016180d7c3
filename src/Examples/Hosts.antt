-- ===== src/Examples/Hosts.antt =====
-- Tests of pkg/trustpolicy at one host, and the theorems at work there.
use cpak.Base.{
  ◌≡◌, refl, ◌≢◌, ◌↔◌, ◌⊎◌, inr, true, false, none, some, [], ◌∷◌, Memᴰ, nat_eq, any, ok, Text,
  ascii, text_beq, text_eq, pos, int_eq, pos, int_eq,
}
use cpak.Go.Strings.{split}
use cpak.Go.Regexp.{match_string}
use cpak.TrustPolicy.Origin.{canonical_origin, same_origin}
use cpak.TrustPolicy.Policy.{Policy, Signer, Revocation, zero_policy, empty}
use cpak.TrustPolicy.Decide.{
  settled, withdrawn, listed_origin, normalized_rules, publisher_rules, signer_rules, allows_origin,
  allows_publisher, allows_normalized_publisher, allows_approval, is_revoked, matches,
}
use cpak.TrustPolicy.Origin.Laws.{canonical_origin-HasShape, HasShape}
use cpak.TrustPolicy.Decide.Origins.{allows_origin_iff, MayInstall}
use cpak.TrustPolicy.Decide.Revocations.{is_revoked_iff, revoked_origin_refused, MayLaunch}
use cpak.TrustPolicy.Decide.Publishers.{allows_publisher_iff, MayPublish, Speaks}
use cpak.TrustPolicy.Decide.Approvals.{normalized_requires, allows_approval_iff}
use cpak.TrustPolicy.Decide.Settled.{AllAnswer, Question}
use cpak.TrustPolicy.Validate.{validate_policy}
use cpak.TrustPolicy.Validate.Unreadable.{unreadable_refused}

abbrev editor : Text
editor = ascii "ghcr.io/fab/editor"

abbrev loud_editor : Text
loud_editor = ascii "GHCR.io/Fab/editor"

abbrev miner : Text
miner = ascii "ghcr.io/bad/miner"

abbrev issuer : Text
issuer = ascii "https://token.actions.example"

abbrev miner_revoked : Revocation
miner_revoked = record { origin = miner; generation = 0; reason = [] }

abbrev any_signer : Signer
any_signer = record { issuer = issuer; repo = [] }

-- A host that approves one issuer for whatever it publishes itself, and has withdrawn one origin.
abbrev host : Policy
host = record zero_policy {
  abi = pos 1;
  require_publisher = true;
  approved_signers = any_signer ∷ [];
  approved_origins = editor ∷ miner ∷ [];
  revoked = miner_revoked ∷ [];
}

host-settled : settled host ≡ none
unfolding settled empty
host-settled = refl

editor-same : same_origin loud_editor editor ≡ true
unfolding same_origin match_string split text_beq
editor-same = refl

editor-refused : (allows_origin host (ascii "ghcr.io/fab/other")).allowed ≡ false
unfolding allows_origin settled empty canonical_origin same_origin match_string split withdrawn
    listed_origin text_beq any
editor-refused = refl

allows_origin_iff_example : ((allows_origin host editor).allowed ≡ true) ↔ MayInstall host editor
allows_origin_iff_example = allows_origin_iff host editor host-settled

allows_publisher_iff_example :
    ((allows_publisher host issuer editor editor).allowed ≡ true)
    ↔ MayPublish host issuer editor editor
allows_publisher_iff_example = allows_publisher_iff host issuer editor editor host-settled

allows_approval_iff_example : ((allows_approval host issuer editor).allowed ≡ true) ↔ (
    ((issuer ≢ []) ⊎ (editor ≢ []))
    × (((host.approval_signers ≡ []) × (host.require_approval ≡ false))
        ⊎ ((s : Signer) × Memᴰ s host.approval_signers × (matches s issuer editor ≡ true))))
allows_approval_iff_example = allows_approval_iff host issuer editor host-settled

is_revoked_iff_example : ((is_revoked host editor 7).allowed ≡ true) ↔ MayLaunch host editor 7
is_revoked_iff_example = is_revoked_iff host editor 7 host-settled

editor-allowed : (allows_origin host editor).allowed ≡ true
unfolding allows_origin settled empty canonical_origin same_origin match_string split withdrawn
    listed_origin text_beq any
editor-allowed = refl

miner-same : same_origin miner miner ≡ true
unfolding same_origin match_string split text_beq
miner-same = refl

revoked_origin_refused_example :
    ((allows_origin host miner).allowed ≡ false) × ((is_revoked host miner 4).allowed ≡ false)
revoked_origin_refused_example =
    revoked_origin_refused host miner 4 miner_revoked host-settled (Memᴰ.head refl) refl miner-same

editor-published : (allows_normalized_publisher host [] issuer editor editor).allowed ≡ true
unfolding allows_normalized_publisher normalized_rules publisher_rules signer_rules matches settled
    empty canonical_origin same_origin match_string split text_beq
editor-published = refl

normalized_requires_example :
    ((◌≢◌ {A = Text} [] []) × Memᴰ [] host.approved_publisher_ids)
    ⊎ ((w : Text) × (canonical_origin editor ≡ some w)
        × Speaks host.approved_signers issuer editor w)
normalized_requires_example =
    normalized_requires host [] issuer editor editor host-settled refl editor-published

editor-read : canonical_origin loud_editor ≡ some editor
unfolding canonical_origin match_string split text_beq
editor-read = refl

canonical_origin-HasShape_example : HasShape editor × (canonical_origin editor ≡ some editor)
canonical_origin-HasShape_example = canonical_origin-HasShape loud_editor editor-read

editor_self : same_origin editor editor ≡ true
unfolding same_origin match_string split text_beq
editor_self = refl

abbrev question : Question
question = record {
  origin = editor;
  issuer = issuer;
  repo = editor;
  publisher_id = [];
  generation = 7;
}

abbrev half_written : Policy
half_written = record zero_policy {
  abi = pos 2;
  x509 = some (record { revocation = ascii "require-good" });
}

unreadable_refused_example :
    AllAnswer half_written question false
    × (validate_policy (λ t. none) (λ t. t) half_written ≢ ok tt)
unreadable_refused_example =
    unreadable_refused (λ t. none) (λ t. t) half_written question (inr (refl, inr refl))
