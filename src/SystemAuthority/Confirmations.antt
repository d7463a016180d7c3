-- ===== src/SystemAuthority/Confirmations.antt =====
-- pkg/systemauthority/reputation_confirmation.go: the tokens by which a person confirms a reputation
-- warning. The map is an association list; where several entries expire first, which one is dropped
-- is not fixed by the source, and is the first of them here.
pub mod Laws
pub mod Sequences
pub mod Bound
use cpak.Base.{
  ℕ, zero, suc, ◌+◌, ◌-◌, ◌*◌, ◌/◌, ◌%◌, ◌^◌, ◌≤◌, ◌<◌, ◌≡◌, refl, sym, ap, ◌∙◌, ◌≢◌, ◌↔◌, ◌⊎◌, inl,
  inr, Bool, true, false, not, ◌&&◌, ◌||◌, Option, none, some, List, [], ◌∷◌, ◌++◌, map, Memᴰ,
  arith, ltb, leb, nat_beq, nat_beq_iff, if◌then◌else◌, Eq, ◌==◌, ◌!=◌, nat_eq, Bool-cases,
  Option-cases, any, all, length, is_empty, length-append, any-eq-true, any_of_mem, all_mem,
  all_of_mem, all-append, any-append, all_mono, not_true, contains, contains_mem, contains_of_mem,
  Outcome, ok, err, ◌>>=◌, ◌>>◌, refuse_if, wrap, Text, ascii, text_beq, text_beq_iff, text_eq, ℤ,
  pos, int_eq, int_beq_iff, all_mono, ℤ, pos, negsuc, int_eq, not_true,
}
use cpak.Go.Time.{Instant}
use cpak.Reputation.{Status, status_eq, Result}
use cpak.Signature.{State, StateError, state_digest}
use cpak.TrustPolicy.Reputation.{ReputationDecision}
use cpak.SystemAuthority.{Enrolment, SignedState}

pub record Challenge : Type 0 where
  pub expires_at : Instant
  pub uid : ℕ
  pub origin : Text
  pub generation : ℕ
  pub launch_root : Text
  pub state_digest : Text
  pub provider_id : Text
  pub publisher_id : Text
  pub status : Status
  pub sequence : ℕ
  pub provider_reason : Text
  pub policy_reason : Text

-- `reputationConfirmationTTL` in nanoseconds, and `reputationConfirmationLimit`
abbrev pub confirmation_ttl : ℕ
confirmation_ttl = 300000000000

abbrev pub confirmation_limit : ℕ
confirmation_limit = 1024

abbrev pub Entries : Type 0
Entries = List (Text × Challenge)

unfoldable pub entry_of : Text → Entries → Option Challenge
entry_of token [] = none
entry_of token ((t, c) ∷ entries) =
    let rest = entry_of token entries in if t == token then some c else rest

-- `delete`
unfoldable pub without : Text → Entries → Entries
without token [] = []
without token ((t, c) ∷ entries) =
    let rest = without token entries in if t == token then rest else (t, c) ∷ rest

unfoldable pub prune : Instant → Entries → Entries
prune now [] = []
prune now ((t, c) ∷ entries) =
    let rest = prune now entries in if not (ltb now c.expires_at) then rest else (t, c) ∷ rest

-- The loop that looks for the entry that expires first, from the best one so far.
unfoldable pub oldest_from : Text → Instant → Entries → Text
oldest_from token expires [] = token
oldest_from token expires ((t, c) ∷ entries) =
    let earlier = token == [] || ltb c.expires_at expires in
    oldest_from (if earlier then t else token) (if earlier then c.expires_at else expires) entries

unfoldable pub make_room : Entries → Entries
unfolding oldest_from without
make_room entries =
    if leb confirmation_limit (length entries)
    then without (oldest_from [] 0 entries) entries
    else entries

module _ (sha256_hex : Text → Text) where
  digest_of : Option SignedState → Outcome StateError (Option Text)
  unfolding state_digest
  digest_of none = ok none
  digest_of (some s) = state_digest sha256_hex s.state >>= λ digest. ok (some digest)

  same_digest : Outcome StateError (Option Text) → Text → Bool
  same_digest (ok (some digest)) expected = expected == digest
  same_digest _ expected = false

  unfoldable pub matches_enrolment : Challenge → Enrolment → Bool
  unfolding digest_of same_digest
  matches_enrolment c e =
      (c.uid == e.anchor.uid && c.origin == e.anchor.origin)
      && ((c.generation == e.anchor.generation && c.launch_root == e.anchor.launch_root)
          && same_digest (digest_of e.signature) c.state_digest)

  -- The errors of `newReputationConfirmationChallenge` are all `none`.
  challenge_of :
      Enrolment
      → Result
      → ReputationDecision
      → Instant
      → Outcome StateError (Option Text)
      → Option Challenge
  challenge_of e result decision now (ok (some digest)) = some (record {
    expires_at = now + confirmation_ttl;
    uid = e.anchor.uid;
    origin = e.anchor.origin;
    generation = e.anchor.generation;
    launch_root = e.anchor.launch_root;
    state_digest = digest;
    provider_id = result.provider_id;
    publisher_id = result.publisher_id;
    status = result.status;
    sequence = result.sequence;
    provider_reason = result.reason_code;
    policy_reason = decision.reason_code;
  })
  challenge_of e result decision now _ = none

  unfoldable pub new_challenge :
      Enrolment → Result → ReputationDecision → Instant → Option Challenge
  unfolding challenge_of digest_of
  new_challenge e result decision now = challenge_of e result decision now (digest_of e.signature)

  -- The challenge goes in under the new token, over any entry that has it.
  pub enter : Entries → Option Challenge → Option Text → Instant → Entries × Option Text
  unfolding make_room prune without
  enter entries none token now = (entries, none)
  enter entries (some c) none now = (entries, none)
  enter entries (some c) (some token) now =
      ((token, c) ∷ without token (make_room (prune now entries)), some token)

  unfoldable pub issue :
      Entries
      → Enrolment
      → Result
      → ReputationDecision
      → Instant
      → Option Text
      → Entries × Option Text
  unfolding new_challenge enter
  issue entries e result decision now token =
      enter entries (new_challenge e result decision now) token now

  accepted : Option Challenge → Enrolment → Option Challenge
  unfolding matches_enrolment
  accepted none e = none
  accepted (some c) e = if matches_enrolment c e then some c else none

  -- `none` is the answer `false`. An entry that is found is gone afterwards, whatever the answer.
  unfoldable pub consume : Entries → Text → Enrolment → Instant → Entries × Option Challenge
  unfolding prune without entry_of accepted
  consume entries token e now =
      if token == [] || ltb 64 (length token)
      then (entries, none)
      else (without token (prune now entries), accepted (entry_of token (prune now entries)) e)

unfoldable pub matches_warning : Challenge → Result → ReputationDecision → Bool
matches_warning c result decision =
    (c.provider_id == result.provider_id
      && (c.publisher_id == result.publisher_id && c.status == result.status))
    && (c.sequence == result.sequence
        && (c.provider_reason == result.reason_code && c.policy_reason == decision.reason_code))
