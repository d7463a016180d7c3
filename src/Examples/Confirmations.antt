-- ===== src/Examples/Confirmations.antt =====
-- Tests of the confirmation tokens, and of the order on permission sets.
use cpak.Base.{
  ◌≤◌, ◌<◌, ◌≡◌, refl, sym, ◌∙◌, ◌≢◌, true, false, Option, none, some, [], ◌∷◌, Memᴰ, arith, nat_eq,
  any, all, length, ok, Text, ascii, text_beq, text_beq_iff, text_eq, int_eq, int_eq,
}
use mathlib.Core.Bool.{true≢false}
use cpak.Base.{some_inj}
use cpak.Go.Regexp.{match_string}
use cpak.Go.Strings.{split}
use cpak.TrustPolicy.Origin.{canonical_origin}
use cpak.TrustPolicy.Reputation.{ReputationDecision, warn}
use cpak.Reputation.{Result, unknown}
use cpak.Signature.{state_digest, canonical_state}
use cpak.SystemAuthority.{SignedState}
use cpak.SystemAuthority.Confirmations.{
  prune, Challenge, Entries, issue, consume, matches_warning, confirmation_limit,
}
use cpak.SystemAuthority.Confirmations.Laws.{consume-matches}
use cpak.SystemAuthority.Confirmations.Sequences.{
  consume_once, issue-consume, Later, Waiting, issues, consumes, stay,
}
use cpak.SystemAuthority.Confirmations.Bound.{confirmations_bound}
use cpak.Types.Override.{Override, new_override}
use cpak.Integrity.Policy.Restricts.{policy_restricts}
use cpak.Integrity.Policy.Restricts.Order.{policy_restricts_trans}
use cpak.Examples.Enrolments.{signed_state, enrolment_at, editor, zeros}

abbrev hash : Text → Text
hash t = zeros

abbrev doubtful : Result
doubtful = record {
  provider_id = ascii "provider";
  publisher_id = ascii "publisher";
  status = unknown;
  issued_at = 0;
  expires_at = 10;
  sequence = 1;
  reason_code = ascii "publisher-not-listed";
}

abbrev warning : ReputationDecision
warning = record {
  allowed = true;
  action = warn;
  reason_code = ascii "publisher-not-listed";
  reason = ascii "warned";
  exception_ = false;
}

abbrev ticket : Text
ticket = ascii "token"

abbrev issued : Entries
issued = (issue hash [] (enrolment_at 1 5) doubtful warning 0 (some ticket)).0

ticket_issued : (issue hash [] (enrolment_at 1 5) doubtful warning 0 (some ticket)).1 ≡ some ticket
unfolding issue canonical_origin split match_string text_beq state_digest canonical_state
ticket_issued = refl

abbrev second_ticket : Text
second_ticket = ascii "other"

-- Another token is issued, and one that does not exist is asked for.
abbrev store : Entries
store =
    (consume hash (issue hash issued (enrolment_at 1 5) doubtful warning 3 (some second_ticket)).0
      (ascii "nothing") (enrolment_at 1 5) 5).0

apart : (a b : Text) → text_beq a b ≡ false → a ≢ b
apart a b h e = true≢false (sym ((text_beq_iff a b).1 e) ∙ h)

other_ticket : ◌≢◌ {A = Option Text} (some second_ticket) (some ticket)
unfolding text_beq
other_ticket h = apart second_ticket ticket refl (some_inj h)

waiting : Waiting hash ticket 300000000000 issued store
unfolding issue prune canonical_origin split match_string text_beq state_digest canonical_state
waiting =
    consumes
      (issues stay (enrolment_at 1 5) doubtful warning 3 (some second_ticket) (ground arith)
        other_ticket (ground arith))
      (ascii "nothing") (enrolment_at 1 5) 5 (ground arith) (apart (ascii "nothing") ticket refl)

issue-consume_example :
    (c : Challenge) × ((consume hash store ticket (enrolment_at 1 5) 7).1 ≡ some c)
    × (matches_warning c doubtful warning ≡ true)
unfolding text_beq
issue-consume_example =
    issue-consume hash ticket [] store (enrolment_at 1 5) doubtful warning 0 7 refl ticket_issued
      waiting (ground arith)

accepted_first : (c : Challenge) × ((consume hash issued ticket (enrolment_at 1 5) 7).1 ≡ some c)
unfolding text_beq
accepted_first =
    let (c, taken, _) =
      issue-consume hash ticket [] issued (enrolment_at 1 5) doubtful warning 0 7 refl ticket_issued
        Waiting.stay (ground arith) in
    (c, taken)

abbrev used : Entries
used = (consume hash issued ticket (enrolment_at 1 5) 7).0

consume_once_example :
    (consume hash
      (issue hash used (enrolment_at 1 5) doubtful warning 8 (some second_ticket)).0
      ticket
      (enrolment_at 1 5)
      9).1
    ≡ none
consume_once_example =
    consume_once hash ticket issued
      (issue hash used (enrolment_at 1 5) doubtful warning 8 (some second_ticket)).0
      (enrolment_at 1 5) (enrolment_at 1 5) 7 9 accepted_first.0 accepted_first.1
      (Later.issues Later.stay (enrolment_at 1 5) doubtful warning 8 (some second_ticket)
        other_ticket)

consume-matches_example :
    Memᴰ (ticket, accepted_first.0) issued
    × (7 < accepted_first.0.expires_at)
    × (accepted_first.0.uid ≡ 1000)
    × (accepted_first.0.origin ≡ editor)
    × (accepted_first.0.generation ≡ 1)
    × (accepted_first.0.launch_root ≡ zeros)
    × ((signed : SignedState) × (◌≡◌ {A = Option SignedState} (some (signed_state 5)) (some signed))
        × (state_digest hash signed.state ≡ ok accepted_first.0.state_digest))
consume-matches_example =
    consume-matches hash issued ticket (enrolment_at 1 5) 7 accepted_first.0 accepted_first.1

confirmations_bound_example :
    (length (issue hash [] (enrolment_at 1 5) doubtful warning 1 (some ticket)).0
      ≤ confirmation_limit)
    × (length (consume hash [] ticket (enrolment_at 1 5) 1).0 ≤ confirmation_limit)
confirmations_bound_example =
    confirmations_bound hash [] (enrolment_at 1 5) doubtful warning 1 (some ticket) ticket
      (ground arith)

abbrev home_writer : Override
home_writer = record new_override { network = true; fs_host_home = true }

abbrev home_reader : Override
home_reader = record new_override {
  network = true;
  filesystem = record { path = ascii "home/Documents"; access = ascii "read-only" } ∷ [];
}

abbrev keep_path : Text → Text
keep_path path = path

home_narrowed : policy_restricts keep_path home_writer home_reader ≡ true
unfolding policy_restricts all any text_beq
home_narrowed = refl

nothing_left : policy_restricts keep_path home_reader new_override ≡ true
unfolding policy_restricts all
nothing_left = refl

policy_restricts_trans_example : policy_restricts keep_path home_writer new_override ≡ true
policy_restricts_trans_example =
    policy_restricts_trans keep_path home_writer home_reader new_override home_narrowed nothing_left

-- The other way round it is a widening.
home_widened : policy_restricts keep_path home_reader home_writer ≡ false
unfolding policy_restricts all any text_beq
home_widened = refl
