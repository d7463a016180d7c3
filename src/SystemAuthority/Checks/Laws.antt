-- ===== src/SystemAuthority/Checks/Laws.antt =====
-- What an origin that the authority takes is spelled in, and what a checked enrolment states.
use cpak.Base.{
  ◌≡◌, sym, ap, true, false, not, ◌&&◌, List, [], ◌∷◌, arith, if◌then◌else◌, ◌!=◌, nat_eq, all, ok,
  Text, text_eq, int_eq, int_eq,
}
use cpak.Base.{passed, passed_check, not_refused, not_refused_last}
use cpak.Go.Regexp.{match_string}
use cpak.Go.Strings.{split, join}
use cpak.Go.Strings.Laws.{join-split}
use cpak.TrustPolicy.Origin.Laws.{is_origin_byte, joined_bytes, segment_bytes}
use cpak.TrustPolicy.Policy.{is_none}
use cpak.Integrity.{root_pattern}
use cpak.SystemAuthority.{
  Enrolment, Tombstone, World, bad_origin, reputation_apart, bad_signature_mode,
  bad_reputation_mode, bad_root,
}
use cpak.SystemAuthority.Checks.{
  part_ok, three_parts, validate_origin, validate_anchor, validate_signed_state,
  validate_recorded_verification, reputation_ok, reputation_mode_ok, signature_mode_ok,
  matching_policy_schema, complete_policy_schema, complete_tombstone_schema,
}

part_ok-bytes : (part : Text) → part_ok part ≡ true → all is_origin_byte part ≡ true
unfolding part_ok
part_ok-bytes part h = segment_bytes part (ground arith)

three_parts-bytes :
    (pieces : List Text) → three_parts pieces ≡ true → all is_origin_byte (join b'/' pieces) ≡ true
unfolding three_parts
three_parts-bytes (h ∷ o ∷ n ∷ []) fit =
    joined_bytes h o n (part_ok-bytes h (ground arith)) (part_ok-bytes o (ground arith))
      (part_ok-bytes n (ground arith))
three_parts-bytes _ fit = cc

pub validate_origin-bytes :
    (origin : Text) → validate_origin origin ≡ ok tt → all is_origin_byte origin ≡ true
unfolding validate_origin
validate_origin-bytes origin h =
    let (_, shaped) = not_refused _ bad_origin _ h in
    let refused : not (three_parts (split b'/' origin)) ≡ false =
      not_refused_last _ bad_origin shaped in
    let fit : three_parts (split b'/' origin) ≡ true = ground (arith, refused) in
    rw (sym (join-split b'/' origin)) (three_parts-bytes (split b'/' origin) fit)

-- What a completed enrolment has passed, and what completing leaves alone.
pub record IsChecked (w : World) (e completed : Enrolment) : Type 0 where
  pub anchor_ok : validate_anchor w e.anchor ≡ ok tt
  pub signature_ok : validate_signed_state e.anchor e.signature ≡ ok tt
  pub same_anchor : completed.anchor ≡ e.anchor
  pub same_signature : completed.signature ≡ e.signature

pub complete_policy_schema-IsChecked :
    (w : World) (e completed : Enrolment)
    → complete_policy_schema w e ≡ ok completed
    → IsChecked w e completed
unfolding complete_policy_schema
complete_policy_schema-IsChecked w e completed h =
    let (a, h1) = passed_check (validate_anchor w e.anchor) _ h in
    let (s, h2) = passed_check (validate_signed_state e.anchor e.signature) _ h1 in
    let (_, h3) = passed_check (validate_recorded_verification w e) _ h2 in
    let (_, h4) =
      not_refused
        (if is_none e.reputation
          then not (is_none e.reputation_decision)
          else is_none e.reputation_decision)
        reputation_apart _ h3 in
    let (_, h5) =
      not_refused ((e.signature_mode != []) && not (signature_mode_ok e.signature_mode))
        bad_signature_mode _ h4 in
    let (_, h6) =
      not_refused (not (reputation_mode_ok e.reputation_mode)) bad_reputation_mode _ h5 in
    let (_, h7) =
      passed_check (reputation_ok e.reputation e.reputation_decision e.signature) _ h6 in
    let (schema, _, h8) =
      passed (matching_policy_schema w e.policy e.anchor.policy_root e.policy_schema)
        (λ x. ok (record e { policy_schema = x })) h7 in
    let whole : record e { policy_schema = schema } ≡ completed = cc in
    record {
      anchor_ok = a;
      signature_ok = s;
      same_anchor = sym (ap (λ x. x.anchor) whole);
      same_signature = sym (ap (λ x. x.signature) whole);
    }

pub complete_tombstone_schema-keeps :
    (w : World) (t completed : Tombstone)
    → complete_tombstone_schema w t ≡ ok completed
    → (completed.generation ≡ t.generation)
      × (completed.signed ≡ t.signed)
      × (completed.signature_generation ≡ t.signature_generation)
unfolding complete_tombstone_schema
complete_tombstone_schema-keeps w t completed h =
    let (_, h1) = passed_check (validate_origin t.origin) _ h in
    let (_, h2) = not_refused (not (match_string root_pattern t.policy_root)) bad_root _ h1 in
    let (schema, _, h3) =
      passed (matching_policy_schema w t.policy t.policy_root t.policy_schema)
        (λ x. ok (record t { policy_schema = x })) h2 in
    let whole : record t { policy_schema = schema } ≡ completed = cc in
    (
      sym (ap (λ x. x.generation) whole),
      sym (ap (λ x. x.signed) whole),
      sym (ap (λ x. x.signature_generation) whole),
    )
