-- ===== src/Examples/Enrolments.antt =====
-- Tests of the ledger of pkg/systemauthority.
use cpak.Base.{
  ℕ, ◌≡◌, refl, sym, ap, some_inj, ◌⊎◌, inl, inr, true, false, none, some, [], ◌∷◌, ◌++◌, nat_eq,
  any, ok, err, Text, ascii, text_beq, text_eq, pos, int_eq, pos, int_eq,
}
use cpak.Go.Regexp.{match_string}
use cpak.Go.Strings.{split, has_infix}
use cpak.TrustPolicy.Policy.{Policy, zero_policy, other, empty}
use cpak.Go.Utf8.{completes, advance}
use cpak.TrustPolicy.Origin.{canonical_origin, fold_ascii, same_origin}
use cpak.TrustPolicy.Decide.{allows_origin, is_revoked, allows_normalized_publisher, settled}
use cpak.Reputation.{unavailable_result}
use cpak.Integrity.{Anchor, digests_ok, launch_root}
use cpak.Signature.{validate_state, canonical_state, state_digest}
use cpak.Signature.Evidence.{VerificationResult, validate_envelope}
use cpak.SystemAuthority.{
  as_stored, stored_state, evidence_of, SignedState, Enrolment, Tombstone, World,
}
use cpak.SystemAuthority.{signature_downgrade}
use cpak.SystemAuthority.Ledger.{Codec, Io, absent, recorded, forgotten}
use cpak.SystemAuthority.Orders.{orders_after_removal}
use cpak.SystemAuthority.Orders.Laws.{Level, AtMost, AtMost-refl, level_of}
use cpak.SystemAuthority.Ledger.{record_path}
use cpak.SystemAuthority.Ledger.Paths.{record_path_inj}
use cpak.SystemAuthority.Ledger.Floor.{Lossless, Stands, in_tombstone}
use cpak.SystemAuthority.Ledger.Steps.{next, start, forgets}
use cpak.SystemAuthority.Ledger.Steps.Safety.{no_rollback, record-AtMost, Reach-Stands}
use cpak.SystemAuthority.Ledger.Steps.Trust.{IsAllowed, with_claims, record-IsAllowed}
use cpak.SystemAuthority.Ledger.Steps.{Authority}
use cpak.SystemAuthority.Ledger.Record.{record_enrolment}
use cpak.SystemAuthority.Ledger.Forget.{forget}

-- 64 digits
abbrev pub zeros : Text
zeros = ascii "0000000000000000000000000000000000000000000000000000000000000000"

abbrev pub editor : Text
editor = ascii "ghcr.io/fab/editor"

abbrev pub anchor_at : ℕ → Anchor
anchor_at n = record {
  abi = pos 1;
  uid = 1000;
  origin = editor;
  generation = n;
  image_digest = ascii "sha256:" ++ zeros;
  manifest_digest = zeros;
  package_root = zeros;
  policy_root = zeros;
  launch_root = zeros;
}

abbrev pub signed_state : ℕ → SignedState
signed_state n = record {
  state = record {
    abi = pos 1;
    origin = editor;
    manifest_sha256 = zeros;
    image_digest = ascii "sha256:" ++ zeros;
    lock_sha256 = [];
    generation = n;
  };
  bundle = ascii "bundle";
  abi = pos 0;
  kind = [];
  media_type = [];
}

abbrev pub enrolment_at : ℕ → ℕ → Enrolment
enrolment_at n m = record {
  anchor = anchor_at n;
  policy = none;
  policy_schema = pos 0;
  signature = some (signed_state m);
  verification = none;
  reputation = none;
  reputation_decision = none;
  signature_mode = [];
  reputation_mode = other [];
}

-- A verifier that finds every signature good, and a hash of one value.
abbrev good_result : VerificationResult
good_result = record {
  evidence_kind = ascii "sigstore-bundle-v1";
  state_digest = zeros;
  cryptographic = ascii "verified";
  chain = ascii "not-applicable";
  signing_time = ascii "current";
  revocation = [];
  publisher = some (record {
    kind = ascii "sigstore-oidc-v1";
    id = ascii "publisher";
    display_name = [];
    issuer = [];
    repository = [];
    assurance = [];
  });
  root_source = [];
  origin_authorization = ascii "authorized";
  reason_code = [];
  diagnostic = [];
  has_legacy_identity = false;
}

abbrev world : World
world = record {
  sha256_hex = λ t. zeros;
  marshal_policy = λ o. none;
  clean = λ t. t;
  signature_policy = ok (ascii "required");
  host_policy = ok zero_policy;
  verify_evidence = λ e. ok good_result;
  verify_approval = none;
  lookup = λ p n. unavailable_result [] p (ascii "not-configured");
  now = 0;
  token = none;
}

-- Documents that are what was written into them.
abbrev codec : Codec (Enrolment ⊎ Tombstone)
codec = record {
  size = λ d. 0;
  encode_enrolment = λ e. some (inl e);
  decode_enrolment = λ d. elim d [ inl e ↦ some e | inr t ↦ none ];
  encode_tombstone = λ t. some (inr t);
  decode_tombstone = λ d. elim d [ inl e ↦ none | inr t ↦ some t ];
}

lossless : Lossless codec
unfolding as_stored
lossless = record {
  record_back =
      λ w e d a s h. (as_stored e, ap codec.decode_enrolment (sym (some_inj h)), refl, refl);
  tombstone_back = λ t d v h. (t, ap codec.decode_tombstone (sym (some_inj h)), refl);
}

abbrev lucky : Io
lucky = record { can_create = true; can_write = true; can_remove = true }

abbrev fresh : Authority (Enrolment ⊎ Tombstone)
fresh = (record { directories = λ u. absent; files = λ u n. none }, [])

abbrev after_first : Authority (Enrolment ⊎ Tombstone)
after_first = (record_enrolment codec world lucky fresh (enrolment_at 1 5) []).0

abbrev after_forget : Authority (Enrolment ⊎ Tombstone)
after_forget = ((forget codec world lucky after_first.0 1000 editor).0, after_first.1)

first_recorded : (record_enrolment codec world lucky fresh (enrolment_at 1 5) []).1 ≡ ok tt
unfolding record_enrolment forget text_beq fold_ascii split match_string any digests_ok launch_root
    validate_state canonical_origin validate_envelope evidence_of completes advance empty
    state_digest canonical_state has_infix recorded forgotten as_stored stored_state
first_recorded = refl

second_recorded : (record_enrolment codec world lucky after_forget (enrolment_at 2 5) []).1 ≡ ok tt
unfolding record_enrolment forget text_beq fold_ascii split match_string any digests_ok launch_root
    validate_state canonical_origin validate_envelope evidence_of completes advance empty
    state_digest canonical_state has_infix recorded forgotten as_stored stored_state
    orders_after_removal
second_recorded = refl

-- A second enrolment below what was forgotten is refused.
below_refused :
    (record_enrolment codec world lucky after_forget (enrolment_at 2 4) []).1
    ≡ err (signature_downgrade 5 4)
unfolding record_enrolment forget text_beq fold_ascii split match_string any digests_ok launch_root
    validate_state canonical_origin validate_envelope evidence_of completes advance empty
    state_digest canonical_state has_infix recorded forgotten as_stored stored_state
    orders_after_removal
below_refused = refl

no_rollback_example : AtMost (level_of (enrolment_at 1 5)) (level_of (enrolment_at 2 5))
no_rollback_example =
    no_rollback codec lossless world world lucky lucky fresh after_forget (enrolment_at 1 5)
      (enrolment_at 2 5) [] [] first_recorded (next start (forgets world lucky 1000 editor))
      second_recorded refl refl

-- A level that the editor left behind.
abbrev left : Level
left = record { generation = 1; signed = true; signature_generation = 5 }

left_standing : Stands codec after_forget.0 1000 editor left
unfolding record_enrolment forget text_beq fold_ascii split match_string any digests_ok launch_root
    validate_state canonical_origin validate_envelope evidence_of completes advance empty
    state_digest canonical_state has_infix recorded forgotten as_stored stored_state
left_standing =
    in_tombstone (ascii "ghcr.io:fab:editor+forgotten.json") _ _ refl refl refl (AtMost-refl left)

record-AtMost_example : AtMost left (level_of (enrolment_at 2 5))
record-AtMost_example =
    record-AtMost codec lossless world lucky after_forget (enrolment_at 2 5) [] left second_recorded
      left_standing

Reach-Stands_example :
    Stands codec (forget codec world lucky after_forget.0 1000 editor).0 1000 editor left
Reach-Stands_example =
    Reach-Stands codec lossless after_forget
      ((forget codec world lucky after_forget.0 1000 editor).0, after_forget.1) 1000 editor left
      (next start (forgets world lucky 1000 editor)) left_standing

-- A host that approves one origin and one publisher.
abbrev managed : Policy
managed = record zero_policy {
  abi = pos 1;
  approved_origins = editor ∷ [];
  approved_publisher_ids = ascii "publisher" ∷ [];
  require_publisher = true;
}

abbrev managed_world : World
managed_world = record world { host_policy = ok managed }

managed_recorded :
    (record_enrolment codec managed_world lucky fresh (enrolment_at 1 5) []).1 ≡ ok tt
unfolding record_enrolment forget text_beq fold_ascii split match_string any digests_ok launch_root
    validate_state canonical_origin validate_envelope evidence_of completes advance empty
    state_digest canonical_state has_infix recorded forgotten as_stored stored_state allows_origin
    is_revoked allows_normalized_publisher settled same_origin
managed_recorded = refl

managed_decides : empty managed ≡ false
unfolding empty
managed_decides = refl

-- A client that says what the verifier did not.
abbrev claiming : Enrolment
claiming = record (enrolment_at 1 5) {
  verification = some good_result;
  signature_mode = ascii "required";
}

record-IsAllowed_example :
    IsAllowed managed (enrolment_at 1 5)
    × (record_enrolment codec managed_world lucky fresh (with_claims (enrolment_at 1 5) claiming) []
        ≡ record_enrolment codec managed_world lucky fresh (enrolment_at 1 5) [])
record-IsAllowed_example =
    record-IsAllowed codec managed_world lucky fresh.0 [] [] (enrolment_at 1 5) claiming managed
      managed_recorded refl managed_decides

editor_path : record_path editor (ascii ".json") ≡ ok (ascii "ghcr.io:fab:editor.json")
unfolding record_path fold_ascii split match_string any text_beq has_infix
editor_path = refl

record_path_inj_example : editor ≡ editor
record_path_inj_example =
    record_path_inj editor editor (ascii ".json") (ascii "ghcr.io:fab:editor.json") editor_path
      editor_path
