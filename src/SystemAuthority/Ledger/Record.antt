-- ===== src/SystemAuthority/Ledger/Record.antt =====
-- pkg/systemauthority/anchor.go, `record`: an enrolment is admitted, ordered against what the ledger
-- holds, and written. Also the authorization that it needs.
pub mod Laws
pub mod Kept
use cpak.Base.{
  ℕ, zero, suc, ◌+◌, ◌-◌, ◌*◌, ◌/◌, ◌%◌, ◌^◌, ◌≤◌, ◌<◌, ◌≡◌, refl, sym, ap, ◌∙◌, ◌≢◌, ◌↔◌, ◌⊎◌, inl,
  inr, Bool, true, false, not, ◌&&◌, ◌||◌, Option, none, some, List, [], ◌∷◌, ◌++◌, map, Memᴰ,
  arith, ltb, leb, nat_beq, nat_beq_iff, if◌then◌else◌, Eq, ◌==◌, ◌!=◌, nat_eq, Bool-cases,
  Option-cases, any, all, length, is_empty, length-append, any-eq-true, any_of_mem, all_mem,
  all_of_mem, all-append, any-append, all_mono, not_true, contains, contains_mem, contains_of_mem,
  Outcome, ok, err, ◌>>=◌, ◌>>◌, refuse_if, wrap, Text, ascii, text_beq, text_beq_iff, text_eq, ℤ,
  pos, int_eq, int_beq_iff, all_mono, ℤ, pos, negsuc, int_eq, not_true,
}
use cpak.TrustPolicy.Policy.{other, is_none}
use cpak.SystemAuthority.Confirmations.{Entries}
use cpak.SystemAuthority.Checks.{validate_origin, complete_policy_schema, complete_tombstone_schema}
use cpak.SystemAuthority.Orders.{
  orders_after, orders_after_removal, raised_by, buried_of, Authorization, enrol_anchor,
  widen_anchor, authorization_against,
}
use cpak.SystemAuthority.Admission.{admit_signature, admit_trust, Admitted}
use cpak.SystemAuthority.Ledger.{
  Presence, absent, trusted, invalid, File, Disk, Codec, Io, record_suffix, forgotten_suffix,
  record_path, encoded, trusted_directories, put_file, ensure_directories, write_file, remove_file,
  recorded, forgotten,
}
use cpak.SystemAuthority.{
  as_stored, SignedState, evidence_of, Enrolment, Tombstone, LedgerError, World, anchor_downgrade,
  signature_downgrade, signature_lost, signature_required, trust_refused, trust_refused_unsigned,
  approval_unavailable, approval_refused, reputation_refused, confirmation_required,
  no_publisher_identity, no_verification_result, confirmation_failed, other_abi, bad_origin,
  bad_digest, bad_root, bad_launch_root, state_invalid, evidence_invalid, other_package, unbound,
  other_image, other_manifest, bundle_too_large, verification_missing, verification_unsigned,
  verification_other_state, verification_not_authorized, verification_chain, verification_time,
  verification_revoked, reputation_apart, bad_signature_mode, bad_reputation_mode,
  reputation_unsigned, reputation_invalid, decision_invalid, schema_without_policy,
  policy_not_its_root, schema_failed, names_another_package, not_standing, setting_unreadable,
  path_not_absolute, directory_invalid, file_not_trusted, file_too_large, file_undecodable,
  not_its_file, create_failed, write_failed, remove_failed,
}

-- The policy of a record that states none is the one already held for the same policy root.
unfoldable pub keep_policy : Option Enrolment → Enrolment → Enrolment
keep_policy none e = e
keep_policy (some existing) e =
    if is_none e.policy && existing.anchor.policy_root == e.anchor.policy_root
    then record e { policy = existing.policy; policy_schema = existing.policy_schema }
    else e

after_record : Option Enrolment → Enrolment → Outcome LedgerError Unit
after_record none e = ok tt
after_record (some existing) e = orders_after existing e

after_removal : Option Tombstone → Enrolment → Outcome LedgerError Unit
after_removal none e = ok tt
after_removal (some buried) e = orders_after_removal buried e

-- The fields that only the authority fills.
unfoldable pub cleared : Enrolment → Enrolment
cleared e = record e {
  reputation = none;
  reputation_decision = none;
  verification = none;
  signature_mode = [];
  reputation_mode = other [];
}

module _ {D : Type 0} (codec : Codec D) (w : World) where
  -- What `record` writes, if what is recorded and what was left behind let it.
  unfoldable pub ordered : Disk D → Enrolment → Outcome LedgerError Enrolment
  unfolding recorded forgotten after_record after_removal keep_policy
  ordered disk e = do
    existing ← recorded codec w disk e.anchor.uid e.anchor.origin
    after_record existing e
    buried ← forgotten codec w disk e.anchor.uid e.anchor.origin
    after_removal buried e
    ok (keep_policy existing e)

  ordered_write : Io → Disk D → Text → Enrolment → Outcome LedgerError (Disk D)
  unfolding ordered encoded write_file as_stored
  ordered_write io disk name e = do
    written ← ordered disk e
    content ← encoded (codec.encode_enrolment (as_stored written))
    write_file io disk e.anchor.uid name content

  -- A directory that was made stays, also where the write is refused.
  unfoldable pub written_or :
      {A : Type 0} → A → Outcome LedgerError A → A × Outcome LedgerError Unit
  written_or disk (ok next) = (next, ok tt)
  written_or disk (err e) = (disk, err e)

  ordered_in :
      Io
      → Disk D
      → Text
      → Enrolment
      → Outcome LedgerError (Disk D)
      → Disk D × Outcome LedgerError Unit
  unfolding ordered_write written_or
  ordered_in io disk name e (err x) = (disk, err x)
  ordered_in io disk name e (ok ready) = written_or ready (ordered_write io ready name e)

  settled_at :
      Io → Disk D → Enrolment → Outcome LedgerError Text → Disk D × Outcome LedgerError Unit
  unfolding ordered_in ensure_directories
  settled_at io disk e (err x) = (disk, err x)
  settled_at io disk e (ok name) =
      ordered_in io disk name e (ensure_directories io disk e.anchor.uid)

  -- What `record` does once the enrolment is admitted.
  unfoldable pub settle : Io → Disk D → Enrolment → Disk D × Outcome LedgerError Unit
  unfolding settled_at record_path complete_policy_schema
  settle io disk e =
      settled_at io disk e
        (complete_policy_schema w e >>= λ valid. record_path e.anchor.origin record_suffix)

  -- The ledger and the store of tokens, with the answer.
  unfoldable pub settled_entries :
      Entries × (Disk D × Outcome LedgerError Unit) → (Disk D × Entries) × Outcome LedgerError Unit
  settled_entries (entries, (disk, outcome)) = ((disk, entries), outcome)

  unfoldable pub after_trust :
      Io → Disk D → Admitted → (Disk D × Entries) × Outcome LedgerError Unit
  unfolding settle settled_entries
  after_trust io disk (entries, err x) = ((disk, entries), err x)
  after_trust io disk (entries, ok e) = settled_entries (entries, settle io disk e)

  unfoldable pub after_signature :
      Io
      → Disk D
      → Entries
      → Text
      → Outcome LedgerError Enrolment
      → (Disk D × Entries) × Outcome LedgerError Unit
  unfolding after_trust admit_trust
  after_signature io disk entries confirmation (err x) = ((disk, entries), err x)
  after_signature io disk entries confirmation (ok e) =
      after_trust io disk (admit_trust w e confirmation entries)

  -- `record`, which `Record` and `RecordConfirmed` call
  unfoldable pub record_enrolment :
      Io → Disk D × Entries → Enrolment → Text → (Disk D × Entries) × Outcome LedgerError Unit
  unfolding after_signature cleared complete_policy_schema admit_signature
  record_enrolment io (disk, entries) e confirmation =
      after_signature io disk entries confirmation
        (complete_policy_schema w (cleared e) >>= admit_signature w)

  buried_authorization : Enrolment → Option Tombstone → Authorization
  unfolding authorization_against
  buried_authorization e none = enrol_anchor
  buried_authorization e (some t) =
      authorization_against w.clean t.generation t.policy_root t.policy e

  recorded_authorization : Disk D → Enrolment → Option Enrolment → Outcome LedgerError Authorization
  unfolding authorization_against forgotten buried_authorization
  recorded_authorization disk e (some r) =
      ok (authorization_against w.clean r.anchor.generation r.anchor.policy_root r.policy e)
  recorded_authorization disk e none = do
    buried ← forgotten codec w disk e.anchor.uid e.anchor.origin
    ok (buried_authorization e buried)

  unfoldable pub authorization_for : Disk D → Enrolment → Outcome LedgerError Authorization
  unfolding recorded recorded_authorization
  authorization_for disk e = do
    existing ← recorded codec w disk e.anchor.uid e.anchor.origin
    recorded_authorization disk e existing

  is_widening : Authorization → Bool
  is_widening enrol_anchor = false
  is_widening widen_anchor = true

  unfoldable pub asks_the_owner : Disk D → Enrolment → Outcome LedgerError Bool
  unfolding authorization_for is_widening
  asks_the_owner disk e = do action ← authorization_for disk e; ok (is_widening action)
