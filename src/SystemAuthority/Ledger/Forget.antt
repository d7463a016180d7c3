-- ===== src/SystemAuthority/Ledger/Forget.antt =====
-- pkg/systemauthority/anchor.go, `Forget`, `entomb` and `ClearForgotten`: the tombstone is written
-- before the record is removed.
pub mod Laws
pub mod Kept
use cpak.Base.{
  ℕ, zero, suc, ◌+◌, ◌-◌, ◌*◌, ◌/◌, ◌%◌, ◌^◌, ◌≤◌, ◌<◌, ◌≡◌, refl, sym, ap, ◌∙◌, ◌≢◌, ◌↔◌, ◌⊎◌, inl,
  inr, Bool, true, false, not, ◌&&◌, ◌||◌, Option, none, some, List, [], ◌∷◌, ◌++◌, map, Memᴰ,
  arith, ltb, leb, nat_beq, nat_beq_iff, if◌then◌else◌, Eq, ◌==◌, ◌!=◌, nat_eq, Bool-cases,
  Option-cases, any, all, length, is_empty, length-append, any-eq-true, any_of_mem, all_mem,
  all_of_mem, all-append, any-append, all_mono, not_true, contains, contains_mem, contains_of_mem,
  Outcome, ok, err, ◌>>=◌, ◌>>◌, refuse_if, wrap, Text, ascii, text_beq, text_beq_iff, text_eq, ℤ,
  pos, int_eq, int_beq_iff, all_mono, ℤ, pos, negsuc, int_eq, not_true,
}
use cpak.TrustPolicy.Policy.{other, is_none}
use cpak.SystemAuthority.Confirmations.{Entries}
use cpak.SystemAuthority.Checks.{validate_origin, complete_policy_schema, complete_tombstone_schema}
use cpak.SystemAuthority.Orders.{
  orders_after, orders_after_removal, raised_by, buried_of, Authorization, enrol_anchor,
  widen_anchor, authorization_against,
}
use cpak.SystemAuthority.Admission.{admit_signature, admit_trust, Admitted}
use cpak.SystemAuthority.Ledger.{
  Presence, absent, trusted, invalid, File, Disk, Codec, Io, record_suffix, forgotten_suffix,
  record_path, encoded, trusted_directories, put_file, ensure_directories, write_file, remove_file,
  recorded, forgotten,
}
use cpak.SystemAuthority.{
  SignedState, evidence_of, Enrolment, Tombstone, LedgerError, World, anchor_downgrade,
  signature_downgrade, signature_lost, signature_required, trust_refused, trust_refused_unsigned,
  approval_unavailable, approval_refused, reputation_refused, confirmation_required,
  no_publisher_identity, no_verification_result, confirmation_failed, other_abi, bad_origin,
  bad_digest, bad_root, bad_launch_root, state_invalid, evidence_invalid, other_package, unbound,
  other_image, other_manifest, bundle_too_large, verification_missing, verification_unsigned,
  verification_other_state, verification_not_authorized, verification_chain, verification_time,
  verification_revoked, reputation_apart, bad_signature_mode, bad_reputation_mode,
  reputation_unsigned, reputation_invalid, decision_invalid, schema_without_policy,
  policy_not_its_root, schema_failed, names_another_package, not_standing, setting_unreadable,
  path_not_absolute, directory_invalid, file_not_trusted, file_too_large, file_undecodable,
  not_its_file, create_failed, write_failed, remove_failed,
}

pub raised_by_standing : Tombstone → Option Tombstone → Tombstone
unfolding raised_by
raised_by_standing buried none = buried
raised_by_standing buried (some standing) = raised_by buried standing

module _ {D : Type 0} (codec : Codec D) (w : World) where
  unfoldable pub entomb : Io → Disk D → Enrolment → Outcome LedgerError (Disk D)
  unfolding forgotten record_path ensure_directories encoded write_file raised_by_standing buried_of
  entomb io disk e = do
    standing ← forgotten codec w disk e.anchor.uid e.anchor.origin
    name ← record_path e.anchor.origin forgotten_suffix
    ready ← ensure_directories io disk e.anchor.uid
    content ← encoded (codec.encode_tombstone (raised_by_standing (buried_of e) standing))
    write_file io ready e.anchor.uid name content

  entombed : Io → Disk D → Option Enrolment → Outcome LedgerError (Disk D)
  unfolding entomb
  entombed io disk none = ok disk
  entombed io disk (some e) = entomb io disk e

  -- The record is removed once the tombstone stands, which stays where the removal fails.
  removed :
      Io → ℕ → Text → Disk D → Outcome LedgerError (Disk D) → Disk D × Outcome LedgerError Unit
  unfolding remove_file
  removed io uid name disk (err x) = (disk, err x)
  removed io uid name disk (ok buried) = last (remove_file io buried uid name)
    where
      last : Outcome LedgerError (Disk D) → Disk D × Outcome LedgerError Unit
      last (ok next) = (next, ok tt)
      last (err x) = (buried, err x)

  -- Absent directories hold nothing to forget.
  forget_present :
      Io → Disk D → ℕ → Text → Text → Outcome LedgerError Bool → Disk D × Outcome LedgerError Unit
  unfolding recorded entombed removed
  forget_present io disk uid origin name (err x) = (disk, err x)
  forget_present io disk uid origin name (ok false) = (disk, ok tt)
  forget_present io disk uid origin name (ok true) =
      removed io uid name disk (recorded codec w disk uid origin >>= entombed io disk)

  forget_at : Io → Disk D → ℕ → Text → Outcome LedgerError Text → Disk D × Outcome LedgerError Unit
  unfolding forget_present trusted_directories
  forget_at io disk uid origin (err x) = (disk, err x)
  forget_at io disk uid origin (ok name) =
      forget_present io disk uid origin name (trusted_directories (disk.directories uid))

  unfoldable pub forget : Io → Disk D → ℕ → Text → Disk D × Outcome LedgerError Unit
  unfolding forget_at record_path
  forget io disk uid origin = forget_at io disk uid origin (record_path origin record_suffix)

clear_present : {D : Type 0} → Io → Disk D → ℕ → Text → Bool → Outcome LedgerError (Disk D)
unfolding remove_file
clear_present io disk uid name false = ok disk
clear_present io disk uid name true = remove_file io disk uid name

unfoldable pub clear_forgotten :
    {D : Type 0} → Io → Disk D → ℕ → Text → Outcome LedgerError (Disk D)
unfolding record_path trusted_directories clear_present
clear_forgotten io disk uid origin = do
  name ← record_path origin forgotten_suffix
  present ← trusted_directories (disk.directories uid)
  clear_present io disk uid name present
