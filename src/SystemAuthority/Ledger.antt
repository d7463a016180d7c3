-- ===== src/SystemAuthority/Ledger.antt =====
-- pkg/systemauthority/anchor.go: the ledger, one file for the record of an application and one for
-- its tombstone. Reading and writing JSON is a parameter, and so is whether the machine lets the
-- authority create a directory, write a file or remove one.
pub mod Record
pub mod Forget
pub mod Paths
pub mod Floor
pub mod Steps
use cpak.Base.{
  ℕ, zero, suc, ◌+◌, ◌-◌, ◌*◌, ◌/◌, ◌%◌, ◌^◌, ◌≤◌, ◌<◌, ◌≡◌, refl, sym, ap, ◌∙◌, ◌≢◌, ◌↔◌, ◌⊎◌, inl,
  inr, Bool, true, false, not, ◌&&◌, ◌||◌, Option, none, some, List, [], ◌∷◌, ◌++◌, map, Memᴰ,
  arith, ltb, leb, nat_beq, nat_beq_iff, if◌then◌else◌, Eq, ◌==◌, ◌!=◌, nat_eq, Bool-cases,
  Option-cases, any, all, length, is_empty, length-append, any-eq-true, any_of_mem, all_mem,
  all_of_mem, all-append, any-append, all_mono, not_true, contains, contains_mem, contains_of_mem,
  Outcome, ok, err, ◌>>=◌, ◌>>◌, refuse_if, wrap, Text, ascii, text_beq, text_beq_iff, text_eq, ℤ,
  pos, int_eq, int_beq_iff, all_mono, ℤ, pos, negsuc, int_eq, not_true,
}
use cpak.TrustPolicy.Policy.{other, is_none}
use cpak.Integrity.{Anchor}
use cpak.SystemAuthority.Confirmations.{Entries}
use cpak.SystemAuthority.Checks.{validate_origin, complete_policy_schema, complete_tombstone_schema}
use cpak.SystemAuthority.Orders.{
  orders_after, orders_after_removal, raised_by, buried_of, Authorization, enrol_anchor,
  widen_anchor, authorization_against,
}
use cpak.SystemAuthority.Admission.{admit_signature, admit_trust, Admitted}
use cpak.SystemAuthority.{
  SignedState, evidence_of, Enrolment, Tombstone, LedgerError, World, anchor_downgrade,
  signature_downgrade, signature_lost, signature_required, trust_refused, trust_refused_unsigned,
  approval_unavailable, approval_refused, reputation_refused, confirmation_required,
  no_publisher_identity, no_verification_result, confirmation_failed, other_abi, bad_origin,
  bad_digest, bad_root, bad_launch_root, state_invalid, evidence_invalid, other_package, unbound,
  other_image, other_manifest, bundle_too_large, verification_missing, verification_unsigned,
  verification_other_state, verification_not_authorized, verification_chain, verification_time,
  verification_revoked, reputation_apart, bad_signature_mode, bad_reputation_mode,
  reputation_unsigned, reputation_invalid, decision_invalid, schema_without_policy,
  policy_not_its_root, schema_failed, names_another_package, not_standing, setting_unreadable,
  path_not_absolute, directory_invalid, file_not_trusted, file_too_large, file_undecodable,
  not_its_file, encode_failed, create_failed, write_failed, remove_failed,
}

-- The answer of `validateExistingDirectory` for the ledger and the directory of an account.
pub data Presence : Type 0 where
  absent trusted invalid : Presence

-- What a file holds is read through its size and through `encoding/json` only, so the type `D` of
-- documents is a parameter. `trusted`: a regular file of the owner of the ledger that nobody else
-- may write.
pub record File (D : Type 0) : Type 0 where
  pub trusted : Bool
  pub content : D

-- A file is named by the account and the name in the directory of the account.
pub record Disk (D : Type 0) : Type 0 where
  pub directories : ℕ → Presence
  pub files : ℕ → Text → Option (File D)

-- `json.MarshalIndent`, which may fail, and `json.Unmarshal`. What is encoded is an enrolment whose
-- signed state is already written as its evidence (`as_stored`).
pub record Codec (D : Type 0) : Type 0 where
  pub size : D → ℕ
  pub encode_enrolment : Enrolment → Option D
  pub decode_enrolment : D → Option Enrolment
  pub encode_tombstone : Tombstone → Option D
  pub decode_tombstone : D → Option Tombstone

-- `encode anchor` and `encode tombstone`
unfoldable pub encoded : {D : Type 0} → Option D → Outcome LedgerError D
encoded none = err encode_failed
encoded (some d) = ok d

-- What the machine lets the authority do at one moment.
pub record Io : Type 0 where
  pub can_create : Bool
  pub can_write : Bool
  pub can_remove : Bool

abbrev pub record_suffix : Text
record_suffix = ascii ".json"

abbrev pub forgotten_suffix : Text
forgotten_suffix = ascii "+forgotten.json"

-- `anchorSizeLimit`
abbrev pub anchor_size_limit : ℕ
anchor_size_limit = 524288

unfoldable pub flatten : Text → Text
flatten [] = []
flatten (c ∷ cs) = (if c == b'/' then b':' else c) ∷ flatten cs

-- `recordPath`: the directory of the ledger is absolute, and a flattened name holds no slash, so it
-- is its own last element.
unfoldable pub record_path : Text → Text → Outcome LedgerError Text
unfolding flatten validate_origin
record_path origin suffix = do validate_origin origin; ok (flatten origin ++ suffix)

-- `trustedDirectories`
unfoldable pub trusted_directories : Presence → Outcome LedgerError Bool
trusted_directories absent = ok false
trusted_directories trusted = ok true
trusted_directories invalid = err directory_invalid

-- A change of one file.
unfoldable pub put_file : {D : Type 0} → Disk D → ℕ → Text → Option (File D) → Disk D
put_file disk uid name f = record disk {
  files = λ u n. if u == uid && n == name then f else disk.files u n;
}

-- `ensureDirectory` on the ledger and on the directory of the account
pub ensured : {D : Type 0} → Io → Disk D → ℕ → Presence → Outcome LedgerError (Disk D)
ensured io disk uid trusted = ok disk
ensured io disk uid invalid = err directory_invalid
ensured io disk uid absent =
    if io.can_create
    then ok (record disk { directories = λ u. if u == uid then trusted else disk.directories u })
    else err create_failed

unfoldable pub ensure_directories : {D : Type 0} → Io → Disk D → ℕ → Outcome LedgerError (Disk D)
unfolding ensured
ensure_directories io disk uid = ensured io disk uid (disk.directories uid)

-- `writeAtomic`, which leaves the old file where it fails.
unfoldable pub write_file : {D : Type 0} → Io → Disk D → ℕ → Text → D → Outcome LedgerError (Disk D)
unfolding put_file
write_file io disk uid name content =
    if io.can_write
    then ok (put_file disk uid name (some (record { trusted = true; content = content })))
    else err write_failed

-- `os.Remove`, where a missing file is no failure.
unfoldable pub remove_file : {D : Type 0} → Io → Disk D → ℕ → Text → Outcome LedgerError (Disk D)
unfolding put_file
remove_file io disk uid name =
    if is_none (disk.files uid name)
    then ok disk
    else if io.can_remove
    then ok (put_file disk uid name none)
    else err remove_failed

module _ {D : Type 0} (codec : Codec D) (w : World) where
  -- `readTrusted`
  unfoldable pub read_trusted : Option (File D) → Outcome LedgerError (Option D)
  read_trusted none = ok none
  read_trusted (some f) = do
    refuse_if (not f.trusted) file_not_trusted
    refuse_if (ltb anchor_size_limit (codec.size f.content)) file_too_large
    ok (some f.content)

  -- What is read of a file, if the directories are there.
  read_at : Disk D → ℕ → Text → Bool → Outcome LedgerError (Option D)
  unfolding read_trusted
  read_at disk uid name false = ok none
  read_at disk uid name true = read_trusted (disk.files uid name)

  decoded_record : ℕ → Text → Option Enrolment → Outcome LedgerError (Option Enrolment)
  unfolding complete_policy_schema
  decoded_record uid origin none = err file_undecodable
  decoded_record uid origin (some e) = do
    refuse_if ((e.anchor.uid != uid) || (e.anchor.origin != origin)) not_its_file
    completed ← complete_policy_schema w e
    ok (some completed)

  open_record : ℕ → Text → Option D → Outcome LedgerError (Option Enrolment)
  unfolding decoded_record
  open_record uid origin none = ok none
  open_record uid origin (some d) = decoded_record uid origin (codec.decode_enrolment d)

  unfoldable pub recorded : Disk D → ℕ → Text → Outcome LedgerError (Option Enrolment)
  unfolding record_path trusted_directories read_at open_record
  recorded disk uid origin = do
    name ← record_path origin record_suffix
    present ← trusted_directories (disk.directories uid)
    content ← read_at disk uid name present
    open_record uid origin content

  decoded_tombstone : ℕ → Text → Option Tombstone → Outcome LedgerError (Option Tombstone)
  unfolding complete_tombstone_schema
  decoded_tombstone uid origin none = err file_undecodable
  decoded_tombstone uid origin (some t) = do
    refuse_if ((t.uid != uid) || (t.origin != origin)) not_its_file
    completed ← complete_tombstone_schema w t
    ok (some completed)

  open_tombstone : ℕ → Text → Option D → Outcome LedgerError (Option Tombstone)
  unfolding decoded_tombstone
  open_tombstone uid origin none = ok none
  open_tombstone uid origin (some d) = decoded_tombstone uid origin (codec.decode_tombstone d)

  unfoldable pub forgotten : Disk D → ℕ → Text → Outcome LedgerError (Option Tombstone)
  unfolding record_path trusted_directories read_at open_tombstone
  forgotten disk uid origin = do
    name ← record_path origin forgotten_suffix
    present ← trusted_directories (disk.directories uid)
    content ← read_at disk uid name present
    open_tombstone uid origin content
