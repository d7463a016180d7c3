-- ===== src/Examples/Snapshots.antt =====
-- Tests of the reputation snapshot.
use cpak.Base.{
  ℕ, ◌*◌, ◌<◌, ◌≡◌, refl, ◌≢◌, ◌↔◌, true, [], ◌∷◌, nat_eq, all, ok, Text, ascii, text_beq, text_eq,
  int_eq, int_eq,
}
use cpak.Go.Time.{zero_time}
use cpak.Go.Regexp.{match_string}
use cpak.Go.Time.{canonical, instant}
use cpak.Reputation.{established, name_pattern, valid_publisher_id, valid_entry_status}
use cpak.Reputation.Snapshot.{Signed, Snapshot, lookup, answer, validate_signed, validate_result}
use cpak.Reputation.Snapshot.Laws.{
  lookup-find_entry, validate_signed-ascending, is_ascending, find_entry,
}
use cpak.Reputation.Snapshot.Results.{IsVerified, lookup-valid}

abbrev listed_publisher : Text
listed_publisher =
    ascii "x509-spki-sha256:0123456789abcdef0123456789abcdef0123456789abcdef0123456789abcdef"

abbrev document : Signed
document = record {
  sequence = 3;
  issued_at = ascii "2026-01-01T00:00:00Z";
  expires_at = ascii "2026-02-01T00:00:00Z";
  entries =
      record {
        publisher_id = listed_publisher;
        status = established;
        reason_code = ascii "reviewed";
      }
      ∷ [];
}

abbrev january : ℕ
january = 739984 * 86400 * 1000000000

abbrev february : ℕ
february = 740015 * 86400 * 1000000000

document-signed : validate_signed document ≡ ok (january, february)
unfolding validate_signed canonical text_beq instant valid_publisher_id match_string
    valid_entry_status
document-signed = refl

validate_signed-ascending_example : (is_ascending document.entries ≡ true) × (january < february)
validate_signed-ascending_example =
    validate_signed-ascending document january february document-signed

abbrev snapshot : Snapshot
snapshot = record {
  provider_id = ascii "provider";
  key_id = [];
  sequence = 3;
  issued_at = january;
  expires_at = february;
  entries = document.entries;
}

lookup-find_entry_example :
    lookup snapshot listed_publisher
    ≡ answer snapshot listed_publisher (find_entry listed_publisher snapshot.entries)
lookup-find_entry_example =
    lookup-find_entry snapshot listed_publisher (unfold is_ascending all in refl)

listed_named : valid_publisher_id listed_publisher ≡ true
unfolding valid_publisher_id match_string
listed_named = refl

provider_named : match_string name_pattern (ascii "provider") ≡ true
unfolding match_string
provider_named = refl

abbrev snapshot-IsVerified : IsVerified snapshot document
snapshot-IsVerified = record {
  checked = document-signed;
  entries_kept = refl;
  sequence_kept = refl;
  named = provider_named;
}

lookup-valid_example :
    (validate_result (lookup snapshot listed_publisher) ≡ ok tt) ↔ (snapshot.issued_at ≢ zero_time)
lookup-valid_example =
    lookup-valid snapshot document listed_publisher snapshot-IsVerified listed_named
