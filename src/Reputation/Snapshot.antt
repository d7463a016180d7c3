-- ===== src/Reputation/Snapshot.antt =====
-- pkg/reputation/reputation.go: a verified snapshot, the lookup in it, and the checks of a signed
-- document and of a result. The limits are 2^53 - 1 for a sequence, 100000 entries and 64 bytes for
-- a reason code.
pub mod Laws
pub mod Results
use cpak.Base.{
  ℕ, zero, suc, ◌-◌, Bool, true, not, ◌&&◌, ◌||◌, Option, none, some, List, [], ◌∷◌, ltb,
  if◌then◌else◌, ◌==◌, ◌!=◌, nat_eq, length, Outcome, ok, err, ◌>>=◌, ◌>>◌, refuse_if, Text, ascii,
  text_eq, int_eq,
}
use cpak.Go.Regexp.{match_string}
use cpak.Go.Search.{search}
use cpak.Go.Sort.{text_less}
use cpak.Go.Time.{Instant, Stamp, instant, zero_time, canonical}
use cpak.Reputation.{
  Status, unknown, unavailable, status_eq, Result, name_pattern, valid_publisher_id,
  valid_entry_status,
}

pub record Entry : Type 0 where
  pub publisher_id : Text
  pub status : Status
  pub reason_code : Text

pub record Signed : Type 0 where
  pub sequence : ℕ
  pub issued_at : Text
  pub expires_at : Text
  pub entries : List Entry

pub record Snapshot : Type 0 where
  pub provider_id : Text
  pub key_id : Text
  pub sequence : ℕ
  pub issued_at : Instant
  pub expires_at : Instant
  pub entries : List Entry

abbrev pub nth {ℓ} : {A : Type ℓ} → ℕ → List A → Option A
nth n [] = none
nth zero (x ∷ xs) = some x
nth (suc n) (x ∷ xs) = nth n xs

-- The test of the bisection; an index out of range, which is never asked about, counts as true.
abbrev pub not_before : Text → Option Entry → Bool
not_before id none = true
not_before id (some e) = not (text_less e.publisher_id id)

-- The entry at the index, if it is there and is the publisher's.
abbrev pub own_entry : Text → Option Entry → Option Entry
own_entry id none = none
own_entry id (some e) = if e.publisher_id == id then some e else none

abbrev pub answer_with : Snapshot → Text → Status → Text → Result
answer_with s id status reason = record {
  provider_id = s.provider_id;
  publisher_id = id;
  status = status;
  issued_at = s.issued_at;
  expires_at = s.expires_at;
  sequence = s.sequence;
  reason_code = reason;
}

abbrev pub answer : Snapshot → Text → Option Entry → Result
answer s id none = answer_with s id unknown (ascii "publisher-not-listed")
answer s id (some e) = answer_with s id e.status e.reason_code

unfoldable pub index_of : Text → List Entry → ℕ
index_of id entries =
    search (length entries) (λ k. not_before id (nth k entries)) 0 (length entries)

unfoldable pub lookup : Snapshot → Text → Result
unfolding index_of
lookup s id = answer s id (own_entry id (nth (index_of id s.entries) s.entries))

pub data InvalidResult : Type 0 where
  invalid_provider invalid_publisher invalid_status invalid_reason : InvalidResult
  claims_metadata missing_metadata : InvalidResult

unfoldable pub validate_result : Result → Outcome InvalidResult Unit
validate_result r = do
  refuse_if ((r.provider_id != []) && not (match_string name_pattern r.provider_id))
      invalid_provider
  refuse_if (not (valid_publisher_id r.publisher_id)) invalid_publisher
  refuse_if ((r.status != unavailable) && not (valid_entry_status r.status)) invalid_status
  refuse_if (not (match_string name_pattern r.reason_code)) invalid_reason
  if r.status == unavailable
      then refuse_if
          ((r.issued_at != zero_time) || ((r.expires_at != zero_time) || (r.sequence != 0)))
          claims_metadata
      else refuse_if
          ((r.provider_id == [])
            || ((r.sequence == 0)
                || (ltb 9007199254740991 r.sequence
                    || ((r.issued_at == zero_time) || not (ltb r.issued_at r.expires_at)))))
          missing_metadata

pub data InvalidSnapshot : Type 0 where
  invalid_sequence invalid_issued_at invalid_expires_at expires_early too_many_entries :
      InvalidSnapshot
  unsupported_publisher unsupported_status unsafe_reason not_sorted : InvalidSnapshot

-- `parseTimestamp`
unfoldable pub parse_timestamp : InvalidSnapshot → Text → Outcome InvalidSnapshot Instant
parse_timestamp e value = elim (canonical value) [ none ↦ err e | some stamp ↦ ok (instant stamp) ]

-- The loop over the entries, behind the previous publisher ID.
unfoldable pub validate_entries : Text → List Entry → Outcome InvalidSnapshot Unit
validate_entries previous [] = ok tt
validate_entries previous (e ∷ es) = do
  refuse_if (not (valid_publisher_id e.publisher_id)) unsupported_publisher
  refuse_if (not (valid_entry_status e.status)) unsupported_status
  refuse_if (not (match_string name_pattern e.reason_code) || ltb 64 (length e.reason_code))
      unsafe_reason
  refuse_if ((previous != []) && not (text_less previous e.publisher_id)) not_sorted
  validate_entries e.publisher_id es

unfoldable pub validate_signed : Signed → Outcome InvalidSnapshot (Instant × Instant)
unfolding parse_timestamp validate_entries
validate_signed s = do
  refuse_if ((s.sequence == 0) || ltb 9007199254740991 s.sequence) invalid_sequence
  issued ← parse_timestamp invalid_issued_at s.issued_at
  expires ← parse_timestamp invalid_expires_at s.expires_at
  refuse_if (not (ltb issued expires)) expires_early
  refuse_if (ltb 100000 (length s.entries)) too_many_entries
  validate_entries [] s.entries
  ok (issued, expires)
