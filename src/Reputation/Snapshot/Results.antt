-- ===== src/Reputation/Snapshot/Results.antt =====
-- What a verified snapshot answers passes the check of results.
use cpak.Base.{
  ℕ, ◌≡◌, refl, sym, ◌∙◌, ◌≢◌, ◌↔◌, inl, inr, Bool, true, false, ◌||◌, Option, none, some, List, [],
  ◌∷◌, arith, ltb, nat_beq_iff, ◌==◌, nat_eq, Bool-cases, all, ok, Text, ascii, text_beq_iff,
  text_eq, int_eq, int_eq,
}
use mathlib.Core.Bool.{true≢false}
use cpak.Go.Regexp.{match_string}
use cpak.Go.Time.{zero_time}
use cpak.Reputation.{
  Status, unknown, unavailable, status_eq, name_pattern, valid_publisher_id, valid_entry_status,
}
use cpak.Reputation.Snapshot.{
  Entry, Snapshot, Signed, answer, answer_with, lookup, validate_entries, validate_signed,
  validate_result,
}
use cpak.Reputation.Snapshot.Laws.{
  lookup-find_entry, validate_signed-ascending, find_entry, is_ascending,
}

-- A snapshot that holds what a checked document says, of a provider with a well-formed name.
pub record IsVerified (s : Snapshot) (document : Signed) : Type 0 where
  pub checked : validate_signed document ≡ ok (s.issued_at, s.expires_at)
  pub entries_kept : s.entries ≡ document.entries
  pub sequence_kept : s.sequence ≡ document.sequence
  pub named : match_string name_pattern s.provider_id ≡ true

validate_entries-status :
    (previous : Text) (es : List Entry)
    → validate_entries previous es ≡ ok tt
    → all (λ x. valid_entry_status x.status) es ≡ true
unfolding validate_entries all
validate_entries-status previous [] h = refl
validate_entries-status previous (e ∷ es) h =
    ground (arith, validate_entries-status e.publisher_id es (ground arith))

validate_entries-reason :
    (previous : Text) (es : List Entry)
    → validate_entries previous es ≡ ok tt
    → all (λ x. match_string name_pattern x.reason_code) es ≡ true
unfolding validate_entries all
validate_entries-reason previous [] h = refl
validate_entries-reason previous (e ∷ es) h =
    ground (arith, validate_entries-reason e.publisher_id es (ground arith))

document_entries :
    (d : Signed) (a b : ℕ) → validate_signed d ≡ ok (a, b) → validate_entries [] d.entries ≡ ok tt
unfolding validate_signed
document_entries d a b h = ground arith

snapshot_entries :
    (s : Snapshot) (document : Signed)
    → IsVerified s document
    → (all (λ x. valid_entry_status x.status) s.entries ≡ true)
      × (all (λ x. match_string name_pattern x.reason_code) s.entries ≡ true)
snapshot_entries s document v =
    let entries = document_entries document s.issued_at s.expires_at v.checked in
    rw v.entries_kept (
      validate_entries-status [] document.entries entries,
      validate_entries-reason [] document.entries entries,
    )

find_entry-all :
    (p : Entry → Bool) (id : Text) (es : List Entry) (e : Entry)
    → all p es ≡ true
    → find_entry id es ≡ some e
    → p e ≡ true
unfolding find_entry all
find_entry-all p id [] e h f = cc
find_entry-all p id (x ∷ es) e h f = elim (Bool-cases (x.publisher_id == id)) [
  | inl same ↦ ground arith
  | inr other ↦ find_entry-all p id es e (ground arith) (ground arith)
]

entry_not_unavailable : (s : Status) → valid_entry_status s ≡ true → (s == unavailable) ≡ false
unfolding valid_entry_status
entry_not_unavailable unavailable h = cc
entry_not_unavailable (Status.other t) h = cc
entry_not_unavailable _ h = refl

document_sequence :
    (d : Signed) (a b : ℕ)
    → validate_signed d ≡ ok (a, b)
    → ((d.sequence == 0) || ltb 9007199254740991 d.sequence) ≡ false
unfolding validate_signed
document_sequence d a b h = ground arith

unnamed : match_string name_pattern [] ≡ false
unfolding match_string
unnamed = refl

not_listed : match_string name_pattern (ascii "publisher-not-listed") ≡ true
unfolding match_string
not_listed = refl

named-not_empty : (id : Text) → match_string name_pattern id ≡ true → id ≢ []
named-not_empty [] h e = absurd (true≢false (sym h ∙ unnamed))
named-not_empty (c ∷ cs) h e = cc

answer_with-valid :
    (s : Snapshot) (document : Signed) (id : Text) (status : Status) (reason : Text)
    → IsVerified s document
    → valid_publisher_id id ≡ true
    → valid_entry_status status ≡ true
    → match_string name_pattern reason ≡ true
    → s.issued_at ≢ zero_time
    → validate_result (answer_with s id status reason) ≡ ok tt
unfolding validate_result
answer_with-valid s document id status reason v i t r issued =
    let range : ((s.sequence == 0) || ltb 9007199254740991 s.sequence) ≡ false =
      rw v.sequence_kept (document_sequence document s.issued_at s.expires_at v.checked) in
    let later = (validate_signed-ascending document s.issued_at s.expires_at v.checked).1 in
    let name = named-not_empty s.provider_id v.named in
    ground (
      arith,
      range,
      later,
      name,
      v.named,
      issued,
      i,
      t,
      r,
      text_beq_iff s.provider_id [],
      entry_not_unavailable status t,
    )

answer_with-issued :
    (s : Snapshot) (id : Text) (status : Status) (reason : Text)
    → valid_entry_status status ≡ true
    → validate_result (answer_with s id status reason) ≡ ok tt
    → s.issued_at ≢ zero_time
unfolding validate_result
answer_with-issued s id status reason t h e =
    let here : (s.issued_at == zero_time) ≡ true = (nat_beq_iff s.issued_at zero_time).1 e in
    let apart = entry_not_unavailable status t in absurd (ground (arith, h, here, apart))

-- What a verified snapshot answers about a well-formed publisher ID is a result that `Validate`
-- accepts exactly if the snapshot was not issued at the zero time, which is not checked when a
-- snapshot is verified.
pub lookup-valid :
    (s : Snapshot) (document : Signed) (id : Text)
    → IsVerified s document
    → valid_publisher_id id ≡ true
    → (validate_result (lookup s id) ≡ ok tt) ↔ (s.issued_at ≢ zero_time)
lookup-valid s document id v i =
    let rising : is_ascending s.entries ≡ true =
      rw v.entries_kept (validate_signed-ascending document s.issued_at s.expires_at v.checked).0 in
    rw (lookup-find_entry s id rising) (answered (find_entry id s.entries) refl)
  where
    answered :
        (o : Option Entry)
        → find_entry id s.entries ≡ o
        → (validate_result (answer s id o) ≡ ok tt) ↔ (s.issued_at ≢ zero_time)
    answered none f = (
      answer_with-issued s id unknown (ascii "publisher-not-listed")
          (unfold valid_entry_status in refl),
      answer_with-valid s document id unknown (ascii "publisher-not-listed") v i
          (unfold valid_entry_status in refl) not_listed,
    )
    answered (some e) f =
        let checked = snapshot_entries s document v in
        let status = find_entry-all (λ x. valid_entry_status x.status) id s.entries e checked.0 f in
        (
          answer_with-issued s id e.status e.reason_code status,
          answer_with-valid s document id e.status e.reason_code v i status (
              find_entry-all (λ x. match_string name_pattern x.reason_code) id s.entries e checked.1
                f),
        )
