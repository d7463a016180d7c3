-- ===== src/SystemAuthority/Ledger/Steps.antt =====
-- Sequences of enrolments and removals, of any applications and under any settings, each of which may
-- succeed, be refused, or stop where the machine lets it stop.
pub mod Safety
pub mod Trust
use cpak.Base.{
  ℕ, zero, suc, ◌+◌, ◌-◌, ◌*◌, ◌/◌, ◌%◌, ◌^◌, ◌≤◌, ◌<◌, ◌≡◌, refl, sym, ap, ◌∙◌, ◌≢◌, ◌↔◌, ◌⊎◌, inl,
  inr, Bool, true, false, not, ◌&&◌, ◌||◌, Option, none, some, List, [], ◌∷◌, ◌++◌, map, Memᴰ,
  arith, ltb, leb, nat_beq, nat_beq_iff, if◌then◌else◌, Eq, ◌==◌, ◌!=◌, nat_eq, Bool-cases,
  Option-cases, any, all, length, is_empty, length-append, any-eq-true, any_of_mem, all_mem,
  all_of_mem, all-append, any-append, all_mono, not_true, contains, contains_mem, contains_of_mem,
  Outcome, ok, err, ◌>>=◌, ◌>>◌, refuse_if, wrap, Text, ascii, text_beq, text_beq_iff, text_eq, ℤ,
  pos, int_eq, int_beq_iff, all_mono, ℤ, pos, negsuc, int_eq, not_true,
}
use cpak.Base.{passed, passed_check, ok_inj, Outcome-cases}
use cpak.SystemAuthority.{Enrolment, LedgerError, World}
use cpak.SystemAuthority.Checks.{complete_policy_schema}
use cpak.SystemAuthority.Checks.Laws.{complete_policy_schema-IsChecked}
use cpak.SystemAuthority.Confirmations.{Entries}
use cpak.SystemAuthority.Orders.Laws.{Level, AtMost, level_of}
use cpak.SystemAuthority.Admission.{admit_signature, admit_trust, Admitted}
use cpak.SystemAuthority.Admission.Laws.{
  SameOffer, admit_trust-SameOffer, admit_signature-SameOffer,
}
use cpak.SystemAuthority.Ledger.{Disk, Codec, Io}
use cpak.SystemAuthority.Ledger.Record.{
  cleared, record_enrolment, settle, settled_entries, after_trust, after_signature,
}
use cpak.SystemAuthority.Ledger.Record.Laws.{Answer, settle-Answer}
use cpak.SystemAuthority.Ledger.Forget.{forget}

abbrev pub Authority : Type 0 → Type 0
Authority D = Disk D × Entries

module _ {D : Type 0} (codec : Codec D) where
  pub data Step (s : Authority D) : Authority D → Type 0 where
    records :
        (w : World) (io : Io) (e : Enrolment) (confirmation : Text)
        → Step s (record_enrolment codec w io s e confirmation).0
    forgets :
        (w : World) (io : Io) (uid : ℕ) (origin : Text)
        → Step s ((forget codec w io s.0 uid origin).0, s.1)

  pub data Reach (s : Authority D) : Authority D → Type 0 where
    start : Reach s s
    next : {t u : Authority D} → Reach s t → Step t u → Reach s u

  -- What recording an enrolment answers: a refusal in front of the ledger, or what the ledger
  -- answers to an offer with the same anchor and the same signature.
  pub data Recorded (w : World) (disk : Disk D) (e : Enrolment)
      (r : Authority D × Outcome LedgerError Unit) : Type 0 where
    refused : (x : LedgerError) → r.0.0 ≡ disk → r.1 ≡ err x → Recorded w disk e r
    settled :
        (admitted : Enrolment)
        → SameOffer admitted e
        → Answer codec w disk admitted (r.0.0, r.1)
        → Recorded w disk e r

  module _ (w : World) (io : Io) (disk : Disk D) (entries : Entries) (e : Enrolment)
      (confirmation : Text) where
    after_trust-Recorded :
        (p : Admitted)
        → ((a : Enrolment) → p.1 ≡ ok a → SameOffer a e)
        → Recorded w disk e (after_trust codec w io disk p)
    unfolding after_trust settled_entries
    after_trust-Recorded (remaining, err x) same = refused x refl refl
    after_trust-Recorded (remaining, ok admitted) same =
        settled admitted (same admitted refl) (settle-Answer codec w io disk admitted)

    after_signature-Recorded :
        (m : Outcome LedgerError Enrolment)
        → ((a : Enrolment) → m ≡ ok a → SameOffer a e)
        → Recorded w disk e (after_signature codec w io disk entries confirmation m)
    unfolding after_signature
    after_signature-Recorded (err x) same = refused x refl refl
    after_signature-Recorded (ok a) same =
        after_trust-Recorded (admit_trust w a confirmation entries) λ admitted good.
          let one = same a refl in
          let two = admit_trust-SameOffer w a confirmation entries admitted good in
          record {
            same_anchor = two.same_anchor ∙ one.same_anchor;
            same_signature = two.same_signature ∙ one.same_signature;
          }

    pub record_enrolment-Recorded :
        Recorded w disk e (record_enrolment codec w io (disk, entries) e confirmation)
    unfolding record_enrolment cleared
    record_enrolment-Recorded = after_signature-Recorded _ λ a h.
        let (c, checked, signed) = passed (complete_policy_schema w (cleared e)) _ h in
        let two = admit_signature-SameOffer w c a signed in
        let one = complete_policy_schema-IsChecked w (cleared e) c checked in
        record {
          same_anchor = two.same_anchor ∙ one.same_anchor;
          same_signature = two.same_signature ∙ one.same_signature;
        }
