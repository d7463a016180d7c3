-- ===== src/SystemAuthority/Ledger/Forget/Kept.antt =====
-- `Forget` as a whole.
use cpak.Base.{
  ℕ, ◌≡◌, refl, sym, ap, ◌∙◌, inl, inr, false, ◌&&◌, Option, none, some, nat_beq, nat_eq,
  Bool-cases, not_true, Outcome, ok, err, ◌>>=◌, Text, text_beq, text_eq, int_eq, int_eq, not_true,
}
use mathlib.Core.Path.{ap₂, subst}
use cpak.Base.{Outcome-cases}
use cpak.TrustPolicy.Policy.{is_none}
use cpak.SystemAuthority.{Enrolment, LedgerError, World}
use cpak.SystemAuthority.Orders.Laws.{Level}
use cpak.SystemAuthority.Ledger.{
  Presence, absent, trusted, invalid, Disk, Codec, Io, record_path, record_suffix, put_file,
  remove_file, recorded, trusted_directories,
}
use cpak.SystemAuthority.Ledger.Paths.{record_path_apart}
use cpak.SystemAuthority.Ledger.Record.Kept.{put_file-other, same_place}
use cpak.SystemAuthority.Ledger.Floor.{
  Lossless, Stands, in_record, in_tombstone, recorded-level, recorded-its_file,
}
use cpak.SystemAuthority.Ledger.Forget.{
  entomb, entombed, removed, forget_present, forget_at, forget,
}
use cpak.SystemAuthority.Ledger.Forget.Laws.{entomb-Buried, put_keeps, Buried-keeps, Removed-keeps}

module _ {D : Type 0} (codec : Codec D) (lossless : Lossless codec) (w : World) where
  -- Where no record is read, removing it keeps what stands.
  Absent-keeps :
      (disk : Disk D) (uid : ℕ) (origin name : Text) (l : Level)
      → record_path origin record_suffix ≡ ok name
      → disk.directories uid ≡ trusted
      → recorded codec w disk uid origin ≡ ok none
      → Stands codec disk uid origin l
      → Stands codec (put_file disk uid name none) uid origin l
  Absent-keeps disk uid origin name l named there nothing
        (in_record n f r named' stands decodes le) =
      let (x, is_x, _) =
        recorded-level codec w disk uid origin n f r none named' there stands decodes nothing in
      cc is_x
  Absent-keeps disk uid origin name l named there nothing
        (in_tombstone n f t named' stands decodes le) =
      let elsewhere : (nat_beq uid uid && text_beq n name) ≡ false = not_true _ λ h.
        let (_, same_name) = same_place uid uid name n h in
        record_path_apart origin origin name named (named' ∙ ap ok same_name) in
      in_tombstone n f t named' (put_file-other disk uid uid name n none elsewhere ∙ stands) decodes
        le

  module _ (io : Io) (disk : Disk D) (uid : ℕ) (origin : Text) (u : ℕ) (o : Text) (l : Level) where
    last_keeps :
        (name : Text) (buried : Disk D)
        → Stands codec buried u o l
        → Stands codec (put_file buried uid name none) u o l
        → Stands codec (removed codec w io uid name disk (ok buried)).0 u o l
    unfolding removed remove_file
    last_keeps name buried s t = elim (Bool-cases (is_none (buried.files uid name))) [
      | inl h ↦ rw h s
      | inr h ↦ elim (Bool-cases io.can_remove) [ inl k ↦ rw (h, k) t | inr k ↦ rw (h, k) s ]
    ]

    recorded_keeps :
        (name : Text) (m : Outcome LedgerError (Option Enrolment))
        → recorded codec w disk uid origin ≡ m
        → record_path origin record_suffix ≡ ok name
        → disk.directories uid ≡ trusted
        → Stands codec disk u o l
        → Stands codec (removed codec w io uid name disk (m >>= entombed codec w io disk)).0 u o l
    unfolding removed entombed
    recorded_keeps name (err x) q named there s = s
    recorded_keeps name (ok none) q named there s =
        last_keeps name disk s
          (elim (put_keeps codec lossless w disk uid origin name none u o l (inl named) s) [
            | inl kept ↦ kept
            | inr (same_uid, same_origin) ↦
                rw (same_uid, same_origin)
                  (Absent-keeps disk uid origin name l named there q
                    (rw (sym same_uid, sym same_origin) s))
          ])
    recorded_keeps name (ok (some e)) q named there s =
        elim (Outcome-cases (entomb codec w io disk e)) [
          | inl (x, failed) ↦ rw failed s
          | inr (next, made) ↦
              let b = entomb-Buried codec lossless w io disk next e made in
              let (its_uid, its_origin) = recorded-its_file codec w disk uid origin e q in
              let there_e : disk.directories e.anchor.uid ≡ trusted = rw its_uid there in
              let is_e : recorded codec w disk e.anchor.uid e.anchor.origin ≡ ok (some e) =
                ap₂ (λ a b. recorded codec w disk a b) its_uid its_origin ∙ q in
              let named_e : record_path e.anchor.origin record_suffix ≡ ok name =
                ap (λ a. record_path a record_suffix) its_origin ∙ named in
              let gone : Stands codec (put_file next uid name none) u o l =
                subst (λ a. Stands codec (put_file next a name none) u o l) its_uid
                  (Removed-keeps codec lossless w disk next e name u o l there_e is_e named_e b
                    s) in
              rw made (
                last_keeps name next
                  (Buried-keeps codec lossless w disk next e u o l there_e is_e b s) gone)
        ]

    present_keeps :
        (name : Text) (p : Presence)
        → disk.directories uid ≡ p
        → record_path origin record_suffix ≡ ok name
        → Stands codec disk u o l
        → Stands codec
            (forget_present codec w io disk uid origin name (trusted_directories p)).0
            u
            o
            l
    unfolding forget_present trusted_directories
    present_keeps name absent q named s = s
    present_keeps name invalid q named s = s
    present_keeps name trusted q named s =
        recorded_keeps name (recorded codec w disk uid origin) refl named q s

    pub forget_keeps :
        Stands codec disk u o l → Stands codec (forget codec w io disk uid origin).0 u o l
    unfolding forget forget_at
    forget_keeps s = elim (Outcome-cases (record_path origin record_suffix)) [
      | inl (x, bad) ↦ rw bad s
      | inr (name, named) ↦ rw named (present_keeps name (disk.directories uid) refl named s)
    ]
