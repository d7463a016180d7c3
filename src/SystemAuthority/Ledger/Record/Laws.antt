-- ===== src/SystemAuthority/Ledger/Record/Laws.antt =====
-- What recording an enrolment does to the disk, and that it lets no application go back.
use cpak.Base.{
  ℕ, ◌≡◌, refl, sym, ap, ◌∙◌, ◌⊎◌, inl, inr, true, ◌&&◌, Option, none, some, arith, nat_beq, ◌==◌,
  nat_eq, Bool-cases, Option-cases, Outcome, ok, err, Text, text_eq, int_eq, int_eq,
}
use cpak.Base.{passed, passed_check, ok_inj, Outcome-cases}
use cpak.TrustPolicy.Policy.{is_none}
use cpak.SystemAuthority.{as_stored, Enrolment, LedgerError, World, encode_failed, write_failed}
use cpak.SystemAuthority.Checks.{complete_policy_schema}
use cpak.SystemAuthority.Orders.{orders_after, orders_after_removal}
use cpak.SystemAuthority.Orders.Laws.{
  Level, AtMost, AtMost-trans, level_of, level_left, orders_after-AtMost,
  orders_after_removal-AtMost,
}
use cpak.SystemAuthority.Ledger.{
  encoded, Presence, absent, trusted, invalid, Disk, Codec, Io, record_path, record_suffix,
  put_file, ensured, ensure_directories, write_file, recorded, forgotten,
}
use cpak.SystemAuthority.Ledger.Record.{
  keep_policy, after_record, after_removal, ordered, ordered_write, written_or, ordered_in,
  settled_at, settle,
}
use cpak.SystemAuthority.Ledger.Floor.{
  Stands, in_record, in_tombstone, recorded-level, forgotten-level,
}

pub ensured-ready :
    {D : Type 0} (io : Io) (disk ready : Disk D) (uid : ℕ) (p : Presence)
    → disk.directories uid ≡ p
    → ensured io disk uid p ≡ ok ready
    → (ready.files ≡ disk.files) × (ready.directories uid ≡ trusted)
unfolding ensured
ensured-ready io disk ready uid trusted q h =
    (ap (λ d. d.files) same, ap (λ d. d.directories uid) same ∙ q)
  where
    same : ready ≡ disk
    same = sym (ok_inj h)
ensured-ready io disk ready uid invalid q h = cc
ensured-ready io disk ready uid absent q h = elim (Bool-cases io.can_create) [
  | inl allowed ↦
      let made = ok_inj (rw allowed at h) in
      let here : nat_beq uid uid ≡ true = ground arith in
      (ap (λ d. d.files) (sym made), ap (λ d. d.directories uid) (sym made) ∙ rw here refl)
  | inr refused ↦ cc (rw refused at h)
]

keep_policy-same :
    (o : Option Enrolment) (e : Enrolment)
    → ((keep_policy o e).anchor ≡ e.anchor) × ((keep_policy o e).signature ≡ e.signature)
unfolding keep_policy
keep_policy-same none e = (refl, refl)
keep_policy-same (some x) e =
    elim (Bool-cases (is_none e.policy && x.anchor.policy_root == e.anchor.policy_root)) [
      | inl h ↦ rw h (refl, refl)
      | inr h ↦ rw h (refl, refl)
    ]

module _ {D : Type 0} (codec : Codec D) (w : World) where
  -- What is recorded or left behind is at most where the offer is.
  pub ordered-AtMost :
      (disk : Disk D) (e written : Enrolment) (l : Level)
      → disk.directories e.anchor.uid ≡ trusted
      → ordered codec w disk e ≡ ok written
      → Stands codec disk e.anchor.uid e.anchor.origin l
      → AtMost l (level_of e)
  unfolding ordered after_record after_removal
  ordered-AtMost disk e written l there h (in_record name f r named stands decodes le) =
      let (existing, read, h1) = passed (recorded codec w disk e.anchor.uid e.anchor.origin) _ h in
      let (x, is_x, level) =
        recorded-level codec w disk e.anchor.uid e.anchor.origin name f r existing named there
          stands decodes read in
      let (passes, _) = passed_check (after_record existing e) _ h1 in
      let after : orders_after x e ≡ ok tt = rw is_x at passes in
      let top : AtMost (level_of r) (level_of e) = rw level at (orders_after-AtMost x e after) in
      AtMost-trans l (level_of r) (level_of e) le top
  ordered-AtMost disk e written l there h (in_tombstone name f t named stands decodes le) =
      let (existing, _, h1) = passed (recorded codec w disk e.anchor.uid e.anchor.origin) _ h in
      let (_, h2) = passed_check (after_record existing e) _ h1 in
      let (buried, read, h3) = passed (forgotten codec w disk e.anchor.uid e.anchor.origin) _ h2 in
      let (x, is_x, level) =
        forgotten-level codec w disk e.anchor.uid e.anchor.origin name f t buried named there stands
          decodes read in
      let (passes, _) = passed_check (after_removal buried e) _ h3 in
      let after : orders_after_removal x e ≡ ok tt = rw is_x at passes in
      let top : AtMost (level_left t) (level_of e) =
        rw level at (orders_after_removal-AtMost x e after) in
      AtMost-trans l (level_left t) (level_of e) le top

  pub ordered-same :
      (disk : Disk D) (e written : Enrolment)
      → ordered codec w disk e ≡ ok written
      → (written.anchor ≡ e.anchor) × (written.signature ≡ e.signature)
  unfolding ordered
  ordered-same disk e written h =
      let (existing, _, h1) = passed (recorded codec w disk e.anchor.uid e.anchor.origin) _ h in
      let (_, h2) = passed_check (after_record existing e) _ h1 in
      let (buried, _, h3) = passed (forgotten codec w disk e.anchor.uid e.anchor.origin) _ h2 in
      let (_, h4) = passed_check (after_removal buried e) _ h3 in
      let whole : keep_policy existing e ≡ written = ok_inj h4 in
      let (a, s) = keep_policy-same existing e in
      (ap (λ x. x.anchor) (sym whole) ∙ a, ap (λ x. x.signature) (sym whole) ∙ s)

  -- What a `record` that succeeds leaves behind.
  pub record Written (disk : Disk D) (e : Enrolment) (next : Disk D) : Type 0 where
    pub name : Text
    pub ready : Disk D
    pub written : Enrolment
    pub content : D
    pub named : record_path e.anchor.origin record_suffix ≡ ok name
    pub valid : (v : Enrolment) × (complete_policy_schema w e ≡ ok v)
    pub same_files : ready.files ≡ disk.files
    pub there : ready.directories e.anchor.uid ≡ trusted
    pub in_order : ordered codec w ready e ≡ ok written
    pub is_content : codec.encode_enrolment (as_stored written) ≡ some content
    pub is_next :
        next
        ≡ put_file ready e.anchor.uid name (some (record { trusted = true; content = content }))

  -- A refused one leaves every file as it was.
  abbrev pub Answer : Disk D → Enrolment → Disk D × Outcome LedgerError Unit → Type 0
  Answer disk e (next, outcome) =
      ((next.files ≡ disk.files) × (x : LedgerError) × (outcome ≡ err x))
      ⊎ (Written disk e next × (outcome ≡ ok tt))

  module _ (io : Io) (disk : Disk D) (e : Enrolment) where
    write-Answer :
        (name : Text) (ready : Disk D)
        → record_path e.anchor.origin record_suffix ≡ ok name
        → (v : Enrolment) × (complete_policy_schema w e ≡ ok v)
        → (ready.files ≡ disk.files) × (ready.directories e.anchor.uid ≡ trusted)
        → Answer disk e (written_or codec w ready (ordered_write codec w io ready name e))
    unfolding written_or ordered_write encoded write_file
    write-Answer name ready named valid (same, there) =
        elim (Outcome-cases (ordered codec w ready e)) [
          | inl (x, refused) ↦ rw refused (inl (same, x, refl))
          | inr (written, in_order) ↦
              elim (Option-cases (codec.encode_enrolment (as_stored written))) [
                | inl unwritable ↦ rw (in_order, unwritable) (inl (same, encode_failed, refl))
                | inr (content, is_content) ↦ elim (Bool-cases io.can_write) [
                  | inl allowed ↦
                      rw (in_order, is_content, allowed)
                        (inr (
                          record {
                            name = name;
                            ready = ready;
                            written = written;
                            content = content;
                            named = named;
                            valid = valid;
                            same_files = same;
                            there = there;
                            in_order = in_order;
                            is_content = is_content;
                            is_next = refl;
                          },
                          refl,
                        ))
                  | inr failed ↦ rw (in_order, is_content, failed) (inl (same, write_failed, refl))
                ]
              ]
        ]

    settled-Answer :
        (m : Outcome LedgerError Text)
        → ((name : Text)
            → m ≡ ok name
            → (record_path e.anchor.origin record_suffix ≡ ok name)
              × (v : Enrolment) × (complete_policy_schema w e ≡ ok v))
        → Answer disk e (settled_at codec w io disk e m)
    unfolding settled_at ordered_in ensure_directories
    settled-Answer (err x) facts = inl (refl, x, refl)
    settled-Answer (ok name) facts =
        let (named, v, valid) = facts name refl in
        elim (Outcome-cases (ensured io disk e.anchor.uid (disk.directories e.anchor.uid))) [
          | inl (x, failed) ↦ rw failed (inl (refl, x, refl))
          | inr (ready, made) ↦ rw made (
              write-Answer name ready named (v, valid)
                (ensured-ready io disk ready e.anchor.uid (disk.directories e.anchor.uid) refl
                  made))
        ]

    pub settle-Answer : Answer disk e (settle codec w io disk e)
    unfolding settle
    settle-Answer = settled-Answer _ λ name h.
        let (v, valid, named) = passed (complete_policy_schema w e) _ h in (named, v, valid)
