-- ===== src/SystemAuthority/Ledger/Floor.antt =====
-- How far an application has come by what stands on the disk, and how reading a file shows it.
use cpak.Base.{
  ℕ, ◌≡◌, sym, ap, ◌∙◌, true, not, ◌||◌, Option, none, some, arith, ltb, nat_beq_iff, ◌!=◌, nat_eq,
  ok, ◌>>=◌, Text, text_beq_iff, text_eq, int_eq, int_eq,
}
use mathlib.Core.Path.{ap₂}
use cpak.Base.{passed, not_refused}
use cpak.SystemAuthority.{
  as_stored, stored_state, Enrolment, Tombstone, World, file_not_trusted, file_too_large,
  not_its_file,
}
use cpak.SystemAuthority.Checks.{
  validate_origin, validate_anchor, validate_signed_state, complete_policy_schema,
  complete_tombstone_schema,
}
use cpak.SystemAuthority.Checks.Laws.{
  complete_policy_schema-IsChecked, complete_tombstone_schema-keeps,
}
use cpak.SystemAuthority.Orders.Laws.{Level, AtMost, level_of, level_left, signature_level}
use cpak.SystemAuthority.Ledger.{
  trusted, File, Disk, Codec, record_path, record_suffix, forgotten_suffix, anchor_size_limit,
  trusted_directories, read_trusted, read_at, decoded_record, open_record, recorded,
  decoded_tombstone, open_tombstone, forgotten,
}

-- What a reader of JSON gives back of what was written: the anchor and the evidence of an enrolment
-- that passed its checks, and how far a tombstone of a valid origin had come.
pub record Lossless {D : Type 0} (codec : Codec D) : Type 0 where
  pub record_back :
      (w : World) (e : Enrolment) (d : D)
      → validate_anchor w e.anchor ≡ ok tt
      → validate_signed_state e.anchor e.signature ≡ ok tt
      → codec.encode_enrolment (as_stored e) ≡ some d
      → (back : Enrolment) × (codec.decode_enrolment d ≡ some back)
        × (back.anchor ≡ e.anchor)
        × (back.signature ≡ stored_state e.signature)
  pub tombstone_back :
      (t : Tombstone) (d : D)
      → validate_origin t.origin ≡ ok tt
      → codec.encode_tombstone t ≡ some d
      → (back : Tombstone) × (codec.decode_tombstone d ≡ some back)
        × (level_left back ≡ level_left t)

module _ {D : Type 0} (codec : Codec D) where
  -- The application has come to a level, by its record or by its tombstone.
  pub data Stands (disk : Disk D) (uid : ℕ) (origin : Text) (l : Level) : Type 0 where
    in_record :
        (name : Text) (f : File D) (e : Enrolment)
        → record_path origin record_suffix ≡ ok name
        → disk.files uid name ≡ some f
        → codec.decode_enrolment f.content ≡ some e
        → AtMost l (level_of e)
        → Stands disk uid origin l
    in_tombstone :
        (name : Text) (f : File D) (t : Tombstone)
        → record_path origin forgotten_suffix ≡ ok name
        → disk.files uid name ≡ some f
        → codec.decode_tombstone f.content ≡ some t
        → AtMost l (level_left t)
        → Stands disk uid origin l

  module _ (w : World) where
    read_trusted-content :
        (f : File D) (c : Option D) → read_trusted codec w (some f) ≡ ok c → c ≡ some f.content
    unfolding read_trusted
    read_trusted-content f c h =
        let (_, h1) = not_refused (not f.trusted) file_not_trusted _ h in
        let (_, h2) =
          not_refused (ltb anchor_size_limit (codec.size f.content)) file_too_large
            (ok (some f.content)) h1 in
        cc

    decoded_record-level :
        (uid : ℕ) (origin : Text) (e : Enrolment) (x : Option Enrolment)
        → decoded_record codec w uid origin (some e) ≡ ok x
        → (r : Enrolment) × (x ≡ some r) × (level_of r ≡ level_of e)
    unfolding decoded_record
    decoded_record-level uid origin e x h =
        let (_, h1) =
          not_refused ((e.anchor.uid != uid) || (e.anchor.origin != origin)) not_its_file _ h in
        let (r, c, h2) = passed (complete_policy_schema w e) (λ r. ok (some r)) h1 in
        let checked = complete_policy_schema-IsChecked w e r c in
        (
          r,
          cc,
          ap₂ (λ n s. signature_level n s) (ap (λ a. a.generation) checked.same_anchor)
              checked.same_signature,
        )

    opened_record :
        (disk : Disk D) (uid : ℕ) (origin name : Text) (f : File D) (e : Enrolment) (c : Option D)
        (x : Option Enrolment)
        → disk.files uid name ≡ some f
        → codec.decode_enrolment f.content ≡ some e
        → read_at codec w disk uid name true ≡ ok c
        → open_record codec w uid origin c ≡ ok x
        → (r : Enrolment) × (x ≡ some r) × (level_of r ≡ level_of e)
    unfolding read_at open_record
    opened_record disk uid origin name f e c x stands decodes read opened =
        let of_file : read_trusted codec w (some f) ≡ ok c = rw stands at read in
        let content : c ≡ some f.content = read_trusted-content f c of_file in
        let of_content : open_record codec w uid origin (some f.content) ≡ ok x =
          rw content at opened in
        let of_record : decoded_record codec w uid origin (some e) ≡ ok x =
          rw decodes at of_content in
        decoded_record-level uid origin e x of_record

    -- A record that stands is read as standing where it stands, or the reading fails.
    pub recorded-level :
        (disk : Disk D) (uid : ℕ) (origin name : Text) (f : File D) (e : Enrolment)
        (x : Option Enrolment)
        → record_path origin record_suffix ≡ ok name
        → disk.directories uid ≡ trusted
        → disk.files uid name ≡ some f
        → codec.decode_enrolment f.content ≡ some e
        → recorded codec w disk uid origin ≡ ok x
        → (r : Enrolment) × (x ≡ some r) × (level_of r ≡ level_of e)
    unfolding recorded trusted_directories
    recorded-level disk uid origin name f e x named there stands decodes h =
        let at_name : (trusted_directories (disk.directories uid) >>= λ b.
        read_at codec w disk uid name b >>= λ c. open_record codec w uid origin c)
            ≡ ok x =
          rw named at h in
        let in_place : (read_at codec w disk uid name true >>= λ c.
        open_record codec w uid origin c)
            ≡ ok x =
          rw there at at_name in
        let (c, read, opened) = passed (read_at codec w disk uid name true) _ in_place in
        opened_record disk uid origin name f e c x stands decodes read opened

    decoded_tombstone-level :
        (uid : ℕ) (origin : Text) (e : Tombstone) (x : Option Tombstone)
        → decoded_tombstone codec w uid origin (some e) ≡ ok x
        → (r : Tombstone) × (x ≡ some r) × (level_left r ≡ level_left e)
    unfolding decoded_tombstone
    decoded_tombstone-level uid origin e x h =
        let (_, h1) = not_refused ((e.uid != uid) || (e.origin != origin)) not_its_file _ h in
        let (r, c, h2) = passed (complete_tombstone_schema w e) (λ r. ok (some r)) h1 in
        let (g, s, n) = complete_tombstone_schema-keeps w e r c in
        let same : level_left r ≡ level_left e = cc in (r, cc, same)

    opened_tombstone :
        (disk : Disk D) (uid : ℕ) (origin name : Text) (f : File D) (e : Tombstone) (c : Option D)
        (x : Option Tombstone)
        → disk.files uid name ≡ some f
        → codec.decode_tombstone f.content ≡ some e
        → read_at codec w disk uid name true ≡ ok c
        → open_tombstone codec w uid origin c ≡ ok x
        → (r : Tombstone) × (x ≡ some r) × (level_left r ≡ level_left e)
    unfolding read_at open_tombstone
    opened_tombstone disk uid origin name f e c x stands decodes read opened =
        let of_file : read_trusted codec w (some f) ≡ ok c = rw stands at read in
        let content : c ≡ some f.content = read_trusted-content f c of_file in
        let of_content : open_tombstone codec w uid origin (some f.content) ≡ ok x =
          rw content at opened in
        let of_record : decoded_tombstone codec w uid origin (some e) ≡ ok x =
          rw decodes at of_content in
        decoded_tombstone-level uid origin e x of_record

    -- A tombstone that stands is read as standing where it stands, or the reading fails.
    pub forgotten-level :
        (disk : Disk D) (uid : ℕ) (origin name : Text) (f : File D) (e : Tombstone)
        (x : Option Tombstone)
        → record_path origin forgotten_suffix ≡ ok name
        → disk.directories uid ≡ trusted
        → disk.files uid name ≡ some f
        → codec.decode_tombstone f.content ≡ some e
        → forgotten codec w disk uid origin ≡ ok x
        → (r : Tombstone) × (x ≡ some r) × (level_left r ≡ level_left e)
    unfolding forgotten trusted_directories
    forgotten-level disk uid origin name f e x named there stands decodes h =
        let at_name : (trusted_directories (disk.directories uid) >>= λ b.
        read_at codec w disk uid name b >>= λ c. open_tombstone codec w uid origin c)
            ≡ ok x =
          rw named at h in
        let in_place : (read_at codec w disk uid name true >>= λ c.
        open_tombstone codec w uid origin c)
            ≡ ok x =
          rw there at at_name in
        let (c, read, opened) = passed (read_at codec w disk uid name true) _ in_place in
        opened_tombstone disk uid origin name f e c x stands decodes read opened

    decoded_record-its_file :
        (uid : ℕ) (origin : Text) (o : Option Enrolment) (e : Enrolment)
        → decoded_record codec w uid origin o ≡ ok (some e)
        → (e.anchor.uid ≡ uid) × (e.anchor.origin ≡ origin)
    unfolding decoded_record
    decoded_record-its_file uid origin none e h = cc
    decoded_record-its_file uid origin (some x) e h =
        let (its, h1) =
          not_refused ((x.anchor.uid != uid) || (x.anchor.origin != origin)) not_its_file _ h in
        let (r, c, h2) = passed (complete_policy_schema w x) (λ r. ok (some r)) h1 in
        let checked = complete_policy_schema-IsChecked w x r c in
        let same : r ≡ e = cc in
        let anchor : e.anchor ≡ x.anchor = ap (λ y. y.anchor) (sym same) ∙ checked.same_anchor in
        (
          ap (λ a. a.uid) anchor ∙ ground (arith, its, nat_beq_iff x.anchor.uid uid),
          ap (λ a. a.origin) anchor ∙ ground (arith, its, text_beq_iff x.anchor.origin origin),
        )

    -- What is recorded of an application is of that application.
    pub recorded-its_file :
        (disk : Disk D) (uid : ℕ) (origin : Text) (e : Enrolment)
        → recorded codec w disk uid origin ≡ ok (some e)
        → (e.anchor.uid ≡ uid) × (e.anchor.origin ≡ origin)
    unfolding recorded open_record
    recorded-its_file disk uid origin e h =
        let (name, _, h1) = passed (record_path origin record_suffix) _ h in
        let (present, _, h2) = passed (trusted_directories (disk.directories uid)) _ h1 in
        let (content, _, h3) = passed (read_at codec w disk uid name present) _ h2 in
        opened content h3
      where
        opened :
            (c : Option D)
            → open_record codec w uid origin c ≡ ok (some e)
            → (e.anchor.uid ≡ uid) × (e.anchor.origin ≡ origin)
        opened none k = cc
        opened (some d) k = decoded_record-its_file uid origin (codec.decode_enrolment d) e k
