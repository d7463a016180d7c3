-- ===== src/SystemAuthority/Ledger/Forget/Laws.antt =====
-- Forgetting an application lets no application go back, wherever it stops.
use cpak.Base.{
  ℕ, ◌≡◌, refl, sym, ap, ◌∙◌, ◌⊎◌, inl, inr, true, false, ◌&&◌, Option, none, some, nat_beq, nat_eq,
  Bool-cases, not_true, ok, Text, text_beq, text_eq, int_eq, int_eq, not_true,
}
use cpak.Base.{passed, ok_inj}
use cpak.SystemAuthority.{Enrolment, Tombstone, World}
use cpak.SystemAuthority.Checks.{validate_origin}
use cpak.SystemAuthority.Orders.{buried_of}
use cpak.SystemAuthority.Orders.Laws.{
  Level, AtMost, AtMost-trans, AtMost-refl, level_of, level_left, level_left-buried_of,
  raised_by-AtMost, buried_of-origin, raised_by-origin,
}
use cpak.SystemAuthority.Ledger.{
  encoded, trusted, File, Disk, Codec, Io, record_path, record_suffix, forgotten_suffix, put_file,
  ensure_directories, ensured, write_file, recorded, forgotten,
}
use cpak.SystemAuthority.Ledger.Paths.{record_path_inj, record_path_apart, record_path-valid}
use cpak.SystemAuthority.Ledger.Record.Laws.{ensured-ready}
use cpak.SystemAuthority.Ledger.Record.Kept.{
  Stands-files, put_file-same, put_file-other, same_place,
}
use cpak.SystemAuthority.Ledger.Floor.{
  Lossless, Stands, in_record, in_tombstone, recorded-level, forgotten-level,
}
use cpak.SystemAuthority.Ledger.Forget.{raised_by_standing, entomb}

-- A raised tombstone is above the record and above what stood before, and is of the same origin.
raised_by_standing-origin :
    (e : Enrolment) (standing : Option Tombstone)
    → (raised_by_standing (buried_of e) standing).origin ≡ e.anchor.origin
unfolding raised_by_standing
raised_by_standing-origin e none = buried_of-origin e
raised_by_standing-origin e (some standing) =
    raised_by-origin (buried_of e) standing ∙ buried_of-origin e

raised_by_standing-AtMost :
    (e : Enrolment) (standing : Option Tombstone)
    → AtMost (level_of e) (level_left (raised_by_standing (buried_of e) standing))
unfolding raised_by_standing
raised_by_standing-AtMost e none = rw (level_left-buried_of e) (AtMost-refl (level_of e))
raised_by_standing-AtMost e (some standing) =
    rw (sym (level_left-buried_of e)) (raised_by-AtMost (buried_of e) standing).0

write_file-next :
    {D : Type 0} (io : Io) (disk next : Disk D) (uid : ℕ) (name : Text) (c : D)
    → write_file io disk uid name c ≡ ok next
    → next ≡ put_file disk uid name (some (record { trusted = true; content = c }))
unfolding write_file
write_file-next io disk next uid name c h = elim (Bool-cases io.can_write) [
  | inl allowed ↦ sym (ok_inj (rw allowed at h))
  | inr failed ↦ cc (rw failed at h)
]

encoded-some : {D : Type 0} (o : Option D) (d : D) → encoded o ≡ ok d → o ≡ some d
unfolding encoded
encoded-some none d h = cc
encoded-some (some x) d h = ap some (ok_inj h)

module _ {D : Type 0} (codec : Codec D) (lossless : Lossless codec) (w : World) where
  -- What entombing a record leaves behind.
  pub record Buried (disk : Disk D) (e : Enrolment) (next : Disk D) : Type 0 where
    pub name : Text
    pub ready : Disk D
    pub standing : Option Tombstone
    pub content : D
    pub is_content :
        codec.encode_tombstone (raised_by_standing (buried_of e) standing) ≡ some content
    pub named : record_path e.anchor.origin forgotten_suffix ≡ ok name
    pub same_files : ready.files ≡ disk.files
    pub read : forgotten codec w disk e.anchor.uid e.anchor.origin ≡ ok standing
    pub is_next :
        next
        ≡ put_file ready e.anchor.uid name (some (record { trusted = true; content = content }))

  pub entomb-Buried :
      (io : Io) (disk next : Disk D) (e : Enrolment)
      → entomb codec w io disk e ≡ ok next
      → Buried disk e next
  unfolding entomb ensure_directories
  entomb-Buried io disk next e h =
      let (standing, read, h1) = passed (forgotten codec w disk e.anchor.uid e.anchor.origin) _ h in
      let (name, named, h2) = passed (record_path e.anchor.origin forgotten_suffix) _ h1 in
      let (ready, made, h3) =
        passed (ensured io disk e.anchor.uid (disk.directories e.anchor.uid)) _ h2 in
      let (content, is_content, h4) =
        passed (encoded (codec.encode_tombstone (raised_by_standing (buried_of e) standing))) _
          h3 in
      let (same, _) =
        ensured-ready io disk ready e.anchor.uid (disk.directories e.anchor.uid) refl made in
      record {
        name = name;
        ready = ready;
        standing = standing;
        named = named;
        same_files = same;
        read = read;
        content = content;
        is_content = encoded-some _ content is_content;
        is_next = write_file-next io ready next e.anchor.uid name content h4;
      }

  -- The tombstone that was written stands on every disk that still has it, for what is at most there.
  Buried-Stands :
      (disk next last : Disk D) (e : Enrolment) (l : Level)
      → (b : Buried disk e next) → last.files e.anchor.uid b.name ≡ next.files e.anchor.uid b.name
      → AtMost l (level_left (raised_by_standing (buried_of e) b.standing))
      → Stands codec last e.anchor.uid e.anchor.origin l
  Buried-Stands disk next last e l b kept le =
      let t = raised_by_standing (buried_of e) b.standing in
      let valid = record_path-valid e.anchor.origin forgotten_suffix b.name b.named in
      let (back, decodes, level) =
        lossless.tombstone_back t b.content
          (ap validate_origin (raised_by_standing-origin e b.standing) ∙ valid) b.is_content in
      in_tombstone b.name (record { trusted = true; content = b.content }) back b.named
        (kept
          ∙ ap (λ d. d.files e.anchor.uid b.name) b.is_next
          ∙ put_file-same b.ready e.anchor.uid b.name _)
        decodes (rw level le)

  -- The new tombstone is at least where the application stood.
  Buried-AtMost :
      (disk next : Disk D) (e : Enrolment) (l : Level)
      → disk.directories e.anchor.uid ≡ trusted
      → recorded codec w disk e.anchor.uid e.anchor.origin ≡ ok (some e)
      → (b : Buried disk e next) → Stands codec disk e.anchor.uid e.anchor.origin l
      → AtMost l (level_left (raised_by_standing (buried_of e) b.standing))
  Buried-AtMost disk next e l there is_e b (in_record name f r named stands decodes le) =
      let (x, is_x, level) =
        recorded-level codec w disk e.anchor.uid e.anchor.origin name f r (some e) named there
          stands decodes is_e in
      let same : level_of e ≡ level_of r = cc in
      AtMost-trans l (level_of e) _ (rw same le) (raised_by_standing-AtMost e b.standing)
  Buried-AtMost disk next e l there is_e b (in_tombstone name f t named stands decodes le) =
      let (x, is_x, level) =
        forgotten-level codec w disk e.anchor.uid e.anchor.origin name f t b.standing named there
          stands decodes b.read in
      let above : AtMost (level_left x) (level_left (raised_by_standing (buried_of e) b.standing)) =
        rw is_x (unfold raised_by_standing in (raised_by-AtMost (buried_of e) x).1) in
      AtMost-trans l (level_left x) _ (rw level le) above

  -- Putting another file where one of an application lies keeps what stands of every other one.
  pub put_keeps :
      (disk : Disk D) (uid : ℕ) (origin name : Text) (new : Option (File D)) (u : ℕ) (o : Text)
      (l : Level)
      → (record_path origin record_suffix ≡ ok name)
        ⊎ (record_path origin forgotten_suffix ≡ ok name)
      → Stands codec disk u o l
      → Stands codec (put_file disk uid name new) u o l ⊎ ((u ≡ uid) × (o ≡ origin))
  put_keeps disk uid origin name new u o l p (in_record n f r named stands decodes le) =
      elim (Bool-cases (nat_beq u uid && text_beq n name)) [
        | inl h ↦
            let (same_uid, same_name) = same_place uid u name n h in
            let of_o : record_path o record_suffix ≡ ok name = named ∙ ap ok same_name in
            elim p [
              | inl q ↦ inr (same_uid, record_path_inj o origin record_suffix name of_o q)
              | inr q ↦ absurd (record_path_apart o origin name of_o q)
            ]
        | inr h ↦
            inl (in_record n f r named (put_file-other disk uid u name n new h ∙ stands) decodes le)
      ]
  put_keeps disk uid origin name new u o l p (in_tombstone n f t named stands decodes le) =
      elim (Bool-cases (nat_beq u uid && text_beq n name)) [
        | inl h ↦
            let (same_uid, same_name) = same_place uid u name n h in
            let of_o : record_path o forgotten_suffix ≡ ok name = named ∙ ap ok same_name in
            elim p [
              | inl q ↦ absurd (record_path_apart origin o name q of_o)
              | inr q ↦ inr (same_uid, record_path_inj o origin forgotten_suffix name of_o q)
            ]
        | inr h ↦
            inl (
              in_tombstone n f t named (put_file-other disk uid u name n new h ∙ stands) decodes le)
      ]

  -- Entombing keeps what stands, of any application, and so does removing the record afterwards.
  pub Buried-keeps :
      (disk next : Disk D) (e : Enrolment) (u : ℕ) (o : Text) (l : Level)
      → disk.directories e.anchor.uid ≡ trusted
      → recorded codec w disk e.anchor.uid e.anchor.origin ≡ ok (some e)
      → Buried disk e next
      → Stands codec disk u o l
      → Stands codec next u o l
  Buried-keeps disk next e u o l there is_e b s =
      elim (put_keeps b.ready e.anchor.uid e.anchor.origin b.name _ u o l (inr b.named)
        (Stands-files codec disk b.ready u o l b.same_files s)) [
          | inl kept ↦ rw b.is_next kept
          | inr (same_uid, same_origin) ↦
              let own : Stands codec disk e.anchor.uid e.anchor.origin l =
                rw (sym same_uid, sym same_origin) s in
              rw (same_uid, same_origin)
                (Buried-Stands disk next next e l b refl
                  (Buried-AtMost disk next e l there is_e b own))
        ]

  pub Removed-keeps :
      (disk next : Disk D) (e : Enrolment) (name : Text) (u : ℕ) (o : Text) (l : Level)
      → disk.directories e.anchor.uid ≡ trusted
      → recorded codec w disk e.anchor.uid e.anchor.origin ≡ ok (some e)
      → record_path e.anchor.origin record_suffix ≡ ok name
      → Buried disk e next
      → Stands codec disk u o l
      → Stands codec (put_file next e.anchor.uid name none) u o l
  Removed-keeps disk next e name u o l there is_e named b s =
      elim (put_keeps next e.anchor.uid e.anchor.origin name none u o l (inl named)
        (Buried-keeps disk next e u o l there is_e b s)) [
          | inl kept ↦ kept
          | inr (same_uid, same_origin) ↦
              let own : Stands codec disk e.anchor.uid e.anchor.origin l =
                rw (sym same_uid, sym same_origin) s in
              let elsewhere : (nat_beq e.anchor.uid e.anchor.uid && text_beq b.name name) ≡ false =
                not_true _ λ h.
                  let (_, same_name) = same_place e.anchor.uid e.anchor.uid name b.name h in
                  record_path_apart e.anchor.origin e.anchor.origin name named
                    (b.named ∙ ap ok same_name) in
              rw (same_uid, same_origin)
                (Buried-Stands disk next (put_file next e.anchor.uid name none) e l b
                  (put_file-other next e.anchor.uid e.anchor.uid name b.name none elsewhere)
                  (Buried-AtMost disk next e l there is_e b own))
        ]
