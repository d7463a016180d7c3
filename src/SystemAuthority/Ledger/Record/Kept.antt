-- ===== src/SystemAuthority/Ledger/Record/Kept.antt =====
-- Recording an enrolment lets no application go back.
use cpak.Base.{
  ℕ, ◌≡◌, refl, sym, ap, ◌∙◌, inl, inr, true, false, ◌&&◌, Option, arith, nat_beq, nat_beq_iff,
  nat_eq, Bool-cases, Outcome, ok, Text, text_beq, text_beq_iff, text_eq, int_eq, int_eq,
}
use cpak.SystemAuthority.{stored_state, Enrolment, LedgerError, World}
use cpak.SystemAuthority.Checks.{validate_anchor, validate_signed_state}
use cpak.SystemAuthority.Checks.Laws.{complete_policy_schema-IsChecked}
use cpak.SystemAuthority.Orders.Laws.{
  Level, AtMost, AtMost-refl, level_of, signature_level, signature_level-stored_state,
}
use cpak.SystemAuthority.Ledger.{File, Disk, Codec, record_suffix, put_file}
use cpak.SystemAuthority.Ledger.Paths.{record_path_inj, record_path_apart}
use cpak.SystemAuthority.Ledger.Record.Laws.{Written, Answer, ordered-AtMost, ordered-same}
use cpak.SystemAuthority.Ledger.Floor.{Lossless, Stands, in_record, in_tombstone}
use mathlib.Core.Path.{ap₂}

-- What stands depends on the files only.
pub Stands-files :
    {D : Type 0} (codec : Codec D) (a b : Disk D) (uid : ℕ) (origin : Text) (l : Level)
    → b.files ≡ a.files
    → Stands codec a uid origin l
    → Stands codec b uid origin l
Stands-files codec a b uid origin l same (in_record name f e named stands decodes le) =
    in_record name f e named (ap (λ x. x uid name) same ∙ stands) decodes le
Stands-files codec a b uid origin l same (in_tombstone name f t named stands decodes le) =
    in_tombstone name f t named (ap (λ x. x uid name) same ∙ stands) decodes le

pub put_file-same :
    {D : Type 0} (disk : Disk D) (uid : ℕ) (name : Text) (f : Option (File D))
    → (put_file disk uid name f).files uid name ≡ f
unfolding put_file
put_file-same disk uid name f =
    let here : (nat_beq uid uid && text_beq name name) ≡ true =
      ground (arith, text_beq_iff name name) in
    rw here refl

pub put_file-other :
    {D : Type 0} (disk : Disk D) (uid u : ℕ) (name n : Text) (f : Option (File D))
    → (nat_beq u uid && text_beq n name) ≡ false
    → (put_file disk uid name f).files u n ≡ disk.files u n
unfolding put_file
put_file-other disk uid u name n f h = rw h refl

pub same_place :
    (uid u : ℕ) (name n : Text) → (nat_beq u uid && text_beq n name) ≡ true → (u ≡ uid) × (n ≡ name)
same_place uid u name n h = (ground (arith, nat_beq_iff u uid), ground (arith, text_beq_iff n name))

module _ {D : Type 0} (codec : Codec D) (lossless : Lossless codec) (w : World) where
  -- A record that was just written stands, for what the offer is at least at.
  Written-Stands :
      (disk next : Disk D) (e : Enrolment) (l : Level)
      → (p : Written codec w disk e next) → AtMost l (level_of e)
      → Stands codec next e.anchor.uid e.anchor.origin l
  Written-Stands disk next e l p le =
      let (v, valid) = p.valid in
      let checked = complete_policy_schema-IsChecked w e v valid in
      let (same_anchor, same_signature) = ordered-same codec w p.ready e p.written p.in_order in
      let (back, decodes, back_anchor, back_signature) =
        lossless.record_back w p.written p.content
          (ap (validate_anchor w) same_anchor ∙ checked.anchor_ok)
          (ap₂ (λ a s. validate_signed_state a s) same_anchor same_signature ∙ checked.signature_ok)
          p.is_content in
      let level : level_of back ≡ level_of e =
        ap₂ (λ a s. signature_level a.generation s) (back_anchor ∙ same_anchor)
          (back_signature ∙ ap stored_state same_signature)
        ∙ signature_level-stored_state e.anchor.generation e.signature in
      in_record p.name (record { trusted = true; content = p.content }) back p.named
        (ap (λ d. d.files e.anchor.uid p.name) p.is_next
          ∙ put_file-same p.ready e.anchor.uid p.name _)
        decodes (rw level le)

  Written-keeps :
      (disk next : Disk D) (e : Enrolment) (uid : ℕ) (origin : Text) (l : Level)
      → Written codec w disk e next
      → Stands codec disk uid origin l
      → Stands codec next uid origin l
  Written-keeps disk next e uid origin l p (in_record name f r named stands decodes le) =
      elim (Bool-cases (nat_beq uid e.anchor.uid && text_beq name p.name)) [
        | inl h ↦
            let (same_uid, same_name) = same_place e.anchor.uid uid p.name name h in
            let same_origin : origin ≡ e.anchor.origin =
              record_path_inj origin e.anchor.origin record_suffix name named
                (p.named ∙ ap ok (sym same_name)) in
            let before : Stands codec p.ready e.anchor.uid e.anchor.origin l =
              rw (sym same_uid, sym same_origin)
                (Stands-files codec disk p.ready uid origin l p.same_files
                  (in_record name f r named stands decodes le)) in
            rw (same_uid, same_origin)
              (Written-Stands disk next e l p
                (ordered-AtMost codec w p.ready e p.written l p.there p.in_order before))
        | inr h ↦
            in_record name f r named
              (ap (λ d. d.files uid name) p.is_next
                ∙ put_file-other p.ready e.anchor.uid uid p.name name _ h
                ∙ ap (λ x. x uid name) p.same_files
                ∙ stands)
              decodes le
      ]
  Written-keeps disk next e uid origin l p (in_tombstone name f t named stands decodes le) =
      elim (Bool-cases (nat_beq uid e.anchor.uid && text_beq name p.name)) [
        | inl h ↦
            let (same_uid, same_name) = same_place e.anchor.uid uid p.name name h in
            absurd
              (record_path_apart e.anchor.origin origin p.name p.named (named ∙ ap ok same_name))
        | inr h ↦
            in_tombstone name f t named
              (ap (λ d. d.files uid name) p.is_next
                ∙ put_file-other p.ready e.anchor.uid uid p.name name _ h
                ∙ ap (λ x. x uid name) p.same_files
                ∙ stands)
              decodes le
      ]

  pub Answer-keeps :
      (disk next : Disk D) (outcome : Outcome LedgerError Unit) (e : Enrolment) (uid : ℕ)
      (origin : Text) (l : Level)
      → Answer codec w disk e (next, outcome)
      → Stands codec disk uid origin l
      → Stands codec next uid origin l
  Answer-keeps disk next outcome e uid origin l (inl (same, _, _)) s =
      Stands-files codec disk next uid origin l same s
  Answer-keeps disk next outcome e uid origin l (inr (p, _)) s =
      Written-keeps disk next e uid origin l p s

  pub Answer-AtMost :
      (disk next : Disk D) (e : Enrolment) (l : Level)
      → Answer codec w disk e (next, ok tt)
      → Stands codec disk e.anchor.uid e.anchor.origin l
      → AtMost l (level_of e)
  Answer-AtMost disk next e l (inl (same, x, refused)) s = cc
  Answer-AtMost disk next e l (inr (p, _)) s =
      ordered-AtMost codec w p.ready e p.written l p.there p.in_order
        (Stands-files codec disk p.ready e.anchor.uid e.anchor.origin l p.same_files s)

  pub Answer-Stands :
      (disk next : Disk D) (e : Enrolment)
      → Answer codec w disk e (next, ok tt)
      → Stands codec next e.anchor.uid e.anchor.origin (level_of e)
  Answer-Stands disk next e (inl (same, x, refused)) = cc
  Answer-Stands disk next e (inr (p, _)) =
      Written-Stands disk next e (level_of e) p (AtMost-refl (level_of e))
