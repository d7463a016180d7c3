-- ===== src/SystemAuthority/Ledger/Steps/Safety.antt =====
-- No application goes back, whatever happens in between.
use cpak.Base.{ℕ, ◌≡◌, sym, ap, nat_eq, Outcome, ok, Text, text_eq, int_eq, int_eq}
use mathlib.Core.Path.{ap₂, subst}
use cpak.SystemAuthority.{Enrolment, LedgerError, World}
use cpak.SystemAuthority.Orders.Laws.{Level, AtMost, level_of, signature_level}
use cpak.SystemAuthority.Admission.Laws.{SameOffer}
use cpak.SystemAuthority.Ledger.{Disk, Codec, Io}
use cpak.SystemAuthority.Ledger.Floor.{Lossless, Stands}
use cpak.SystemAuthority.Ledger.Record.{record_enrolment}
use cpak.SystemAuthority.Ledger.Record.Laws.{Answer}
use cpak.SystemAuthority.Ledger.Record.Kept.{
  Stands-files, Answer-keeps, Answer-AtMost, Answer-Stands,
}
use cpak.SystemAuthority.Ledger.Forget.Kept.{forget_keeps}
use cpak.SystemAuthority.Ledger.Steps.{
  Authority, Step, records, forgets, Reach, start, next, Recorded, refused, settled,
  record_enrolment-Recorded,
}

module _ {D : Type 0} (codec : Codec D) (lossless : Lossless codec) where
  Recorded-keeps :
      (w : World) (disk : Disk D) (e : Enrolment) (r : Authority D × Outcome LedgerError Unit)
      (uid : ℕ) (origin : Text) (l : Level)
      → Recorded codec w disk e r
      → Stands codec disk uid origin l
      → Stands codec r.0.0 uid origin l
  Recorded-keeps w disk e r uid origin l (refused x same _) s =
      Stands-files codec disk r.0.0 uid origin l (ap (λ d. d.files) same) s
  Recorded-keeps w disk e r uid origin l (settled admitted _ answer) s =
      Answer-keeps codec lossless w disk r.0.0 r.1 admitted uid origin l answer s

  Step-keeps :
      (s t : Authority D) (uid : ℕ) (origin : Text) (l : Level)
      → Step codec s t
      → Stands codec s.0 uid origin l
      → Stands codec t.0 uid origin l
  Step-keeps s t uid origin l (records w io e confirmation) stands =
      Recorded-keeps w s.0 e (record_enrolment codec w io s e confirmation) uid origin l
        (record_enrolment-Recorded codec w io s.0 s.1 e confirmation) stands
  Step-keeps s t uid origin l (forgets w io u o) stands =
      forget_keeps codec lossless w io s.0 u o uid origin l stands

  -- Wherever an enrolment or a removal stops, every application stands where it stood: the
  -- invariant of the ledger, over every sequence of steps. The JSON of an enrolment that passed its
  -- checks is read back with its anchor and its evidence, that of a tombstone with its level.
  pub Reach-Stands :
      (s t : Authority D) (uid : ℕ) (origin : Text) (l : Level)
      → Reach codec s t
      → Stands codec s.0 uid origin l
      → Stands codec t.0 uid origin l
  Reach-Stands s t uid origin l start stands = stands
  Reach-Stands s t uid origin l (next {t = m} {u} r step) stands =
      Step-keeps m t uid origin l step (Reach-Stands s m uid origin l r stands)

  same_level : (a b : Enrolment) → SameOffer a b → level_of a ≡ level_of b
  same_level a b same =
      ap₂ (λ x y. signature_level x.generation y) same.same_anchor same.same_signature

  Recorded-AtMost :
      (w : World) (disk : Disk D) (e : Enrolment) (r : Authority D × Outcome LedgerError Unit)
      (l : Level)
      → Recorded codec w disk e r
      → r.1 ≡ ok tt
      → Stands codec disk e.anchor.uid e.anchor.origin l
      → AtMost l (level_of e)
  Recorded-AtMost w disk e r l (refused x _ bad) good s = cc
  Recorded-AtMost w disk e r l (settled admitted same answer) good s =
      let its = subst (λ o. Answer codec w disk admitted (r.0.0, o)) good answer in
      let stands = subst (λ a. Stands codec disk a.uid a.origin l) (sym same.same_anchor) s in
      subst (AtMost l) (same_level admitted e same)
        (Answer-AtMost codec lossless w disk r.0.0 admitted l its stands)

  Recorded-Stands :
      (w : World) (disk : Disk D) (e : Enrolment) (r : Authority D × Outcome LedgerError Unit)
      → Recorded codec w disk e r
      → r.1 ≡ ok tt
      → Stands codec r.0.0 e.anchor.uid e.anchor.origin (level_of e)
  Recorded-Stands w disk e r (refused x _ bad) good = cc
  Recorded-Stands w disk e r (settled admitted same answer) good =
      let its = subst (λ o. Answer codec w disk admitted (r.0.0, o)) good answer in
      let stands = Answer-Stands codec lossless w disk r.0.0 admitted its in
      subst (Stands codec r.0.0 e.anchor.uid e.anchor.origin) (same_level admitted e same)
        (subst (λ a. Stands codec r.0.0 a.uid a.origin (level_of admitted)) same.same_anchor stands)

  -- No rollback: once an enrolment of an application was recorded, and after any enrolments,
  -- confirmations and removals of any applications (each refused, done, or stopped halfway), under
  -- any host settings, an enrolment of that application that is recorded has no lower generation;
  -- and if the first was signed it is signed too, with no lower signature generation. The tombstones
  -- are not cleared in between; the JSON of an enrolment that passed its checks is read back with its
  -- anchor and its evidence, that of a tombstone with its level.
  pub no_rollback :
      (w w' : World) (io io' : Io) (s t : Authority D) (e e' : Enrolment) (c c' : Text)
      → (record_enrolment codec w io s e c).1 ≡ ok tt
      → Reach codec (record_enrolment codec w io s e c).0 t
      → (record_enrolment codec w' io' t e' c').1 ≡ ok tt
      → e'.anchor.uid ≡ e.anchor.uid
      → e'.anchor.origin ≡ e.anchor.origin
      → AtMost (level_of e) (level_of e')
  no_rollback w w' io io' s t e e' c c' first between second same_uid same_origin =
      let after : Authority D = (record_enrolment codec w io s e c).0 in
      let stands =
        Recorded-Stands w s.0 e (record_enrolment codec w io s e c)
          (record_enrolment-Recorded codec w io s.0 s.1 e c) first in
      let still = Reach-Stands after t e.anchor.uid e.anchor.origin (level_of e) between stands in
      let there =
        subst (λ u. Stands codec t.0 u e'.anchor.origin (level_of e)) (sym same_uid)
          (subst (λ o. Stands codec t.0 e.anchor.uid o (level_of e)) (sym same_origin) still) in
      Recorded-AtMost w' t.0 e' (record_enrolment codec w' io' t e' c') (level_of e)
        (record_enrolment-Recorded codec w' io' t.0 t.1 e' c') second there

  -- Where an application stands at a level, by its record or by what a removal left behind, an
  -- enrolment of it that is recorded is at least at that level: removing the record gives back
  -- neither the generation nor the signature. The JSON of an enrolment that passed its
  -- checks is read back with its anchor and its evidence, that of a tombstone with its level.
  pub record-AtMost :
      (w : World) (io : Io) (s : Authority D) (e : Enrolment) (c : Text) (l : Level)
      → (record_enrolment codec w io s e c).1 ≡ ok tt
      → Stands codec s.0 e.anchor.uid e.anchor.origin l
      → AtMost l (level_of e)
  record-AtMost w io s e c l good stands =
      Recorded-AtMost w s.0 e (record_enrolment codec w io s e c) l
        (record_enrolment-Recorded codec w io s.0 s.1 e c) good stands
