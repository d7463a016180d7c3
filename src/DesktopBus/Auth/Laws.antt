-- ===== src/DesktopBus/Auth/Laws.antt =====
-- A session begins only after an identity was accepted that nothing has taken back.
use cpak.Base.{
  ℕ, suc, ◌%◌, ◌^◌, ◌≡◌, refl, sym, ap, ◌∙◌, inl, inr, true, Option, none, some, List, [], ◌∷◌,
  ◌++◌, arith, nat_beq_iff, ◌!=◌, nat_eq, length, ok, Text, ascii, text_eq, int_eq, int_eq,
}
use mathlib.Core.Path.{subst}
use cpak.Base.{passed, not_refused, ok_inj, Outcome-cases}
use cpak.DesktopBus.Auth.{
  AuthError, Session, begun, replied, fresh, turn, authenticate, authenticate_client, or_fail,
  no_credentials, caller_denied, no_null_byte, no_identity_of_server, end_of_stream,
}
use cpak.DesktopBus.Auth.History.{is_command, is_challenged, is_accepted, turn-after, step_words}
use cpak.DesktopBus.Auth.Begun.{turn-begun}

-- The words of the lines, put in front of those before them, the newest first.
abbrev pub with_words : (Text → List Text) → List Text → List (List Text) → List (List Text)
with_words fields [] earlier = earlier
with_words fields (line ∷ lines) earlier = with_words fields lines (fields line ∷ earlier)

-- The variables are what the words before have come to.
record IsTold (uid : ℕ) (s : Session) (earlier : List (List Text)) : Type 0 where
  accepted_ok : s.authorized ≡ is_accepted uid earlier
  challenged_ok : s.waiting_for_identity ≡ is_challenged earlier

-- Where the loop ends: at a `BEGIN`, with every line before it answered.
record IsBegun (fields : Text → List Text) (uid : ℕ) (earlier : List (List Text))
    (lines replies : List Text) : Type 0 where
  before : List Text
  start : Text
  after : List Text
  cut : lines ≡ before ++ (start ∷ after)
  answered : length before ≡ length replies
  begins : is_command (ascii "BEGIN") (fields start) ≡ true
  accepts : is_accepted uid (with_words fields before earlier) ≡ true

step_words-IsTold :
    (uid : ℕ) (s : Session) (earlier : List (List Text)) (words : List Text)
    → IsTold uid s earlier
    → IsTold uid (step_words uid s words) (words ∷ earlier)
unfolding step_words is_accepted is_challenged
step_words-IsTold uid s earlier words told = record {
  accepted_ok = rw (told.accepted_ok, told.challenged_ok) refl;
  challenged_ok = rw told.challenged_ok refl;
}

module _ (fields : Text → List Text) (uid : ℕ) (guid : Text) where
  authenticate-IsBegun :
      (s : Session) (earlier : List (List Text)) (lines replies : List Text)
      → IsTold uid s earlier
      → authenticate fields uid guid s lines ≡ ok replies
      → IsBegun fields uid earlier lines replies
  unfolding authenticate
  authenticate-IsBegun s earlier [] replies told h = cc
  authenticate-IsBegun s earlier (line ∷ lines) replies told h =
      elim (Outcome-cases (turn uid guid s (fields line))) [
        | inl (e, failed) ↦ absurd (cc (rw failed at h))
        | inr (begun, done) ↦
            let (begins, authorized) = turn-begun uid guid s (fields line) done in
            record {
              before = [];
              start = line;
              after = lines;
              cut = refl;
              answered = ap length (ok_inj (rw done at h));
              begins = begins;
              accepts = sym told.accepted_ok ∙ authorized;
            }
        | inr (replied r t, done) ↦
            let (rest, read, put) =
              passed (authenticate fields uid guid t lines) _ (rw done at h) in
            let its : IsTold uid t (fields line ∷ earlier) =
              subst (λ x. IsTold uid x (fields line ∷ earlier))
                (sym (turn-after uid guid s (fields line) r t done))
                (step_words-IsTold uid s earlier (fields line) told) in
            let later = authenticate-IsBegun t (fields line ∷ earlier) lines rest its read in
            record {
              before = line ∷ later.before;
              start = later.start;
              after = later.after;
              cut = ap (λ x. line ∷ x) later.cut;
              answered = ap suc later.answered ∙ ap length (ok_inj put);
              begins = later.begins;
              accepts = later.accepts;
            }
      ]

or_fail-some : {A : Type 0} (e : AuthError) (o : Option A) {a : A} → or_fail e o ≡ ok a → o ≡ some a
or_fail-some e none h = cc
or_fail-some e (some b) h = ap some (ok_inj h)

-- A session begins only for a peer of the user of the process whose first byte was zero, and with a
-- line `BEGIN` behind lines that were each answered once; and by those lines an identity of that
-- user was accepted (with `AUTH EXTERNAL`, or with `DATA` as the answer to a challenge), and no
-- `CANCEL`, no new challenge and no identity of another user came behind it.
pub authenticate_accepted :
    (fields : Text → List Text) (own : ℕ) (peer first : Option ℕ) (random : Option Text)
    (lines replies : List Text)
    → authenticate_client fields own peer first random lines ≡ ok replies
    → (peer ≡ some (own % 2 ^ 32))
      × (first ≡ some 0)
      × (before : List Text) × (start : Text) × (after : List Text) × (lines
          ≡ before ++ (start ∷ after))
      × (length before ≡ length replies)
      × (is_command (ascii "BEGIN") (fields start) ≡ true)
      × (is_accepted (own % 2 ^ 32) (with_words fields before []) ≡ true)
unfolding authenticate_client is_accepted is_challenged
authenticate_accepted fields own peer first random lines replies h =
    let (uid, is_peer, h1) = passed (or_fail no_credentials peer) _ h in
    let (same, h2) = not_refused (uid != own % 2 ^ 32) caller_denied _ h1 in
    let (byte, is_first, h3) = passed (or_fail end_of_stream first) _ h2 in
    let (zeroed, h4) = not_refused (byte != 0) no_null_byte _ h3 in
    let (guid, _, h5) = passed (or_fail no_identity_of_server random) _ h4 in
    let own_uid : uid ≡ own % 2 ^ 32 = ground (arith, same, nat_beq_iff uid (own % 2 ^ 32)) in
    let null_byte : byte ≡ 0 = ground (arith, zeroed, nat_beq_iff byte 0) in
    let done =
      authenticate-IsBegun fields uid guid fresh [] lines replies
        (record { accepted_ok = refl; challenged_ok = refl }) h5 in
    (
      or_fail-some no_credentials peer is_peer ∙ ap some own_uid,
      or_fail-some end_of_stream first is_first ∙ ap some null_byte,
      done.before,
      done.start,
      done.after,
      done.cut,
      done.answered,
      done.begins,
      subst (λ u. is_accepted u (with_words fields done.before []) ≡ true) own_uid done.accepts,
    )
