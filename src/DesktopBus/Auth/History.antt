-- ===== src/DesktopBus/Auth/History.antt =====
-- What the words of a client have come to, told from the words alone, the newest first.
use cpak.Base.{
  ℕ, ◌≡◌, refl, sym, ◌∙◌, inl, inr, Bool, true, false, not, ◌&&◌, ◌||◌, List, [], ◌∷◌, ◌==◌, nat_eq,
  Bool-cases, Outcome, ok, Text, ascii, text_beq, text_beq_iff, text_eq, int_eq, int_eq,
}
use cpak.Base.{not_refused}
use cpak.DesktopBus.Auth.{
  AuthError, Session, Turn, replied, fresh, auth_command, data_command, turn,
  external_identity_matches, granted, early_session, early_negotiation, bad_data,
}

unfoldable pub is_command : Text → List Text → Bool
is_command name [] = false
is_command name (command ∷ words) = command == name

-- `AUTH EXTERNAL` without an identity
is_challenge : List Text → Bool
is_challenge (command ∷ mechanism ∷ []) = command == ascii "AUTH" && mechanism == ascii "EXTERNAL"
is_challenge _ = false

-- The words prove the user, in one step or as the answer to a challenge, or leave the proof to the
-- credentials of the peer.
grants : ℕ → Bool → List Text → Bool
grants uid challenged (command ∷ mechanism ∷ identity ∷ []) =
    command == ascii "AUTH"
    && (mechanism == ascii "EXTERNAL" && external_identity_matches identity uid)
grants uid challenged (command ∷ identity ∷ []) =
    command == ascii "DATA" && (challenged && external_identity_matches identity uid)
grants uid challenged (command ∷ []) = command == ascii "DATA" && challenged
grants uid challenged _ = false

-- The words take back what was proven: `CANCEL`, a new challenge, or an identity of another user.
withdraws : ℕ → List Text → Bool
unfolding is_challenge
withdraws uid (command ∷ mechanism ∷ identity ∷ []) =
    command == ascii "CANCEL"
    || (command == ascii "AUTH"
        && (mechanism == ascii "EXTERNAL" && not (external_identity_matches identity uid)))
withdraws uid (command ∷ word ∷ []) =
    command == ascii "CANCEL"
    || ((command == ascii "AUTH" && word == ascii "EXTERNAL")
        || (command == ascii "DATA" && not (external_identity_matches word uid)))
withdraws uid (command ∷ words) = command == ascii "CANCEL"
withdraws uid [] = false

-- The last of `AUTH EXTERNAL`, `DATA` and `CANCEL` was `AUTH EXTERNAL`.
unfoldable pub is_challenged : List (List Text) → Bool
unfolding is_challenge is_command
is_challenged [] = false
is_challenged (words ∷ earlier) =
    is_challenge words
    || (not (is_command (ascii "DATA") words || is_command (ascii "CANCEL") words)
        && is_challenged earlier)

-- An identity was accepted, and nothing took it back since.
unfoldable pub is_accepted : ℕ → List (List Text) → Bool
unfolding grants withdraws is_challenged
is_accepted uid [] = false
is_accepted uid (words ∷ earlier) =
    grants uid (is_challenged earlier) words
    || (not (withdraws uid words) && is_accepted uid earlier)

-- What the words make of the two variables.
unfoldable pub step_words : ℕ → Session → List Text → Session
unfolding grants withdraws is_challenge is_command
step_words uid s words = record {
  authorized =
      grants uid s.waiting_for_identity words || (not (withdraws uid words) && s.authorized);
  waiting_for_identity =
      is_challenge words
      || (not (is_command (ascii "DATA") words || is_command (ascii "CANCEL") words)
          && s.waiting_for_identity);
}

replied_inj :
    {r r' : Text} {s t : Session}
    → ◌≡◌ {A = Outcome AuthError Turn} (ok (replied r s)) (ok (replied r' t))
    → s ≡ t
replied_inj h = cc

not-false : (b : Bool) → not b ≡ false → b ≡ true
not-false true h = refl
not-false false h = cc

granted-after :
    (guid : Text) (b : Bool) (s : Session) (r : Text) (t : Session)
    → granted guid b s ≡ ok (replied r t)
    → t ≡ record s { authorized = b }
granted-after guid true s r t h = sym (replied_inj h)
granted-after guid false s r t h = sym (replied_inj h)

-- Commands that say nothing of an identity change nothing.
step_words-other :
    (uid : ℕ) (s : Session) (c : Text) (words : List Text)
    → text_beq c (ascii "AUTH") ≡ false
    → text_beq c (ascii "DATA") ≡ false
    → text_beq c (ascii "CANCEL") ≡ false
    → step_words uid s (c ∷ words) ≡ s
unfolding step_words
step_words-other uid s c [] e1 e2 e3 = rw (e2, e3) refl
step_words-other uid s c (a ∷ []) e1 e2 e3 = rw (e1, e2, e3) refl
step_words-other uid s c (a ∷ b ∷ []) e1 e2 e3 = rw (e1, e2, e3) refl
step_words-other uid s c (a ∷ b ∷ d ∷ words) e1 e2 e3 = rw (e2, e3) refl

step_words-cancel :
    (uid : ℕ) (s : Session) (words : List Text) → step_words uid s (ascii "CANCEL" ∷ words) ≡ fresh
unfolding step_words text_beq
step_words-cancel uid s [] = refl
step_words-cancel uid s (a ∷ []) = refl
step_words-cancel uid s (a ∷ b ∷ []) = refl
step_words-cancel uid s (a ∷ b ∷ d ∷ words) = refl

-- `AUTH` with a mechanism other than `EXTERNAL`
step_words-mechanism :
    (uid : ℕ) (s : Session) (m : Text) (words : List Text)
    → text_beq m (ascii "EXTERNAL") ≡ false
    → step_words uid s (ascii "AUTH" ∷ m ∷ words) ≡ s
unfolding step_words text_beq
step_words-mechanism uid s m [] e = rw e refl
step_words-mechanism uid s m (a ∷ []) e = rw e refl
step_words-mechanism uid s m (a ∷ b ∷ words) e = refl

external-after :
    (uid : ℕ) (guid : Text) (s : Session) (m : Text) (words : List Text) (r : Text) (t : Session)
    → text_beq m (ascii "EXTERNAL") ≡ true
    → auth_command uid guid s (m ∷ words) ≡ ok (replied r t)
    → t ≡ step_words uid s (ascii "AUTH" ∷ m ∷ words)
unfolding auth_command step_words text_beq
external-after uid guid s m [] r t e h = sym (replied_inj (rw e at h)) ∙ rw e refl
external-after uid guid s m (identity ∷ []) r t e h =
    granted-after guid (external_identity_matches identity uid) s r t (rw e at h)
    ∙ elim (Bool-cases (external_identity_matches identity uid)) [
      | inl own ↦ rw (e, own) refl
      | inr other ↦ rw (e, other) refl
    ]
external-after uid guid s m (a ∷ b ∷ words) r t e h = cc (rw e at h)

auth_command-after :
    (uid : ℕ) (guid : Text) (s : Session) (words : List Text) (r : Text) (t : Session)
    → auth_command uid guid s words ≡ ok (replied r t)
    → t ≡ step_words uid s (ascii "AUTH" ∷ words)
unfolding auth_command
auth_command-after uid guid s [] r t h = sym (replied_inj h) ∙ unfold step_words text_beq in refl
auth_command-after uid guid s (m ∷ words) r t h =
    elim (Bool-cases (text_beq m (ascii "EXTERNAL"))) [
      | inl external ↦ external-after uid guid s m words r t external h
      | inr other ↦
          sym (replied_inj (rw other at h)) ∙ sym (step_words-mechanism uid s m words other)
    ]

data_command-after :
    (uid : ℕ) (guid : Text) (s : Session) (words : List Text) (r : Text) (t : Session)
    → data_command uid guid s words ≡ ok (replied r t)
    → t ≡ step_words uid s (ascii "DATA" ∷ words)
unfolding data_command step_words text_beq
data_command-after uid guid s [] r t h =
    let (waits, h1) = not_refused (not s.waiting_for_identity) bad_data _ h in
    sym (replied_inj h1) ∙ rw (not-false s.waiting_for_identity waits) refl
data_command-after uid guid s (identity ∷ []) r t h =
    let (waits, h1) = not_refused (not s.waiting_for_identity) bad_data _ h in
    granted-after guid (external_identity_matches identity uid)
      (record s { waiting_for_identity = false }) r t h1
    ∙ elim (Bool-cases (external_identity_matches identity uid)) [
      | inl own ↦ rw (not-false s.waiting_for_identity waits, own) refl
      | inr other ↦ rw (not-false s.waiting_for_identity waits, other) refl
    ]
data_command-after uid guid s (a ∷ b ∷ words) r t h =
    let (_, h1) = not_refused (not s.waiting_for_identity) bad_data _ h in cc h1

-- A turn of the loop makes of the variables what the words say.
pub turn-after :
    (uid : ℕ) (guid : Text) (s : Session) (words : List Text) (r : Text) (t : Session)
    → turn uid guid s words ≡ ok (replied r t)
    → t ≡ step_words uid s words
unfolding turn
turn-after uid guid s [] r t h = cc
turn-after uid guid s (c ∷ words) r t h = elim (Bool-cases (text_beq c (ascii "AUTH"))) [
  | inl is ↦
      let same = (text_beq_iff c (ascii "AUTH")).0 is in
      rw same (auth_command-after uid guid s words r t (rw is at h))
  | inr e1 ↦ elim (Bool-cases (text_beq c (ascii "DATA"))) [
    | inl is ↦
        let same = (text_beq_iff c (ascii "DATA")).0 is in
        rw same (data_command-after uid guid s words r t (rw (e1, is) at h))
    | inr e2 ↦ elim (Bool-cases (text_beq c (ascii "NEGOTIATE_UNIX_FD"))) [
      | inl is ↦
          let same = (text_beq_iff c (ascii "NEGOTIATE_UNIX_FD")).0 is in
          let (_, h1) = not_refused (not s.authorized) early_negotiation _ (rw (e1, e2, is) at h) in
          sym (replied_inj h1)
          ∙ rw same (
              unfold text_beq in
              sym (step_words-other uid s (ascii "NEGOTIATE_UNIX_FD") words refl refl refl))
      | inr e3 ↦ elim (Bool-cases (text_beq c (ascii "BEGIN"))) [
        | inl is ↦
            let (_, h1) =
              not_refused (not s.authorized) early_session _ (rw (e1, e2, e3, is) at h) in
            cc h1
        | inr e4 ↦ elim (Bool-cases (text_beq c (ascii "CANCEL"))) [
          | inl is ↦
              let same = (text_beq_iff c (ascii "CANCEL")).0 is in
              sym (replied_inj (rw (e1, e2, e3, e4, is) at h))
              ∙ rw same (sym (step_words-cancel uid s words))
          | inr e5 ↦
              sym (replied_inj (rw (e1, e2, e3, e4, e5) at h))
              ∙ sym (step_words-other uid s c words e1 e2 e5)
        ]
      ]
    ]
  ]
]
