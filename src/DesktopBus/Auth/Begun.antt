-- ===== src/DesktopBus/Auth/Begun.antt =====
-- A session of the bus begins by `BEGIN` only, and only where the client is authorized.
use cpak.Base.{
  ℕ, ◌≡◌, refl, ◌≢◌, inl, inr, Bool, true, false, not, List, [], ◌∷◌, nat_eq, Bool-cases, Outcome,
  ok, Text, ascii, text_beq, text_eq, int_eq, int_eq,
}
use cpak.Base.{not_refused}
use cpak.DesktopBus.Auth.{
  AuthError, Session, Turn, begun, auth_command, data_command, turn, external_identity_matches,
  granted, early_session, early_negotiation, bad_data,
}
use cpak.DesktopBus.Auth.History.{is_command}

not-false : (b : Bool) → not b ≡ false → b ≡ true
not-false true h = refl
not-false false h = cc

granted-begun :
    (guid : Text) (b : Bool) (s : Session)
    → ◌≢◌ {A = Outcome AuthError Turn} (granted guid b s) (ok begun)
granted-begun guid true s = λ h. cc h
granted-begun guid false s = λ h. cc h

external-begun :
    (uid : ℕ) (guid : Text) (s : Session) (m : Text) (words : List Text)
    → text_beq m (ascii "EXTERNAL") ≡ true
    → auth_command uid guid s (m ∷ words) ≢ ok begun
unfolding auth_command
external-begun uid guid s m [] e = λ h. cc (rw e at h)
external-begun uid guid s m (identity ∷ []) e =
    λ h. granted-begun guid (external_identity_matches identity uid) s (rw e at h)
external-begun uid guid s m (b0 ∷ c0 ∷ words) e = λ h. cc (rw e at h)

auth_command-begun :
    (uid : ℕ) (guid : Text) (s : Session) (words : List Text)
    → auth_command uid guid s words ≢ ok begun
unfolding auth_command
auth_command-begun uid guid s [] = λ h. cc h
auth_command-begun uid guid s (m ∷ words) = elim (Bool-cases (text_beq m (ascii "EXTERNAL"))) [
  | inl external ↦ external-begun uid guid s m words external
  | inr other ↦ λ h. cc (rw other at h)
]

data_command-begun :
    (uid : ℕ) (guid : Text) (s : Session) (words : List Text)
    → data_command uid guid s words ≢ ok begun
unfolding data_command
data_command-begun uid guid s [] = λ h. cc (not_refused (not s.waiting_for_identity) bad_data _ h).1
data_command-begun uid guid s (identity ∷ []) = λ h.
    let (_, h1) = not_refused (not s.waiting_for_identity) bad_data _ h in
    granted-begun guid (external_identity_matches identity uid)
      (record s { waiting_for_identity = false }) h1
data_command-begun uid guid s (a0 ∷ b0 ∷ words) =
    λ h. cc (not_refused (not s.waiting_for_identity) bad_data _ h).1

pub turn-begun :
    (uid : ℕ) (guid : Text) (s : Session) (words : List Text)
    → turn uid guid s words ≡ ok begun
    → (is_command (ascii "BEGIN") words ≡ true) × (s.authorized ≡ true)
unfolding turn is_command
turn-begun uid guid s [] h = cc
turn-begun uid guid s (c ∷ words) h = elim (Bool-cases (text_beq c (ascii "AUTH"))) [
  | inl is ↦ absurd (auth_command-begun uid guid s words (rw is at h))
  | inr e1 ↦ elim (Bool-cases (text_beq c (ascii "DATA"))) [
    | inl is ↦ absurd (data_command-begun uid guid s words (rw (e1, is) at h))
    | inr e2 ↦ elim (Bool-cases (text_beq c (ascii "NEGOTIATE_UNIX_FD"))) [
      | inl is ↦
          absurd (cc (not_refused (not s.authorized) early_negotiation _ (rw (e1, e2, is) at h)).1)
      | inr e3 ↦ elim (Bool-cases (text_beq c (ascii "BEGIN"))) [
        | inl is ↦
            let (refused, _) =
              not_refused (not s.authorized) early_session _ (rw (e1, e2, e3, is) at h) in
            (is, not-false s.authorized refused)
        | inr e4 ↦ elim (Bool-cases (text_beq c (ascii "CANCEL"))) [
          | inl is ↦ absurd (cc (rw (e1, e2, e3, e4, is) at h))
          | inr e5 ↦ absurd (cc (rw (e1, e2, e3, e4, e5) at h))
        ]
      ]
    ]
  ]
]
