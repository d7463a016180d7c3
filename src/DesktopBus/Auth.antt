-- ===== src/DesktopBus/Auth.antt =====
-- pkg/desktopbus/wire.go: the authentication of a client. What the system answers
-- about the peer, the first byte and the random identity of the server are arguments, `strings.Fields` is a parameter, and a reply is always written.
pub mod History
pub mod Begun
pub mod Laws
pub mod Lines
use cpak.Base.{
  ℕ, zero, suc, ◌+◌, ◌-◌, ◌*◌, ◌/◌, ◌%◌, ◌^◌, ◌≤◌, ◌<◌, ◌≡◌, refl, sym, ap, ◌∙◌, ◌≢◌, ◌↔◌, ◌⊎◌, inl,
  inr, Bool, true, false, not, ◌&&◌, ◌||◌, Option, none, some, List, [], ◌∷◌, ◌++◌, map, Memᴰ,
  arith, ltb, leb, nat_beq, nat_beq_iff, if◌then◌else◌, Eq, ◌==◌, ◌!=◌, nat_eq, Bool-cases,
  Option-cases, any, all, length, is_empty, length-append, any-eq-true, any_of_mem, all_mem,
  all_of_mem, all-append, any-append, all_mono, not_true, contains, contains_mem, contains_of_mem,
  Outcome, ok, err, ◌>>=◌, ◌>>◌, refuse_if, wrap, Text, ascii, text_beq, text_beq_iff, text_eq, ℤ,
  pos, int_eq, int_beq_iff, all_mono, ℤ, pos, negsuc, int_eq, not_true,
}
use cpak.Go.Decimal.{decimal}

pub data AuthError : Type 0 where
  end_of_stream line_too_long : AuthError
  empty_command bad_identity bad_data : AuthError
  early_negotiation early_session : AuthError
  no_credentials caller_denied no_null_byte no_identity_of_server : AuthError

-- The bytes that the loop of `readAuthLine` takes, and what is left, with room for so many.
unfoldable pub read_bytes : ℕ → ℕ → Text → Outcome AuthError (Text × Text)
read_bytes zero last stream = err line_too_long
read_bytes (suc room) last [] = err end_of_stream
read_bytes (suc room) last (c ∷ stream) = elim ((last == b'\r') && (c == b'\n')) [
  | true ↦ ok (c ∷ [], stream)
  | false ↦ do (buffer, rest) ← read_bytes room c stream; ok (c ∷ buffer, rest)
]

-- `buffer[:len(buffer)-2]`
unfoldable pub without_end : Text → Text
without_end (a ∷ b ∷ c ∷ buffer) = a ∷ without_end (b ∷ c ∷ buffer)
without_end _ = []

-- `readAuthLine`
unfoldable pub read_auth_line : Text → Outcome AuthError (Text × Text)
unfolding read_bytes without_end
read_auth_line stream = do (buffer, rest) ← read_bytes 4096 0 stream; ok (without_end buffer, rest)

abbrev hex_value : ℕ → Option ℕ
hex_value c =
    if leb b'0' c && leb c b'9'
    then some (c - b'0')
    else if leb b'a' c && leb c b'f'
    then some (c - b'a' + 10)
    else if leb b'A' c && leb c b'F'
    then some (c - b'A' + 10)
    else none

abbrev with_byte : Option ℕ → Option ℕ → Option Text → Option Text
with_byte (some high) (some low) (some rest) = some ((high * 16 + low) ∷ rest)
with_byte _ _ _ = none

-- `hex.DecodeString`
unfoldable pub decode_hex : Text → Option Text
decode_hex [] = some []
decode_hex (a ∷ []) = none
decode_hex (a ∷ b ∷ cs) = with_byte (hex_value a) (hex_value b) (decode_hex cs)

abbrev is_identity : Option Text → ℕ → Bool
is_identity none uid = false
is_identity (some identity) uid = identity == decimal uid

-- `externalIdentityMatches`
unfoldable pub external_identity_matches : Text → ℕ → Bool
unfolding decode_hex
external_identity_matches encoded uid = is_identity (decode_hex encoded) uid

-- The variables of the loop of `authenticateClient`.
pub record Session : Type 0 where
  pub authorized : Bool
  pub waiting_for_identity : Bool

abbrev pub fresh : Session
fresh = record { authorized = false; waiting_for_identity = false }

-- One turn of the loop: `return nil`, or the reply and the variables behind it.
pub data Turn : Type 0 where
  begun : Turn
  replied : Text → Session → Turn

abbrev pub rejected : Session → Outcome AuthError Turn
rejected s = ok (replied (ascii "REJECTED EXTERNAL") s)

abbrev pub granted : Text → Bool → Session → Outcome AuthError Turn
granted guid true s = ok (replied (ascii "OK " ++ guid) (record s { authorized = true }))
granted guid false s = rejected (record s { authorized = false })

-- `case "AUTH"`, on the words behind it
unfoldable pub auth_command : ℕ → Text → Session → List Text → Outcome AuthError Turn
unfolding external_identity_matches
auth_command uid guid s [] = rejected s
auth_command uid guid s (mechanism ∷ words) =
    if mechanism != ascii "EXTERNAL" then rejected s else named words
  where
    named : List Text → Outcome AuthError Turn
    named [] =
        ok (replied (ascii "DATA") (record { authorized = false; waiting_for_identity = true }))
    named (identity ∷ []) = granted guid (external_identity_matches identity uid) s
    named _ = err bad_identity

-- `case "DATA"`
unfoldable pub data_command : ℕ → Text → Session → List Text → Outcome AuthError Turn
unfolding external_identity_matches
data_command uid guid s words = do refuse_if (not s.waiting_for_identity) bad_data; told words
  where
    told : List Text → Outcome AuthError Turn
    told [] = granted guid true (record s { waiting_for_identity = false })
    told (identity ∷ []) =
        granted guid (external_identity_matches identity uid)
          (record s { waiting_for_identity = false })
    told _ = err bad_data

-- One turn on the words of a line.
unfoldable pub turn : ℕ → Text → Session → List Text → Outcome AuthError Turn
unfolding auth_command data_command
turn uid guid s [] = err empty_command
turn uid guid s (command ∷ words) =
    if command == ascii "AUTH"
    then auth_command uid guid s words
    else if command == ascii "DATA"
    then data_command uid guid s words
    else if command == ascii "NEGOTIATE_UNIX_FD"
    then (do refuse_if (not s.authorized) early_negotiation; ok (replied (ascii "AGREE_UNIX_FD") s))
    else if command == ascii "BEGIN"
    then (do refuse_if (not s.authorized) early_session; ok begun)
    else if command == ascii "CANCEL"
    then rejected fresh
    else ok (replied (ascii "ERROR Unsupported authentication command") s)

-- The loop over the lines that the client sends: the replies, once the session begins.
module _ (fields : Text → List Text) (uid : ℕ) (guid : Text) where
  unfoldable pub authenticate : Session → List Text → Outcome AuthError (List Text)
  unfolding turn
  authenticate s [] = err end_of_stream
  authenticate s (line ∷ lines) = do
    next ← turn uid guid s (fields line)
    elim next [
      | begun ↦ ok []
      | replied reply s' ↦ do replies ← authenticate s' lines; ok (reply ∷ replies)
    ]

abbrev or_fail : {A : Type 0} → AuthError → Option A → Outcome AuthError A
or_fail e none = err e
or_fail e (some a) = ok a

-- `authenticateClient`: the user of the process, the user of the peer, the first byte that is sent,
-- 16 random bytes in hexadecimal digits, and the lines behind the first byte.
unfoldable pub authenticate_client :
    (Text → List Text)
    → ℕ
    → Option ℕ
    → Option ℕ
    → Option Text
    → List Text
    → Outcome AuthError (List Text)
unfolding authenticate
authenticate_client fields own peer first random lines = do
  uid ← or_fail no_credentials peer
  refuse_if (uid != own % 2 ^ 32) caller_denied
  byte ← or_fail end_of_stream first
  refuse_if (byte != 0) no_null_byte
  guid ← or_fail no_identity_of_server random
  authenticate fields uid guid fresh lines
