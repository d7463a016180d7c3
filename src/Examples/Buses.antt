-- ===== src/Examples/Buses.antt =====
-- Tests of the proxy of the session bus.
use cpak.Base.{
  ℕ, ◌+◌, ◌%◌, ◌^◌, ◌≤◌, ◌≡◌, refl, true, false, Option, some, List, [], ◌∷◌, ◌++◌, nat_eq, length,
  ok, err, Text, ascii, text_beq, text_eq, int_eq, int_eq,
}
use cpak.Go.Strings.{split, has_infix}
use cpak.Go.Decimal.{decimal}
use cpak.DesktopBus.Auth.{
  authenticate_client, caller_denied, fresh, authenticate, turn, auth_command, data_command,
  decode_hex, external_identity_matches, read_bytes, without_end, read_auth_line, early_session,
}
use cpak.DesktopBus.Auth.Laws.{authenticate_accepted, with_words}
use cpak.DesktopBus.Auth.History.{is_command, is_accepted}
use cpak.DesktopBus.Auth.Lines.{read_auth_line-bounded}
use cpak.DesktopBus.Layout.{
  Layout, little_endian, message_layout, order_uint32, aligned, byte_order,
}
use cpak.DesktopBus.Layout.Laws.{message_layout-within}
use cpak.RuntimeProto.{uint32}

-- `strings.Fields` on lines with single blanks.
abbrev words : Text → List Text
words line = split b' ' line

abbrev bus : Text
bus = ascii "0123"

abbrev client_lines : List Text
client_lines =
    ascii "AUTH EXTERNAL" ∷ ascii "DATA 31303030" ∷ ascii "NEGOTIATE_UNIX_FD" ∷ ascii "BEGIN" ∷ []

abbrev server_lines : List Text
server_lines = ascii "DATA" ∷ ascii "OK 0123" ∷ ascii "AGREE_UNIX_FD" ∷ []

client-begins :
    authenticate_client words 1000 (some 1000) (some 0) (some bus) client_lines ≡ ok server_lines
unfolding authenticate_client authenticate turn auth_command data_command external_identity_matches
    decode_hex decimal split text_beq
client-begins = refl

stranger-refused :
    authenticate_client words 1000
      (some 1000)
      (some 0)
      (some bus)
      (ascii "AUTH EXTERNAL 31303031" ∷ ascii "BEGIN" ∷ [])
    ≡ err early_session
unfolding authenticate_client authenticate turn auth_command data_command external_identity_matches
    decode_hex decimal split text_beq
stranger-refused = refl

other_peer-denied :
    authenticate_client words 1000 (some 1001) (some 0) (some bus) client_lines ≡ err caller_denied
unfolding authenticate_client
other_peer-denied = refl

cancelled-refused :
    authenticate words 1000 bus fresh
      (ascii "AUTH EXTERNAL 31303030" ∷ ascii "CANCEL" ∷ ascii "BEGIN" ∷ [])
    ≡ err early_session
unfolding authenticate_client authenticate turn auth_command data_command external_identity_matches
    decode_hex decimal split text_beq
cancelled-refused = refl

-- A client that is rejected after it was accepted may begin all the same.
rejected-begins :
    authenticate words 1000 bus fresh
      (ascii "AUTH EXTERNAL 31303030" ∷ ascii "AUTH ANONYMOUS" ∷ ascii "BEGIN" ∷ [])
    ≡ ok (ascii "OK 0123" ∷ ascii "REJECTED EXTERNAL" ∷ [])
unfolding authenticate_client authenticate turn auth_command data_command external_identity_matches
    decode_hex decimal split text_beq
rejected-begins = refl

authenticate_accepted_example :
    (◌≡◌ {A = Option ℕ} (some 1000) (some (1000 % 2 ^ 32)))
    × (◌≡◌ {A = Option ℕ} (some 0) (some 0))
    × (before : List Text) × (start : Text) × (after : List Text) × (client_lines
        ≡ before ++ (start ∷ after))
    × (length before ≡ length server_lines)
    × (is_command (ascii "BEGIN") (words start) ≡ true)
    × (is_accepted (1000 % 2 ^ 32) (with_words words before []) ≡ true)
authenticate_accepted_example =
    authenticate_accepted words 1000 (some 1000) (some 0) (some bus) client_lines server_lines
      client-begins

abbrev sent : Text
sent = ascii "BEGIN\r\nrest"

sent-read : read_auth_line sent ≡ ok (ascii "BEGIN", ascii "rest")
unfolding read_auth_line read_bytes without_end
sent-read = refl

read_auth_line-bounded_example :
    (sent ≡ ascii "BEGIN\r\nrest")
    × (has_infix (ascii "BEGIN") (ascii "\r\n") ≡ false)
    × (length (ascii "BEGIN") ≤ 4094)
read_auth_line-bounded_example =
    read_auth_line-bounded sent (ascii "BEGIN") (ascii "rest") sent-read

-- A body of two bytes behind five of header fields.
abbrev message : Text
message =
    b'l' ∷ 1 ∷ 0 ∷ 1 ∷ 2 ∷ 0 ∷ 0 ∷ 0 ∷ 1 ∷ 0 ∷ 0 ∷ 0 ∷ 5 ∷ 0 ∷ 0 ∷ 0 ∷ 1 ∷ 2 ∷ 3 ∷ 4 ∷ 5 ∷ 0 ∷ 0 ∷ 0
    ∷ 7 ∷ 8 ∷ []

abbrev layout : Layout
layout = record { order = little_endian; body_offset = 24; body_length = 2 }

message-laid_out : message_layout message ≡ ok layout
unfolding message_layout byte_order order_uint32 aligned uint32
message-laid_out = refl

message_layout-within_example : (16 ≤ 24) × (24 % 8 ≡ 0) × (24 + 2 ≤ length message)
message_layout-within_example = message_layout-within message layout message-laid_out
