-- ===== src/RuntimeProto.antt =====
-- pkg/runtimeproto/protocol.go: the frames between a launcher and a running container. A stream is
-- the list of its bytes, and the writer under a frame is one that accepts what it is given;
-- requests are JSON, which is not modelled.
pub mod Laws
use cpak.Base.{
  ℕ, zero, suc, ◌+◌, ◌-◌, ◌*◌, ◌/◌, ◌%◌, ◌^◌, Option, none, some, [], ◌∷◌, ◌++◌, ltb, if◌then◌else◌,
  length, Outcome, ok, err, ◌>>=◌, ◌>>◌, refuse_if, Text, ℤ, pos, negsuc,
}

-- `MaxFrameSize`
abbrev pub max_frame_size : ℕ
max_frame_size = 16 * 1024 * 1024

pub data FrameError : Type 0 where
  frame_too_large end_of_stream invalid_exit_frame : FrameError

-- `binary.BigEndian`
unfoldable pub put_uint32 : ℕ → Text
put_uint32 n = (n / 2 ^ 24 % 256) ∷ (n / 2 ^ 16 % 256) ∷ (n / 2 ^ 8 % 256) ∷ (n % 256) ∷ []

unfoldable pub uint32 : ℕ → ℕ → ℕ → ℕ → ℕ
uint32 a b c d = a * 2 ^ 24 + b * 2 ^ 16 + c * 2 ^ 8 + d

-- `Writer.Write`: the stream with the frame behind it.
unfoldable pub write : ℕ → Text → Text → Outcome FrameError Text
unfolding put_uint32
write kind payload stream = do
  refuse_if (ltb max_frame_size (length payload)) frame_too_large
  ok (stream ++ (kind ∷ (put_uint32 (length payload % 2 ^ 32) ++ payload)))

-- `io.ReadFull`: so many bytes, and what is left.
unfoldable pub read_full : ℕ → Text → Option (Text × Text)
read_full zero stream = some ([], stream)
read_full (suc n) [] = none
read_full (suc n) (b ∷ stream) = elim (read_full n stream) [
  | none ↦ none
  | some (bs, rest) ↦ some (b ∷ bs, rest)
]

abbrev with_kind : ℕ → Option (Text × Text) → Outcome FrameError (ℕ × Text × Text)
with_kind kind none = err end_of_stream
with_kind kind (some (payload, rest)) = ok (kind, payload, rest)

-- `Read`: the kind, the payload, and the rest of the stream.
unfoldable pub read : Text → Outcome FrameError (ℕ × Text × Text)
unfolding uint32 read_full
read (kind ∷ a ∷ b ∷ c ∷ d ∷ stream) = do
  refuse_if (ltb max_frame_size (uint32 a b c d)) frame_too_large
  with_kind kind (read_full (uint32 a b c d) stream)
read _ = err end_of_stream

-- `uint32(int32(code))`
unfoldable pub wrap_exit : ℤ → ℕ
wrap_exit (pos n) = n % 2 ^ 32
wrap_exit (negsuc n) = 2 ^ 32 - 1 - n % 2 ^ 32

-- `int(int32(value))`
unfoldable pub unwrap_exit : ℕ → ℤ
unwrap_exit n = if ltb n (2 ^ 31) then pos n else negsuc (2 ^ 32 - 1 - n)

unfoldable pub encode_exit : ℤ → Text
unfolding put_uint32 wrap_exit
encode_exit code = put_uint32 (wrap_exit code)

unfoldable pub decode_exit : Text → Outcome FrameError ℤ
unfolding uint32 unwrap_exit
decode_exit (a ∷ b ∷ c ∷ d ∷ []) = ok (unwrap_exit (uint32 a b c d))
decode_exit _ = err invalid_exit_frame
