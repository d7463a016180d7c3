-- ===== src/DesktopBus/Layout.antt =====
-- pkg/desktopbus/wire.go: where the body of a message lies. A message is the list of its bytes, and
-- godbus' encoder is a parameter.
pub mod Laws
use cpak.Base.{
  ℕ, zero, suc, ◌+◌, ◌-◌, ◌*◌, ◌/◌, ◌%◌, ◌^◌, ◌≤◌, ◌<◌, ◌≡◌, refl, sym, ap, ◌∙◌, ◌≢◌, ◌↔◌, ◌⊎◌, inl,
  inr, Bool, true, false, not, ◌&&◌, ◌||◌, Option, none, some, List, [], ◌∷◌, ◌++◌, map, Memᴰ,
  arith, ltb, leb, nat_beq, nat_beq_iff, if◌then◌else◌, Eq, ◌==◌, ◌!=◌, nat_eq, Bool-cases,
  Option-cases, any, all, length, is_empty, length-append, any-eq-true, any_of_mem, all_mem,
  all_of_mem, all-append, any-append, all_mono, not_true, contains, contains_mem, contains_of_mem,
  Outcome, ok, err, ◌>>=◌, ◌>>◌, refuse_if, wrap, Text, ascii, text_beq, text_beq_iff, text_eq, ℤ,
  pos, int_eq, int_beq_iff, all_mono, ℤ, pos, negsuc, int_eq, not_true,
}
use cpak.RuntimeProto.{put_uint32, uint32}

pub data LayoutError : Type 0 where
  truncated invalid_byte_order invalid_length too_large encoder_failed : LayoutError

-- `binary.LittleEndian` and `binary.BigEndian`
pub data ByteOrder : Type 0 where
  little_endian big_endian : ByteOrder

unfoldable pub order_uint32 : ByteOrder → ℕ → ℕ → ℕ → ℕ → ℕ
unfolding uint32
order_uint32 little_endian a b c d = uint32 d c b a
order_uint32 big_endian a b c d = uint32 a b c d

unfoldable pub byte_order : ℕ → Outcome LayoutError ByteOrder
byte_order c =
    if c == b'l'
    then ok little_endian
    else if c == b'B'
    then ok big_endian
    else err invalid_byte_order

-- `(n + 7) &^ 7`
unfoldable pub aligned : ℕ → ℕ
aligned n = n + 7 - (n + 7) % 8

pub record Layout : Type 0 where
  pub order : ByteOrder
  pub body_offset : ℕ
  pub body_length : ℕ

-- `messageLayout`, with an int of 64 bits
unfoldable pub message_layout : Text → Outcome LayoutError Layout
unfolding order_uint32 byte_order aligned
message_layout
      (b0 ∷ b1 ∷ b2 ∷ b3 ∷ b4 ∷ b5 ∷ b6 ∷ b7 ∷ b8 ∷ b9 ∷ b10 ∷ b11 ∷ b12 ∷ b13 ∷ b14 ∷ b15 ∷ rest) =
    do
      order ← byte_order b0
      located order (order_uint32 order b4 b5 b6 b7)
          (16 + aligned (order_uint32 order b12 b13 b14 b15))
  where
    located : ByteOrder → ℕ → ℕ → Outcome LayoutError Layout
    located order size offset = do
      refuse_if (ltb (16 + length rest) offset || ltb (16 + length rest - offset) size)
          invalid_length
      ok (record { order = order; body_offset = offset; body_length = size })
message_layout _ = err truncated
