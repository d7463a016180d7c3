-- ===== src/DesktopBus/Layout/Laws.antt =====
-- The body that a layout names lies inside the message.
use cpak.Base.{
  ℕ, ◌+◌, ◌-◌, ◌%◌, ◌≤◌, ◌≡◌, sym, ap, false, ◌||◌, ◌∷◌, arith, ltb, nat_eq, length, ok, Text,
  text_eq, int_eq, int_eq,
}
use cpak.Base.{passed, not_refused, ok_inj}
use cpak.DesktopBus.Layout.{
  Layout, order_uint32, byte_order, aligned, message_layout, invalid_length,
}

aligned-mod : (n : ℕ) → aligned n % 8 ≡ 0
unfolding aligned
aligned-mod n = omega arith

end-within :
    (total offset size : ℕ)
    → (ltb total offset || ltb (total - offset) size) ≡ false
    → offset + size ≤ total
end-within total offset size h = ground arith

-- Where a message has a layout, its body begins behind the fixed header at a multiple of eight, and
-- ends inside the message.
pub message_layout-within :
    (message : Text) (l : Layout)
    → message_layout message ≡ ok l
    → (16 ≤ l.body_offset)
      × (l.body_offset % 8 ≡ 0)
      × (l.body_offset + l.body_length ≤ length message)
unfolding message_layout
message_layout-within
      (b0 ∷ b1 ∷ b2 ∷ b3 ∷ b4 ∷ b5 ∷ b6 ∷ b7 ∷ b8 ∷ b9 ∷ b10 ∷ b11 ∷ b12 ∷ b13 ∷ b14 ∷ b15 ∷ rest) l
      h =
    let (order, _, h1) = passed (byte_order b0) _ h in
    let size = order_uint32 order b4 b5 b6 b7 in
    let header = order_uint32 order b12 b13 b14 b15 in
    let (fits, h2) =
      not_refused
        (ltb (16 + length rest) (16 + aligned header)
          || ltb (16 + length rest - (16 + aligned header)) size)
        invalid_length _ h1 in
    let inside = end-within (16 + length rest) (16 + aligned header) size fits in
    let made = ok_inj h2 in
    let at_offset : 16 + aligned header ≡ l.body_offset = ap (λ x. x.body_offset) made in
    let of_length : size ≡ l.body_length = ap (λ x. x.body_length) made in
    (
      rw (sym at_offset) (omega arith),
      rw (sym at_offset) (omega (arith, aligned-mod header)),
      omega (arith, inside, at_offset, of_length),
    )
message_layout-within _ l h = cc
