-- ===== src/RuntimeProto/Laws.antt =====
-- What is read back from what was written.
use cpak.Base.{
  ℕ, ◌-◌, ◌/◌, ◌%◌, ◌^◌, ◌≤◌, ◌<◌, ◌≡◌, refl, ap, ◌∙◌, false, some, [], ◌∷◌, ◌++◌, arith, ltb,
  nat_eq, length, ok, Text, text_eq, pos, negsuc, int_eq,
}
use cpak.RuntimeProto.{
  max_frame_size, put_uint32, uint32, write, read_full, read, wrap_exit, unwrap_exit, encode_exit,
  decode_exit,
}

uint32-put :
    (n : ℕ)
    → n < 4294967296
    → uint32 (n / 2 ^ 24 % 256) (n / 2 ^ 16 % 256) (n / 2 ^ 8 % 256) (n % 256) ≡ n
unfolding uint32
uint32-put n h = omega (arith, h)

read_full-append :
    (payload rest : Text) → read_full (length payload) (payload ++ rest) ≡ some (payload, rest)
unfolding read_full
read_full-append [] rest = refl
read_full-append (b ∷ bs) rest = rw (read_full-append bs rest) refl

-- The frame of a payload that fits is written behind the stream, and is read back from it, with
-- what follows left over.
pub write-read :
    (kind : ℕ) (payload stream rest : Text)
    → length payload ≤ max_frame_size
    → (frame : Text) × (write kind payload stream ≡ ok (stream ++ frame))
      × (read (frame ++ rest) ≡ ok (kind, payload, rest))
unfolding write read put_uint32
write-read kind payload stream rest h =
    let small : length payload % 4294967296 ≡ length payload = omega (arith, h) in
    let size = uint32-put (length payload % 4294967296) (omega arith) ∙ small in
    (
      kind ∷ (put_uint32 (length payload % 4294967296) ++ payload),
      ground (arith, h),
      rw (size, read_full-append payload rest) (ground (arith, h)),
    )

folded_back : (n : ℕ) → n < 2147483648 → unwrap_exit (4294967295 - n) ≡ negsuc n
unfolding unwrap_exit
folded_back n h =
    let high : ltb (4294967295 - n) 2147483648 ≡ false = ground (arith, h) in
    rw high (ap negsuc (omega (arith, h)))

-- An exit code of 32 bits survives its frame.
decode_exit-encode :
    (n : ℕ)
    → n < 2147483648
    → (decode_exit (encode_exit (pos n)) ≡ ok (pos n))
      × (decode_exit (encode_exit (negsuc n)) ≡ ok (negsuc n))
unfolding decode_exit encode_exit wrap_exit unwrap_exit
decode_exit-encode n h =
    let small : n % 4294967296 ≡ n = omega (arith, h) in
    let folded : 4294967295 - n % 4294967296 ≡ 4294967295 - n = omega (arith, h) in
    (
      rw (uint32-put (n % 4294967296) (omega arith), small) (ground (arith, h)),
      rw (uint32-put (4294967295 - n % 4294967296) (omega arith), folded) (ap ok (folded_back n h)),
    )
