-- ===== src/DesktopBus/Auth/Lines.antt =====
-- A line of the authentication is what was sent up to its end, and is short.
use cpak.Base.{
  ℕ, zero, suc, ◌+◌, ◌≤◌, ◌≡◌, refl, sym, ap, ◌∙◌, inl, inr, false, ◌&&◌, [], ◌∷◌, ◌++◌, arith,
  nat_beq_iff, ◌==◌, nat_eq, Bool-cases, length, length-append, Outcome, ok, Text, text_eq, int_eq,
  int_eq,
}
use cpak.Go.Strings.{has_infix, has_prefix}
use cpak.Base.{passed, both, ok_inj}
use mathlib.Core.List.{append_assoc}
use cpak.DesktopBus.Auth.{AuthError, read_bytes, without_end, read_auth_line}

abbrev line_end : Text
line_end = b'\r' ∷ b'\n' ∷ []

without_end-append : (line : Text) → without_end (line ++ line_end) ≡ line
unfolding without_end
without_end-append [] = refl
without_end-append (a ∷ []) = refl
without_end-append (a ∷ b ∷ []) = refl
without_end-append (a ∷ b ∷ c ∷ line) = ap (λ x. a ∷ x) (without_end-append (b ∷ c ∷ line))

without_end-closed :
    (whole buffer : Text) → 0 ∷ buffer ≡ whole ++ line_end → without_end buffer ++ line_end ≡ buffer
without_end-closed [] buffer e = cc
without_end-closed (z ∷ line) buffer e =
    let same : buffer ≡ line ++ line_end = cc in
    rw same (ap (λ x. x ++ line_end) (without_end-append line))

-- A byte in front brings no end of a line that was not there.
grown :
    (last c : ℕ) (line more : Text)
    → c ∷ more ≡ line ++ line_end
    → ((last == b'\r') && (c == b'\n')) ≡ false
    → has_infix line line_end ≡ false
    → has_infix (last ∷ line) line_end ≡ false
unfolding has_infix has_prefix
grown last c [] more e h k = ground arith
grown last c (d ∷ line) more e h k =
    let same : c ≡ d = cc e in
    let apart : ((last == b'\r') && (d == b'\n')) ≡ false = rw same at h in ground (arith, apart, k)

without_end-first :
    (whole buffer : Text)
    → 0 ∷ buffer ≡ whole ++ line_end
    → has_infix whole line_end ≡ false
    → has_infix (without_end buffer) line_end ≡ false
unfolding has_infix
without_end-first [] buffer e h = cc
without_end-first (z ∷ line) buffer e h =
    let same : buffer ≡ line ++ line_end = cc e in
    rw (same, without_end-append line) (ground (arith, h))

-- What was taken ends in a line's end, of which the byte before may be a part.
record IsLine (room last : ℕ) (stream buffer rest : Text) : Type 0 where
  split_ok : buffer ++ rest ≡ stream
  fits : length buffer ≤ room
  ended : (line : Text) × (last ∷ buffer ≡ line ++ line_end) × (has_infix line line_end ≡ false)

pair_inj :
    {a b c d : Text}
    → ◌≡◌ {A = Outcome AuthError (Text × Text)} (ok (a, b)) (ok (c, d))
    → (a ≡ c) × (b ≡ d)
pair_inj h = (ap (λ p. p.0) (ok_inj h), ap (λ p. p.1) (ok_inj h))

read_bytes-IsLine :
    (room last : ℕ) (stream buffer rest : Text)
    → read_bytes room last stream ≡ ok (buffer, rest)
    → IsLine room last stream buffer rest
unfolding read_bytes
read_bytes-IsLine zero last stream buffer rest h = cc
read_bytes-IsLine (suc room) last [] buffer rest h = cc
read_bytes-IsLine (suc room) last (c ∷ stream) buffer rest h =
    elim (Bool-cases ((last == b'\r') && (c == b'\n'))) [
      | inl done ↦
          let (first, others) = pair_inj (rw (done, read_bytes) at h) in
          let (cr, lf) = both done in
          let cr_is : last ≡ b'\r' = (nat_beq_iff last b'\r').0 cr in
          let lf_is : c ≡ b'\n' = (nat_beq_iff c b'\n').0 lf in
          record {
            split_ok = cc (first, others);
            fits = rw (sym first) (omega arith);
            ended = ([], cc (first, cr_is, lf_is), unfold has_infix in refl);
          }
      | inr going ↦
          let ((more, left), read, put) =
            passed (read_bytes room c stream) _ (rw (going, read_bytes) at h) in
          let (first, others) = pair_inj put in
          let tail = read_bytes-IsLine room c stream more left read in
          let (line, spelled, first_end) = tail.ended in
          record {
            split_ok = rw (sym first, sym others) (ap (λ x. c ∷ x) tail.split_ok);
            fits = rw (sym first) (omega (arith, tail.fits));
            ended = (
              last ∷ line,
              rw (sym first) (ap (λ x. last ∷ x) spelled),
              grown last c line more spelled going first_end,
            );
          }
    ]

-- A line that is read is what stands before the first end of a line in the stream, of at most 4094
-- bytes, and what is left is the stream behind that end: nothing is lost.
pub read_auth_line-bounded :
    (stream line rest : Text)
    → read_auth_line stream ≡ ok (line, rest)
    → (stream ≡ line ++ (b'\r' ∷ b'\n' ∷ rest))
      × (has_infix line (b'\r' ∷ b'\n' ∷ []) ≡ false)
      × (length line ≤ 4094)
unfolding read_auth_line
read_auth_line-bounded stream line rest h =
    let ((buffer, left), read, put) = passed (read_bytes 4096 0 stream) _ h in
    let taken = read_bytes-IsLine 4096 0 stream buffer left read in
    let (whole, spelled, first_end) = taken.ended in
    let (is_line, is_rest) = pair_inj put in
    let closed : line ++ line_end ≡ buffer =
      ap (λ x. x ++ line_end) (sym is_line) ∙ without_end-closed whole buffer spelled in
    let long : length line + 2 ≡ length buffer =
      sym (length-append line line_end) ∙ ap length closed in
    (
      sym taken.split_ok
          ∙ ap (λ x. x ++ left) (sym closed)
          ∙ append_assoc line line_end left
          ∙ ap (λ x. line ++ (b'\r' ∷ b'\n' ∷ x)) is_rest,
      rw (sym is_line) (without_end-first whole buffer spelled first_end),
      omega (arith, long, taken.fits),
    )
