-- ===== src/Go/Decimal.antt =====
-- `%d` of an unsigned integer, `strconv.ParseUint(…, 10, 64)` and `strconv.Atoi`, over a 64-bit int.
use cpak.Base.{
  ℕ, zero, suc, ◌+◌, ◌-◌, ◌*◌, ◌/◌, ◌%◌, ◌^◌, ◌<◌, ◌≡◌, refl, sym, ap, ◌∙◌, ◌≢◌, inl, inr, Bool,
  true, false, ◌&&◌, Option, none, some, [], ◌∷◌, arith, ltb, leb, if◌then◌else◌, ◌==◌, nat_eq,
  Bool-cases, all, Text, text_eq, ℤ, pos, int_eq, ℤ, pos, negsuc, int_eq, some_inj,
}

-- The digits in front of `rest`, the last one first; each step divides by ten, so the number itself
-- is fuel enough.
unfoldable pub digits : ℕ → ℕ → Text → Text
digits zero n rest = rest
digits (suc fuel) n rest = elim (ltb n 10) [
  | true ↦ (b'0' + n % 10) ∷ rest
  | false ↦ digits fuel (n / 10) ((b'0' + n % 10) ∷ rest)
]

unfoldable pub decimal : ℕ → Text
unfolding digits
decimal n = digits (suc n) n []

unfoldable pub is_digit : ℕ → Bool
is_digit c = leb b'0' c && leb c b'9'

unfoldable pub read_digits : ℕ → Text → Option ℕ
unfolding is_digit
read_digits n [] = some n
read_digits n (c ∷ cs) =
    let rest = read_digits (n * 10 + (c - b'0')) cs in if is_digit c then rest else none

below : ℕ → Option ℕ → Option ℕ
below bound none = none
below bound (some n) = if ltb n bound then some n else none

unfoldable pub parse_uint : Text → Option ℕ
unfolding read_digits below
parse_uint [] = none
parse_uint (c ∷ cs) = below (2 ^ 64) (read_digits 0 (c ∷ cs))

abbrev as_pos : Option ℕ → Option ℤ
as_pos none = none
as_pos (some n) = some (pos n)

abbrev as_neg : Option ℕ → Option ℤ
as_neg none = none
as_neg (some zero) = some (pos 0)
as_neg (some (suc n)) = some (negsuc n)

-- A sign must be followed by a digit.
unsigned : ℕ → Text → Option ℕ
unfolding read_digits below
unsigned bound [] = none
unsigned bound (c ∷ cs) = below bound (read_digits 0 (c ∷ cs))

unfoldable pub atoi : Text → Option ℤ
unfolding unsigned
atoi [] = none
atoi (c ∷ cs) =
    if c == b'-'
    then as_neg (unsigned (2 ^ 63 + 1) cs)
    else if c == b'+'
    then as_pos (unsigned (2 ^ 63) cs)
    else as_pos (unsigned (2 ^ 63) (c ∷ cs))

read_digits-digit :
    (m d : ℕ) (rest : Text)
    → d < 10
    → read_digits m ((b'0' + d) ∷ rest) ≡ read_digits (m * 10 + d) rest
unfolding read_digits is_digit
read_digits-digit m d rest h =
    let shown : (leb b'0' (b'0' + d) && leb (b'0' + d) b'9') ≡ true = ground arith in
    let value : (b'0' + d) - b'0' ≡ d = omega arith in rw (shown, value) refl

digits-last :
    (fuel n : ℕ) (rest : Text) → ltb n 10 ≡ true → digits (suc fuel) n rest ≡ (b'0' + n % 10) ∷ rest
unfolding digits
digits-last fuel n rest h = rw (h, digits) refl

digits-more :
    (fuel n : ℕ) (rest : Text)
    → ltb n 10 ≡ false
    → digits (suc fuel) n rest ≡ digits fuel (n / 10) ((b'0' + n % 10) ∷ rest)
unfolding digits
digits-more fuel n rest h = rw (h, digits) refl

-- What is printed is read back.
read_digits-digits :
    (fuel n : ℕ) (rest : Text) → n < fuel → read_digits 0 (digits fuel n rest) ≡ read_digits n rest
unfolding digits
read_digits-digits zero n rest h = absurd (omega (arith, h))
read_digits-digits (suc fuel) n rest h = elim (Bool-cases (ltb n 10)) [
  | inl small ↦
      let value : 0 * 10 + n % 10 ≡ n = ground (arith, small) in
      let read = read_digits-digit 0 (n % 10) rest (omega arith) in
      rw (digits-last fuel n rest small) (read ∙ ap (λ m. read_digits m rest) value)
  | inr large ↦
      let less : n / 10 < fuel = ground (arith, large, h) in
      let value : n / 10 * 10 + n % 10 ≡ n = omega arith in
      rw (digits-more fuel n rest large) (
        read_digits-digits fuel (n / 10) ((b'0' + n % 10) ∷ rest) less
        ∙ read_digits-digit (n / 10) (n % 10) rest (omega arith)
        ∙ ap (λ m. read_digits m rest) value)
]

digits-ne-nil : (fuel n : ℕ) (c : ℕ) (rest : Text) → digits fuel n (c ∷ rest) ≢ []
unfolding digits
digits-ne-nil zero n c rest = λ e. cc e
digits-ne-nil (suc fuel) n c rest = elim (Bool-cases (ltb n 10)) [
  | inl small ↦ λ e. cc (e, digits-last fuel n (c ∷ rest) small)
  | inr large ↦ λ e.
      digits-ne-nil fuel (n / 10) (b'0' + n % 10) (c ∷ rest)
        (sym (digits-more fuel n (c ∷ rest) large) ∙ e)
]

decimal-ne-nil : (n : ℕ) → decimal n ≢ []
unfolding decimal digits
decimal-ne-nil n = elim (Bool-cases (ltb n 10)) [
  | inl small ↦ λ e. cc (e, digits-last n n [] small)
  | inr large ↦
      λ e. digits-ne-nil n (n / 10) (b'0' + n % 10) [] (sym (digits-more n n [] large) ∙ e)
]

parse_uint-read : (s : Text) → s ≢ [] → parse_uint s ≡ below (2 ^ 64) (read_digits 0 s)
unfolding parse_uint
parse_uint-read [] h = absurd (h refl)
parse_uint-read (c ∷ s) h = refl

-- A printed number of 64 bits is read back.
pub parse_uint-decimal : (n : ℕ) → n < 2 ^ 64 → parse_uint (decimal n) ≡ some n
unfolding decimal below read_digits
parse_uint-decimal n h =
    let read : read_digits 0 (decimal n) ≡ some n = read_digits-digits (suc n) n [] (omega arith) in
    let fits : ltb n (2 ^ 64) ≡ true = ground (arith, h) in
    parse_uint-read (decimal n) (decimal-ne-nil n) ∙ rw (read, fits) refl

-- A printed number holds digits only.
all-digits :
    (fuel n : ℕ) (rest : Text) → all is_digit rest ≡ true → all is_digit (digits fuel n rest) ≡ true
unfolding digits all is_digit
all-digits zero n rest h = h
all-digits (suc fuel) n rest h =
    let shown : (leb b'0' (b'0' + n % 10) && leb (b'0' + n % 10) b'9') ≡ true = ground arith in
    elim (Bool-cases (ltb n 10)) [
      | inl small ↦ rw (digits-last fuel n rest small, shown) h
      | inr large ↦
          rw (digits-more fuel n rest large)
            (all-digits fuel (n / 10) ((b'0' + n % 10) ∷ rest) (rw shown h))
    ]

pub all-decimal : (n : ℕ) → all is_digit (decimal n) ≡ true
unfolding decimal all
all-decimal n = all-digits (suc n) n [] refl

below-fits : (bound : ℕ) (x : Option ℕ) {n : ℕ} → below bound x ≡ some n → n < bound
unfolding below
below-fits bound none h = cc
below-fits bound (some m) h = elim (Bool-cases (ltb m bound)) [
  | inl fits ↦ ground (arith, some_inj (rw fits at h))
  | inr over ↦ absurd (cc (rw over at h))
]

-- What is read is a number of 64 bits.
pub parse_uint-fits : (s : Text) {n : ℕ} → parse_uint s ≡ some n → n < 2 ^ 64
unfolding parse_uint
parse_uint-fits [] h = cc
parse_uint-fits (c ∷ s) h = below-fits (2 ^ 64) (read_digits 0 (c ∷ s)) h
