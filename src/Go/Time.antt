-- ===== src/Go/Time.antt =====
-- `time.Parse(time.RFC3339, …)`, the instants it names, and `Format(time.RFC3339)` in UTC.
use cpak.Base.{
  ℕ, zero, suc, ◌+◌, ◌-◌, ◌*◌, ◌/◌, ◌%◌, ◌≡◌, refl, Bool, true, false, ◌&&◌, ◌||◌, Option, none,
  some, [], ◌∷◌, leb, if◌then◌else◌, ◌==◌, ◌!=◌, nat_eq, is_empty, Text, ascii, text_beq, text_eq,
  int_eq,
}

-- A date and a time as they are written. `Zone.utc` is the location that a `Z` gives.
pub data Zone : Type 0 where
  utc : Zone
  east : ℕ → Zone
  west : ℕ → Zone

pub record Stamp : Type 0 where
  pub year : ℕ
  pub month : ℕ
  pub day : ℕ
  pub hour : ℕ
  pub minute : ℕ
  pub second : ℕ
  pub nanosecond : ℕ
  pub zone : Zone

is_digit : ℕ → Bool
is_digit c = leb b'0' c && leb c b'9'

-- `then` on results of a scanner: a value and the text behind it.
abbrev Scan : Type 0
Scan = Option (ℕ × Text)

abbrev scanned : {A : Type 0} → Scan → (ℕ → Text → Option A) → Option A
scanned none f = none
scanned (some (n, rest)) f = f n rest

-- `getnum(value, true)`
two_digits : Text → Scan
unfolding is_digit
two_digits (a ∷ b ∷ rest) =
    if is_digit a && is_digit b then some ((a - b'0') * 10 + (b - b'0'), rest) else none
two_digits _ = none

-- `getnum(value, false)`, which an hour is read by
one_or_two_digits : Text → Scan
unfolding is_digit
one_or_two_digits [] = none
one_or_two_digits (a ∷ []) = if is_digit a then some (a - b'0', []) else none
one_or_two_digits (a ∷ b ∷ rest) =
    if is_digit a
    then (if is_digit b
        then some ((a - b'0') * 10 + (b - b'0'), rest)
        else some (a - b'0', b ∷ rest))
    else none

four_digits : Text → Scan
unfolding two_digits
four_digits value =
    scanned (two_digits value)
      λ high rest. scanned (two_digits rest) λ low rest'. some (high * 100 + low, rest')

skip : ℕ → Text → Option Text
skip c [] = none
skip c (x ∷ rest) = if x == c then some rest else none

abbrev skipped : {A : Type 0} → Option Text → (Text → Option A) → Option A
skipped none f = none
skipped (some rest) f = f rest

-- The digits of a fraction: at most nine of them count, scaled to nanoseconds.
fraction : ℕ → ℕ → Text → ℕ × Text
unfolding is_digit
fraction scale n [] = (n, [])
fraction scale n (c ∷ rest) =
    let more = fraction (scale / 10) (n + (c - b'0') * scale) rest in
    if is_digit c then more else (n, c ∷ rest)

-- A fraction behind the seconds, though the layout names none.
nanoseconds : Text → ℕ × Text
unfolding fraction
nanoseconds (c ∷ d ∷ rest) =
    if (c == b'.' || c == b',') && is_digit d
    then fraction 100000000 0 (d ∷ rest)
    else (0, c ∷ d ∷ rest)
nanoseconds value = (0, value)

-- `Z07:00`: `Z`, or a sign and an offset, and nothing behind it.
offset : (ℕ → Zone) → Text → Option Zone
unfolding two_digits skip
offset signed value = scanned (two_digits value) λ hours rest. skipped (skip b':' rest) λ rest'.
    scanned (two_digits rest') λ minutes end.
      if is_empty end && (leb hours 24 && leb minutes 60)
      then some (signed ((hours * 60 + minutes) * 60))
      else none

zone_of : Text → Option Zone
unfolding offset
zone_of [] = none
zone_of (c ∷ rest) =
    if c == b'Z'
    then (if is_empty rest then some Zone.utc else none)
    else if c == b'+'
    then offset Zone.east rest
    else if c == b'-'
    then offset Zone.west rest
    else none

is_leap : ℕ → Bool
is_leap year = (year % 4 == 0) && ((year % 100 != 0) || (year % 400 == 0))

days_in : ℕ → ℕ → ℕ
unfolding is_leap
days_in month year =
    if month == 2
    then (if is_leap year then 29 else 28)
    else if (month == 4 || month == 6) || (month == 9 || month == 11)
    then 30
    else 31

in_range : Stamp → Bool
unfolding days_in
in_range t =
    (leb 1 t.month && leb t.month 12)
    && ((leb t.hour 23 && leb t.minute 59)
        && (leb t.second 59 && (leb 1 t.day && leb t.day (days_in t.month t.year))))

checked : Stamp → Option Stamp
unfolding in_range
checked t = if in_range t then some t else none

with_zone : Stamp → Option Zone → Option Stamp
unfolding checked
with_zone t none = none
with_zone t (some z) = checked (record t { zone = z })

zoned : ℕ → ℕ → ℕ → ℕ → ℕ → ℕ → ℕ × Text → Option Stamp
unfolding with_zone zone_of
zoned y mo d h mi s (n, rest) =
    with_zone
      (record {
        year = y;
        month = mo;
        day = d;
        hour = h;
        minute = mi;
        second = s;
        nanosecond = n;
        zone = Zone.utc;
      })
      (zone_of rest)

-- The fields in their order, each behind its separator.
unfoldable pub parse : Text → Option Stamp
unfolding four_digits two_digits one_or_two_digits skip nanoseconds zoned
parse value = scanned (four_digits value) λ year r1. skipped (skip b'-' r1) λ r2.
    scanned (two_digits r2) λ month r3. skipped (skip b'-' r3) λ r4.
      scanned (two_digits r4) λ day r5. skipped (skip b'T' r5) λ r6.
        scanned (one_or_two_digits r6) λ hour r7. skipped (skip b':' r7) λ r8.
          scanned (two_digits r8) λ minute r9. skipped (skip b':' r9) λ r10.
            scanned (two_digits r10)
              λ second r11. zoned year month day hour minute second (nanoseconds r11)

-- An instant is its nanoseconds since two days before the year 0, so that no offset goes below it.
abbrev pub Instant : Type 0
Instant = ℕ

days_before_month : ℕ → ℕ → ℕ
unfolding days_in
days_before_month zero year = 0
days_before_month (suc zero) year = 0
days_before_month (suc (suc m)) year = days_before_month (suc m) year + days_in (suc m) year

days_before_year : ℕ → ℕ
days_before_year y = 365 * y + (y + 3) / 4 - (y + 99) / 100 + (y + 399) / 400

-- Seconds by the wall clock, two days added.
local_seconds : Stamp → ℕ
unfolding days_before_month days_before_year
local_seconds t =
    let days = days_before_year t.year + days_before_month t.month t.year + (t.day - 1) + 2 in
    ((days * 24 + t.hour) * 60 + t.minute) * 60 + t.second

in_utc : Zone → ℕ → ℕ
in_utc utc n = n
in_utc (east o) n = n - o
in_utc (west o) n = n + o

unfoldable pub instant : Stamp → Instant
unfolding local_seconds in_utc
instant t = in_utc t.zone (local_seconds t) * 1000000000 + t.nanosecond

-- The zero `time.Time`: 0001-01-01T00:00:00Z.
abbrev pub zero_time : Instant
zero_time = (366 + 2) * 86400 * 1000000000

two_bytes : ℕ → Text → Text
two_bytes n rest = (b'0' + n / 10) ∷ (b'0' + n % 10) ∷ rest

-- `Format(time.RFC3339)` of a time in UTC, its year below 10000.
unfoldable pub format_utc : Stamp → Text
unfolding two_bytes
format_utc t = two_bytes (t.year / 100) (
    two_bytes (t.year % 100) (
      b'-'
      ∷ two_bytes t.month (
          b'-'
          ∷ two_bytes t.day (
              b'T'
              ∷ two_bytes t.hour
                  (b':' ∷ two_bytes t.minute (b':' ∷ two_bytes t.second (b'Z' ∷ [])))))))

is_utc : Zone → Bool
is_utc utc = true
is_utc _ = false

is_whole : Stamp → Text → Bool
unfolding format_utc is_utc
is_whole t value = is_utc t.zone && (t.nanosecond == 0 && format_utc t == value)

keep_whole : Text → Option Stamp → Option Stamp
unfolding is_whole
keep_whole value none = none
keep_whole value (some t) = if is_whole t value then some t else none

-- The check that every canonical timestamp of the program passes: UTC, whole seconds, and written
-- the way `Format` writes it.
unfoldable pub canonical : Text → Option Stamp
unfolding parse keep_whole
canonical value = keep_whole value (parse value)

leap_day :
    canonical (ascii "2024-02-29T12:00:00Z")
    ≡ some (record {
      year = 2024;
      month = 2;
      day = 29;
      hour = 12;
      minute = 0;
      second = 0;
      nanosecond = 0;
      zone = Zone.utc;
    })
unfolding canonical text_beq
leap_day = refl

not_a_leap_day : canonical (ascii "2023-02-29T12:00:00Z") ≡ none
unfolding canonical
not_a_leap_day = refl

epoch_seconds : Option Stamp → ℕ
unfolding instant
epoch_seconds none = 0
epoch_seconds (some t) = instant t / 1000000000

-- One day, and one leap year, apart.
days_apart :
    epoch_seconds (parse (ascii "2000-03-01T00:00:00+00:00"))
    ≡ epoch_seconds (parse (ascii "2000-02-28T23:00:00.5-01:00")) + 86400
unfolding epoch_seconds parse
days_apart = refl
