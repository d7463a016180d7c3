-- ===== src/Go/Regexp.antt =====
-- `regexp.MustCompile(…).MatchString` for patterns anchored at both ends, by derivatives. A class
-- is its ranges of bytes; every class of the program is ASCII, so a byte is a character here.
pub mod Bytes
use cpak.Base.{ℕ, zero, suc, Bool, true, false, ◌&&◌, ◌||◌, List, [], ◌∷◌, Text, leb, if◌then◌else◌}

pub data Regexp : Type 0 where
  fail : Regexp
  blank : Regexp
  class : List (ℕ × ℕ) → Regexp
  seq : Regexp → Regexp → Regexp
  alt : Regexp → Regexp → Regexp
  star : Regexp → Regexp

unfoldable pub in_class : ℕ → List (ℕ × ℕ) → Bool
in_class c [] = false
in_class c ((lo, hi) ∷ ranges) = leb lo c && leb c hi || in_class c ranges

abbrev pub char : ℕ → Regexp
char c = class ((c, c) ∷ [])

-- A run of literal bytes.
abbrev pub lit : Text → Regexp
lit [] = blank
lit (c ∷ cs) = seq (char c) (lit cs)

-- `r+`
abbrev pub plus : Regexp → Regexp
plus r = seq r (star r)

-- `r?`
abbrev pub optional : Regexp → Regexp
optional r = alt r blank

-- `r{n}`
abbrev pub times : ℕ → Regexp → Regexp
times zero r = blank
times (suc n) r = seq r (times n r)

-- `r{0,n}`
abbrev pub up_to : ℕ → Regexp → Regexp
up_to zero r = blank
up_to (suc n) r = optional (seq r (up_to n r))

unfoldable pub nullable : Regexp → Bool
nullable fail = false
nullable blank = true
nullable (class ranges) = false
nullable (seq a b) = nullable a && nullable b
nullable (alt a b) = nullable a || nullable b
nullable (star a) = true

-- What may follow once `c` has been read.
unfoldable pub derive : ℕ → Regexp → Regexp
unfolding nullable in_class
derive c fail = fail
derive c blank = fail
derive c (class ranges) = if in_class c ranges then blank else fail
derive c (seq a b) =
    let after = derive c b in alt (seq (derive c a) b) (if nullable a then after else fail)
derive c (alt a b) = alt (derive c a) (derive c b)
derive c (star a) = seq (derive c a) (star a)

unfoldable pub match_string : Regexp → Text → Bool
unfolding nullable derive
match_string r [] = nullable r
match_string r (c ∷ cs) = match_string (derive c r) cs
