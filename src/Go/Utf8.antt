-- ===== src/Go/Utf8.antt =====
-- `unicode/utf8`: `Valid`, and `strings.ToValidUTF8(value, "")`.
pub mod Laws
use cpak.Base.{
  ℕ, zero, suc, ◌-◌, Bool, true, false, ◌&&◌, Option, none, some, [], ◌∷◌, ltb, leb, if◌then◌else◌,
  ◌==◌, nat_eq, Text, text_eq, int_eq,
}

-- Between two runes, or inside one: the next byte lies in a range, and so many more follow.
pub data Progress : Type 0 where
  ready : Progress
  expect : ℕ → ℕ → ℕ → Progress

abbrev pub within : ℕ → ℕ → ℕ → Bool
within lo hi c = leb lo c && leb c hi

-- What the first byte of a rune promises.
unfoldable pub lead : ℕ → Option Progress
lead c =
    if ltb c 0x80
    then some ready
    else if within 0xC2 0xDF c
    then some (expect 0x80 0xBF 0)
    else if c == 0xE0
    then some (expect 0xA0 0xBF 1)
    else if c == 0xED
    then some (expect 0x80 0x9F 1)
    else if within 0xE1 0xEF c
    then some (expect 0x80 0xBF 1)
    else if c == 0xF0
    then some (expect 0x90 0xBF 2)
    else if within 0xF1 0xF3 c
    then some (expect 0x80 0xBF 2)
    else if c == 0xF4
    then some (expect 0x80 0x8F 2)
    else none

after : ℕ → Progress
after zero = ready
after (suc n) = expect 0x80 0xBF n

unfoldable pub advance : Progress → ℕ → Option Progress
unfolding lead after
advance ready c = lead c
advance (expect lo hi n) c = if within lo hi c then some (after n) else none

-- The text completes the rune that was begun, and holds whole runes from there on.
unfoldable pub completes : Progress → Text → Bool
completes ready [] = true
completes (expect lo hi n) [] = false
completes p (c ∷ cs) = elim (advance p c) [ none ↦ false | some q ↦ completes q cs ]

-- `utf8.ValidString`
abbrev pub valid : Text → Bool
valid s = completes ready s

-- The text begins with what completes the rune that was begun.
unfoldable pub begins : Progress → Text → Bool
begins ready cs = true
begins (expect lo hi n) [] = false
begins (expect lo hi n) (c ∷ cs) = elim (advance (expect lo hi n) c) [
  | none ↦ false
  | some q ↦ begins q cs
]

-- A byte that begins no whole rune is dropped; the first argument is the rune that is being copied.
unfoldable pub to_valid_from : Progress → Text → Text
to_valid_from p [] = []
to_valid_from (expect lo hi n) (c ∷ cs) = elim (advance (expect lo hi n) c) [
  | none ↦ []
  | some q ↦ c ∷ to_valid_from q cs
]
to_valid_from ready (c ∷ cs) = elim (advance ready c) [
  | none ↦ to_valid_from ready cs
  | some q ↦ elim (begins q cs) [ true ↦ c ∷ to_valid_from q cs | false ↦ to_valid_from ready cs ]
]

-- `strings.ToValidUTF8(value, "")`
abbrev pub to_valid : Text → Text
to_valid = to_valid_from ready
