-- ===== src/SystemAuthority/Ledger/Paths.antt =====
-- No two applications share a file, and no record is a tombstone.
use cpak.Base.{
  ℕ, ◌≡◌, refl, sym, ◌∙◌, ◌≢◌, inl, inr, Bool, true, false, not, ◌&&◌, [], ◌∷◌, ◌++◌, arith,
  nat_beq_iff, if◌then◌else◌, ◌==◌, nat_eq, Bool-cases, any, all, any-append, all_mono, contains,
  ok, Text, text_eq, int_eq, all_mono, int_eq,
}
use cpak.Base.{passed_check, both}
use mathlib.Core.List.{append_cancel_right}
use cpak.Go.Regexp.Bytes.{mentions}
use cpak.Go.Regexp.{in_class}
use cpak.TrustPolicy.Origin.Laws.{is_origin_byte}
use cpak.SystemAuthority.Checks.{validate_origin}
use cpak.SystemAuthority.Checks.Laws.{validate_origin-bytes}
use cpak.SystemAuthority.Ledger.{flatten, record_path, record_suffix, forgotten_suffix}

-- A byte that no origin of the authority holds is what tells files apart.
plain : ℕ → Bool
plain c = not (c == b':') && not (c == b'+')

plain_byte : (c : ℕ) → is_origin_byte c ≡ true → plain c ≡ true
unfolding plain mentions in_class
plain_byte c h = ground arith

all-plain : (a : Text) → all is_origin_byte a ≡ true → all plain a ≡ true
all-plain a h = all_mono is_origin_byte plain a plain_byte h

abbrev flat_byte : ℕ → ℕ
flat_byte c = if c == b'/' then b':' else c

flat_byte_inj : (x y : ℕ) → plain x ≡ true → plain y ≡ true → flat_byte x ≡ flat_byte y → x ≡ y
unfolding plain
flat_byte_inj x y h k e = elim (Bool-cases (x == b'/')) [
  | inl p ↦ elim (Bool-cases (y == b'/')) [
    | inl q ↦ (nat_beq_iff x b'/').0 p ∙ sym ((nat_beq_iff y b'/').0 q)
    | inr q ↦ ground arith
  ]
  | inr p ↦ elim (Bool-cases (y == b'/')) [ inl q ↦ ground arith | inr q ↦ ground arith ]
]

flatten_inj : (a b : Text) → all plain a ≡ true → all plain b ≡ true → flatten a ≡ flatten b → a ≡ b
unfolding flatten all
flatten_inj [] [] h k e = refl
flatten_inj [] (y ∷ b) h k e = cc
flatten_inj (x ∷ a) [] h k e = cc
flatten_inj (x ∷ a) (y ∷ b) h k e =
    let (px, pa) = both h in
    let (py, pb) = both k in
    let heads : flat_byte x ≡ flat_byte y = cc in
    let tails : flatten a ≡ flatten b = cc in
    let same = flat_byte_inj x y px py heads in
    let rest = flatten_inj a b pa pb tails in cc (same, rest)

no_plus : (a : Text) → all plain a ≡ true → contains b'+' (flatten a) ≡ false
unfolding flatten all any plain
no_plus [] h = refl
no_plus (x ∷ a) h =
    let (px, pa) = both h in
    let here : (flat_byte x == b'+') ≡ false = ground arith in rw (here, no_plus a pa) refl

record_path-read :
    (origin suffix name : Text)
    → record_path origin suffix ≡ ok name
    → (all plain origin ≡ true) × (flatten origin ++ suffix ≡ name)
unfolding record_path
record_path-read origin suffix name h =
    let (valid, e) = passed_check (validate_origin origin) _ h in
    (all-plain origin (validate_origin-bytes origin valid), cc)

-- Two records of one name are of one origin, and so are two tombstones.
pub record_path_inj :
    (a b suffix name : Text)
    → record_path a suffix ≡ ok name
    → record_path b suffix ≡ ok name
    → a ≡ b
record_path_inj a b suffix name h k =
    let (pa, ea) = record_path-read a suffix name h in
    let (pb, eb) = record_path-read b suffix name k in
    flatten_inj a b pa pb (append_cancel_right (flatten a) (flatten b) suffix (ea ∙ sym eb))

-- The record of an origin is never the tombstone of any.
pub record_path_apart :
    (a b name : Text)
    → record_path a record_suffix ≡ ok name
    → record_path b forgotten_suffix ≢ ok name
unfolding any
record_path_apart a b name h = λ k.
    let (pa, ea) = record_path-read a record_suffix name h in
    let (pb, eb) = record_path-read b forgotten_suffix name k in
    let here : contains b'+' (flatten b ++ forgotten_suffix) ≡ true =
      rw (any-append (λ x. x == b'+') (flatten b) forgotten_suffix) (ground arith) in
    let there : contains b'+' (flatten a ++ record_suffix) ≡ false =
      rw (any-append (λ x. x == b'+') (flatten a) record_suffix, no_plus a pa) refl in
    cc (here, there, ea, eb)

pub record_path-valid :
    (origin suffix name : Text)
    → record_path origin suffix ≡ ok name
    → validate_origin origin ≡ ok tt
unfolding record_path
record_path-valid origin suffix name h =
    let (valid, e) = passed_check (validate_origin origin) _ h in valid
