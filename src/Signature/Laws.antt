-- ===== src/Signature/Laws.antt =====
-- The canonical bytes of a signed state are its one spelling.
use cpak.Base.{
  ℕ, ◌^◌, ◌<◌, ◌≡◌, refl, sym, ap, ◌∙◌, inl, inr, Bool, true, false, not, ◌&&◌, some, List, [], ◌∷◌,
  ◌++◌, arith, nat_beq, nat_beq_iff, ◌==◌, ◌!=◌, nat_eq, Bool-cases, Option-cases, all, all_of_mem,
  all_mono, ok, Text, text_beq, text_beq_iff, text_eq, ℤ, pos, int_eq, int_beq_iff, all_mono, ℤ,
  pos, int_eq,
}
use cpak.Base.{passed_check, not_refused, both, ok_inj}
use cpak.Go.Strings.{split, has_prefix, trim_prefix, behind}
use cpak.Go.Decimal.{decimal, atoi, all-decimal, parse_uint-decimal, is_digit}
use cpak.Go.Regexp.{Regexp, match_string, in_class}
use cpak.Go.Regexp.Bytes.{mentions, match_string_unmentioned}
use cpak.TrustPolicy.Origin.{canonical_origin}
use cpak.TrustPolicy.Origin.Laws.{is_origin_byte, canonical_origin-HasShape}
use cpak.Integrity.{root_pattern, image_pattern}
use cpak.Signature.{
  State, is_canonical, validate_state, state_lines, close_lines, canonical_state, field_value,
  parse_lines, parse_canonical_state, unsupported_abi, bad_origin, bad_manifest, bad_image,
  bad_lock, int_decimal,
}

abbrev no_newline : ℕ → Bool
no_newline c = not (c == b'\n')

-- A line without a newline is cut off at the newline behind it.
split-line :
    (line rest : Text)
    → all no_newline line ≡ true
    → split b'\n' (line ++ (b'\n' ∷ rest)) ≡ line ∷ split b'\n' rest
unfolding split all
split-line [] rest h = refl
split-line (c ∷ line) rest h =
    let (this, others) = both {a = no_newline c} h in
    let other : (c == b'\n') ≡ false = ground (arith, this) in
    rw (other, split-line line rest others) refl

split-close_lines :
    (lines : List Text)
    → all (all no_newline) lines ≡ true
    → split b'\n' (close_lines lines) ≡ lines ++ ([] ∷ [])
unfolding close_lines all
split-close_lines [] h = unfold split in refl
split-close_lines (line ∷ lines) h =
    let (this, others) = both h in
    split-line line (close_lines lines) this ∙ ap (λ x. line ∷ x) (split-close_lines lines others)

has_prefix-append : (p s : Text) → has_prefix (p ++ s) p ≡ true
unfolding has_prefix
has_prefix-append [] s = refl
has_prefix-append (c ∷ p) s =
    let same : nat_beq c c ≡ true = (nat_beq_iff c c).1 refl in
    rw (same, has_prefix-append p s) refl

behind-append : (p s : Text) → behind (p ++ s) p ≡ s
unfolding behind
behind-append [] s = refl
behind-append (c ∷ p) s = behind-append p s

field_value-append : (p v : Text) → field_value (p ++ v) p ≡ ok v
unfolding field_value trim_prefix
field_value-append p v = rw (has_prefix-append p v, behind-append p v) refl

-- What a checked state is spelled in.
record IsPlain (s : State) : Type 0 where
  abi_one : s.abi ≡ pos 1
  origin_plain : all no_newline s.origin ≡ true
  manifest_plain : all no_newline s.manifest_sha256 ≡ true
  image_plain : all no_newline s.image_digest ≡ true
  lock_plain : all no_newline s.lock_sha256 ≡ true

unmentioned-plain :
    (r : Regexp) (t : Text)
    → mentions b'\n' r ≡ false
    → match_string r t ≡ true
    → all no_newline t ≡ true
unmentioned-plain r t h k = all_of_mem no_newline t λ c m. elim (Bool-cases (c == b'\n')) [
  | inl same ↦
      let is_it : c ≡ b'\n' = (nat_beq_iff c b'\n').0 same in
      let absent = match_string_unmentioned c r t (cc (h, is_it)) m in absurd (cc (absent, k))
  | inr other ↦ rw other refl
]

origin_byte-plain : (c : ℕ) → is_origin_byte c ≡ true → no_newline c ≡ true
unfolding mentions in_class
origin_byte-plain c h = ground arith

digit-plain : (c : ℕ) → is_digit c ≡ true → no_newline c ≡ true
unfolding is_digit
digit-plain c h = ground arith

origin-plain : (t : Text) → is_canonical (canonical_origin t) t ≡ true → all no_newline t ≡ true
unfolding is_canonical
origin-plain t h = elim (Option-cases (canonical_origin t)) [
  | inl unread ↦ absurd (cc (rw unread at h))
  | inr (w, read) ↦
      let same : w ≡ t = (text_beq_iff w t).0 (rw read at h) in
      let (shape, _) = canonical_origin-HasShape t read in
      rw (sym same) (all_mono is_origin_byte no_newline w origin_byte-plain shape.bytes_ok)
]

abbrev lock_refused : State → Bool
lock_refused s = (s.lock_sha256 != []) && not (match_string root_pattern s.lock_sha256)

lock-plain : (s : State) → lock_refused s ≡ false → all no_newline s.lock_sha256 ≡ true
unfolding all
lock-plain s h = elim (Bool-cases (text_beq s.lock_sha256 [])) [
  | inl absent ↦ rw ((text_beq_iff s.lock_sha256 []).0 absent) refl
  | inr present ↦
      unmentioned-plain root_pattern s.lock_sha256 (unfold mentions in_class in refl) (ground arith)
]

validate_state-IsPlain : (s : State) → validate_state s ≡ ok tt → IsPlain s
unfolding validate_state mentions in_class
validate_state-IsPlain s h =
    let (abi_ok, h1) = not_refused (s.abi != pos 1) (unsupported_abi s.abi) _ h in
    let (origin_ok, h2) =
      not_refused (not (is_canonical (canonical_origin s.origin) s.origin)) (bad_origin s.origin) _
        h1 in
    let (manifest_ok, h3) =
      not_refused (not (match_string root_pattern s.manifest_sha256))
        (bad_manifest s.manifest_sha256) _ h2 in
    let (image_ok, h4) =
      not_refused (not (match_string image_pattern s.image_digest)) (bad_image s.image_digest) _
        h3 in
    let (lock_ok, _) = not_refused (lock_refused s) (bad_lock s.lock_sha256) _ h4 in
    record {
      abi_one = (int_beq_iff s.abi (pos 1)).0 (ground arith);
      origin_plain = origin-plain s.origin (ground arith);
      manifest_plain = unmentioned-plain root_pattern s.manifest_sha256 refl (ground arith);
      image_plain = unmentioned-plain image_pattern s.image_digest refl (ground arith);
      lock_plain = lock-plain s lock_ok;
    }

decimal-plain : (n : ℕ) → all no_newline (decimal n) ≡ true
decimal-plain n = all_mono is_digit no_newline (decimal n) digit-plain (all-decimal n)

state_lines-plain : (s : State) → IsPlain s → all (all no_newline) (state_lines s) ≡ true
unfolding state_lines all int_decimal
state_lines-plain s p =
    rw
      (
        p.abi_one,
        decimal-plain 1,
        p.origin_plain,
        p.manifest_plain,
        p.image_plain,
        p.lock_plain,
        decimal-plain s.generation,
      )
      refl

abbrev with_abi : State → ℤ → State
with_abi s abi = record s { abi = abi }

atoi_one : atoi (decimal 1) ≡ some (pos 1)
unfolding atoi decimal
atoi_one = refl

parse_lines-state_lines :
    (s : State) (doc : Text)
    → s.abi ≡ pos 1
    → s.generation < 2 ^ 64
    → canonical_state s ≡ ok doc
    → parse_lines doc (state_lines s ++ ([] ∷ [])) ≡ ok s
unfolding parse_lines state_lines int_decimal text_beq trim_prefix
parse_lines-state_lines s doc one small h =
    let same : with_abi s (pos 1) ≡ s = ap (with_abi s) (sym one) in
    let written : canonical_state (with_abi s (pos 1)) ≡ ok doc = ap canonical_state same ∙ h in
    let itself : text_beq doc doc ≡ true = (text_beq_iff doc doc).1 refl in
    rw (one, atoi_one, parse_uint-decimal s.generation small, written, itself) refl

-- A checked state below 2^64 generations is read back from its canonical bytes.
pub canonical_state-parse :
    (s : State) (doc : Text)
    → canonical_state s ≡ ok doc
    → s.generation < 2 ^ 64
    → parse_canonical_state doc ≡ ok s
unfolding canonical_state parse_canonical_state
canonical_state-parse s doc h small =
    let (valid, written) = passed_check (validate_state s) (ok (close_lines (state_lines s))) h in
    let plain = validate_state-IsPlain s valid in
    let cut = split-close_lines (state_lines s) (state_lines-plain s plain) in
    let spelled : close_lines (state_lines s) ≡ doc = ok_inj written in
    let pieces : split b'\n' doc ≡ state_lines s ++ ([] ∷ []) =
      sym (ap (split b'\n') spelled) ∙ cut in
    rw pieces (parse_lines-state_lines s doc plain.abi_one small h)
