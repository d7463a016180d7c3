-- ===== src/Signature.antt =====
-- pkg/signature/state.go: what a publisher signs, and its one spelling.
pub mod Laws
pub mod Parsed
pub mod Evidence
use cpak.Base.{
  ℕ, zero, suc, ◌+◌, ◌-◌, ◌*◌, ◌/◌, ◌%◌, ◌^◌, ◌≤◌, ◌<◌, ◌≡◌, refl, sym, ap, ◌∙◌, ◌≢◌, ◌↔◌, ◌⊎◌, inl,
  inr, Bool, true, false, not, ◌&&◌, ◌||◌, Option, none, some, List, [], ◌∷◌, ◌++◌, map, Memᴰ,
  arith, ltb, leb, nat_beq, nat_beq_iff, if◌then◌else◌, Eq, ◌==◌, ◌!=◌, nat_eq, Bool-cases,
  Option-cases, any, all, length, is_empty, length-append, any-eq-true, any_of_mem, all_mem,
  all_of_mem, all-append, any-append, all_mono, not_true, contains, contains_mem, contains_of_mem,
  Outcome, ok, err, ◌>>=◌, ◌>>◌, refuse_if, wrap, Text, ascii, text_beq, text_beq_iff, text_eq, ℤ,
  pos, int_eq, int_beq_iff, all_mono, ℤ, pos, negsuc, int_eq, not_true,
}
use cpak.Go.Strings.{split, has_prefix, trim_prefix}
use cpak.Go.Decimal.{decimal, parse_uint, atoi}
use cpak.Go.Regexp.{match_string}
use cpak.TrustPolicy.Origin.{canonical_origin}
use cpak.Integrity.{root_pattern, image_pattern}

pub record State : Type 0 where
  pub abi : ℤ
  pub origin : Text
  pub manifest_sha256 : Text
  pub image_digest : Text
  pub lock_sha256 : Text
  pub generation : ℕ

pub data StateError : Type 0 where
  unsupported_abi : ℤ → StateError
  bad_origin bad_manifest bad_image bad_lock : Text → StateError
  generation_zero : StateError
  not_one_state not_the_field bad_abi bad_generation non_canonical : StateError

-- The package keeps its own copy of the function of pkg/trustpolicy/origin.go.
is_canonical : Option Text → Text → Bool
is_canonical none origin = false
is_canonical (some folded) origin = folded == origin

-- `State.Validate`
unfoldable pub validate_state : State → Outcome StateError Unit
unfolding is_canonical
validate_state s = do
  refuse_if (s.abi != pos 1) (unsupported_abi s.abi)
  refuse_if (not (is_canonical (canonical_origin s.origin) s.origin)) (bad_origin s.origin)
  refuse_if (not (match_string root_pattern s.manifest_sha256)) (bad_manifest s.manifest_sha256)
  refuse_if (not (match_string image_pattern s.image_digest)) (bad_image s.image_digest)
  refuse_if ((s.lock_sha256 != []) && not (match_string root_pattern s.lock_sha256))
      (bad_lock s.lock_sha256)
  refuse_if (s.generation == 0) generation_zero

-- `%d` of a signed integer
int_decimal : ℤ → Text
int_decimal (pos n) = decimal n
int_decimal (negsuc n) = b'-' ∷ decimal (suc n)

-- The lines that `Canonical` writes.
unfoldable pub state_lines : State → List Text
unfolding int_decimal
state_lines s =
    ascii "cpak.signature.state.v1"
    ∷ (ascii "abi=" ++ int_decimal s.abi)
    ∷ (ascii "origin=" ++ s.origin)
    ∷ (ascii "manifest_sha256=" ++ s.manifest_sha256)
    ∷ (ascii "image_digest=" ++ s.image_digest)
    ∷ (ascii "lock_sha256=" ++ s.lock_sha256)
    ∷ (ascii "generation=" ++ decimal s.generation)
    ∷ []

-- Each line closed by a newline.
unfoldable pub close_lines : List Text → Text
close_lines [] = []
close_lines (line ∷ lines) = line ++ (b'\n' ∷ close_lines lines)

unfoldable pub canonical_state : State → Outcome StateError Text
unfolding validate_state state_lines close_lines
canonical_state s = do validate_state s; ok (close_lines (state_lines s))

-- One field of the loop of `ParseCanonicalState`.
unfoldable pub field_value : Text → Text → Outcome StateError Text
unfolding has_prefix trim_prefix
field_value line prefix = do
  refuse_if (not (has_prefix line prefix)) not_the_field
  ok (trim_prefix line prefix)

abbrev or_error : {A : Type 0} → StateError → Option A → Outcome StateError A
or_error e none = err e
or_error e (some a) = ok a

-- The checks of `ParseCanonicalState` on the pieces between newlines.
parse_lines : Text → List Text → Outcome StateError State
unfolding field_value canonical_state
parse_lines document (first ∷ l1 ∷ l2 ∷ l3 ∷ l4 ∷ l5 ∷ l6 ∷ last ∷ []) = do
  refuse_if ((first != ascii "cpak.signature.state.v1") || (last != [])) not_one_state
  abi_value ← field_value l1 (ascii "abi=")
  origin ← field_value l2 (ascii "origin=")
  manifest ← field_value l3 (ascii "manifest_sha256=")
  image ← field_value l4 (ascii "image_digest=")
  lock ← field_value l5 (ascii "lock_sha256=")
  generation_value ← field_value l6 (ascii "generation=")
  abi ← or_error bad_abi (atoi abi_value)
  generation ← or_error bad_generation (parse_uint generation_value)
  accept (record {
    abi = abi;
    origin = origin;
    manifest_sha256 = manifest;
    image_digest = image;
    lock_sha256 = lock;
    generation = generation;
  })
  where
    accept : State → Outcome StateError State
    accept s = do
      canonical ← canonical_state s
      refuse_if (canonical != document) non_canonical
      ok s
parse_lines document _ = err not_one_state

unfoldable pub parse_canonical_state : Text → Outcome StateError State
unfolding parse_lines
parse_canonical_state document = parse_lines document (split b'\n' document)

module _ (sha256_hex : Text → Text) where
  hash : Text → Outcome StateError Text
  hash canonical = ok (sha256_hex canonical)

  -- `State.Digest`
  unfoldable pub state_digest : State → Outcome StateError Text
  unfolding hash
  state_digest s = canonical_state s >>= hash
