-- ===== src/Examples/Signatures.antt =====
-- Tests of the signed state of pkg/signature.
use cpak.Base.{
  ◌^◌, ◌<◌, ◌≡◌, refl, ◌↔◌, [], ◌++◌, nat_eq, any, all, ok, err, Text, ascii, text_beq, text_eq,
  pos, int_eq, pos, int_eq,
}
use cpak.Go.Regexp.{match_string}
use cpak.Go.Strings.{split}
use cpak.Go.Decimal.{decimal, parse_uint, atoi}
use cpak.TrustPolicy.Origin.{canonical_origin}
use cpak.Signature.{
  State, canonical_state, close_lines, non_canonical, field_value, state_lines,
  parse_canonical_state, validate_state,
}
use cpak.Signature.Parsed.{parse_canonical_state_iff}
use cpak.Examples.Enrolments.{zeros, editor}

abbrev third_state : State
third_state = record {
  abi = pos 1;
  origin = editor;
  manifest_sha256 = zeros;
  image_digest = ascii "sha256:" ++ zeros;
  lock_sha256 = [];
  generation = 30;
}

abbrev third_document : Text
third_document =
    ascii "cpak.signature.state.v1\nabi=1\norigin=ghcr.io/fab/editor\nmanifest_sha256="
    ++ zeros
    ++ ascii "\nimage_digest=sha256:"
    ++ zeros
    ++ ascii "\nlock_sha256=\ngeneration=30\n"

third_state-written : canonical_state third_state ≡ ok third_document
unfolding canonical_state validate_state canonical_origin split match_string close_lines state_lines
    decimal text_beq all any
third_state-written = refl

-- A leading zero is a second spelling.
abbrev padded_document : Text
padded_document =
    ascii "cpak.signature.state.v1\nabi=01\norigin=ghcr.io/fab/editor\nmanifest_sha256="
    ++ zeros
    ++ ascii "\nimage_digest=sha256:"
    ++ zeros
    ++ ascii "\nlock_sha256=\ngeneration=30\n"

padded-refused : parse_canonical_state padded_document ≡ err non_canonical
unfolding parse_canonical_state canonical_state validate_state canonical_origin split match_string
    close_lines state_lines decimal parse_uint atoi text_beq all any field_value
padded-refused = refl

parse_canonical_state_iff_example :
    (parse_canonical_state third_document ≡ ok third_state)
    ↔ ((canonical_state third_state ≡ ok third_document) × (30 < 2 ^ 64))
parse_canonical_state_iff_example = parse_canonical_state_iff third_document third_state
