-- ===== src/Signature/Parsed.antt =====
-- What the parser of a signed state takes.
use cpak.Base.{
  ◌^◌, ◌<◌, ◌≡◌, sym, ap, ◌∙◌, ◌↔◌, false, ◌||◌, Option, none, some, List, [], ◌∷◌, arith, ◌!=◌,
  nat_eq, ok, Text, ascii, text_beq_iff, text_eq, int_eq, int_eq,
}
use cpak.Base.{passed, not_refused, ok_inj}
use cpak.Go.Decimal.{atoi, parse_uint-fits, parse_uint}
use mathlib.Core.Path.{subst}
use cpak.Go.Strings.{split}
use cpak.Signature.{
  State, StateError, canonical_state, parse_lines, parse_canonical_state, or_error, bad_generation,
  field_value, bad_abi, non_canonical, not_one_state,
}
use cpak.Signature.Laws.{canonical_state-parse}

or_error-read :
    {A : Type 0} (e : StateError) (x : Option A) {a : A} → or_error e x ≡ ok a → x ≡ some a
or_error-read e none h = cc
or_error-read e (some b) h = cc

not_apart : (a b : Text) → (a != b) ≡ false → a ≡ b
not_apart a b h = (text_beq_iff a b).0 (ground (arith, h))

parse_lines-canonical :
    (doc : Text) (lines : List Text) (s : State)
    → parse_lines doc lines ≡ ok s
    → (canonical_state s ≡ ok doc) × (s.generation < 2 ^ 64)
unfolding parse_lines
parse_lines-canonical doc (first ∷ l1 ∷ l2 ∷ l3 ∷ l4 ∷ l5 ∷ l6 ∷ last ∷ []) s h =
    let (_, h0) =
      not_refused ((first != ascii "cpak.signature.state.v1") || (last != [])) not_one_state _ h in
    let (a, _, h1) = passed (field_value l1 (ascii "abi=")) _ h0 in
    let (o, _, h2) = passed (field_value l2 (ascii "origin=")) _ h1 in
    let (m, _, h3) = passed (field_value l3 (ascii "manifest_sha256=")) _ h2 in
    let (i, _, h4) = passed (field_value l4 (ascii "image_digest=")) _ h3 in
    let (l, _, h5) = passed (field_value l5 (ascii "lock_sha256=")) _ h4 in
    let (g, _, h6) = passed (field_value l6 (ascii "generation=")) _ h5 in
    let (abi, _, h7) = passed (or_error bad_abi (atoi a)) _ h6 in
    let (n, read, h8) = passed (or_error bad_generation (parse_uint g)) _ h7 in
    let r : State = record {
      abi = abi;
      origin = o;
      manifest_sha256 = m;
      image_digest = i;
      lock_sha256 = l;
      generation = n;
    } in
    let (canonical, written, h9) = passed (canonical_state r) _ h8 in
    let (same, kept) = not_refused (canonical != doc) non_canonical (ok r) h9 in
    let spelled : canonical ≡ doc = not_apart canonical doc same in
    let result : r ≡ s = ok_inj kept in
    let fits : n < 2 ^ 64 = parse_uint-fits g (or_error-read bad_generation (parse_uint g) read) in
    (
      ap canonical_state (sym result) ∙ written ∙ ap ok spelled,
      subst (λ x. x.generation < 2 ^ 64) result fits,
    )
parse_lines-canonical doc _ s h = cc

-- A document is read as a state exactly when it is the canonical bytes of that state, and the
-- state's generation is a number of 64 bits.
pub parse_canonical_state_iff :
    (doc : Text) (s : State)
    → (parse_canonical_state doc ≡ ok s) ↔ ((canonical_state s ≡ ok doc) × (s.generation < 2 ^ 64))
unfolding parse_canonical_state
parse_canonical_state_iff doc s =
    (λ h. parse_lines-canonical doc (split b'\n' doc) s h, λ h. canonical_state-parse s doc h.0 h.1)
