-- ===== src/TrustPolicy/Origin/Laws.antt =====
-- What the fold and the comparison of origins guarantee.
use cpak.Base.{
  ℕ, ◌≡◌, refl, sym, ap, ◌∙◌, ◌↔◌, Bool, true, ◌||◌, Option, none, some, List, [], ◌∷◌, arith, ◌==◌,
  nat_eq, all, all-append, Text, text_beq_iff, text_eq, all_mono,
}
use mathlib.Core.List.{append-nil}
use cpak.Go.Strings.{split, join}
use cpak.Go.Strings.Laws.{join-split}
use cpak.Go.Regexp.{match_string}
use cpak.Go.Regexp.Bytes.{mentions, all-mentions}
use cpak.TrustPolicy.Origin.{
  host_pattern, segment_pattern, name_class, fold_byte, fold_ascii, parts_fit, canonical_origin,
  same_read, same_origin,
}

fold_byte_idem : (c : ℕ) → fold_byte (fold_byte c) ≡ fold_byte c
unfolding fold_byte
fold_byte_idem c = ground arith

pub fold_ascii_idem : (s : Text) → fold_ascii (fold_ascii s) ≡ fold_ascii s
unfolding fold_ascii
fold_ascii_idem [] = refl
fold_ascii_idem (c ∷ s) = cc (fold_byte_idem c, fold_ascii_idem s)

canonical-fold : (v : Text) {w : Text} → canonical_origin v ≡ some w → w ≡ fold_ascii v
unfolding canonical_origin
canonical-fold v h = ground arith

canonical-parts_fit :
    (v : Text) {w : Text} → canonical_origin v ≡ some w → parts_fit (split b'/' w) ≡ true
canonical-parts_fit v {w} h = rw (canonical-fold v h) (unfold canonical_origin in ground arith)

-- Reading a canonical origin again gives it back.
pub canonical_origin_idem :
    (v : Text) {w : Text} → canonical_origin v ≡ some w → canonical_origin w ≡ some w
canonical_origin_idem v {w} h =
    rw (canonical-fold v h) (unfold canonical_origin in rw (fold_ascii_idem v) (ground arith))

-- The bytes that a canonical origin is spelled in: `[a-z0-9._-]` and the separator.
abbrev pub is_origin_byte : ℕ → Bool
is_origin_byte c = mentions c name_class || c == b'/'

-- Two values are the same origin exactly when both are read, and as one canonical origin.
pub same_origin_iff :
    (a b : Text)
    → (same_origin a b ≡ true)
      ↔ ((w : Text) × (canonical_origin a ≡ some w) × (canonical_origin b ≡ some w))
unfolding same_read canonical_origin same_origin
same_origin_iff a b = (to, from)
  where
    go : (x y : Option Text) → same_read x y ≡ true → (w : Text) × (x ≡ some w) × (y ≡ some w)
    go none y h = cc
    go (some x) none h = cc
    go (some x) (some y) h = (x, refl, ap some (sym ((text_beq_iff x y).0 h)))

    to :
        same_origin a b ≡ true
        → (w : Text) × (canonical_origin a ≡ some w) × (canonical_origin b ≡ some w)
    to h = go (canonical_origin a) (canonical_origin b) h

    from :
        (w : Text) × (canonical_origin a ≡ some w) × (canonical_origin b ≡ some w)
        → same_origin a b ≡ true
    from (w, p, q) = rw (p, q) ((text_beq_iff w w).1 refl)

pub same_origin_sym : (a b : Text) → same_origin a b ≡ true → same_origin b a ≡ true
same_origin_sym a b h =
    let (w, p, q) = (same_origin_iff a b).0 h in (same_origin_iff b a).1 (w, q, p)

-- Being the same origin is transitive.
pub same_origin_trans :
    (a b c : Text) → same_origin a b ≡ true → same_origin b c ≡ true → same_origin a c ≡ true
same_origin_trans a b c h k =
    let (w, p, q) = (same_origin_iff a b).0 h in
    let (w', p', q') = (same_origin_iff b c).0 k in (same_origin_iff a c).1 (w, p, cc)

host_bytes : (s : Text) → match_string host_pattern s ≡ true → all is_origin_byte s ≡ true
unfolding mentions
host_bytes s h = all_mono _ is_origin_byte s (λ c m. ground arith) (all-mentions host_pattern s h)

pub segment_bytes : (s : Text) → match_string segment_pattern s ≡ true → all is_origin_byte s ≡ true
unfolding mentions
segment_bytes s h =
    all_mono _ is_origin_byte s (λ c m. ground arith) (all-mentions segment_pattern s h)

-- A canonical origin is a host, an owner and a repository, each of its pattern.
pub record HasShape (w : Text) : Type 0 where
  pub host : Text
  pub owner : Text
  pub repository : Text
  pub spelled : w ≡ join b'/' (host ∷ owner ∷ repository ∷ [])
  pub host_ok : match_string host_pattern host ≡ true
  pub owner_ok : match_string segment_pattern owner ≡ true
  pub repository_ok : match_string segment_pattern repository ≡ true
  pub bytes_ok : all is_origin_byte w ≡ true

pub joined_bytes :
    (h o r : Text)
    → all is_origin_byte h ≡ true
    → all is_origin_byte o ≡ true
    → all is_origin_byte r ≡ true
    → all is_origin_byte (join b'/' (h ∷ o ∷ r ∷ [])) ≡ true
unfolding join all mentions
joined_bytes h o r ph po pr = simp (all-append, ph, po, pr, append-nil)

shape_of_parts :
    (w : Text) (pieces : List Text) → split b'/' w ≡ pieces → parts_fit pieces ≡ true → HasShape w
unfolding parts_fit
shape_of_parts w (h ∷ o ∷ r ∷ []) e fit =
    let spelled = sym (join-split b'/' w) ∙ ap (join b'/') e in
    record {
      host = h;
      owner = o;
      repository = r;
      spelled = spelled;
      host_ok = ground arith;
      owner_ok = ground arith;
      repository_ok = ground arith;
      bytes_ok = rw spelled (
          joined_bytes h o r (host_bytes h (ground arith)) (segment_bytes o (ground arith))
            (segment_bytes r (ground arith)));
    }
shape_of_parts w _ e fit = cc

-- Whatever is read as an origin has that shape, with no upper case and no byte outside the
-- patterns, and reads again as itself.
pub canonical_origin-HasShape :
    (v : Text) {w : Text} → canonical_origin v ≡ some w → HasShape w × (canonical_origin w ≡ some w)
canonical_origin-HasShape v {w} h =
    (shape_of_parts w (split b'/' w) refl (canonical-parts_fit v h), canonical_origin_idem v h)

-- What is the same origin as a value is the same origin as what the value is read as.
pub same_origin-read :
    (a b : Text) {w : Text}
    → same_origin a b ≡ true
    → canonical_origin b ≡ some w
    → same_origin a w ≡ true
same_origin-read a b {w} h r =
    let (u, p, q) = (same_origin_iff a b).0 h in
    (same_origin_iff a w).1 (w, cc, canonical_origin_idem b r)
