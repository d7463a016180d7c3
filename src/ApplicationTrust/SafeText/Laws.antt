-- ===== src/ApplicationTrust/SafeText/Laws.antt =====
-- `SanitizeText` against `safeText`.
use cpak.Base.{
  ℕ, zero, suc, ◌≤◌, ◌≡◌, refl, ◌↔◌, ◌⊎◌, inl, inr, Bool, true, false, Option, none, some, [], ◌∷◌,
  arith, leb, nat_eq, Bool-cases, any, length, ok, Text, text_eq, int_eq,
}
use mathlib.Core.Path.{subst}
use cpak.Go.Utf8.{Progress, ready, expect, lead, advance, completes, valid, to_valid}
use cpak.Go.Utf8.Laws.{to_valid-valid, to_valid-id}
use cpak.ApplicationTrust.SafeText.{is_control, safe_text, strip, take, shrink, cut, sanitize_text}

-- The bytes that a rune expects are above the control characters.
abbrev IsAbove : Progress → Type 0
IsAbove ready = Unit
IsAbove (expect lo hi n) = 0x80 ≤ lo

advance-IsAbove : (p q : Progress) (c : ℕ) → IsAbove p → advance p c ≡ some q → IsAbove q
unfolding advance lead
advance-IsAbove p ready c a h = tt
advance-IsAbove ready (expect lo hi n) c a h = ground arith
advance-IsAbove (expect lo' hi' zero) (expect lo hi n) c a h = ground arith
advance-IsAbove (expect lo' hi' (suc m)) (expect lo hi n) c a h = ground arith

-- A control character stands between two runes and is one.
advance_control :
    (p : Progress) (c : ℕ)
    → IsAbove p
    → is_control c ≡ true
    → ((p ≡ ready) × (advance p c ≡ some ready)) ⊎ (advance p c ≡ none)
unfolding advance lead is_control
advance_control ready c a h = inl (refl, ground arith)
advance_control (expect lo hi n) c a h = inr (ground arith)

completes-cons :
    (p : Progress) (c : ℕ) (s : Text)
    → completes p (c ∷ s) ≡ elim (advance p c) [ none ↦ false | some q ↦ completes q s ]
unfolding completes
completes-cons ready c s = refl
completes-cons (expect lo hi n) c s = refl

completes_step :
    (p : Progress) (c : ℕ) (s : Text)
    → completes p (c ∷ s) ≡ true
    → (q : Progress) × (advance p c ≡ some q) × (completes q s ≡ true)
completes_step p c s h = go (advance p c) refl (rw completes-cons at h)
  where
    go :
        (o : Option Progress)
        → advance p c ≡ o
        → (elim o [ none ↦ false | some q ↦ completes q s ]) ≡ true
        → (q : Progress) × (advance p c ≡ some q) × (completes q s ≡ true)
    go none e k = cc
    go (some q) e k = (q, e, k)

completes-strip :
    (p : Progress) (s : Text) → IsAbove p → completes p s ≡ true → completes p (strip s) ≡ true
unfolding strip
completes-strip p [] a h = h
completes-strip p (c ∷ s) a h =
    let (q, e, k) = completes_step p c s h in
    let ih = completes-strip q s (advance-IsAbove p q c a e) k in
    elim (Bool-cases (is_control c)) [
      | inl control ↦ rw control (elim (advance_control p c a control) [
        | inl (r, e') ↦ subst (λ (x : Progress). completes x (strip s) ≡ true) (cc (e, e', r)) ih
        | inr e' ↦ cc
      ])
      | inr plain ↦ rw (plain, completes-cons, e) ih
    ]

no_control-strip : (s : Text) → any is_control (strip s) ≡ false
unfolding strip any
no_control-strip [] = refl
no_control-strip (c ∷ s) = elim (Bool-cases (is_control c)) [
  | inl e ↦ rw e (no_control-strip s)
  | inr e ↦ rw e (rw e (no_control-strip s))
]

no_control-take : (n : ℕ) (s : Text) → any is_control s ≡ false → any is_control (take n s) ≡ false
unfolding any
no_control-take zero s h = refl
no_control-take (suc n) [] h = refl
no_control-take (suc n) (c ∷ s) h = ground (arith, no_control-take n s)

length-take : (n : ℕ) (s : Text) → length (take n s) ≤ n
length-take zero s = omega arith
length-take (suc n) [] = omega arith
length-take (suc n) (c ∷ s) = omega (arith, length-take n s)

-- What `safeText` asks, except that the text is not empty.
record IsSafe (limit : ℕ) (s : Text) : Type 0 where
  whole : valid s ≡ true
  short : length s ≤ limit
  printable : any is_control s ≡ false

shrink-IsSafe :
    (n limit : ℕ) (s : Text) → n ≤ limit → any is_control s ≡ false → IsSafe limit (shrink n s)
unfolding shrink
shrink-IsSafe zero limit s h c = record {
  whole = unfold completes in refl;
  short = omega arith;
  printable = unfold any in refl;
}
shrink-IsSafe (suc n) limit s h c = elim (Bool-cases (valid (take (suc n) s))) [
  | inl e ↦
      rw (e, shrink)
        (record {
          whole = e;
          short = omega (arith, length-take (suc n) s);
          printable = no_control-take (suc n) s c;
        })
  | inr e ↦ rw (e, shrink) (shrink-IsSafe n limit s (omega arith) c)
]

cut-IsSafe :
    (limit : ℕ) (s : Text) → valid s ≡ true → any is_control s ≡ false → IsSafe limit (cut limit s)
unfolding cut
cut-IsSafe limit s v c = elim (Bool-cases (leb (length s) limit)) [
  | inl e ↦ rw e (record { whole = v; short = ground arith; printable = c })
  | inr e ↦ rw e (shrink-IsSafe limit limit s (omega arith) c)
]

sanitize_text-suc :
    (value : Text) (n : ℕ) → sanitize_text value (suc n) ≡ cut (suc n) (strip (to_valid value))
unfolding sanitize_text
sanitize_text-suc value n = ground arith

sanitize_text-IsSafe : (value : Text) (limit : ℕ) → IsSafe limit (sanitize_text value limit)
unfolding sanitize_text
sanitize_text-IsSafe value zero = record {
  whole = unfold completes in refl;
  short = omega arith;
  printable = unfold any in refl;
}
sanitize_text-IsSafe value (suc n) = rw sanitize_text-suc (
    cut-IsSafe (suc n) (strip (to_valid value))
      (completes-strip ready (to_valid value) tt (to_valid-valid value))
      (no_control-strip (to_valid value)))

safe_text_of : (limit : ℕ) (s : Text) → IsSafe limit s → safe_text s limit true ≡ ok tt
unfolding safe_text
safe_text_of limit s h = ground arith

safe_text-IsSafe :
    (limit : ℕ) (s : Text) (may_be_empty : Bool)
    → safe_text s limit may_be_empty ≡ ok tt
    → IsSafe limit s
unfolding safe_text
safe_text-IsSafe limit s may_be_empty h = record {
  whole = ground arith;
  short = ground arith;
  printable = ground arith;
}

strip-id : (s : Text) → any is_control s ≡ false → strip s ≡ s
unfolding strip any
strip-id [] h = refl
strip-id (c ∷ s) h = ground (arith, strip-id s)

sanitize_text-id :
    (value : Text) (limit : ℕ) → IsSafe limit value → sanitize_text value limit ≡ value
unfolding sanitize_text cut
sanitize_text-id [] zero h = refl
sanitize_text-id (c ∷ s) zero h = absurd (omega (arith, h.short))
sanitize_text-id s (suc n) h =
    simp (to_valid-id s h.whole, strip-id s h.printable) (ground (arith, h.short))

-- What `SanitizeText` returns passes `safeText` at its limit, and a text that passes it is returned
-- as it is: for every text, sanitizing changes nothing exactly when the text was safe.
pub sanitize_text_safe :
    (value : Text) (limit : ℕ)
    → (safe_text (sanitize_text value limit) limit true ≡ ok tt)
      × ((sanitize_text value limit ≡ value) ↔ (safe_text value limit true ≡ ok tt))
sanitize_text_safe value limit = (
  safe_text_of limit _ (sanitize_text-IsSafe value limit),
  (
    λ e. safe_text_of limit value (subst (IsSafe limit) e (sanitize_text-IsSafe value limit)),
    λ h. sanitize_text-id value limit (safe_text-IsSafe limit value true h),
  ),
)
