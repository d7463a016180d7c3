-- ===== src/Go/Regexp/Bytes.antt =====
-- A text that a pattern accepts holds only bytes of the pattern's classes.
use cpak.Base.{
  ℕ, Bool, true, false, ◌&&◌, ◌||◌, [], ◌∷◌, Text, Memᴰ, ◌≡◌, refl, inl, inr, arith, Bool-cases,
  all, all_of_mem,
}
use cpak.Go.Regexp.{
  Regexp, fail, blank, class, seq, alt, star, in_class, nullable, derive, match_string,
}

-- Some class of the pattern holds the byte.
unfoldable pub mentions : ℕ → Regexp → Bool
unfolding in_class
mentions c fail = false
mentions c blank = false
mentions c (class ranges) = in_class c ranges
mentions c (seq a b) = mentions c a || mentions c b
mentions c (alt a b) = mentions c a || mentions c b
mentions c (star a) = mentions c a

-- The pattern accepts nothing, to be seen from its form.
is_void : Regexp → Bool
is_void fail = true
is_void blank = false
is_void (class ranges) = false
is_void (seq a b) = is_void a || is_void b
is_void (alt a b) = is_void a && is_void b
is_void (star a) = false

nullable_void : (r : Regexp) → is_void r ≡ true → nullable r ≡ false
unfolding is_void nullable
nullable_void fail h = refl
nullable_void blank h = cc
nullable_void (class ranges) h = refl
nullable_void (seq a b) h = ground (arith, nullable_void a, nullable_void b)
nullable_void (alt a b) h = ground (arith, nullable_void a, nullable_void b)
nullable_void (star a) h = cc

derive_void : (c : ℕ) (r : Regexp) → is_void r ≡ true → is_void (derive c r) ≡ true
unfolding is_void derive
derive_void c fail h = refl
derive_void c blank h = cc
derive_void c (class ranges) h = cc
derive_void c (seq a b) h =
    ground (arith, derive_void c a, derive_void c b, nullable_void a, nullable_void b)
derive_void c (alt a b) h = ground (arith, derive_void c a, derive_void c b)
derive_void c (star a) h = cc

match_string_void : (r : Regexp) (s : Text) → is_void r ≡ true → match_string r s ≡ false
unfolding match_string
match_string_void r [] h = nullable_void r h
match_string_void r (c ∷ s) h = match_string_void (derive c r) s (derive_void c r h)

derive_unmentioned : (c : ℕ) (r : Regexp) → mentions c r ≡ false → is_void (derive c r) ≡ true
unfolding is_void derive mentions
derive_unmentioned c fail h = refl
derive_unmentioned c blank h = refl
derive_unmentioned c (class ranges) h = ground arith
derive_unmentioned c (seq a b) h = ground (arith, derive_unmentioned c a, derive_unmentioned c b)
derive_unmentioned c (alt a b) h = ground (arith, derive_unmentioned c a, derive_unmentioned c b)
derive_unmentioned c (star a) h = ground (arith, derive_unmentioned c a)

mentions-derive : (c d : ℕ) (r : Regexp) → mentions c r ≡ false → mentions c (derive d r) ≡ false
unfolding derive mentions
mentions-derive c d fail h = refl
mentions-derive c d blank h = refl
mentions-derive c d (class ranges) h = ground arith
mentions-derive c d (seq a b) h = ground (arith, mentions-derive c d a, mentions-derive c d b)
mentions-derive c d (alt a b) h = ground (arith, mentions-derive c d a, mentions-derive c d b)
mentions-derive c d (star a) h = ground (arith, mentions-derive c d a)

pub match_string_unmentioned :
    (c : ℕ) (r : Regexp) (s : Text) → mentions c r ≡ false → Memᴰ c s → match_string r s ≡ false
unfolding match_string
match_string_unmentioned c r [] h m = elim m [ ]
match_string_unmentioned c r (d ∷ s) h (Memᴰ.head e) =
    match_string_void (derive d r) s (derive_unmentioned d r (cc (h, e)))
match_string_unmentioned c r (d ∷ s) h (Memᴰ.tail m) =
    match_string_unmentioned c (derive d r) s (mentions-derive c d r h) m

pub all-mentions :
    (r : Regexp) (s : Text) → match_string r s ≡ true → all (λ c. mentions c r) s ≡ true
all-mentions r s h = all_of_mem _ s λ c m. elim (Bool-cases (mentions c r)) [
  | inl yes_it_is ↦ yes_it_is
  | inr absent ↦ cc (match_string_unmentioned c r s absent m)
]
