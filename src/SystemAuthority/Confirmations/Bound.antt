-- ===== src/SystemAuthority/Confirmations/Bound.antt =====
-- The store of tokens stays small.
use cpak.Base.{
  ◌≤◌, ◌<◌, ◌≡◌, refl, sym, ◌⊎◌, inl, inr, Bool, true, false, not, ◌||◌, Option, none, some, [],
  ◌∷◌, arith, ltb, leb, ◌==◌, nat_eq, Bool-cases, length, Text, text_beq, text_beq_iff, text_eq,
  int_eq, int_eq,
}
use cpak.Go.Time.{Instant}
use cpak.Reputation.{status_eq, Result}
use cpak.TrustPolicy.Reputation.{ReputationDecision}
use cpak.SystemAuthority.{Enrolment}
use cpak.SystemAuthority.Confirmations.{
  Challenge, confirmation_limit, Entries, without, prune, oldest_from, make_room, new_challenge,
  enter, issue, consume,
}

has_token : Text → Entries → Bool
has_token token [] = false
has_token token ((t, c) ∷ es) = t == token || has_token token es

without-le : (token : Text) (es : Entries) → length (without token es) ≤ length es
unfolding without
without-le token [] = omega arith
without-le token ((t, c) ∷ es) = elim (Bool-cases (t == token)) [
  | inl h ↦ rw h (omega (arith, without-le token es))
  | inr h ↦ rw h (omega (arith, without-le token es))
]

without-lt :
    (token : Text) (es : Entries)
    → has_token token es ≡ true
    → length (without token es) < length es
unfolding without has_token
without-lt token [] h = cc
without-lt token ((t, c) ∷ es) h = elim (Bool-cases (t == token)) [
  | inl k ↦ rw k (omega (arith, without-le token es))
  | inr k ↦ rw k (omega (arith, without-lt token es (rw k at h)))
]

has_token-here :
    (k t : Text) (c : Challenge) (es : Entries) → k ≡ t → has_token k ((t, c) ∷ es) ≡ true
unfolding has_token
has_token-here k t c es h =
    let same : text_beq t k ≡ true = (text_beq_iff t k).1 (sym h) in rw same refl

has_token-later :
    (k t : Text) (c : Challenge) (es : Entries)
    → has_token k es ≡ true
    → has_token k ((t, c) ∷ es) ≡ true
unfolding has_token
has_token-later k t c es h = elim (Bool-cases (t == k)) [
  | inl same ↦ rw same refl
  | inr other ↦ rw other h
]

-- What is found is the best so far, or in the list.
oldest_from-in :
    (token : Text) (expires : Instant) (es : Entries)
    → (oldest_from token expires es ≡ token) ⊎ (has_token (oldest_from token expires es) es ≡ true)
unfolding oldest_from
oldest_from-in token expires [] = inl refl
oldest_from-in token expires ((t, c) ∷ es) =
    elim (Bool-cases (token == [] || ltb c.expires_at expires)) [
      | inl h ↦ elim (oldest_from-in t c.expires_at es) [
        | inl same ↦ inr (rw h (has_token-here (oldest_from t c.expires_at es) t c es same))
        | inr later ↦ inr (rw h (has_token-later (oldest_from t c.expires_at es) t c es later))
      ]
      | inr h ↦ elim (oldest_from-in token expires es) [
        | inl same ↦ inl (rw h same)
        | inr later ↦ inr (rw h (has_token-later (oldest_from token expires es) t c es later))
      ]
    ]

oldest_there :
    (t : Text) (c : Challenge) (es : Entries)
    → has_token (oldest_from [] 0 ((t, c) ∷ es)) ((t, c) ∷ es) ≡ true
unfolding oldest_from text_beq
oldest_there t c es = elim (oldest_from-in t c.expires_at es) [
  | inl same ↦ has_token-here (oldest_from t c.expires_at es) t c es same
  | inr later ↦ has_token-later (oldest_from t c.expires_at es) t c es later
]

make_room-lt :
    (es : Entries) → length es ≤ confirmation_limit → length (make_room es) < confirmation_limit
unfolding make_room
make_room-lt [] h = ground arith
make_room-lt ((t, c) ∷ es) h = elim (Bool-cases (leb confirmation_limit (length ((t, c) ∷ es)))) [
  | inl full ↦
      let fewer = without-lt (oldest_from [] 0 ((t, c) ∷ es)) ((t, c) ∷ es) (oldest_there t c es) in
      rw full (omega (arith, h, fewer))
  | inr room ↦ rw room (ground (arith, room))
]

prune-le : (now : Instant) (es : Entries) → length (prune now es) ≤ length es
unfolding prune
prune-le now [] = omega arith
prune-le now ((t, c) ∷ es) = elim (Bool-cases (not (ltb now c.expires_at))) [
  | inl h ↦ rw h (omega (arith, prune-le now es))
  | inr h ↦ rw h (omega (arith, prune-le now es))
]

module _ (sha256_hex : Text → Text) where
  enter_bound :
      (es : Entries) (c : Option Challenge) (token : Option Text) (now : Instant)
      → length es ≤ confirmation_limit
      → length (enter sha256_hex es c token now).0 ≤ confirmation_limit
  unfolding enter
  enter_bound es none token now h = h
  enter_bound es (some c) none now h = h
  enter_bound es (some c) (some token) now h =
      let pruned = prune-le now es in
      let room = make_room-lt (prune now es) (omega (arith, pruned, h)) in
      let less = without-le token (make_room (prune now es)) in omega (arith, room, less)

  -- The store of tokens never holds more than its limit of 1024, whatever is issued and consumed.
  pub confirmations_bound :
      (es : Entries) (e : Enrolment) (result : Result) (decision : ReputationDecision)
      (now : Instant) (token : Option Text) (asked : Text)
      → length es ≤ confirmation_limit
      → (length (issue sha256_hex es e result decision now token).0 ≤ confirmation_limit)
        × (length (consume sha256_hex es asked e now).0 ≤ confirmation_limit)
  unfolding issue consume
  confirmations_bound es e result decision now token asked h = (
    enter_bound es (new_challenge sha256_hex e result decision now) token now h,
    elim (Bool-cases (asked == [] || ltb 64 (length asked))) [
      | inl bad ↦ rw bad h
      | inr fine ↦
          let pruned = prune-le now es in
          let less = without-le asked (prune now es) in rw fine (omega (arith, pruned, less, h))
    ],
  )
