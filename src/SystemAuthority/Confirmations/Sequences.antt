-- ===== src/SystemAuthority/Confirmations/Sequences.antt =====
-- Sequences of operations on the store of tokens.
use cpak.Base.{
  ◌+◌, ◌<◌, ◌≡◌, refl, sym, ap, ◌∙◌, ◌≢◌, inl, inr, true, false, ◌||◌, Option, none, some, [], ◌∷◌,
  arith, ltb, leb, ◌==◌, nat_eq, Bool-cases, length, Text, text_beq_iff, text_eq, int_eq, int_eq,
}
use mathlib.Core.Path.{subst}
use cpak.Base.{some_inj}
use cpak.Go.Time.{Instant}
use cpak.Reputation.{Result}
use cpak.TrustPolicy.Reputation.{ReputationDecision}
use cpak.SystemAuthority.{Enrolment}
use cpak.SystemAuthority.Confirmations.{
  Challenge, confirmation_ttl, confirmation_limit, Entries, entry_of, without, prune, oldest_from,
  make_room, new_challenge, enter, issue, accepted, consume, matches_enrolment, matches_warning,
}
use cpak.SystemAuthority.Confirmations.Laws.{
  consume_gone, consume_takes, entry_of-prune, new_challenge-IsFor, entered_stands,
}

entry_of-without-none :
    (token t : Text) (es : Entries)
    → entry_of token es ≡ none
    → entry_of token (without t es) ≡ none
unfolding entry_of without
entry_of-without-none token t [] h = refl
entry_of-without-none token t ((k, c) ∷ es) h = elim (Bool-cases (k == token)) [
  | inl same ↦ cc (rw same at h)
  | inr other ↦
      let rest = entry_of-without-none token t es (rw other at h) in
      elim (Bool-cases (k == t)) [ inl gone ↦ rw gone rest | inr kept ↦ rw (kept, other) rest ]
]

entry_of-make_room-none :
    (token : Text) (es : Entries) → entry_of token es ≡ none → entry_of token (make_room es) ≡ none
unfolding make_room
entry_of-make_room-none token es h = elim (Bool-cases (leb confirmation_limit (length es))) [
  | inl full ↦ rw full (entry_of-without-none token (oldest_from [] 0 es) es h)
  | inr room ↦ rw room h
]

apart : (t token : Text) → t ≢ token → (t == token) ≡ false
apart t token h = elim (Bool-cases (t == token)) [
  | inl same ↦ absurd (h ((text_beq_iff t token).0 same))
  | inr other ↦ other
]

-- A token that is not the one that is dropped stays where it is.
entry_of-without-other :
    (token t : Text) (es : Entries) → t ≢ token → entry_of token (without t es) ≡ entry_of token es
unfolding entry_of without
entry_of-without-other token t [] h = refl
entry_of-without-other token t ((k, c) ∷ es) h =
    let rest = entry_of-without-other token t es h in
    elim (Bool-cases (k == t)) [
      | inl gone ↦
          let other : (k == token) ≡ false =
            apart k token λ e. h (sym ((text_beq_iff k t).0 gone) ∙ e) in
          rw (gone, other) rest
      | inr kept ↦ elim (Bool-cases (k == token)) [
        | inl same ↦ rw (kept, same) refl
        | inr other ↦ rw (kept, other) rest
      ]
    ]

entry_of-prune-live :
    (token : Text) (now : Instant) (es : Entries) (c : Challenge)
    → now < c.expires_at
    → entry_of token es ≡ some c
    → entry_of token (prune now es) ≡ some c
unfolding entry_of prune
entry_of-prune-live token now [] c soon h = cc
entry_of-prune-live token now ((k, x) ∷ es) c soon h = elim (Bool-cases (k == token)) [
  | inl same ↦
      let found : x ≡ c = some_inj (rw same at h) in
      let live : ltb now x.expires_at ≡ true = rw found (ground (arith, soon)) in
      rw (live, same) (ap some found)
  | inr other ↦
      let rest = entry_of-prune-live token now es c soon (rw other at h) in
      elim (Bool-cases (ltb now x.expires_at)) [
        | inl live ↦ rw (live, other) rest
        | inr past ↦ rw past rest
      ]
]

module _ (sha256_hex : Text → Text) (token : Text) where
  -- Any operations, but no issue of the token itself: a token is 32 random bytes.
  pub data Later (es : Entries) : Entries → Type 0 where
    stay : Later es es
    issues :
        {fs : Entries}
        → Later es fs
        → (e : Enrolment) (result : Result) (decision : ReputationDecision) (now : Instant)
          (o : Option Text)
        → o ≢ some token
        → Later es (issue sha256_hex fs e result decision now o).0
    consumes :
        {fs : Entries}
        → Later es fs
        → (t : Text) (e : Enrolment) (now : Instant) → Later es (consume sha256_hex fs t e now).0

  enter-none :
      (es : Entries) (c : Option Challenge) (o : Option Text) (now : Instant)
      → o ≢ some token
      → entry_of token es ≡ none
      → entry_of token (enter sha256_hex es c o now).0 ≡ none
  unfolding enter entry_of
  enter-none es none o now other h = h
  enter-none es (some c) none now other h = h
  enter-none es (some c) (some t) now other h =
      let apart_ = apart t token (λ e. other (ap some e)) in
      rw apart_ (
        entry_of-without-none token t (make_room (prune now es))
          (entry_of-make_room-none token (prune now es) (entry_of-prune token now es h)))

  consume-none :
      (es : Entries) (t : Text) (e : Enrolment) (now : Instant)
      → entry_of token es ≡ none
      → entry_of token (consume sha256_hex es t e now).0 ≡ none
  unfolding consume
  consume-none es t e now h = elim (Bool-cases (t == [] || ltb 64 (length t))) [
    | inl bad ↦ rw bad h
    | inr fine ↦
        rw fine (entry_of-without-none token t (prune now es) (entry_of-prune token now es h))
  ]

  Later-none : (es fs : Entries) → Later es fs → entry_of token es ≡ none → entry_of token fs ≡ none
  unfolding issue
  Later-none es fs stay h = h
  Later-none es fs (issues {fs = gs} r e result decision now o other) h =
      enter-none gs (new_challenge sha256_hex e result decision now) o now other
        (Later-none es gs r h)
  Later-none es fs (consumes {fs = gs} r t e now) h = consume-none gs t e now (Later-none es gs r h)

  -- A token that was accepted is not accepted again, for any enrolment and at any time, whatever is
  -- issued and consumed in between, as long as the same token is not issued anew.
  pub consume_once :
      (es fs : Entries) (e e' : Enrolment) (now now' : Instant) (c : Challenge)
      → (consume sha256_hex es token e now).1 ≡ some c
      → Later (consume sha256_hex es token e now).0 fs
      → (consume sha256_hex fs token e' now').1 ≡ none
  consume_once es fs e e' now now' c h between = consume_gone sha256_hex fs token e' now' (
      Later-none (consume sha256_hex es token e now).0 fs between
        (consume_takes sha256_hex es token e now c h))

  -- Operations before a deadline that concern other tokens and find room in the store.
  pub data Waiting (deadline : Instant) (es : Entries) : Entries → Type 0 where
    stay : Waiting deadline es es
    issues :
        {fs : Entries}
        → Waiting deadline es fs
        → (e : Enrolment) (result : Result) (decision : ReputationDecision) (now : Instant)
          (o : Option Text)
        → now < deadline
        → o ≢ some token
        → length (prune now fs) < confirmation_limit
        → Waiting deadline es (issue sha256_hex fs e result decision now o).0
    consumes :
        {fs : Entries}
        → Waiting deadline es fs
        → (t : Text) (e : Enrolment) (now : Instant) → now < deadline
        → t ≢ token
        → Waiting deadline es (consume sha256_hex fs t e now).0

  enter_keeps :
      (es : Entries) (x : Option Challenge) (o : Option Text) (now : Instant) (c : Challenge)
      → now < c.expires_at
      → o ≢ some token
      → length (prune now es) < confirmation_limit
      → entry_of token es ≡ some c
      → entry_of token (enter sha256_hex es x o now).0 ≡ some c
  unfolding enter entry_of make_room
  enter_keeps es none o now c soon other room h = h
  enter_keeps es (some x) none now c soon other room h = h
  enter_keeps es (some x) (some t) now c soon other room h =
      let differs : t ≢ token = λ e. other (ap some e) in
      let free : leb confirmation_limit (length (prune now es)) ≡ false = ground (arith, room) in
      rw (apart t token differs, free)
        (entry_of-without-other token t (prune now es) differs
          ∙ entry_of-prune-live token now es c soon h)

  consume_keeps :
      (es : Entries) (t : Text) (e : Enrolment) (now : Instant) (c : Challenge)
      → now < c.expires_at
      → t ≢ token
      → entry_of token es ≡ some c
      → entry_of token (consume sha256_hex es t e now).0 ≡ some c
  unfolding consume
  consume_keeps es t e now c soon other h = elim (Bool-cases (t == [] || ltb 64 (length t))) [
    | inl bad ↦ rw bad h
    | inr fine ↦ rw fine (
        entry_of-without-other token t (prune now es) other
        ∙ entry_of-prune-live token now es c soon h)
  ]

  Waiting-keeps :
      (c : Challenge) (es fs : Entries)
      → Waiting c.expires_at es fs
      → entry_of token es ≡ some c
      → entry_of token fs ≡ some c
  unfolding issue
  Waiting-keeps c es fs stay h = h
  Waiting-keeps c es fs (issues {fs = gs} r e result decision now o soon other room) h =
      enter_keeps gs (new_challenge sha256_hex e result decision now) o now c soon other room
        (Waiting-keeps c es gs r h)
  Waiting-keeps c es fs (consumes {fs = gs} r t e now soon other) h =
      consume_keeps gs t e now c soon other (Waiting-keeps c es gs r h)

  stands_accepted :
      (es : Entries) (e : Enrolment) (now : Instant) (c : Challenge)
      → (token == [] || ltb 64 (length token)) ≡ false
      → now < c.expires_at
      → matches_enrolment sha256_hex c e ≡ true
      → entry_of token es ≡ some c
      → (consume sha256_hex es token e now).1 ≡ some c
  unfolding consume accepted
  stands_accepted es e now c fine soon matches h =
      rw (fine, entry_of-prune-live token now es c soon h, matches) refl

  -- A token of 1 to 64 bytes that was issued is accepted in the next five minutes, for the enrolment
  -- it was issued for, and confirms the warning that was shown: after any operations that were made
  -- within those five minutes, that issued and consumed other tokens only, and that found room in the
  -- store for each token they issued.
  pub issue-consume :
      (es fs : Entries) (e : Enrolment) (result : Result) (decision : ReputationDecision)
      (now now' : Instant)
      → (token == [] || ltb 64 (length token)) ≡ false
      → (issue sha256_hex es e result decision now (some token)).1 ≡ some token
      → Waiting
          (now + confirmation_ttl)
          (issue sha256_hex es e result decision now (some token)).0
          fs
      → now' < now + confirmation_ttl
      → (c : Challenge) × ((consume sha256_hex fs token e now').1 ≡ some c)
        × (matches_warning c result decision ≡ true)
  unfolding issue
  issue-consume es fs e result decision now now' fine h between soon =
      let (c, made, entered) =
        entered_stands sha256_hex e result decision now es
          (new_challenge sha256_hex e result decision now) token h in
      let for_it = new_challenge-IsFor sha256_hex e result decision now c made in
      let start : Entries = (issue sha256_hex es e result decision now (some token)).0 in
      let wait : Waiting c.expires_at start fs =
        subst (λ d. Waiting d start fs) (sym for_it.lasts) between in
      let live : now' < c.expires_at = subst (λ d. now' < d) (sym for_it.lasts) soon in
      (
        c,
        stands_accepted fs e now' c fine live for_it.for_enrolment
            (Waiting-keeps c start fs wait entered),
        for_it.for_warning,
      )
