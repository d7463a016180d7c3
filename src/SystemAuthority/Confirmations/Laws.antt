-- ===== src/SystemAuthority/Confirmations/Laws.antt =====
-- A token is used once, and confirms what it was issued for.
use cpak.Base.{
  ℕ, ◌+◌, ◌<◌, ◌≡◌, refl, sym, ap, ◌∙◌, inl, inr, true, not, ◌||◌, Option, none, some, [], ◌∷◌,
  Memᴰ, arith, ltb, nat_beq, nat_beq_iff, ◌==◌, nat_eq, Bool-cases, Option-cases, length, Outcome,
  ok, err, ◌>>=◌, Text, text_beq, text_beq_iff, text_eq, int_eq, int_eq,
}
use mathlib.Core.Path.{ap₂}
use mathlib.Core.Path.{subst}
use cpak.Base.{both, Outcome-cases, some_inj}
use cpak.Go.Time.{Instant}
use cpak.Reputation.{Status, status_eq, status_beq, status_beq_iff, Result}
use cpak.TrustPolicy.Reputation.{ReputationDecision}
use cpak.SystemAuthority.{Enrolment, SignedState}
use cpak.Signature.{StateError, state_digest}
use cpak.SystemAuthority.Confirmations.{
  Challenge, confirmation_ttl, Entries, entry_of, without, prune, digest_of, same_digest,
  matches_enrolment, challenge_of, new_challenge, enter, accepted, consume, matches_warning,
}

entry_of-without : (token : Text) (es : Entries) → entry_of token (without token es) ≡ none
unfolding entry_of without
entry_of-without token [] = refl
entry_of-without token ((t, c) ∷ es) = elim (Bool-cases (t == token)) [
  | inl h ↦ rw h (entry_of-without token es)
  | inr h ↦ rw (h, h) (entry_of-without token es)
]

pub entry_of-prune :
    (token : Text) (now : Instant) (es : Entries)
    → entry_of token es ≡ none
    → entry_of token (prune now es) ≡ none
unfolding entry_of prune
entry_of-prune token now [] h = refl
entry_of-prune token now ((t, c) ∷ es) h = elim (Bool-cases (t == token)) [
  | inl same ↦ cc (rw same at h)
  | inr other ↦ elim (Bool-cases (not (ltb now c.expires_at))) [
    | inl past ↦ rw past (entry_of-prune token now es (rw other at h))
    | inr kept ↦ rw (kept, other) (entry_of-prune token now es (rw other at h))
  ]
]

module _ (sha256_hex : Text → Text) where
  pub consume_gone :
      (es : Entries) (token : Text) (e : Enrolment) (now : Instant)
      → entry_of token es ≡ none
      → (consume sha256_hex es token e now).1 ≡ none
  unfolding consume accepted
  consume_gone es token e now h = elim (Bool-cases (token == [] || ltb 64 (length token))) [
    | inl bad ↦ rw bad refl
    | inr fine ↦ rw (fine, entry_of-prune token now es h) refl
  ]

  pub consume_takes :
      (es : Entries) (token : Text) (e : Enrolment) (now : Instant) (c : Challenge)
      → (consume sha256_hex es token e now).1 ≡ some c
      → entry_of token (consume sha256_hex es token e now).0 ≡ none
  unfolding consume
  consume_takes es token e now c h = elim (Bool-cases (token == [] || ltb 64 (length token))) [
    | inl bad ↦ cc (rw bad at h)
    | inr fine ↦ rw fine (entry_of-without token (prune now es))
  ]

-- A challenge that is made for an enrolment and a warning.
pub record IsFor (sha256_hex : Text → Text) (c : Challenge) (e : Enrolment) (result : Result)
    (decision : ReputationDecision) (now : Instant) : Type 0 where
  pub lasts : c.expires_at ≡ now + confirmation_ttl
  pub for_enrolment : matches_enrolment sha256_hex c e ≡ true
  pub for_warning : matches_warning c result decision ≡ true

pub text_same : (t : Text) → text_beq t t ≡ true
text_same t = (text_beq_iff t t).1 refl

nat_same : (n : ℕ) → nat_beq n n ≡ true
nat_same n = (nat_beq_iff n n).1 refl

status_same : (x : Status) → status_beq x x ≡ true
status_same x = (status_beq_iff x x).1 refl

module _ (sha256_hex : Text → Text) (e : Enrolment) (result : Result)
    (decision : ReputationDecision) (now : Instant) where
  made-IsFor :
      (digest : Text) (c : Challenge)
      → digest_of sha256_hex e.signature ≡ ok (some digest)
      → challenge_of sha256_hex e result decision now (ok (some digest)) ≡ some c
      → IsFor sha256_hex c e result decision now
  unfolding challenge_of matches_enrolment matches_warning same_digest
  made-IsFor digest c q h =
      subst (λ x. IsFor sha256_hex x e result decision now) (some_inj h)
        (record {
          lasts = refl;
          for_enrolment =
              rw
                (
                  q,
                  nat_same e.anchor.uid,
                  text_same e.anchor.origin,
                  nat_same e.anchor.generation,
                  text_same e.anchor.launch_root,
                  text_same digest,
                )
                refl;
          for_warning =
              rw
                (
                  text_same result.provider_id,
                  text_same result.publisher_id,
                  status_same result.status,
                  nat_same result.sequence,
                  text_same result.reason_code,
                  text_same decision.reason_code,
                )
                refl;
        })

  pub new_challenge-IsFor :
      (c : Challenge)
      → new_challenge sha256_hex e result decision now ≡ some c
      → IsFor sha256_hex c e result decision now
  unfolding new_challenge challenge_of
  new_challenge-IsFor c h = elim (Outcome-cases (digest_of sha256_hex e.signature)) [
    | inl (x, bad) ↦ cc (rw bad at h)
    | inr (o, good) ↦ elim (Option-cases o) [
      | inl nobody ↦ cc (rw (good, nobody) at h)
      | inr (digest, is_digest) ↦
          let whole = good ∙ ap ok is_digest in made-IsFor digest c whole (rw whole at h)
    ]
  ]

  -- What was entered stands in the store under its token.
  pub entered_stands :
      (es : Entries) (o : Option Challenge) (token : Text)
      → (enter sha256_hex es o (some token) now).1 ≡ some token
      → (c : Challenge) × (o ≡ some c)
        × (entry_of token (enter sha256_hex es o (some token) now).0 ≡ some c)
  unfolding enter entry_of
  entered_stands es none token h = cc
  entered_stands es (some c) token h = (c, refl, rw (text_same token) refl)

module _ (sha256_hex : Text → Text) where
  accepted-matches :
      (o : Option Challenge) (e : Enrolment) (c : Challenge)
      → accepted sha256_hex o e ≡ some c
      → (o ≡ some c) × (matches_enrolment sha256_hex c e ≡ true)
  unfolding accepted
  accepted-matches none e c h = cc
  accepted-matches (some x) e c h = elim (Bool-cases (matches_enrolment sha256_hex x e)) [
    | inl yes_it_does ↦
        let same = some_inj (rw yes_it_does at h) in
        (ap some same, subst (λ y. matches_enrolment sha256_hex y e ≡ true) same yes_it_does)
    | inr no_it_does_not ↦ cc (rw no_it_does_not at h)
  ]

  same_digest-made :
      (m : Outcome StateError Text) (expected : Text)
      → same_digest sha256_hex (m >>= λ digest. ok (some digest)) expected ≡ true
      → m ≡ ok expected
  unfolding same_digest
  same_digest-made (err x) expected h = cc
  same_digest-made (ok digest) expected h = ap ok (sym ((text_beq_iff expected digest).0 h))

  signature-digested :
      (s : Option SignedState) (expected : Text)
      → same_digest sha256_hex (digest_of sha256_hex s) expected ≡ true
      → (signed : SignedState) × (s ≡ some signed)
        × (state_digest sha256_hex signed.state ≡ ok expected)
  unfolding digest_of same_digest
  signature-digested none expected h = cc
  signature-digested (some s) expected h =
      (s, refl, same_digest-made (state_digest sha256_hex s.state) expected h)

  entry_of-mem :
      (token : Text) (now : Instant) (es : Entries) (c : Challenge)
      → entry_of token (prune now es) ≡ some c
      → Memᴰ (token, c) es × (now < c.expires_at)
  unfolding entry_of prune
  entry_of-mem token now [] c h = cc
  entry_of-mem token now ((t, x) ∷ es) c h = elim (Bool-cases (ltb now x.expires_at)) [
    | inl live ↦ elim (Bool-cases (t == token)) [
      | inl same ↦
          let found : x ≡ c = some_inj (rw (live, same) at h) in
          let named : t ≡ token = (text_beq_iff t token).0 same in
          (
            Memᴰ.head (ap₂ (λ a b. (a, b)) (sym named) (sym found)),
            subst (λ y. now < y.expires_at) found (ground (arith, live)),
          )
      | inr other ↦
          let (m, soon) = entry_of-mem token now es c (rw (live, other) at h) in (Memᴰ.tail m, soon)
    ]
    | inr past ↦ let (m, soon) = entry_of-mem token now es c (rw past at h) in (Memᴰ.tail m, soon)
  ]

  -- A token is accepted only if the store has it with a challenge that has not expired, and only for
  -- the account, the origin, the generation, the launch root and the digest of the signed state that
  -- the challenge names: a confirmation cannot be carried over to another enrolment.
  pub consume-matches :
      (es : Entries) (token : Text) (e : Enrolment) (now : Instant) (c : Challenge)
      → (consume sha256_hex es token e now).1 ≡ some c
      → Memᴰ (token, c) es
        × (now < c.expires_at)
        × (c.uid ≡ e.anchor.uid)
        × (c.origin ≡ e.anchor.origin)
        × (c.generation ≡ e.anchor.generation)
        × (c.launch_root ≡ e.anchor.launch_root)
        × ((signed : SignedState) × (e.signature ≡ some signed)
            × (state_digest sha256_hex signed.state ≡ ok c.state_digest))
  unfolding consume
  consume-matches es token e now c h = elim (Bool-cases (token == [] || ltb 64 (length token))) [
    | inl bad ↦ cc (rw bad at h)
    | inr fine ↦
        let (found, matches) =
          accepted-matches (entry_of token (prune now es)) e c (rw fine at h) in
        let (member, soon) = entry_of-mem token now es c found in
        let (names, states) = both (unfold matches_enrolment in matches) in
        let (uid, origin) = both names in
        let (numbers, digested) = both states in
        let (generation, root) = both numbers in
        (
          member,
          soon,
          (nat_beq_iff c.uid e.anchor.uid).0 uid,
          (text_beq_iff c.origin e.anchor.origin).0 origin,
          (nat_beq_iff c.generation e.anchor.generation).0 generation,
          (text_beq_iff c.launch_root e.anchor.launch_root).0 root,
          signature-digested e.signature c.state_digest digested,
        )
  ]
