-- ===== src/TrustPolicy/Reputation/Exceptions.antt =====
-- What the mode `require-established` lets through.
use cpak.Base.{
  ◌≡◌, refl, ap, ◌≢◌, ◌↔◌, ◌⊎◌, inl, inr, true, false, ◌&&◌, Option, none, some, List, [], ◌∷◌,
  Memᴰ, arith, if◌then◌else◌, ◌==◌, ◌!=◌, nat_eq, Bool-cases, Text, text_beq_iff, text_eq, int_eq,
}
use mathlib.Core.Path.{subst}
use cpak.Go.Time.{Instant}
use cpak.Reputation.{
  Status, status_eq, unknown, established, caution, blocked, unavailable, status_beq_iff, Result,
  unavailable_result,
}
use cpak.TrustPolicy.Policy.{
  ReputationMode, require_established, ReputationException, ReputationPolicy, Policy,
  current_abi_version,
}
use cpak.TrustPolicy.Reputation.{
  is_expired, in_scope, first_exception, reputation_exception, checked_result, excepted, is_off,
  not_enforced, ReputationDecision, by_mode, reputation_allow, reputation_deny,
  blocked_or_established, evaluates_reputation,
}

-- An exception of the list whose scope holds the question and that has not ended.
pub record HasException (es : List ReputationException) (status : Status)
    (publisher_id origin : Text) (now : Instant) : Type 0 where
  pub entry : ReputationException
  pub listed : Memᴰ entry es
  pub scope : in_scope entry status publisher_id origin ≡ true
  pub current : is_expired entry now ≡ false

module _ (status : Status) (publisher_id origin : Text) (now : Instant) where
  HasException-cons :
      (x : ReputationException) (es : List ReputationException)
      → HasException es status publisher_id origin now
      → HasException (x ∷ es) status publisher_id origin now
  HasException-cons x es h = record {
    entry = h.entry;
    listed = Memᴰ.tail h.listed;
    scope = h.scope;
    current = h.current;
  }

  first_exception-some :
      (es : List ReputationException) (e : ReputationException)
      → first_exception es status publisher_id origin now ≡ some e
      → HasException es status publisher_id origin now
  unfolding first_exception
  first_exception-some [] e h = cc
  first_exception-some (x ∷ es) e h = elim (Bool-cases (in_scope x status publisher_id origin)) [
    | inr out ↦ HasException-cons x es (first_exception-some es e (rw out at h))
    | inl inside ↦ elim (Bool-cases (is_expired x now)) [
      | inl past ↦ HasException-cons x es (first_exception-some es e (rw (inside, past) at h))
      | inr current ↦ record {
        entry = x;
        listed = Memᴰ.head refl;
        scope = inside;
        current = current;
      }
    ]
  ]

  first_exception-ne-none :
      (es : List ReputationException) (y : ReputationException)
      → Memᴰ y es
      → in_scope y status publisher_id origin ≡ true
      → is_expired y now ≡ false
      → first_exception es status publisher_id origin now ≢ none
  unfolding first_exception
  first_exception-ne-none [] y m s c h = elim m [ ]
  first_exception-ne-none (x ∷ es) y (Memᴰ.head at) s c h = ground (
    arith,
    ap (λ (z : ReputationException). in_scope z status publisher_id origin) at,
    ap (λ (z : ReputationException). is_expired z now) at,
  )
  first_exception-ne-none (x ∷ es) y (Memᴰ.tail m) s c h =
      ground (arith, first_exception-ne-none es y m s c)

  -- A status that an administrator may make an exception for.
  abbrev pub IsExcepted : ReputationPolicy → Type 0
  IsExcepted rp =
      ((status ≡ unknown) ⊎ (status ≡ caution))
      × HasException rp.exceptions status publisher_id origin now

  excepted_iff :
      (rp : ReputationPolicy)
      → ((excepted (reputation_exception rp status publisher_id origin now)).allowed ≡ true)
        ↔ IsExcepted rp
  unfolding reputation_exception reputation_allow reputation_deny
  excepted_iff rp = (to, from)
    where
      found :
          (o : Option ReputationException)
          → first_exception rp.exceptions status publisher_id origin now ≡ o
          → (excepted o).allowed ≡ true
          → HasException rp.exceptions status publisher_id origin now
      found none e h = cc
      found (some x) e h = first_exception-some rp.exceptions x e

      to :
          (excepted (reputation_exception rp status publisher_id origin now)).allowed ≡ true
          → IsExcepted rp
      to h = elim (Bool-cases ((status != unknown) && (status != caution))) [
        | inl other ↦ absurd (ground arith)
        | inr usual ↦ (
          elim (Bool-cases (status == unknown)) [
            | inl e ↦ inl ((status_beq_iff status unknown).0 e)
            | inr e ↦ inr ((status_beq_iff status caution).0 (ground arith))
          ],
          found _ refl (rw usual at h),
        )
      ]

      from :
          IsExcepted rp
          → (excepted (reputation_exception rp status publisher_id origin now)).allowed ≡ true
      from (u, x) = ground (
        arith,
        status_beq_iff status unknown,
        status_beq_iff status caution,
        first_exception-ne-none rp.exceptions x.entry x.listed x.scope x.current,
      )

module _ (rp : ReputationPolicy) (result : Result) (publisher_id : Text) where
  checked_result-eq :
      result.provider_id ≡ rp.provider_id
      → result.publisher_id ≡ publisher_id
      → checked_result rp result publisher_id ≡ result
  unfolding checked_result
  checked_result-eq p q = ground (
    arith,
    text_beq_iff result.provider_id rp.provider_id,
    text_beq_iff result.publisher_id publisher_id,
  )

  -- A result that is not the configured provider's answer about the publisher is unavailable.
  checked_result-ne-unavailable :
      (checked_result rp result publisher_id).status ≢ unavailable
      → (result.provider_id ≡ rp.provider_id) × (result.publisher_id ≡ publisher_id)
  unfolding checked_result unavailable_result
  checked_result-ne-unavailable h = (
    ground (
      arith,
      text_beq_iff result.provider_id rp.provider_id,
      text_beq_iff result.publisher_id publisher_id,
      status_beq_iff result.status unavailable,
    ),
    ground (
      arith,
      text_beq_iff result.provider_id rp.provider_id,
      text_beq_iff result.publisher_id publisher_id,
      text_beq_iff publisher_id publisher_id,
      status_beq_iff result.status unavailable,
    ),
  )

module _ (rp : ReputationPolicy) (status : Status) (publisher_id origin : Text)
    (now : Instant) where
  -- What the mode answers to a status.
  answer : ReputationDecision
  answer =
      blocked_or_established status
        (excepted (reputation_exception rp status publisher_id origin now))

  answer_iff :
      (answer.allowed ≡ true)
      ↔ ((status ≡ established) ⊎ IsExcepted status publisher_id origin now rp)
  unfolding answer blocked_or_established reputation_allow reputation_deny
  answer_iff = (to, from)
    where
      to :
          answer.allowed ≡ true
          → (status ≡ established) ⊎ IsExcepted status publisher_id origin now rp
      to h = elim (Bool-cases (status == established)) [
        | inl e ↦ inl ((status_beq_iff status established).0 e)
        | inr e ↦ inr ((excepted_iff status publisher_id origin now rp).0 (ground arith))
      ]

      from :
          (status ≡ established) ⊎ IsExcepted status publisher_id origin now rp
          → answer.allowed ≡ true
      from (inl e) = rw e
      from (inr (u, x)) = ground (
        arith,
        (excepted_iff status publisher_id origin now rp).1 (u, x),
        status_beq_iff status blocked,
        status_beq_iff status established,
      )

by_mode-answer :
    (mode : ReputationMode) (rp : ReputationPolicy) (result : Result) (publisher_id origin : Text)
    (now : Instant)
    → mode ≡ require_established
    → (if is_off mode then not_enforced else by_mode mode rp result publisher_id origin now)
      ≡ answer rp result.status publisher_id origin now
unfolding answer by_mode
by_mode-answer require_established rp result publisher_id origin now e = refl
by_mode-answer _ rp result publisher_id origin now e = cc

evaluates-answer :
    (p : Policy) (rp : ReputationPolicy) (result : Result) (publisher_id origin : Text)
    (now : Instant)
    → p.abi ≡ current_abi_version
    → p.reputation ≡ some rp
    → rp.mode ≡ require_established
    → evaluates_reputation p result publisher_id origin now
      ≡ answer rp (checked_result rp result publisher_id).status publisher_id origin now
unfolding evaluates_reputation
evaluates-answer p rp result publisher_id origin now a r m =
    rw (a, r)
      (by_mode-answer rp.mode rp (checked_result rp result publisher_id) publisher_id origin now m)

not_unavailable :
    {X : Type 0} (s : Status)
    → (s ≡ established) ⊎ (((s ≡ unknown) ⊎ (s ≡ caution)) × X)
    → s ≢ unavailable
not_unavailable s (inl e) h = cc
not_unavailable s (inr (inl e, x)) h = cc
not_unavailable s (inr (inr e, x)) h = cc

-- On a host that requires an established publisher, the stage allows exactly an answer of the
-- configured provider about this publisher that says established, or that says unknown or caution
-- where an exception of the policy covers publisher, origin and status and has not ended.
pub require_established_iff :
    (p : Policy) (rp : ReputationPolicy) (result : Result) (publisher_id origin : Text)
    (now : Instant)
    → p.abi ≡ current_abi_version
    → p.reputation ≡ some rp
    → rp.mode ≡ require_established
    → ((evaluates_reputation p result publisher_id origin now).allowed ≡ true) ↔ (
        (result.provider_id ≡ rp.provider_id)
        × (result.publisher_id ≡ publisher_id)
        × ((result.status ≡ established) ⊎ IsExcepted result.status publisher_id origin now rp))
require_established_iff p rp result publisher_id origin now a r m =
    rw (evaluates-answer p rp result publisher_id origin now a r m) (to, from)
  where
    checked : Result
    checked = checked_result rp result publisher_id

    to :
        (answer rp checked.status publisher_id origin now).allowed ≡ true
        → (result.provider_id ≡ rp.provider_id)
          × (result.publisher_id ≡ publisher_id)
          × ((result.status ≡ established) ⊎ IsExcepted result.status publisher_id origin now rp)
    to h =
        let why = (answer_iff rp checked.status publisher_id origin now).0 h in
        let own : (result.provider_id ≡ rp.provider_id) × (result.publisher_id ≡ publisher_id) =
          checked_result-ne-unavailable rp result publisher_id
            (not_unavailable checked.status why) in
        let same = checked_result-eq rp result publisher_id own.0 own.1 in
        (
          own.0,
          own.1,
          subst
              (λ (x : Result).
                (x.status ≡ established) ⊎ IsExcepted x.status publisher_id origin now rp)
              same why,
        )

    from :
        (result.provider_id ≡ rp.provider_id)
          × (result.publisher_id ≡ publisher_id)
          × ((result.status ≡ established) ⊎ IsExcepted result.status publisher_id origin now rp)
        → (answer rp checked.status publisher_id origin now).allowed ≡ true
    from (o, q, why) =
        rw (checked_result-eq rp result publisher_id o q)
          ((answer_iff rp result.status publisher_id origin now).1 why)
