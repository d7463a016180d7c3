-- ===== src/SystemAuthority/Orders/Laws.antt =====
-- How far an application has come: the order that a record, a tombstone and an offer are compared in.
use cpak.Base.{
  ℕ, ◌≤◌, ◌≡◌, refl, inl, inr, Bool, true, false, not, Option, none, some, arith, ltb,
  if◌then◌else◌, nat_eq, Bool-cases, Option-cases, ok, Text, [], ◌==◌, ◌&&◌, pos, text_eq, int_eq,
  int_eq,
}
use cpak.Base.{not_refused, not_refused_last}
use cpak.SystemAuthority.{
  stored_state, evidence_of, signed_state_of, SignedState, Enrolment, Tombstone, anchor_downgrade,
  signature_downgrade,
}
use cpak.SystemAuthority.Orders.{
  reaches, against, orders_after, orders_after_removal, raised_by, raised_generation, sealed,
  buried_of,
}

-- A generation, whether a publisher had signed, and the generation of what it signed.
pub record Level : Type 0 where
  pub generation : ℕ
  pub signed : Bool
  pub signature_generation : ℕ

abbrev pub is_signed : Option SignedState → Bool
is_signed none = false
is_signed (some s) = true

abbrev pub signed_at : Option SignedState → ℕ
signed_at none = 0
signed_at (some s) = s.state.generation

abbrev pub signature_level : ℕ → Option SignedState → Level
signature_level n s = record {
  generation = n;
  signed = is_signed s;
  signature_generation = signed_at s;
}

-- The older shape of a signed state and the tagged one are of one level.
pub signature_level-stored_state :
    (n : ℕ) (s : Option SignedState) → signature_level n (stored_state s) ≡ signature_level n s
unfolding stored_state evidence_of signed_state_of
signature_level-stored_state n none = refl
signature_level-stored_state n (some s) =
    elim (Bool-cases (s.abi == pos 0 && (s.kind == [] && s.media_type == []))) [
      | inl older ↦ rw older refl
      | inr tagged ↦ rw tagged refl
    ]

abbrev pub level_of : Enrolment → Level
level_of e = signature_level e.anchor.generation e.signature

abbrev pub level_left : Tombstone → Level
level_left t = record {
  generation = t.generation;
  signed = t.signed;
  signature_generation = t.signature_generation;
}

pub record AtMost (a b : Level) : Type 0 where
  pub generation_ok : a.generation ≤ b.generation
  pub signed_ok : a.signed ≡ true → b.signed ≡ true
  pub signature_ok : a.signed ≡ true → a.signature_generation ≤ b.signature_generation

pub AtMost-refl : (a : Level) → AtMost a a
AtMost-refl a = record {
  generation_ok = omega arith;
  signed_ok = λ h. h;
  signature_ok = λ h. omega arith;
}

pub AtMost-trans : (a b c : Level) → AtMost a b → AtMost b c → AtMost a c
AtMost-trans a b c h k = record {
  generation_ok = omega (arith, h.generation_ok, k.generation_ok);
  signed_ok = λ s. k.signed_ok (h.signed_ok s);
  signature_ok = λ s. omega (arith, h.signature_ok s, k.signature_ok (h.signed_ok s));
}

reaches-AtMost :
    (n least m : ℕ) (offered : Option SignedState) (origin : Text)
    → n ≤ m
    → reaches least offered origin ≡ ok tt
    → AtMost
        (record { generation = n; signed = true; signature_generation = least })
        (signature_level m offered)
unfolding reaches
reaches-AtMost n least m none origin le h = cc
reaches-AtMost n least m (some s) origin le h =
    let enough = not_refused_last _ (signature_downgrade least s.state.generation) h in
    record { generation_ok = le; signed_ok = λ _. refl; signature_ok = λ _. ground (arith, enough) }

-- What is ordered after a record is at least where the record is.
pub orders_after-AtMost :
    (r e : Enrolment) → orders_after r e ≡ ok tt → AtMost (level_of r) (level_of e)
unfolding orders_after against
orders_after-AtMost r e h =
    let (low, h1) =
      not_refused (ltb e.anchor.generation r.anchor.generation)
        (anchor_downgrade r.anchor.generation e.anchor.generation) _ h in
    signed_or_not r.signature (ground (arith, low)) h1
  where
    signed_or_not :
        (s : Option SignedState)
        → r.anchor.generation ≤ e.anchor.generation
        → against s e ≡ ok tt
        → AtMost (signature_level r.anchor.generation s) (level_of e)
    signed_or_not none le k = record {
      generation_ok = le;
      signed_ok = λ f. cc f;
      signature_ok = λ f. cc f;
    }
    signed_or_not (some s) le k =
        reaches-AtMost r.anchor.generation s.state.generation e.anchor.generation e.signature
          e.anchor.origin le k

-- And so it is after a removal.
pub orders_after_removal-AtMost :
    (t : Tombstone) (e : Enrolment)
    → orders_after_removal t e ≡ ok tt
    → AtMost (level_left t) (level_of e)
unfolding orders_after_removal
orders_after_removal-AtMost t e h =
    let (low, h1) =
      not_refused (ltb e.anchor.generation t.generation)
        (anchor_downgrade t.generation e.anchor.generation) _ h in
    signed_or_not t.signed (ground (arith, low)) h1
  where
    signed_or_not :
        (s : Bool)
        → t.generation ≤ e.anchor.generation
        → (if not s then ok tt else reaches t.signature_generation e.signature e.anchor.origin)
          ≡ ok tt
        → AtMost
            (record {
              generation = t.generation;
              signed = s;
              signature_generation = t.signature_generation;
            })
            (level_of e)
    signed_or_not false le k = record {
      generation_ok = le;
      signed_ok = λ f. cc f;
      signature_ok = λ f. cc f;
    }
    signed_or_not true le k =
        reaches-AtMost t.generation t.signature_generation e.anchor.generation e.signature
          e.anchor.origin le k

-- A tombstone is left where the record was.
pub level_left-buried_of : (e : Enrolment) → level_left (buried_of e) ≡ level_of e
unfolding buried_of sealed
level_left-buried_of e = elim (Option-cases e.signature) [
  | inl h ↦ rw h refl
  | inr (s, h) ↦ rw h refl
]

raised_generation-ge :
    (t other : Tombstone)
    → (t.generation ≤ (raised_generation t other).generation)
      × (other.generation ≤ (raised_generation t other).generation)
unfolding raised_generation
raised_generation-ge t other = elim (Bool-cases (ltb t.generation other.generation)) [
  | inl h ↦ rw h (ground (arith, h), ground arith)
  | inr h ↦ rw h (ground arith, ground (arith, h))
]

raised_generation-signature :
    (t other : Tombstone)
    → ((raised_generation t other).signed ≡ t.signed)
      × ((raised_generation t other).signature_generation ≡ t.signature_generation)
unfolding raised_generation
raised_generation-signature t other = elim (Bool-cases (ltb t.generation other.generation)) [
  | inl h ↦ rw h (refl, refl)
  | inr h ↦ rw h (refl, refl)
]

-- Raising a tombstone by another gives one that is above both.
pub raised_by-AtMost :
    (t other : Tombstone)
    → AtMost (level_left t) (level_left (raised_by t other))
      × AtMost (level_left other) (level_left (raised_by t other))
unfolding raised_by
raised_by-AtMost t other =
    let (own, others) = raised_generation-ge t other in
    let (s, g) = raised_generation-signature t other in
    (
      record {
        generation_ok = own;
        signed_ok = λ h. ground arith;
        signature_ok = λ h. ground arith;
      },
      record {
        generation_ok = others;
        signed_ok = λ h. ground arith;
        signature_ok = λ h. ground arith;
      },
    )

pub buried_of-origin : (e : Enrolment) → (buried_of e).origin ≡ e.anchor.origin
unfolding buried_of sealed
buried_of-origin e = elim (Option-cases e.signature) [ inl h ↦ rw h refl | inr (s, h) ↦ rw h refl ]

pub raised_by-origin : (t other : Tombstone) → (raised_by t other).origin ≡ t.origin
unfolding raised_by raised_generation
raised_by-origin t other = elim (Bool-cases (ltb t.generation other.generation)) [
  | inl h ↦ rw h refl
  | inr h ↦ rw h refl
]
