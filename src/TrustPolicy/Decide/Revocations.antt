-- ===== src/TrustPolicy/Decide/Revocations.antt =====
-- `IsRevoked` against its description, and against `AllowsOrigin`.
use cpak.Base.{
  not_true, ℕ, ◌≡◌, refl, sym, ◌∙◌, ◌≢◌, ◌↔◌, ◌⊎◌, inl, inr, true, false, Option, none, some, List,
  [], ◌∷◌, Memᴰ, arith, nat_eq, Option-cases, Text, text_eq, int_eq,
}
use mathlib.Core.Path.{subst}
use mathlib.Core.Bool.{true≢false}
use cpak.TrustPolicy.Origin.{canonical_origin, same_origin}
use cpak.TrustPolicy.Origin.Laws.{same_origin_iff, same_origin-read}
use cpak.TrustPolicy.Policy.{Revocation, Policy, Decision}
use cpak.TrustPolicy.Decide.{
  settled, for_origin, revocation_of, revocation_rules, is_revoked, allows_origin,
}
use cpak.TrustPolicy.Decide.Origins.{allows_origin_iff}

-- No revocation in the list names the whole origin or this generation of it.
abbrev pub NotRevoked : List Revocation → Text → ℕ → Type 0
NotRevoked rs w g =
    (r : Revocation)
    → Memᴰ r rs
    → same_origin r.origin w ≡ true
    → (r.generation ≢ 0) × (r.generation ≢ g)

-- What stands for an installation that may start.
pub record MayLaunch (p : Policy) (origin : Text) (generation : ℕ) : Type 0 where
  pub wanted : Text
  pub read : canonical_origin origin ≡ some wanted
  pub standing : NotRevoked p.revoked wanted generation

revocation_of-none :
    (rs : List Revocation) (w : Text) (g : ℕ) → revocation_of rs w g ≡ none → NotRevoked rs w g
unfolding revocation_of
revocation_of-none [] w g h r m s = elim m [ ]
revocation_of-none (x ∷ rs) w g h r (Memᴰ.head e) s =
    subst
      (λ (y : Revocation). same_origin y.origin w ≡ true → (y.generation ≢ 0) × (y.generation ≢ g))
      (sym e) (λ s'. ground arith) s
revocation_of-none (x ∷ rs) w g h r (Memᴰ.tail m) s = revocation_of-none rs w g (ground arith) r m s

revocation_of_not :
    (rs : List Revocation) (w : Text) (g : ℕ) → NotRevoked rs w g → revocation_of rs w g ≡ none
unfolding revocation_of
revocation_of_not [] w g h = refl
revocation_of_not (x ∷ rs) w g h =
    ground (arith, h x (Memᴰ.head refl), revocation_of_not rs w g (λ r m. h r (Memᴰ.tail m)))

revocation_of_refuses :
    (rs : List Revocation) (w : Text) (g : ℕ) (d : Decision)
    → revocation_of rs w g ≡ some d
    → d.allowed ≡ false
unfolding revocation_of
revocation_of_refuses [] w g d h = cc
revocation_of_refuses (x ∷ rs) w g d h = ground (arith, revocation_of_refuses rs w g d)

revocation_rules_iff :
    (p : Policy) (w : Text) (g : ℕ)
    → ((revocation_rules p g w).allowed ≡ true) ↔ NotRevoked p.revoked w g
unfolding revocation_rules
revocation_rules_iff p w g = elim (Option-cases (revocation_of p.revoked w g)) [
  | inl e ↦ (λ h. revocation_of-none p.revoked w g e, λ h. rw e (ground arith))
  | inr (d, e) ↦ (
    λ h. ground (arith, revocation_of_refuses p.revoked w g d e),
    λ h. cc (revocation_of_not p.revoked w g h, e),
  )
]

-- Where the policy leaves the question open, a launch may go ahead exactly when the origin is read
-- and no revocation names the whole origin or this generation.
pub is_revoked_iff :
    (p : Policy) (origin : Text) (generation : ℕ)
    → settled p ≡ none
    → ((is_revoked p origin generation).allowed ≡ true) ↔ MayLaunch p origin generation
unfolding is_revoked
is_revoked_iff p origin g open_ = rw open_ (to, from)
  where
    at_read :
        (o : Option Text)
        → canonical_origin origin ≡ o
        → (for_origin origin (revocation_rules p g) o).allowed ≡ true
        → MayLaunch p origin g
    at_read none e h = cc
    at_read (some w) e h = record {
      wanted = w;
      read = e;
      standing = (revocation_rules_iff p w g).0 h;
    }

    to :
        (for_origin origin (revocation_rules p g) (canonical_origin origin)).allowed ≡ true
        → MayLaunch p origin g
    to = at_read (canonical_origin origin) refl

    from :
        MayLaunch p origin g
        → (for_origin origin (revocation_rules p g) (canonical_origin origin)).allowed ≡ true
    from m = rw m.read ((revocation_rules_iff p m.wanted g).1 m.standing)

-- Two spellings of one origin get the same decision, reason included.
pub is_revoked-same :
    (p : Policy) (a b : Text) (g : ℕ) → same_origin a b ≡ true → is_revoked p a g ≡ is_revoked p b g
unfolding is_revoked
is_revoked-same p a b g h = let (w, ra, rb) = (same_origin_iff a b).0 h in rw (ra, rb)

-- Where the policy leaves the question open, an origin that may be installed may launch when its
-- generation is unknown, and one that may launch at some generation may launch when its generation
-- is unknown.
pub is_revoked_zero :
    (p : Policy) (origin : Text) (generation : ℕ)
    → settled p ≡ none
    → ((allows_origin p origin).allowed ≡ true) ⊎ ((is_revoked p origin generation).allowed ≡ true)
    → (is_revoked p origin 0).allowed ≡ true
is_revoked_zero p origin g open_ (inl h) =
    let m = (allows_origin_iff p origin open_).0 h in
    (is_revoked_iff p origin 0 open_).1 (record {
      wanted = m.wanted;
      read = m.read;
      standing = λ r k s.
          let nonzero : r.generation ≢ 0 = λ z. true≢false (sym s ∙ m.standing r k z) in
          (nonzero, nonzero);
    })
is_revoked_zero p origin g open_ (inr h) =
    let m = (is_revoked_iff p origin g open_).0 h in
    (is_revoked_iff p origin 0 open_).1 (record {
      wanted = m.wanted;
      read = m.read;
      standing = λ r k s. ((m.standing r k s).0, (m.standing r k s).0);
    })

-- Where the policy leaves the question open, a revocation of the whole origin beats every
-- approval: no entry of any list, and no generation, makes the origin installable or lets it
-- launch.
pub revoked_origin_refused :
    (p : Policy) (origin : Text) (generation : ℕ) (r : Revocation)
    → settled p ≡ none
    → Memᴰ r p.revoked
    → r.generation ≡ 0
    → same_origin r.origin origin ≡ true
    → ((allows_origin p origin).allowed ≡ false)
      × ((is_revoked p origin generation).allowed ≡ false)
revoked_origin_refused p origin generation r open_ m z s = (
  not_true _ λ h.
      let i = (allows_origin_iff p origin open_).0 h in
      true≢false (sym (same_origin-read r.origin origin s i.read) ∙ i.standing r m z),
  not_true _ λ h.
      let l = (is_revoked_iff p origin generation open_).0 h in
      (l.standing r m (same_origin-read r.origin origin s l.read)).0 z,
)
