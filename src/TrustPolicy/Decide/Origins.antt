-- ===== src/TrustPolicy/Decide/Origins.antt =====
-- `AllowsOrigin` against its description.
use cpak.Base.{
  ◌≡◌, refl, sym, ◌↔◌, ◌⊎◌, inl, inr, true, false, Option, none, some, List, [], ◌∷◌, Memᴰ, arith,
  nat_eq, Option-cases, any-eq-true, any_of_mem, Text, text_eq, int_eq,
}
use mathlib.Core.Path.{subst}
use cpak.TrustPolicy.Origin.{canonical_origin, same_origin}
use cpak.TrustPolicy.Origin.Laws.{same_origin_iff}
use cpak.TrustPolicy.Policy.{Revocation, Policy, Decision}
use cpak.TrustPolicy.Decide.{
  settled, withdrawn, listed_origin, for_origin, origin_rules, allows_origin,
}

-- No revocation of the whole origin stands in the list.
abbrev pub NotWithdrawn : List Revocation → Text → Type 0
NotWithdrawn rs w = (r : Revocation) → Memᴰ r rs → r.generation ≡ 0 → same_origin r.origin w ≡ false

abbrev pub IsListed : List Text → Text → Type 0
IsListed approved w = (approved ≡ []) ⊎ ((o : Text) × Memᴰ o approved × (same_origin o w ≡ true))

-- What an administrator has said of an origin that may be installed.
pub record MayInstall (p : Policy) (origin : Text) : Type 0 where
  pub wanted : Text
  pub read : canonical_origin origin ≡ some wanted
  pub standing : NotWithdrawn p.revoked wanted
  pub listed : IsListed p.approved_origins wanted

pub withdrawn-none : (rs : List Revocation) (w : Text) → withdrawn rs w ≡ none → NotWithdrawn rs w
unfolding withdrawn
withdrawn-none [] w h r m g = elim m [ ]
withdrawn-none (x ∷ rs) w h r (Memᴰ.head e) g =
    subst (λ (y : Revocation). y.generation ≡ 0 → same_origin y.origin w ≡ false) (sym e)
      (λ g'. ground arith) g
withdrawn-none (x ∷ rs) w h r (Memᴰ.tail m) g = withdrawn-none rs w (ground arith) r m g

withdrawn_of : (rs : List Revocation) (w : Text) → NotWithdrawn rs w → withdrawn rs w ≡ none
unfolding withdrawn
withdrawn_of [] w h = refl
withdrawn_of (x ∷ rs) w h =
    ground (arith, h x (Memᴰ.head refl), withdrawn_of rs w (λ r m. h r (Memᴰ.tail m)))

withdrawn_refuses :
    (rs : List Revocation) (w : Text) (d : Decision) → withdrawn rs w ≡ some d → d.allowed ≡ false
unfolding withdrawn
withdrawn_refuses [] w d h = cc
withdrawn_refuses (x ∷ rs) w d h = ground (arith, withdrawn_refuses rs w d)

IsListed-iff :
    (approved : List Text) (w : Text)
    → ((listed_origin approved w).allowed ≡ true) ↔ IsListed approved w
unfolding listed_origin
IsListed-iff [] w = (λ h. inl refl, λ h. refl)
IsListed-iff (o ∷ os) w = (to, from)
  where
    to : (listed_origin (o ∷ os) w).allowed ≡ true → IsListed (o ∷ os) w
    to h = inr (any-eq-true (λ x. same_origin x w) (o ∷ os) (ground arith))

    from : IsListed (o ∷ os) w → (listed_origin (o ∷ os) w).allowed ≡ true
    from (inl e) = cc
    from (inr (x, m, e)) = rw (any_of_mem (λ x. same_origin x w) x (o ∷ os) m e)

-- The rules at an origin that was read.
origin_rules_iff :
    (p : Policy) (w : Text)
    → ((origin_rules p w).allowed ≡ true)
      ↔ (NotWithdrawn p.revoked w × IsListed p.approved_origins w)
unfolding origin_rules
origin_rules_iff p w = elim (Option-cases (withdrawn p.revoked w)) [
  | inl e ↦ (
    λ h. (withdrawn-none p.revoked w e, (IsListed-iff p.approved_origins w).0 (rw e at h)),
    λ h. rw e ((IsListed-iff p.approved_origins w).1 h.1),
  )
  | inr (d, e) ↦ (
    λ h. ground (arith, withdrawn_refuses p.revoked w d e),
    λ h. cc (withdrawn_of p.revoked w h.0, e),
  )
]

-- Where the policy leaves the question open, an origin is allowed exactly when it is read, no
-- revocation of the whole origin stands, and the list is empty or names it.
pub allows_origin_iff :
    (p : Policy) (origin : Text)
    → settled p ≡ none
    → ((allows_origin p origin).allowed ≡ true) ↔ MayInstall p origin
unfolding allows_origin
allows_origin_iff p origin open_ = rw open_ (to, from)
  where
    at_read :
        (o : Option Text)
        → canonical_origin origin ≡ o
        → (for_origin origin (origin_rules p) o).allowed ≡ true
        → MayInstall p origin
    at_read none e h = cc
    at_read (some w) e h =
        let (standing, listed) = (origin_rules_iff p w).0 h in
        record { wanted = w; read = e; standing = standing; listed = listed }

    to :
        (for_origin origin (origin_rules p) (canonical_origin origin)).allowed ≡ true
        → MayInstall p origin
    to = at_read (canonical_origin origin) refl

    from :
        MayInstall p origin
        → (for_origin origin (origin_rules p) (canonical_origin origin)).allowed ≡ true
    from m = rw m.read ((origin_rules_iff p m.wanted).1 (m.standing, m.listed))

-- Two spellings of one origin get the same decision, reason included.
pub allows_origin-same :
    (p : Policy) (a b : Text) → same_origin a b ≡ true → allows_origin p a ≡ allows_origin p b
unfolding allows_origin
allows_origin-same p a b h = let (w, ra, rb) = (same_origin_iff a b).0 h in rw (ra, rb)
