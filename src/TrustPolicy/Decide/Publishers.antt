-- ===== src/TrustPolicy/Decide/Publishers.antt =====
-- `AllowsPublisher` against its description.
use cpak.Base.{
  is_empty_of_mem, ℕ, ◌≡◌, refl, ap, ◌≢◌, ◌↔◌, ◌⊎◌, inl, inr, Bool, true, false, ◌&&◌, Option, none,
  some, List, [], ◌∷◌, Memᴰ, arith, ◌==◌, nat_eq, Bool-cases, length, Text, text_beq_iff, text_eq,
  int_eq,
}
use cpak.TrustPolicy.Origin.{canonical_origin, same_origin}
use cpak.TrustPolicy.Origin.Laws.{same_origin_iff}
use cpak.TrustPolicy.Policy.{Signer, Policy}
use cpak.TrustPolicy.Decide.{
  settled, matches, for_origin, signer_rules, publisher_rules, allows_publisher,
}

-- An entry of the list that speaks for the origin: it names the identity, and it names a repository
-- or the identity's own repository is the origin.
pub record Speaks (signers : List Signer) (issuer repo wanted : Text) : Type 0 where
  pub signer : Signer
  pub named : Memᴰ signer signers
  pub matched : matches signer issuer repo ≡ true
  pub own_origin : (signer.repo ≢ []) ⊎ (same_origin repo wanted ≡ true)

-- What an administrator has said of an identity that may publish an origin.
pub record MayPublish (p : Policy) (issuer repo origin : Text) : Type 0 where
  pub wanted : Text
  pub read : canonical_origin origin ≡ some wanted
  pub somebody : (issuer ≢ []) ⊎ (repo ≢ [])
  pub approved :
      ((p.approved_signers ≡ []) × (p.require_publisher ≡ false))
      ⊎ Speaks p.approved_signers issuer repo wanted

Speaks-cons :
    (s : Signer) (ss : List Signer) (issuer repo wanted : Text)
    → Speaks ss issuer repo wanted
    → Speaks (s ∷ ss) issuer repo wanted
Speaks-cons s ss issuer repo wanted h = record {
  signer = h.signer;
  named = Memᴰ.tail h.named;
  matched = h.matched;
  own_origin = h.own_origin;
}

Speaks-here :
    (s : Signer) (ss : List Signer) (issuer repo wanted : Text)
    → matches s issuer repo ≡ true
    → (s.repo ≢ []) ⊎ (same_origin repo wanted ≡ true)
    → Speaks (s ∷ ss) issuer repo wanted
Speaks-here s ss issuer repo wanted m o = record {
  signer = s;
  named = Memᴰ.head refl;
  matched = m;
  own_origin = o;
}

signer_rules_to :
    (n : ℕ) (o : Bool) (ss : List Signer) (issuer repo wanted : Text)
    → (signer_rules n o ss issuer repo wanted).allowed ≡ true
    → Speaks ss issuer repo wanted
unfolding signer_rules
signer_rules_to n true [] issuer repo wanted h = cc
signer_rules_to n false [] issuer repo wanted h = cc
signer_rules_to n o (s ∷ ss) issuer repo wanted h = elim (Bool-cases (matches s issuer repo)) [
  | inr e ↦
      Speaks-cons s ss issuer repo wanted (signer_rules_to n o ss issuer repo wanted (rw e at h))
  | inl e ↦ elim (Bool-cases (s.repo == [])) [
    | inr named ↦
        Speaks-here s ss issuer repo wanted e (inl (λ q. ground (arith, text_beq_iff s.repo [])))
    | inl open_ ↦ elim (Bool-cases (same_origin repo wanted)) [
      | inl own ↦ Speaks-here s ss issuer repo wanted e (inr own)
      | inr foreign ↦
          Speaks-cons s ss issuer repo wanted
            (signer_rules_to n true ss issuer repo wanted (rw (e, open_, foreign) at h))
    ]
  ]
]

signer_rules_from :
    (n : ℕ) (o : Bool) (ss : List Signer) (issuer repo wanted : Text) (x : Signer)
    → Memᴰ x ss
    → matches x issuer repo ≡ true
    → (x.repo ≢ []) ⊎ (same_origin repo wanted ≡ true)
    → (signer_rules n o ss issuer repo wanted).allowed ≡ true
unfolding signer_rules
signer_rules_from n o [] issuer repo wanted x m e own = elim m [ ]
signer_rules_from n o (s ∷ ss) issuer repo wanted x (Memᴰ.head at) e own = ground (
  arith,
  ap (λ (y : Signer). matches y issuer repo) at,
  ap (λ (y : Signer). y.repo) at,
  text_beq_iff s.repo [],
)
signer_rules_from n o (s ∷ ss) issuer repo wanted x (Memᴰ.tail m) e own = ground (
  arith,
  signer_rules_from n o ss issuer repo wanted x m e own,
  signer_rules_from n true ss issuer repo wanted x m e own,
)

-- The tests of `publisher_rules` at an identity that is one.
pub identity_iff :
    (issuer repo : Text)
    → ((issuer ≢ []) ⊎ (repo ≢ [])) ↔ (((issuer == []) && (repo == [])) ≡ false)
identity_iff issuer repo = (
  λ h. ground (arith, text_beq_iff issuer [], text_beq_iff repo []),
  λ h. elim (Bool-cases (issuer == [])) [
    | inr e ↦ inl (λ q. ground (arith, text_beq_iff issuer []))
    | inl e ↦ inr (λ q. ground (arith, text_beq_iff repo []))
  ],
)

publisher_rules_to :
    (p : Policy) (issuer repo wanted : Text) (ss : List Signer)
    → p.approved_signers ≡ ss
    → (publisher_rules p issuer repo wanted).allowed ≡ true
    → ((p.approved_signers ≡ []) × (p.require_publisher ≡ false))
      ⊎ Speaks p.approved_signers issuer repo wanted
unfolding publisher_rules
publisher_rules_to p issuer repo wanted [] e h = inl (e, ground arith)
publisher_rules_to p issuer repo wanted (s ∷ ss) e h = inr (
    signer_rules_to (length p.approved_signers) false p.approved_signers issuer repo wanted
      (ground arith))

publisher_rules_from :
    (p : Policy) (issuer repo origin : Text) (m : MayPublish p issuer repo origin)
    → (publisher_rules p issuer repo m.wanted).allowed ≡ true
unfolding publisher_rules
publisher_rules_from p issuer repo origin m = elim m.approved [
  | inl (e, f) ↦ ground (arith, (identity_iff issuer repo).0 m.somebody)
  | inr sp ↦ ground (
    arith,
    (identity_iff issuer repo).0 m.somebody,
    is_empty_of_mem sp.signer p.approved_signers sp.named,
    signer_rules_from (length p.approved_signers) false p.approved_signers issuer repo m.wanted
        sp.signer sp.named sp.matched sp.own_origin,
  )
]

-- Where the policy leaves the question open, an identity is allowed to publish an origin exactly
-- when the origin is read, the identity has an issuer or a repository, and either no signer is
-- approved and none required, or an approved signer that names the identity names a repository or
-- the identity's repository is the origin itself.
pub allows_publisher_iff :
    (p : Policy) (issuer repo origin : Text)
    → settled p ≡ none
    → ((allows_publisher p issuer repo origin).allowed ≡ true) ↔ MayPublish p issuer repo origin
unfolding allows_publisher
allows_publisher_iff p issuer repo origin open_ = rw open_ (to, from)
  where
    somebody_of :
        (w : Text)
        → (publisher_rules p issuer repo w).allowed ≡ true
        → ((issuer == []) && (repo == [])) ≡ false
    somebody_of w h = unfold publisher_rules in ground arith

    at_read :
        (o : Option Text)
        → canonical_origin origin ≡ o
        → (for_origin origin (publisher_rules p issuer repo) o).allowed ≡ true
        → MayPublish p issuer repo origin
    at_read none e h = cc
    at_read (some w) e h = record {
      wanted = w;
      read = e;
      somebody = (identity_iff issuer repo).1 (somebody_of w h);
      approved = publisher_rules_to p issuer repo w p.approved_signers refl h;
    }

    to :
        (for_origin origin (publisher_rules p issuer repo) (canonical_origin origin)).allowed ≡ true
        → MayPublish p issuer repo origin
    to = at_read (canonical_origin origin) refl

    from :
        MayPublish p issuer repo origin
        → (for_origin origin (publisher_rules p issuer repo) (canonical_origin origin)).allowed
          ≡ true
    from m = rw m.read (publisher_rules_from p issuer repo origin m)

-- Two spellings of one origin get the same decision, reason included.
pub allows_publisher-same :
    (p : Policy) (issuer repo a b : Text)
    → same_origin a b ≡ true
    → allows_publisher p issuer repo a ≡ allows_publisher p issuer repo b
unfolding allows_publisher
allows_publisher-same p issuer repo a b h =
    let (w, ra, rb) = (same_origin_iff a b).0 h in rw (ra, rb)
