-- ===== src/TrustPolicy/Decide/Approvals.antt =====
-- `AllowsNormalizedPublisher` and `AllowsApproval` against their descriptions.
use cpak.Base.{
  ◌≡◌, refl, ◌≢◌, ◌↔◌, ◌⊎◌, inl, inr, Bool, true, false, ◌&&◌, none, some, List, [], ◌∷◌, Memᴰ,
  arith, ◌!=◌, nat_eq, Bool-cases, any-eq-true, any_of_mem, contains, contains_mem, Text,
  text_beq_iff, text_eq, int_eq,
}
use cpak.Base.{is_empty_of_mem}
use cpak.TrustPolicy.Origin.{canonical_origin}
use cpak.TrustPolicy.Policy.{Signer, Policy}
use cpak.TrustPolicy.Decide.{
  settled, matches, normalized_rules, approval_rules, allows_normalized_publisher, allows_approval,
}
use cpak.TrustPolicy.Decide.Publishers.{Speaks, identity_iff, allows_publisher_iff}

-- Where the policy leaves the question open and requires a publisher, a normalized identity is
-- allowed only if its own ID is one that the administrator listed, or an approved signer speaks
-- for the origin: absence is never a wildcard.
pub normalized_requires :
    (p : Policy) (publisher_id issuer repo origin : Text)
    → settled p ≡ none
    → p.require_publisher ≡ true
    → (allows_normalized_publisher p publisher_id issuer repo origin).allowed ≡ true
    → ((publisher_id ≢ []) × Memᴰ publisher_id p.approved_publisher_ids)
      ⊎ ((w : Text) × (canonical_origin origin ≡ some w) × Speaks p.approved_signers issuer repo w)
unfolding allows_normalized_publisher normalized_rules
normalized_requires p publisher_id issuer repo origin open_ req h =
    elim (Bool-cases ((publisher_id != []) && contains publisher_id p.approved_publisher_ids)) [
      | inl e ↦ inl (
        λ q. ground (arith, text_beq_iff publisher_id []),
        contains_mem publisher_id p.approved_publisher_ids (ground arith),
      )
      | inr e ↦ inr (by_signer (p.approved_signers) refl e)
    ]
  where
    by_signer :
        (ss : List Signer)
        → p.approved_signers ≡ ss
        → ((publisher_id != []) && contains publisher_id p.approved_publisher_ids) ≡ false
        → (w : Text) × (canonical_origin origin ≡ some w) × Speaks p.approved_signers issuer repo w
    by_signer [] q e = absurd (ground arith)
    by_signer (s ∷ ss) q e =
        let m = (allows_publisher_iff p issuer repo origin open_).0 (ground arith) in
        (m.wanted, m.read, elim m.approved [ inl (none_, free) ↦ absurd (cc) | inr sp ↦ sp ])

-- Where the policy leaves the question open, an identity may counter-sign exactly when it has an
-- issuer or a repository, and either nobody is named and no approval required, or an entry of the
-- list names it.
pub allows_approval_iff :
    (p : Policy) (issuer repo : Text)
    → settled p ≡ none
    → ((allows_approval p issuer repo).allowed ≡ true) ↔ (
        ((issuer ≢ []) ⊎ (repo ≢ []))
        × (((p.approval_signers ≡ []) × (p.require_approval ≡ false))
            ⊎ ((s : Signer) × Memᴰ s p.approval_signers × (matches s issuer repo ≡ true))))
unfolding allows_approval approval_rules
allows_approval_iff p issuer repo open_ = rw open_ (to p.approval_signers refl, from)
  where
    named : Signer → Bool
    named s = matches s issuer repo

    to :
        (ss : List Signer)
        → p.approval_signers ≡ ss
        → (approval_rules p issuer repo).allowed ≡ true
        → ((issuer ≢ []) ⊎ (repo ≢ []))
          × (((p.approval_signers ≡ []) × (p.require_approval ≡ false))
              ⊎ ((s : Signer) × Memᴰ s p.approval_signers × (matches s issuer repo ≡ true)))
    to [] q h = ((identity_iff issuer repo).1 (ground arith), inl (q, ground arith))
    to (s ∷ ss) q h = (
      (identity_iff issuer repo).1 (ground arith),
      inr (any-eq-true named p.approval_signers (ground arith)),
    )

    from :
        ((issuer ≢ []) ⊎ (repo ≢ []))
          × (((p.approval_signers ≡ []) × (p.require_approval ≡ false))
              ⊎ ((s : Signer) × Memᴰ s p.approval_signers × (matches s issuer repo ≡ true)))
        → (approval_rules p issuer repo).allowed ≡ true
    from (i, inl (q, f)) = ground (arith, (identity_iff issuer repo).0 i)
    from (i, inr (s, m, e)) = ground (
      arith,
      (identity_iff issuer repo).0 i,
      is_empty_of_mem s p.approval_signers m,
      any_of_mem named s p.approval_signers m e,
    )
