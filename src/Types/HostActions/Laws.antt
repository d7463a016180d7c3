-- ===== src/Types/HostActions/Laws.antt =====
-- What an intersection of host actions grants, and what a validated list holds.
use cpak.Base.{
  ◌≡◌, refl, sym, inl, inr, Bool, true, false, ◌&&◌, List, [], ◌∷◌, arith, if◌then◌else◌, ◌==◌,
  ◌!=◌, nat_eq, Bool-cases, any, is_empty, contains, Text, text_beq_iff, text_eq, int_eq,
}
use cpak.Go.Sort.{sort, text_less, any-sort}
use cpak.Types.HostActions.{
  HostActionGrant, host_action_capabilities, permitted, intersect_host_actions,
}

-- The grant lists the capability for the provider.
abbrev pub lists : Text → Text → HostActionGrant → Bool
lists provider capability g =
    if g.provider != provider then false else contains capability g.capabilities

contains-permitted :
    (allowed : List Text) (x : Text) (xs : List Text)
    → contains x (permitted allowed xs) ≡ (contains x xs && contains x allowed)
unfolding permitted any
contains-permitted allowed x [] = refl
contains-permitted allowed x (y ∷ ys) = elim (Bool-cases (y == x)) [
  | inl e ↦
      let same : y ≡ x = (text_beq_iff y x).0 e in
      rw (sym same) (ground (arith, contains-permitted allowed y ys, text_beq_iff y y))
  | inr e ↦ ground (arith, contains-permitted allowed x ys)
]

none_permitted : (x : Text) (xs : List Text) → is_empty xs ≡ true → contains x xs ≡ false
unfolding any
none_permitted x [] h = refl
none_permitted x (y ∷ ys) h = cc

none_shared :
    (provider capability own : Text) (xs : List Text)
    → is_empty xs ≡ true
    → lists provider capability (record { provider = own; capabilities = sort text_less xs })
      ≡ false
none_shared provider capability own xs h =
    ground (arith, any-sort (λ x. x == capability) text_less xs, none_permitted capability xs h)

lists-shared :
    (parent : List HostActionGrant) (provider capability : Text) (g : HostActionGrant)
    → lists provider capability (record {
      provider = g.provider;
      capabilities =
          sort text_less (permitted (host_action_capabilities parent g.provider) g.capabilities);
    })
      ≡ (lists provider capability g
          && contains capability (host_action_capabilities parent provider))
lists-shared parent provider capability g = elim (Bool-cases (g.provider != provider)) [
  | inl e ↦ rw e refl
  | inr e ↦
      let same : g.provider ≡ provider = ground (arith, text_beq_iff g.provider provider) in
      rw
        (
          e,
          any-sort (λ x. x == capability) text_less
              (permitted (host_action_capabilities parent g.provider) g.capabilities),
          contains-permitted (host_action_capabilities parent g.provider) capability g.capabilities,
          same,
        )
        refl
]

-- An intersection lists a capability of a provider exactly if the child lists it and the parent
-- grants it.
pub intersect_lists :
    (parent child : List HostActionGrant) (provider capability : Text)
    → any (lists provider capability) (intersect_host_actions parent child) ≡ (
        any (lists provider capability) child
        && contains capability (host_action_capabilities parent provider))
unfolding intersect_host_actions any
intersect_lists parent [] provider capability = refl
intersect_lists parent (g ∷ gs) provider capability =
    let caps = permitted (host_action_capabilities parent g.provider) g.capabilities in
    ground (
      arith,
      lists-shared parent provider capability g,
      none_shared provider capability g.provider caps,
      intersect_lists parent gs provider capability,
    )
