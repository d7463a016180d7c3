-- ===== src/SystemAuthority/Orders.antt =====
-- pkg/systemauthority/anchor.go: what an enrolment is ordered against, the record or what a removal
-- left behind, and which authorization it needs.
pub mod Laws
use cpak.Base.{
  ℕ, zero, suc, ◌+◌, ◌-◌, ◌*◌, ◌/◌, ◌%◌, ◌^◌, ◌≤◌, ◌<◌, ◌≡◌, refl, sym, ap, ◌∙◌, ◌≢◌, ◌↔◌, ◌⊎◌, inl,
  inr, Bool, true, false, not, ◌&&◌, ◌||◌, Option, none, some, List, [], ◌∷◌, ◌++◌, map, Memᴰ,
  arith, ltb, leb, nat_beq, nat_beq_iff, if◌then◌else◌, Eq, ◌==◌, ◌!=◌, nat_eq, Bool-cases,
  Option-cases, any, all, length, is_empty, length-append, any-eq-true, any_of_mem, all_mem,
  all_of_mem, all-append, any-append, all_mono, not_true, contains, contains_mem, contains_of_mem,
  Outcome, ok, err, ◌>>=◌, ◌>>◌, refuse_if, wrap, Text, ascii, text_beq, text_beq_iff, text_eq, ℤ,
  pos, int_eq, int_beq_iff, all_mono, ℤ, pos, negsuc, int_eq, not_true,
}
use cpak.Integrity.{Anchor}
use cpak.Integrity.Policy.Restricts.{policy_restricts}
use cpak.Types.Override.{Override}
use cpak.SystemAuthority.{
  SignedState, Enrolment, Tombstone, LedgerError, anchor_downgrade, signature_downgrade,
  signature_lost,
}

-- The signature of an offer, against a signature generation that it must reach.
unfoldable pub reaches : ℕ → Option SignedState → Text → Outcome LedgerError Unit
reaches least none origin = err (signature_lost origin)
reaches least (some s) origin =
    refuse_if (ltb s.state.generation least) (signature_downgrade least s.state.generation)

against : Option SignedState → Enrolment → Outcome LedgerError Unit
unfolding reaches
against none offered = ok tt
against (some s) offered = reaches s.state.generation offered.signature offered.anchor.origin

unfoldable pub orders_after : Enrolment → Enrolment → Outcome LedgerError Unit
unfolding against
orders_after recorded offered = do
  refuse_if (ltb offered.anchor.generation recorded.anchor.generation)
      (anchor_downgrade recorded.anchor.generation offered.anchor.generation)
  against recorded.signature offered

unfoldable pub orders_after_removal : Tombstone → Enrolment → Outcome LedgerError Unit
unfolding reaches
orders_after_removal buried offered = do
  refuse_if (ltb offered.anchor.generation buried.generation)
      (anchor_downgrade buried.generation offered.anchor.generation)
  if not buried.signed
      then ok tt
      else reaches buried.signature_generation offered.signature offered.anchor.origin

raised_generation : Tombstone → Tombstone → Tombstone
raised_generation t other =
    if ltb t.generation other.generation
    then record t {
      generation = other.generation;
      policy_root = other.policy_root;
      policy = other.policy;
      policy_schema = other.policy_schema;
    }
    else t

unfoldable pub raised_by : Tombstone → Tombstone → Tombstone
unfolding raised_generation
raised_by t other =
    let raised = raised_generation t other in
    record raised {
      signed = if other.signed then true else raised.signed;
      signature_generation =
          if ltb raised.signature_generation other.signature_generation
          then other.signature_generation
          else raised.signature_generation;
    }

sealed : Option SignedState → Tombstone → Tombstone
sealed none t = t
sealed (some s) t = record t { signed = true; signature_generation = s.state.generation }

-- The tombstone that `entomb` makes of a record, before it is raised.
unfoldable pub buried_of : Enrolment → Tombstone
unfolding sealed
buried_of e = sealed e.signature (record {
  uid = e.anchor.uid;
  origin = e.anchor.origin;
  generation = e.anchor.generation;
  policy_root = e.anchor.policy_root;
  policy = e.policy;
  policy_schema = e.policy_schema;
  signed = false;
  signature_generation = 0;
})

-- `ActionEnrolAnchor` and `ActionWidenAnchor`
pub data Authorization : Type 0 where
  enrol_anchor widen_anchor : Authorization

narrows : (Text → Text) → Option Override → Option Override → Bool
unfolding policy_restricts
narrows clean (some held) (some wanted) = policy_restricts clean held wanted
narrows clean _ _ = false

unfoldable pub authorization_against :
    (Text → Text) → ℕ → Text → Option Override → Enrolment → Authorization
unfolding narrows
authorization_against clean generation policy_root policy e =
    if ltb e.anchor.generation generation
    then widen_anchor
    else if e.anchor.policy_root == policy_root
    then enrol_anchor
    else if narrows clean policy e.policy
    then enrol_anchor
    else widen_anchor
