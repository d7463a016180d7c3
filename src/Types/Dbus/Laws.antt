-- ===== src/Types/Dbus/Laws.antt =====
-- What an intersection of session bus policies grants, and what the comparison of two promises.
use cpak.Base.{
  ◌≡◌, refl, sym, ◌∙◌, ◌↔◌, inl, inr, Bool, true, false, ◌&&◌, ◌||◌, List, [], ◌∷◌, Memᴰ, arith,
  ◌==◌, ◌!=◌, nat_eq, Bool-cases, any, all, is_empty, any-eq-true, any_of_mem, all_mem, all_of_mem,
  contains, contains_mem, contains_of_mem, Text, text_beq_iff, text_eq, int_eq,
}
use cpak.Go.Sort.{text_less, any-sort}
use cpak.Types.Dbus.{
  DbusCallGrant, DbusPolicy, covers, allows_call, allows_own, restricts, keep, shared_rules,
  sort_members, canonical_dbus_policy, intersect_dbus_policies,
}

-- A sorted policy grants the same calls and names.
canonical_dbus_policy-allows_own :
    (p : DbusPolicy) (name : Text) → allows_own (canonical_dbus_policy p) name ≡ allows_own p name
unfolding canonical_dbus_policy allows_own
canonical_dbus_policy-allows_own p name = any-sort (λ x. x == name) text_less p.own

covers-sort_members :
    (name path interface_name member : Text) (rules : List DbusCallGrant)
    → any (covers name path interface_name member) (sort_members rules)
      ≡ any (covers name path interface_name member) rules
unfolding covers sort_members any
covers-sort_members name path interface_name member [] = refl
covers-sort_members name path interface_name member (r ∷ rs) = rw (
  any-sort (λ x. x == member) text_less r.members,
  covers-sort_members name path interface_name member rs,
)

canonical_dbus_policy-allows_call :
    (p : DbusPolicy) (name path interface_name member : Text)
    → allows_call (canonical_dbus_policy p) name path interface_name member
      ≡ allows_call p name path interface_name member
unfolding canonical_dbus_policy allows_call
canonical_dbus_policy-allows_call p name path interface_name member =
    any-sort _ _ (sort_members p.talk) ∙ covers-sort_members name path interface_name member p.talk

contains-keep :
    (p : Text → Bool) (x : Text) (xs : List Text) → contains x (keep p xs) ≡ (contains x xs && p x)
unfolding keep any
contains-keep p x [] = refl
contains-keep p x (y ∷ ys) = elim (Bool-cases (y == x)) [
  | inl e ↦
      let same : y ≡ x = (text_beq_iff y x).0 e in
      rw (sym same) (ground (arith, contains-keep p y ys, text_beq_iff y y))
  | inr e ↦ ground (arith, contains-keep p x ys)
]

any_of_empty : (p : Text → Bool) (xs : List Text) → is_empty xs ≡ true → any p xs ≡ false
unfolding any
any_of_empty p [] h = refl
any_of_empty p (x ∷ xs) h = cc

covers_none :
    (name path interface_name member : Text) (r : DbusCallGrant)
    → is_empty r.members ≡ true
    → covers name path interface_name member r ≡ false
unfolding covers any
covers_none name path interface_name member r h =
    ground (arith, any_of_empty (λ x. x == member) r.members h)

covers-keep :
    (right : DbusPolicy) (name path interface_name member : Text) (r : DbusCallGrant)
    → covers name path interface_name member
        (record r { members = keep (allows_call right r.name r.path r.interface) r.members })
      ≡ (covers name path interface_name member r
          && allows_call right name path interface_name member)
unfolding covers
covers-keep right name path interface_name member r =
    elim (Bool-cases ((r.name != name) || ((r.path != path) || (r.interface != interface_name)))) [
      | inl e ↦ rw e refl
      | inr e ↦
          let n : r.name ≡ name = ground (arith, text_beq_iff r.name name) in
          let q : r.path ≡ path = ground (arith, text_beq_iff r.path path) in
          let i : r.interface ≡ interface_name =
            ground (arith, text_beq_iff r.interface interface_name) in
          rw
            (
              e,
              contains-keep (allows_call right r.name r.path r.interface) member r.members,
              n,
              q,
              i,
            )
            refl
    ]

covers-shared_rules :
    (right : DbusPolicy) (name path interface_name member : Text) (rules : List DbusCallGrant)
    → any (covers name path interface_name member) (shared_rules right rules) ≡ (
        any (covers name path interface_name member) rules
        && allows_call right name path interface_name member)
unfolding shared_rules any
covers-shared_rules right name path interface_name member [] = refl
covers-shared_rules right name path interface_name member (r ∷ rs) = ground (
  arith,
  covers-keep right name path interface_name member r,
  covers-shared_rules right name path interface_name member rs,
  covers_none name path interface_name member
      (record r { members = keep (allows_call right r.name r.path r.interface) r.members }),
)

-- An intersection allows a call exactly if both policies allow it.
pub intersect_allows_call :
    (left right : DbusPolicy) (name path interface_name member : Text)
    → allows_call (intersect_dbus_policies left right) name path interface_name member ≡ (
        allows_call left name path interface_name member
        && allows_call right name path interface_name member)
unfolding intersect_dbus_policies
intersect_allows_call left right name path interface_name member =
    canonical_dbus_policy-allows_call _ name path interface_name member
    ∙ (unfold allows_call in covers-shared_rules right name path interface_name member left.talk)

-- An intersection allows an application to own a name exactly if both policies allow it.
pub intersect_allows_own :
    (left right : DbusPolicy) (name : Text)
    → allows_own (intersect_dbus_policies left right) name
      ≡ (allows_own left name && allows_own right name)
unfolding intersect_dbus_policies
intersect_allows_own left right name =
    canonical_dbus_policy-allows_own _ name
    ∙ (unfold allows_own in contains-keep (allows_own right) name left.own)

-- What a policy may do is within another.
pub record IsWithin (candidate current : DbusPolicy) : Type 0 where
  pub own_within : (name : Text) → allows_own candidate name ≡ true → allows_own current name ≡ true
  pub call_within :
      (name path interface_name member : Text)
      → allows_call candidate name path interface_name member ≡ true
      → allows_call current name path interface_name member ≡ true

covers-read :
    (name path interface_name member : Text) (r : DbusCallGrant)
    → covers name path interface_name member r ≡ true
    → (r.name ≡ name) × (r.path ≡ path) × (r.interface ≡ interface_name) × Memᴰ member r.members
unfolding covers
covers-read name path interface_name member r h = (
  ground (arith, text_beq_iff r.name name),
  ground (arith, text_beq_iff r.path path),
  ground (arith, text_beq_iff r.interface interface_name),
  contains_mem member r.members (ground arith),
)

covers_own :
    (r : DbusCallGrant) (member : Text)
    → Memᴰ member r.members
    → covers r.name r.path r.interface member r ≡ true
unfolding covers
covers_own r member m = ground (
  arith,
  contains_of_mem member r.members m,
  text_beq_iff r.name r.name,
  text_beq_iff r.path r.path,
  text_beq_iff r.interface r.interface,
)

restricts-IsWithin :
    (current candidate : DbusPolicy)
    → restricts current candidate ≡ true
    → IsWithin candidate current
unfolding restricts
restricts-IsWithin current candidate h = record {
  own_within = λ n o.
      all_mem (allows_own current) n candidate.own (ground arith)
        (contains_mem n candidate.own (unfold allows_own in o));
  call_within = λ n p i m c.
      let (r, k, t) = any-eq-true (covers n p i m) candidate.talk (unfold allows_call in c) in
      let (en, ep, ei, km) = covers-read n p i m r t in
      let each =
        all_mem (λ rule. all (allows_call current rule.name rule.path rule.interface) rule.members)
          r candidate.talk (ground arith) k in
      rw (sym en, sym ep, sym ei)
        (all_mem (allows_call current r.name r.path r.interface) m r.members each km);
}

IsWithin-restricts :
    (current candidate : DbusPolicy)
    → IsWithin candidate current
    → restricts current candidate ≡ true
unfolding restricts
IsWithin-restricts current candidate w =
    let owned =
      all_of_mem (allows_own current) candidate.own
        (λ n m. w.own_within n (unfold allows_own in contains_of_mem n candidate.own m)) in
    let called =
      all_of_mem (λ rule. all (allows_call current rule.name rule.path rule.interface) rule.members)
        candidate.talk
        (λ r k. all_of_mem (allows_call current r.name r.path r.interface) r.members (λ m km.
          w.call_within r.name r.path r.interface m (
            unfold allows_call in
            any_of_mem (covers r.name r.path r.interface m) r candidate.talk k
              (covers_own r m km)))) in
    rw owned called

-- A policy restricts another exactly if every name it may own and every call it may make is one
-- that the other allows.
pub restricts_iff :
    (current candidate : DbusPolicy)
    → (restricts current candidate ≡ true) ↔ IsWithin candidate current
restricts_iff current candidate =
    (restricts-IsWithin current candidate, IsWithin-restricts current candidate)

-- An intersection restricts both of its sides.
pub intersect_restricts :
    (left right : DbusPolicy)
    → (restricts left (intersect_dbus_policies left right) ≡ true)
      × (restricts right (intersect_dbus_policies left right) ≡ true)
intersect_restricts left right = (
  IsWithin-restricts left _ (record {
    own_within = λ n h. ground (arith, intersect_allows_own left right n);
    call_within = λ n p i m h. ground (arith, intersect_allows_call left right n p i m);
  }),
  IsWithin-restricts right _ (record {
    own_within = λ n h. ground (arith, intersect_allows_own left right n);
    call_within = λ n p i m h. ground (arith, intersect_allows_call left right n p i m);
  }),
)
