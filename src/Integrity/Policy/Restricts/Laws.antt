-- ===== src/Integrity/Policy/Restricts/Laws.antt =====
-- Each comparison is reflexive and transitive.
use cpak.Base.{
  ◌≡◌, refl, sym, inl, inr, Bool, true, false, Option, none, some, List, [], ◌∷◌, ◌++◌, Memᴰ, arith,
  ◌==◌, nat_eq, Bool-cases, Option-cases, any, all, any-eq-true, any_of_mem, all_mem, all_of_mem,
  all-append, any-append, all_mono, not_true, contains, contains_mem, contains_of_mem, Text, ascii,
  text_beq, text_beq_iff, text_eq, ℤ, pos, int_eq, all_mono, ℤ, pos, negsuc, int_eq, not_true,
}
use cpak.Go.Strings.{has_prefix, trim_suffix}
use cpak.Go.Strings.Laws.{has_prefix_trans, mem_of_prefix, has_prefix-trim_suffix}
use cpak.Types.HostActions.{HostActionGrant}
use cpak.Types.Override.{FilesystemPermission}
use cpak.Integrity.Policy.Restricts.{
  flags_within, limit_within, subset, held_capabilities, known, covered_by, actions_covered,
  path_covers, access_covers, permission_covers, permissions_covered,
}

pub flags_within_refl : (a : List Bool) → flags_within a a ≡ true
unfolding flags_within
flags_within_refl [] = refl
flags_within_refl (x ∷ a) = ground (arith, flags_within_refl a)

pub flags_within_trans :
    (a b c : List Bool)
    → flags_within a b ≡ true
    → flags_within b c ≡ true
    → flags_within a c ≡ true
unfolding flags_within
flags_within_trans [] [] c h k = k
flags_within_trans [] (y ∷ b) c h k = cc
flags_within_trans (x ∷ a) [] c h k = cc
flags_within_trans (x ∷ a) (y ∷ b) [] h k = cc
flags_within_trans (x ∷ a) (y ∷ b) (z ∷ c) h k = ground (arith, flags_within_trans a b c)

pub limit_within_refl : (a : ℤ) → limit_within a a ≡ true
unfolding limit_within
limit_within_refl (pos a) = ground arith
limit_within_refl (negsuc a) = ground arith

pub limit_within_trans :
    (a b c : ℤ) → limit_within a b ≡ true → limit_within b c ≡ true → limit_within a c ≡ true
unfolding limit_within
limit_within_trans (pos a) (pos b) (pos c) h k = ground arith
limit_within_trans (pos a) (pos b) (negsuc c) h k = ground arith
limit_within_trans (pos a) (negsuc b) (pos c) h k = ground arith
limit_within_trans (pos a) (negsuc b) (negsuc c) h k = ground arith
limit_within_trans (negsuc a) (pos b) (pos c) h k = ground arith
limit_within_trans (negsuc a) (pos b) (negsuc c) h k = ground arith
limit_within_trans (negsuc a) (negsuc b) (pos c) h k = ground arith
limit_within_trans (negsuc a) (negsuc b) (negsuc c) h k = ground arith

pub subset_refl : (a : List Text) → subset a a ≡ true
unfolding subset
subset_refl a = all_of_mem (λ v. contains v a) a λ v m. contains_of_mem v a m

pub subset_trans : (a b c : List Text) → subset a b ≡ true → subset b c ≡ true → subset a c ≡ true
unfolding subset
subset_trans a b c h k =
    all_of_mem (λ v. contains v c) a
      λ v m.
        all_mem (λ x. contains x c) v b k (contains_mem v b (all_mem (λ x. contains x b) v a h m))

covered_by-nil :
    (o : Option (List Text)) (xs : List Text) → covered_by o xs ≡ true → covered_by o [] ≡ true
unfolding all
covered_by-nil none xs h = h
covered_by-nil (some held) xs h = refl

covered_by-append :
    (o : Option (List Text)) (xs ys : List Text)
    → covered_by o xs ≡ true
    → covered_by o ys ≡ true
    → covered_by o (xs ++ ys) ≡ true
covered_by-append none xs ys h k = h
covered_by-append (some held) xs ys h k =
    ground (arith, all-append (λ capability. contains capability held) xs ys)

-- What all grants of a provider hold together is covered, if each of them is.
covered_by-held :
    (current held : List HostActionGrant) (provider : Text) (wanted : List Text)
    → actions_covered current held ≡ true
    → held_capabilities held provider ≡ some wanted
    → covered_by (held_capabilities current provider) wanted ≡ true
unfolding actions_covered held_capabilities all
covered_by-held current [] provider wanted h e = cc
covered_by-held current (g ∷ gs) provider wanted h e = elim (Bool-cases (g.provider == provider)) [
  | inl same ↦
      let own : covered_by (held_capabilities current provider) g.capabilities ≡ true =
        ground (arith, text_beq_iff g.provider provider) in
      let together : some (g.capabilities ++ known (held_capabilities gs provider)) ≡ some wanted =
        ground arith in
      elim (Option-cases (held_capabilities gs provider)) [
        | inl absent ↦
            let w : g.capabilities ++ [] ≡ wanted = cc in
            rw (sym w) (covered_by-append _ g.capabilities [] own (covered_by-nil _ _ own))
        | inr (rest, found) ↦
            let w : g.capabilities ++ rest ≡ wanted = cc in
            rw (sym w) (
              covered_by-append _ g.capabilities rest own
                (covered_by-held current gs provider rest (ground arith) found))
      ]
  | inr other ↦ covered_by-held current gs provider wanted (ground arith) (ground arith)
]

covered_by-more :
    (o : Option (List Text)) (xs wanted : List Text)
    → covered_by o wanted ≡ true
    → covered_by (some (xs ++ known o)) wanted ≡ true
covered_by-more none xs wanted h = cc
covered_by-more (some held) xs wanted h =
    all_mono (λ c. contains c held) (λ c. contains c (xs ++ held)) wanted
      (λ c k. ground (arith, any-append (λ x. x == c) xs held)) h

-- A grant of the list is covered by what the list holds.
held_of_mem :
    (g : HostActionGrant) (gs : List HostActionGrant)
    → Memᴰ g gs
    → covered_by (held_capabilities gs g.provider) g.capabilities ≡ true
unfolding held_capabilities
held_of_mem g [] m = elim m [ ]
held_of_mem g (x ∷ gs) (Memᴰ.head e) =
    let own : covered_by (some (g.capabilities ++ known (held_capabilities gs g.provider)))
          g.capabilities
        ≡ true =
      all_of_mem _ g.capabilities λ c m. ground (
        arith,
        contains_of_mem c g.capabilities m,
        any-append (λ y. y == c) g.capabilities (known (held_capabilities gs g.provider)),
      ) in
    let same : text_beq g.provider g.provider ≡ true = (text_beq_iff _ _).1 refl in
    rw (sym e, same) own
held_of_mem g (x ∷ gs) (Memᴰ.tail m) = elim (Bool-cases (x.provider == g.provider)) [
  | inl same ↦ rw same (
      covered_by-more (held_capabilities gs g.provider) x.capabilities g.capabilities
        (held_of_mem g gs m))
  | inr other ↦ rw other (held_of_mem g gs m)
]

pub actions_covered_refl : (a : List HostActionGrant) → actions_covered a a ≡ true
unfolding actions_covered
actions_covered_refl a = all_of_mem _ a (λ g m. held_of_mem g a m)

covered_by-cases :
    (o : Option (List Text)) (wanted : List Text)
    → covered_by o wanted ≡ true
    → (held : List Text) × (o ≡ some held) × (all (λ c. contains c held) wanted ≡ true)
covered_by-cases none wanted h = cc
covered_by-cases (some held) wanted h = (held, refl, h)

covered_by_trans :
    (o : Option (List Text)) (held wanted : List Text)
    → covered_by o held ≡ true
    → all (λ c. contains c held) wanted ≡ true
    → covered_by o wanted ≡ true
covered_by_trans none held wanted h k = h
covered_by_trans (some o) held wanted h k = unfold subset in subset_trans wanted held o k h

-- `actions_covered` has the wider side first.
pub actions_covered_trans :
    (a b c : List HostActionGrant)
    → actions_covered a b ≡ true
    → actions_covered b c ≡ true
    → actions_covered a c ≡ true
unfolding actions_covered
actions_covered_trans a b c h k = all_of_mem _ c λ g m.
    let (held, found, each) =
      covered_by-cases (held_capabilities b g.provider) g.capabilities
        (all_mem (λ g. covered_by (held_capabilities b g.provider) g.capabilities) g c k m) in
    covered_by_trans (held_capabilities a g.provider) held g.capabilities
      (covered_by-held a b g.provider held (unfold actions_covered in h) found) each

no_slash_in_host :
    (held : Text) → has_prefix (ascii "host") (trim_suffix held b'/' ++ ascii "/") ≡ false
unfolding any
no_slash_in_host held = not_true _ λ h.
    let slash : contains b'/' (ascii "host") ≡ true =
      contains_of_mem b'/' (ascii "host")
        (mem_of_prefix (ascii "host") (trim_suffix held b'/') b'/' h) in
    cc slash

-- What a path covers below itself, whatever is below it covers as well.
below_trans :
    (a b c : Text)
    → has_prefix b (trim_suffix a b'/' ++ ascii "/") ≡ true
    → has_prefix c (trim_suffix b b'/' ++ ascii "/") ≡ true
    → has_prefix c (trim_suffix a b'/' ++ ascii "/") ≡ true
below_trans a b c h k =
    has_prefix_trans c (trim_suffix b b'/' ++ ascii "/") (trim_suffix a b'/' ++ ascii "/") k (
      has_prefix_trans (trim_suffix b b'/' ++ ascii "/") b (trim_suffix a b'/' ++ ascii "/")
        (has_prefix-trim_suffix b'/' b) h)

path_covers_trans :
    (a b c : Text) → path_covers a b ≡ true → path_covers b c ≡ true → path_covers a c ≡ true
unfolding path_covers
path_covers_trans a b c h k = elim (Bool-cases (a == b)) [
  | inl same ↦ rw ((text_beq_iff a b).0 same) k
  | inr other ↦ elim (Bool-cases (b == c)) [
    | inl same ↦ rw (sym ((text_beq_iff b c).0 same)) h
    | inr elsewhere ↦ elim (Bool-cases (b == ascii "host")) [
      | inl host ↦
          let named : b ≡ ascii "host" = (text_beq_iff b (ascii "host")).0 host in
          let none_below : has_prefix b (trim_suffix a b'/' ++ ascii "/") ≡ false =
            rw named (no_slash_in_host a) in
          ground arith
      | inr inside ↦ ground (arith, below_trans a b c)
    ]
  ]
]

access_covers_trans :
    (a b c : Text) → access_covers a b ≡ true → access_covers b c ≡ true → access_covers a c ≡ true
unfolding access_covers text_beq
access_covers_trans a b c h k = elim (Bool-cases (a == b)) [
  | inl same ↦ rw ((text_beq_iff a b).0 same) k
  | inr other ↦
      let read_only : b ≡ ascii "read-only" = ground (arith, text_beq_iff b (ascii "read-only")) in
      elim (Bool-cases (b == c)) [
        | inl same ↦ rw (sym ((text_beq_iff b c).0 same)) h
        | inr elsewhere ↦
            let not_writable : text_beq b (ascii "read-write") ≡ false = rw read_only refl in
            ground arith
      ]
]

permission_covers_refl : (p : FilesystemPermission) → permission_covers p p ≡ true
unfolding permission_covers path_covers access_covers
permission_covers_refl p =
    ground (arith, text_beq_iff p.path p.path, text_beq_iff p.access p.access)

permission_covers_trans :
    (p q r : FilesystemPermission)
    → permission_covers q p ≡ true
    → permission_covers r q ≡ true
    → permission_covers r p ≡ true
unfolding permission_covers
permission_covers_trans p q r h k =
    ground (
      arith,
      path_covers_trans p.path q.path r.path,
      access_covers_trans p.access q.access r.access,
    )

pub permissions_covered_refl : (a : List FilesystemPermission) → permissions_covered a a ≡ true
unfolding permissions_covered
permissions_covered_refl a =
    all_of_mem _ a (λ p m. any_of_mem (permission_covers p) p a m (permission_covers_refl p))

-- `permissions_covered` has the wider side first.
pub permissions_covered_trans :
    (a b c : List FilesystemPermission)
    → permissions_covered a b ≡ true
    → permissions_covered b c ≡ true
    → permissions_covered a c ≡ true
unfolding permissions_covered
permissions_covered_trans a b c h k = all_of_mem _ c λ r m.
    let (q, qm, qr) =
      any-eq-true (permission_covers r) b (all_mem (λ w. any (permission_covers w) b) r c k m) in
    let (p, pm, pq) =
      any-eq-true (permission_covers q) a (all_mem (λ w. any (permission_covers w) a) q b h qm) in
    any_of_mem (permission_covers r) p a pm (permission_covers_trans p q r pq qr)
