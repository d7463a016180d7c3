-- ===== src/Types/Override/Widest.antt =====
-- What the folding of file system grants by path keeps.
use cpak.Base.{
  ◌≡◌, refl, sym, ap, ◌∙◌, inl, inr, Bool, true, false, not, ◌&&◌, ◌||◌, List, [], ◌∷◌, ◌++◌, arith,
  ◌==◌, nat_eq, Bool-cases, any, not_true, Text, ascii, text_beq, text_beq_iff, text_eq, int_eq,
  int_eq, not_true,
}
use cpak.Types.Override.{FilesystemPermission, widen, widest_from, widest_per_path}

abbrev pub names_path : Text → FilesystemPermission → Bool
names_path path p = p.path == path

abbrev pub writes_path : Text → FilesystemPermission → Bool
writes_path path p = (p.path == path) && (p.access == ascii "read-write")

any-append :
    (f : FilesystemPermission → Bool) (xs ys : List FilesystemPermission)
    → any f (xs ++ ys) ≡ (any f xs || any f ys)
unfolding any
any-append f [] ys = refl
any-append f (x ∷ xs) ys = ground (arith, any-append f xs ys)

names-widen :
    (path : Text) (p : FilesystemPermission) (qs : List FilesystemPermission)
    → any (names_path path) (widen p qs) ≡ any (names_path path) qs
unfolding widen any
names-widen path p [] = refl
names-widen path p (q ∷ qs) = ground (arith, names-widen path p qs)

writes-widen :
    (path : Text) (p : FilesystemPermission) (qs : List FilesystemPermission)
    → any (names_path p.path) qs ≡ true
    → any (writes_path path) (widen p qs) ≡ (any (writes_path path) qs || writes_path path p)
unfolding widen any
writes-widen path p [] h = cc
writes-widen path p (q ∷ qs) h = elim (Bool-cases (q.path == p.path)) [
  | inl e ↦
      let same : text_beq q.path path ≡ text_beq p.path path =
        ap (λ v. text_beq v path) ((text_beq_iff q.path p.path).0 e) in
      rw e (ground (arith, same, text_beq_iff (ascii "read-write") (ascii "read-write")))
  | inr e ↦ ground (arith, writes-widen path p qs (ground arith))
]

-- A path that was folded already is named by what was folded.
repeated :
    (path : Text) (p : FilesystemPermission) (folded : List FilesystemPermission)
    → any (names_path p.path) folded ≡ true
    → (not (p.path == path) || any (names_path path) folded) ≡ true
repeated path p folded h = elim (Bool-cases (p.path == path)) [
  | inl e ↦ let same : p.path ≡ path = (text_beq_iff p.path path).0 e in rw e (rw (sym same) h)
  | inr e ↦ rw e refl
]

names-widest_from :
    (path : Text) (folded ps : List FilesystemPermission)
    → any (names_path path) (widest_from folded ps)
      ≡ (any (names_path path) folded || any (names_path path) ps)
unfolding widest_from any
names-widest_from path folded [] = ground arith
names-widest_from path folded (p ∷ ps) = elim (Bool-cases (any (names_path p.path) folded)) [
  | inl e ↦ rw e (
      ground (
        arith,
        names-widest_from path (widen p folded) ps,
        names-widen path p folded,
        repeated path p folded e,
      ))
  | inr e ↦ rw e (
      ground (
        arith,
        names-widest_from path (folded ++ (p ∷ [])) ps,
        any-append (names_path path) folded (p ∷ []),
      ))
]

writes-widest_from :
    (path : Text) (folded ps : List FilesystemPermission)
    → any (writes_path path) (widest_from folded ps)
      ≡ (any (writes_path path) folded || any (writes_path path) ps)
unfolding widest_from any
writes-widest_from path folded [] = ground arith
writes-widest_from path folded (p ∷ ps) = elim (Bool-cases (any (names_path p.path) folded)) [
  | inl e ↦
      rw e
        (ground (arith, writes-widest_from path (widen p folded) ps, writes-widen path p folded e))
  | inr e ↦ rw e (
      ground (
        arith,
        writes-widest_from path (folded ++ (p ∷ [])) ps,
        any-append (writes_path path) folded (p ∷ []),
      ))
]

-- No two grants are of one path.
unfoldable pub is_distinct : List FilesystemPermission → Bool
is_distinct [] = true
is_distinct (p ∷ ps) = not (any (names_path p.path) ps) && is_distinct ps

distinct-widen :
    (p : FilesystemPermission) (qs : List FilesystemPermission)
    → is_distinct (widen p qs) ≡ is_distinct qs
unfolding is_distinct widen
distinct-widen p [] = refl
distinct-widen p (q ∷ qs) = elim (Bool-cases (q.path == p.path)) [
  | inl same ↦ elim (Bool-cases (p.access == ascii "read-write")) [
    | inl wider ↦ rw (same, wider) refl
    | inr kept ↦ rw (same, kept) refl
  ]
  | inr other ↦ rw (other, names-widen q.path p qs, distinct-widen p qs) refl
]

distinct-append :
    (p : FilesystemPermission) (qs : List FilesystemPermission)
    → any (names_path p.path) qs ≡ false
    → is_distinct qs ≡ true
    → is_distinct (qs ++ (p ∷ [])) ≡ true
unfolding is_distinct any
distinct-append p [] h k = refl
distinct-append p (q ∷ qs) h k =
    let flip : (p.path == q.path) ≡ false = not_true _ λ e.
      let same : text_beq q.path p.path ≡ true =
        (text_beq_iff q.path p.path).1 (sym ((text_beq_iff p.path q.path).0 e)) in
      ground (arith, h, same) in
    let kept = distinct-append p qs (ground (arith, h)) (ground (arith, k)) in
    ground (arith, kept, flip, k, any-append (names_path q.path) qs (p ∷ []))

distinct-widest_from :
    (folded ps : List FilesystemPermission)
    → is_distinct folded ≡ true
    → is_distinct (widest_from folded ps) ≡ true
unfolding widest_from
distinct-widest_from folded [] h = h
distinct-widest_from folded (p ∷ ps) h = elim (Bool-cases (any (names_path p.path) folded)) [
  | inl e ↦ rw e (distinct-widest_from (widen p folded) ps (distinct-widen p folded ∙ h))
  | inr e ↦ rw e (distinct-widest_from (folded ++ (p ∷ [])) ps (distinct-append p folded e h))
]

-- Folding by path leaves at most one grant of each path and names the same paths, and a path is
-- writable after it exactly if one of the grants that name it made it so.
pub widest_per_path-any :
    (path : Text) (ps : List FilesystemPermission)
    → (is_distinct (widest_per_path ps) ≡ true)
      × (any (names_path path) (widest_per_path ps) ≡ any (names_path path) ps)
      × (any (writes_path path) (widest_per_path ps) ≡ any (writes_path path) ps)
unfolding widest_per_path any is_distinct
widest_per_path-any path ps =
    (distinct-widest_from [] ps refl, names-widest_from path [] ps, writes-widest_from path [] ps)
