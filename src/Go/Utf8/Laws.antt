-- ===== src/Go/Utf8/Laws.antt =====
-- `to_valid` returns valid text, and valid text as it is.
use cpak.Base.{
  ◌≡◌, refl, inl, inr, true, [], ◌∷◌, arith, nat_eq, Option-cases, Text, text_eq, int_eq,
}
use cpak.Go.Utf8.{
  Progress, ready, expect, advance, completes, valid, begins, to_valid_from, to_valid,
}

-- What is copied completes the rune that is being copied.
to_valid_from-valid :
    (p : Progress) (s : Text) → begins p s ≡ true → completes p (to_valid_from p s) ≡ true
unfolding completes begins to_valid_from
to_valid_from-valid ready [] h = refl
to_valid_from-valid (expect lo hi n) [] h = cc
to_valid_from-valid (expect lo hi n) (c ∷ cs) h = elim (Option-cases (advance (expect lo hi n) c)) [
  | inl e ↦ ground arith
  | inr (q, e) ↦ ground (arith, to_valid_from-valid q cs)
]
to_valid_from-valid ready (c ∷ cs) h = elim (Option-cases (advance ready c)) [
  | inl e ↦ ground (arith, to_valid_from-valid ready cs)
  | inr (q, e) ↦ ground (arith, to_valid_from-valid q cs, to_valid_from-valid ready cs)
]

-- `to_valid` keeps a valid text.
to_valid_from-id :
    (p : Progress) (s : Text) → completes p s ≡ true → (begins p s ≡ true) × (to_valid_from p s ≡ s)
unfolding completes begins to_valid_from
to_valid_from-id ready [] h = (refl, refl)
to_valid_from-id (expect lo hi n) [] h = cc
to_valid_from-id (expect lo hi n) (c ∷ cs) h = elim (Option-cases (advance (expect lo hi n) c)) [
  | inl e ↦ ground arith
  | inr (q, e) ↦ ground (arith, to_valid_from-id q cs)
]
to_valid_from-id ready (c ∷ cs) h = elim (Option-cases (advance ready c)) [
  | inl e ↦ ground arith
  | inr (q, e) ↦ ground (arith, to_valid_from-id q cs)
]

pub to_valid-valid : (s : Text) → valid (to_valid s) ≡ true
to_valid-valid s = to_valid_from-valid ready s (unfold begins in refl)

pub to_valid-id : (s : Text) → valid s ≡ true → to_valid s ≡ s
to_valid-id s h = (to_valid_from-id ready s h).1
