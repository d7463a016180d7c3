-- ===== src/Go/Strings/Laws.antt =====
-- `join` undoes `split`.
use cpak.Base.{
  ◌≡◌, refl, sym, ap, ◌∙◌, ◌≢◌, inl, inr, List, [], ◌∷◌, arith, nat_beq_iff, ◌==◌, nat_eq,
  Bool-cases, Text, text_eq, Memᴰ, true, ◌++◌, ℕ,
}
use mathlib.Core.Path.{ap₂}
use cpak.Go.Strings.{split, join, cons_first, has_prefix, trim_suffix}

join-cons_first :
    (sep c : ℕ) (pieces : List Text)
    → pieces ≢ []
    → join sep (cons_first c pieces) ≡ c ∷ join sep pieces
unfolding join
join-cons_first sep c [] h = absurd (h refl)
join-cons_first sep c (piece ∷ pieces) h = refl

join-nil_first :
    (sep : ℕ) (pieces : List Text) → pieces ≢ [] → join sep ([] ∷ pieces) ≡ sep ∷ join sep pieces
unfolding join
join-nil_first sep [] h = absurd (h refl)
join-nil_first sep (piece ∷ pieces) h = refl

cons_first-ne-nil : (c : ℕ) (pieces : List Text) → cons_first c pieces ≢ []
cons_first-ne-nil c [] h = cc
cons_first-ne-nil c (piece ∷ pieces) h = cc

split-ne-nil : (sep : ℕ) (s : Text) → split sep s ≢ []
unfolding split
split-ne-nil sep [] h = cc
split-ne-nil sep (c ∷ s) h = ground (arith, cons_first-ne-nil c (split sep s))

pub join-split : (sep : ℕ) (s : Text) → join sep (split sep s) ≡ s
unfolding split
join-split sep [] = unfold join in refl
join-split sep (c ∷ s) = elim (Bool-cases (c == sep)) [
  | inl e ↦ rw e (
      join-nil_first sep (split sep s) (split-ne-nil sep s)
      ∙ ap₂ (λ (a : ℕ) (b : Text). a ∷ b) (sym ((nat_beq_iff c sep).0 e)) (join-split sep s))
  | inr e ↦ rw e (
      join-cons_first sep c (split sep s) (split-ne-nil sep s) ∙ ap (λ t. c ∷ t) (join-split sep s))
]

pub has_prefix_trans :
    (a b c : Text) → has_prefix a b ≡ true → has_prefix b c ≡ true → has_prefix a c ≡ true
unfolding has_prefix
has_prefix_trans a b [] h k = refl
has_prefix_trans a [] (z ∷ c) h k = cc
has_prefix_trans [] (y ∷ b) (z ∷ c) h k = cc
has_prefix_trans (x ∷ a) (y ∷ b) (z ∷ c) h k =
    ground (arith, has_prefix_trans a b c, nat_beq_iff x y, nat_beq_iff y z, nat_beq_iff x z)

-- What ends a prefix of a text stands in the text.
pub mem_of_prefix : (s p : Text) (c : ℕ) → has_prefix s (p ++ (c ∷ [])) ≡ true → Memᴰ c s
unfolding has_prefix
mem_of_prefix [] [] c h = cc
mem_of_prefix [] (y ∷ p) c h = cc
mem_of_prefix (x ∷ s) [] c h = Memᴰ.head (ground (arith, nat_beq_iff x c))
mem_of_prefix (x ∷ s) (y ∷ p) c h = Memᴰ.tail (mem_of_prefix s p c (ground arith))

-- A text is a prefix of itself with its last separator written once.
pub has_prefix-trim_suffix :
    (sep : ℕ) (s : Text) → has_prefix (trim_suffix s sep ++ (sep ∷ [])) s ≡ true
unfolding has_prefix trim_suffix
has_prefix-trim_suffix sep [] = refl
has_prefix-trim_suffix sep (c ∷ []) = elim (Bool-cases (c == sep)) [
  | inl e ↦ rw e (ground (arith, nat_beq_iff c sep, nat_beq_iff sep c))
  | inr e ↦ rw e (ground (arith, nat_beq_iff c c))
]
has_prefix-trim_suffix sep (c ∷ d ∷ s) =
    ground (arith, nat_beq_iff c c, has_prefix-trim_suffix sep (d ∷ s))
