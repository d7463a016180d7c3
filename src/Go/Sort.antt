-- ===== src/Go/Sort.antt =====
-- `sort.Strings` and `sort.Slice`, by insertion: the library promises an ascending order, and no
-- order among elements that compare as equal.
use cpak.Base.{
  ◌≡◌, refl, Bool, true, false, ◌||◌, List, [], ◌∷◌, arith, ltb, if◌then◌else◌, ◌==◌, nat_eq, any,
  Text, text_eq, int_eq,
}

module _ {ℓ} {A : Type ℓ} where
  unfoldable pub insert : (A → A → Bool) → A → List A → List A
  insert less x [] = x ∷ []
  insert less x (y ∷ ys) =
      let below = insert less x ys in if less y x then y ∷ below else x ∷ y ∷ ys

  unfoldable pub sort : (A → A → Bool) → List A → List A
  unfolding insert
  sort less [] = []
  sort less (x ∷ xs) = insert less x (sort less xs)

  any-insert :
      (p : A → Bool) (less : A → A → Bool) (x : A) (ys : List A)
      → any p (insert less x ys) ≡ (p x || any p ys)
  unfolding insert any
  any-insert p less x [] = refl
  any-insert p less x (y ∷ ys) = ground (arith, any-insert p less x ys)

  -- Sorting moves elements and neither adds nor drops one.
  pub any-sort :
      (p : A → Bool) (less : A → A → Bool) (xs : List A) → any p (sort less xs) ≡ any p xs
  unfolding sort any
  any-sort p less [] = refl
  any-sort p less (x ∷ xs) = ground (arith, any-insert p less x (sort less xs), any-sort p less xs)

-- `strings.Compare(a, b) < 0`, byte by byte.
unfoldable pub text_less : Text → Text → Bool
text_less [] [] = false
text_less [] (b ∷ bs) = true
text_less (a ∷ as_) [] = false
text_less (a ∷ as_) (b ∷ bs) = let below = text_less as_ bs in if a == b then below else ltb a b
