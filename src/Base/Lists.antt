-- ===== src/Base/Lists.antt =====
-- Tests over the elements of a list, with the witness of a membership kept, and lengths over the
-- native numbers.
use Prim.Native.Nat.{ℕ, suc, ◌+◌}
use mathlib.Core.Path.{◌≡◌, refl, sym}
use mathlib.Core.Logic.{inl, inr}
use mathlib.Core.Bool.{Bool, true, false, ◌&&◌, ◌||◌}
use mathlib.Core.List.{List, [], ◌∷◌, ◌++◌, Memᴰ}
use native.Mathlib.Omega.{arith}
use cpak.Base.Tests.{Eq, ◌==◌, Bool-cases}

module _ {ℓ} {A : Type ℓ} where
  unfoldable pub any : (A → Bool) → List A → Bool
  any p [] = false
  any p (x ∷ xs) = p x || any p xs

  unfoldable pub all : (A → Bool) → List A → Bool
  all p [] = true
  all p (x ∷ xs) = p x && all p xs

  abbrev pub length : List A → ℕ
  length [] = 0
  length (x ∷ xs) = suc (length xs)

  abbrev pub is_empty : List A → Bool
  is_empty [] = true
  is_empty (x ∷ xs) = false

  pub length-append : (xs ys : List A) → length (xs ++ ys) ≡ length xs + length ys
  length-append [] ys = omega arith
  length-append (x ∷ xs) ys = omega (arith, length-append xs ys)

  pub any-eq-true :
      (p : A → Bool) (xs : List A) → any p xs ≡ true → (x : A) × Memᴰ x xs × (p x ≡ true)
  unfolding any
  any-eq-true p [] h = cc
  any-eq-true p (x ∷ xs) h = elim (Bool-cases (p x)) [
    | inl e ↦ (x, Memᴰ.head refl, e)
    | inr e ↦ let (y, m, t) = any-eq-true p xs (ground arith) in (y, Memᴰ.tail m, t)
  ]

  pub any_of_mem : (p : A → Bool) (x : A) (xs : List A) → Memᴰ x xs → p x ≡ true → any p xs ≡ true
  unfolding any
  any_of_mem p x [] m h = elim m [ ]
  any_of_mem p x (y ∷ xs) (Memᴰ.head e) h = ground (arith, e)
  any_of_mem p x (y ∷ xs) (Memᴰ.tail m) h = ground (arith, any_of_mem p x xs m h)

  pub all_mem : (p : A → Bool) (x : A) (xs : List A) → all p xs ≡ true → Memᴰ x xs → p x ≡ true
  unfolding all
  all_mem p x [] h m = elim m [ ]
  all_mem p x (y ∷ xs) h (Memᴰ.head e) = ground (arith, e)
  all_mem p x (y ∷ xs) h (Memᴰ.tail m) = all_mem p x xs (ground arith) m

  pub all_of_mem :
      (p : A → Bool) (xs : List A) → ((x : A) → Memᴰ x xs → p x ≡ true) → all p xs ≡ true
  unfolding all
  all_of_mem p [] h = refl
  all_of_mem p (x ∷ xs) h =
      ground (arith, h x (Memᴰ.head refl), all_of_mem p xs (λ y m. h y (Memᴰ.tail m)))

  pub is_empty_of_mem : (x : A) (xs : List A) → Memᴰ x xs → is_empty xs ≡ false
  is_empty_of_mem x [] m = elim m [ ]
  is_empty_of_mem x (y ∷ xs) m = refl

  pub all_mono :
      (p q : A → Bool) (xs : List A)
      → ((x : A) → p x ≡ true → q x ≡ true)
      → all p xs ≡ true
      → all q xs ≡ true
  all_mono p q xs h a = all_of_mem q xs (λ x m. h x (all_mem p x xs a m))

  pub all-append : (p : A → Bool) (xs ys : List A) → all p (xs ++ ys) ≡ (all p xs && all p ys)
  unfolding all
  all-append p [] ys = refl
  all-append p (x ∷ xs) ys = ground (arith, all-append p xs ys)

  pub any-append : (p : A → Bool) (xs ys : List A) → any p (xs ++ ys) ≡ (any p xs || any p ys)
  unfolding any
  any-append p [] ys = refl
  any-append p (x ∷ xs) ys = ground (arith, any-append p xs ys)

module _ {ℓ} {A : Type ℓ} ⦃e : Eq A⦄ where
  -- The loop of Go that looks for a value in a slice.
  abbrev pub contains : A → List A → Bool
  contains a xs = any (λ x. x == a) xs

  pub contains_mem : (a : A) (xs : List A) → contains a xs ≡ true → Memᴰ a xs
  unfolding any
  contains_mem a [] h = cc
  contains_mem a (x ∷ xs) h = elim (Bool-cases (x == a)) [
    | inl same ↦ Memᴰ.head (sym ((e.same_iff x a).0 same))
    | inr other ↦ Memᴰ.tail (contains_mem a xs (ground arith))
  ]

  pub contains_of_mem : (a : A) (xs : List A) → Memᴰ a xs → contains a xs ≡ true
  contains_of_mem a xs m = any_of_mem (λ x. x == a) a xs m ((e.same_iff a a).1 refl)
