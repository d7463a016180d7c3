-- ===== src/Go/Search.antt =====
-- `sort.Search`: the least index from which a test holds, by bisection. The fuel is the length of
-- the interval, which each round halves.
use cpak.Base.{
  ℕ, zero, suc, ◌+◌, ◌/◌, ◌≤◌, ◌<◌, ◌≡◌, sym, ◌∙◌, inl, inr, Bool, true, false, arith, ltb,
  Bool-cases, not_true,
}
use mathlib.Core.Bool.{true≢false}

unfoldable pub search : ℕ → (ℕ → Bool) → ℕ → ℕ → ℕ
search zero f i j = i
search (suc fuel) f i j = elim (ltb i j) [
  | true ↦ elim (f ((i + j) / 2)) [
    | true ↦ search fuel f i ((i + j) / 2)
    | false ↦ search fuel f (suc ((i + j) / 2)) j
  ]
  | false ↦ i
]

-- What the index separates.
pub record IsLeast (f : ℕ → Bool) (r : ℕ) : Type 0 where
  pub below : (k : ℕ) → k < r → f k ≡ false
  pub above : (k : ℕ) → r ≤ k → f k ≡ true

-- A test that keeps holding once it holds, and holds from `j` on and nowhere below `i`, is
-- separated by the index that is found, if the fuel is at least the length of the interval.
pub search-IsLeast :
    (f : ℕ → Bool) (fuel i j : ℕ)
    → ((a b : ℕ) → a ≤ b → f a ≡ true → f b ≡ true)
    → j ≤ fuel + i
    → i ≤ j
    → ((k : ℕ) → k < i → f k ≡ false)
    → ((k : ℕ) → j ≤ k → f k ≡ true)
    → IsLeast f (search fuel f i j)
unfolding search
search-IsLeast f zero i j mono enough ordered below above = record {
  below = below;
  above = λ k h. above k (omega arith);
}
search-IsLeast f (suc fuel) i j mono enough ordered below above = elim (Bool-cases (ltb i j)) [
  | inl open_ ↦
      let lt : i < j = ground (arith, open_) in
      elim (Bool-cases (f ((i + j) / 2))) [
        | inl holds ↦
            rw (open_, holds, search)
              (search-IsLeast f fuel i ((i + j) / 2) mono (omega (arith, enough, lt))
                (omega (arith, lt)) below (λ k h. mono ((i + j) / 2) k h holds))
        | inr fails ↦
            rw (open_, fails, search)
              (search-IsLeast f fuel (suc ((i + j) / 2)) j mono (omega (arith, enough, lt))
                (omega (arith, lt))
                (λ k h.
                  not_true (f k)
                    λ e. true≢false (sym (mono k ((i + j) / 2) (omega (arith, h)) e) ∙ fails))
                above)
      ]
  | inr closed ↦
      rw (closed, search)
        (record { below = below; above = λ k h. above k (ground (arith, closed, h)) })
]
