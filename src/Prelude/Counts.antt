-- ===== src/Prelude/Counts.antt =====
-- How many rows a query selects.
use Prim.Native.Nat.{ℕ, ◌+◌, ◌≤◌}
use mathlib.Core.Path.{◌≡◌}
use mathlib.Core.Bool.{Bool, true, false, not, ◌&&◌, ◌||◌}
use mathlib.Core.List.{List, [], ◌∷◌, ◌++◌}
use native.Mathlib.Omega.{arith}
use heltec_wifi_optimization.Prelude.Lists.{length, select}

module _ {A : Type 0} where
  -- the number of rows that fulfil a test
  abbrev pub count : (A → Bool) → List A → ℕ
  count test xs = length (select test xs)

  pub count-either :
      (p q : A → Bool) (xs : List A) → count (λ x. p x || q x) xs ≤ count p xs + count q xs
  count-either p q [] = omega arith
  count-either p q (x ∷ xs) = ground (arith, count-either p q xs)

  -- The rows left that fulfil `p` fulfil `k`.
  pub count-select :
      (p k : A → Bool) (xs : List A)
      → count p (select (λ x. not (p x && not (k x))) xs) ≤ count k xs
  count-select p k [] = omega arith
  count-select p k (x ∷ xs) = ground (arith, count-select p k xs)

  pub count-subset : (p q : A → Bool) (xs : List A) → count p (select q xs) ≤ count p xs
  count-subset p q [] = omega arith
  count-subset p q (x ∷ xs) = ground (arith, count-subset p q xs)

  pub count_none : (xs : List A) → count (λ x. false) xs ≤ 0
  count_none [] = omega arith
  count_none (x ∷ xs) = count_none xs

  pub count_hit : (p : A → Bool) (x : A) → p x ≡ true → count p (x ∷ []) ≡ 1
  count_hit p x h = rw h

  pub count_miss : (p : A → Bool) (x : A) → p x ≡ false → count p (x ∷ []) ≡ 0
  count_miss p x h = rw h

  pub count-append : (p : A → Bool) (xs ys : List A) → count p (xs ++ ys) ≡ count p xs + count p ys
  count-append p [] ys = omega arith
  count-append p (x ∷ xs) ys = ground (arith, count-append p xs ys)
