-- ===== src/Prelude/Lists.antt =====
-- Lists measured and indexed by native numbers, and the queries that the SQL statements make.
use Prim.Native.Nat.{ℕ, zero, suc, ◌+◌}
use mathlib.Core.Path.{◌≡◌, refl}
use mathlib.Core.Bool.{Bool, true, false, ◌&&◌, ◌||◌}
use mathlib.Core.List.{List, [], ◌∷◌, ◌++◌}
use mathlib.Core.Option.{Option, none, some}
use native.Mathlib.Omega.{arith}
use heltec_wifi_optimization.Prelude.Tests.{leb, ◌==◌, if◌then◌else◌}

module _ {ℓ} {A : Type ℓ} where
  abbrev pub length : List A → ℕ
  length [] = 0
  length (x ∷ xs) = suc (length xs)

  abbrev pub get_or : List A → ℕ → A → A
  get_or [] i d = d
  get_or (x ∷ xs) zero d = x
  get_or (x ∷ xs) (suc i) d = get_or xs i d

  -- `EXISTS(SELECT 1 … WHERE test)`
  abbrev pub any : (A → Bool) → List A → Bool
  any test [] = false
  any test (x ∷ xs) = test x || any test xs

  abbrev pub all : (A → Bool) → List A → Bool
  all test [] = true
  all test (x ∷ xs) = test x && all test xs

  -- `SELECT … WHERE test`, in the order of the table
  abbrev pub select : (A → Bool) → List A → List A
  select test [] = []
  select test (x ∷ xs) = let rest = select test xs in if test x then x ∷ rest else rest

  -- `fetchrow` of `SELECT … WHERE test`, and Python's `next((x for x in xs if test x), None)`
  abbrev pub find : (A → Bool) → List A → Option A
  find test [] = none
  find test (x ∷ xs) = if test x then some x else find test xs

  -- the row to keep of the first and of the latest of the rest
  abbrev pub later_of : (A → ℕ) → A → Option A → A
  later_of time x none = x
  later_of time x (some y) = if leb (time x) (time y) then y else x

  -- `ORDER BY time DESC LIMIT 1`; of rows with one time, the one inserted last
  abbrev pub latest : (A → ℕ) → List A → Option A
  latest time [] = none
  latest time (x ∷ xs) = some (later_of time x (latest time xs))

  -- `UPDATE … SET … WHERE test`
  abbrev pub update : (A → Bool) → (A → A) → List A → List A
  update test f [] = []
  update test f (x ∷ xs) = (if test x then f x else x) ∷ update test f xs

-- `x in xs`
abbrev pub contains : List ℕ → ℕ → Bool
contains [] a = false
contains (x ∷ xs) a = x == a || contains xs a

-- `xs.index(a)`; `none` is its ValueError
abbrev pub index : List ℕ → ℕ → Option ℕ
index [] a = none
index (x ∷ xs) a =
    if x == a then some 0 else elim (index xs a) [ none ↦ none | some i ↦ some (suc i) ]

-- `range(n)`, from `k` on
abbrev pub range_from : ℕ → ℕ → List ℕ
range_from k zero = []
range_from k (suc n) = k ∷ range_from (suc k) n

abbrev pub filter_some {ℓ} : {A : Type ℓ} → List (Option A) → List A
filter_some [] = []
filter_some (none ∷ xs) = filter_some xs
filter_some (some x ∷ xs) = x ∷ filter_some xs

module _ {ℓ} {A : Type ℓ} where
  pub length-append : (xs ys : List A) → length (xs ++ ys) ≡ length xs + length ys
  length-append [] ys = omega arith
  length-append (x ∷ xs) ys = omega (arith, length-append xs ys)

  pub select-append :
      (test : A → Bool) (xs ys : List A) → select test (xs ++ ys) ≡ select test xs ++ select test ys
  select-append test [] ys = refl
  select-append test (x ∷ xs) ys = ground (arith, select-append test xs ys)

  -- A row that nothing fulfils is not selected.
  pub select-any : (test : A → Bool) (xs : List A) → any test xs ≡ false → select test xs ≡ []
  select-any test [] h = refl
  select-any test (x ∷ xs) h = ground (arith, select-any test xs)

-- `P` holds of each element.
abbrev pub All {ℓ κ} : {A : Type ℓ} → (A → Type κ) → List A → Type κ
All P [] = Unit
All P (x ∷ xs) = P x × All P xs
