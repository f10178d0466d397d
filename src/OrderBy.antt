-- ===== src/OrderBy.antt =====
-- What a query of app/main.py gets from the database for an `ORDER BY … DESC` of one time column.
--
-- The database promises the rows with none later than the one before it. Rows with the same time
-- come in any order, and in another one for the next query, so a query takes the order that it
-- gets as a parameter, with that promise as a law.
use mathlib.Core.List.{Permᴰ}
use mathlib.Core.List.Permᴰ.{nil, cons, swap, trans}
use mathlib.Core.List.Permᴰ as Permᴰ
use heltec_wifi_optimization.Prelude.{
  All, ℕ, ◌≤◌, ◌≡◌, ◌≢◌, refl, sym, ap, subst, ◌∙◌, Bool-cases, inl, inr, List, [], ◌∷◌, arith, leb,
  length, if◌then◌else◌,
}

module _ {A : Type 0} (time : A → ℕ) where
  -- no row of the list is later than `t`
  abbrev pub NoneLater : ℕ → List A → Type 0
  NoneLater t = All (λ x. time x ≤ t)

  abbrev pub IsNewestFirst : List A → Type 0
  IsNewestFirst [] = Unit
  IsNewestFirst (x ∷ xs) = NoneLater (time x) xs × IsNewestFirst xs

  -- no two rows have the same time
  abbrev pub IsDistinct : List A → Type 0
  IsDistinct [] = Unit
  IsDistinct (x ∷ xs) = All (λ y. time x ≢ time y) xs × IsDistinct xs

-- What the database promises of the rows of a query: they come newest first, each once.
pub record IsOrder {A : Type 0} (time : A → ℕ) (order : List A → List A) : Type 0 where
  pub newest_first : (xs : List A) → IsNewestFirst time (order xs)
  pub same_rows : (xs : List A) → Permᴰ (order xs) xs

pub All-Permᴰ : {A : Type 0} (P : A → Type 0) {xs ys : List A} → Permᴰ xs ys → All P xs → All P ys
All-Permᴰ P nil h = tt
All-Permᴰ P (cons e p) (a, h) = (subst P e a, All-Permᴰ P p h)
All-Permᴰ P (swap e e') (a, (b, h)) = (subst P e' b, (subst P e a, h))
All-Permᴰ P (trans p q) h = All-Permᴰ P q (All-Permᴰ P p h)

pub length-Permᴰ : {A : Type 0} {xs ys : List A} → Permᴰ xs ys → length xs ≡ length ys
length-Permᴰ nil = refl
length-Permᴰ (cons e p) = omega (arith, length-Permᴰ p)
length-Permᴰ (swap e e') = refl
length-Permᴰ (trans p q) = length-Permᴰ p ∙ length-Permᴰ q

module _ {A : Type 0} (time : A → ℕ) where
  -- One such order: of rows with one time, the one inserted last comes first.
  abbrev insert_by_time : A → List A → List A
  insert_by_time x [] = x ∷ []
  insert_by_time x (y ∷ rows) =
      let rest = insert_by_time x rows in if leb (time x) (time y) then y ∷ rest else x ∷ y ∷ rows

  abbrev pub order_by_time : List A → List A
  order_by_time [] = []
  order_by_time (x ∷ rows) = insert_by_time x (order_by_time rows)

  NoneLater-trans : (s t : ℕ) (xs : List A) → s ≤ t → NoneLater time s xs → NoneLater time t xs
  NoneLater-trans s t [] le h = tt
  NoneLater-trans s t (x ∷ xs) le (p, h) = (omega arith, NoneLater-trans s t xs le h)

  insert_by_time-NoneLater :
      (t : ℕ) (x : A) (xs : List A)
      → time x ≤ t
      → NoneLater time t xs
      → NoneLater time t (insert_by_time x xs)
  insert_by_time-NoneLater t x [] le h = (le, tt)
  insert_by_time-NoneLater t x (y ∷ xs) le (p, h) = elim (Bool-cases (leb (time x) (time y))) [
    | (inl after) ↦ simp (after) (p, insert_by_time-NoneLater t x xs le h)
    | (inr before) ↦ simp (before) (le, (p, h))
  ]

  insert_by_time-IsNewestFirst :
      (x : A) (xs : List A) → IsNewestFirst time xs → IsNewestFirst time (insert_by_time x xs)
  insert_by_time-IsNewestFirst x [] h = (tt, tt)
  insert_by_time-IsNewestFirst x (y ∷ xs) (p, h) = elim (Bool-cases (leb (time x) (time y))) [
    | (inl after) ↦ simp (after) (
      insert_by_time-NoneLater (time y) x xs (ground arith) p,
      insert_by_time-IsNewestFirst x xs h,
    )
    | (inr before) ↦
        simp (before)
          ((ground arith, NoneLater-trans (time y) (time x) xs (ground arith) p), (p, h))
  ]

  insert_by_time-Permᴰ : (x : A) (xs : List A) → Permᴰ (insert_by_time x xs) (x ∷ xs)
  insert_by_time-Permᴰ x [] = Permᴰ.refl (x ∷ [])
  insert_by_time-Permᴰ x (y ∷ xs) = elim (Bool-cases (leb (time x) (time y))) [
    | (inl after) ↦ simp (after) (trans (cons refl (insert_by_time-Permᴰ x xs)) (swap refl refl))
    | (inr before) ↦ simp (before) (Permᴰ.refl (x ∷ y ∷ xs))
  ]

  order_by_time-IsNewestFirst : (xs : List A) → IsNewestFirst time (order_by_time xs)
  order_by_time-IsNewestFirst [] = tt
  order_by_time-IsNewestFirst (x ∷ xs) =
      insert_by_time-IsNewestFirst x (order_by_time xs) (order_by_time-IsNewestFirst xs)

  order_by_time-Permᴰ : (xs : List A) → Permᴰ (order_by_time xs) xs
  order_by_time-Permᴰ [] = nil
  order_by_time-Permᴰ (x ∷ xs) =
      trans (insert_by_time-Permᴰ x (order_by_time xs)) (cons refl (order_by_time-Permᴰ xs))

  pub order_by_time-IsOrder : IsOrder time order_by_time
  order_by_time-IsOrder = record {
    newest_first = order_by_time-IsNewestFirst;
    same_rows = order_by_time-Permᴰ;
  }

  -- Rows that are newest first already stay, if no two have the same time.
  order_by_time_newest_first :
      (xs : List A) → IsNewestFirst time xs → IsDistinct time xs → order_by_time xs ≡ xs
  order_by_time_newest_first [] h d = refl
  order_by_time_newest_first (x ∷ xs) (p, h) (apart, d) =
      ap (insert_by_time x) (order_by_time_newest_first xs h d) ∙ insert_by_time_newest x xs p apart
    where
      insert_by_time_newest :
          (x : A) (xs : List A)
          → NoneLater time (time x) xs
          → All (λ y. time x ≢ time y) xs
          → insert_by_time x xs ≡ x ∷ xs
      insert_by_time_newest x [] p apart = refl
      insert_by_time_newest x (y ∷ xs) (le, p) (ne, apart) =
          elim (Bool-cases (leb (time x) (time y))) [
            | inl after ↦ absurd (ne (ground arith))
            | inr before ↦ simp before refl
          ]

  insert_by_time_comm :
      (x y : A) (xs : List A)
      → time x ≢ time y
      → insert_by_time x (insert_by_time y xs) ≡ insert_by_time y (insert_by_time x xs)
  insert_by_time_comm x y [] ne = ground arith
  insert_by_time_comm x y (z ∷ xs) ne = ground (arith, insert_by_time_comm x y xs ne)

  apart_same :
      {a b : A} (xs : List A)
      → a ≡ b
      → All (λ y. time a ≢ time y) xs
      → All (λ y. time b ≢ time y) xs
  apart_same xs e = subst (λ c. All (λ y. time c ≢ time y) xs) e

  IsDistinct-Permᴰ : {xs ys : List A} → Permᴰ xs ys → IsDistinct time xs → IsDistinct time ys
  IsDistinct-Permᴰ nil d = tt
  IsDistinct-Permᴰ (cons {a = a} {l₂ = ys} e p) (apart, d) =
      (apart_same ys e (All-Permᴰ (λ y. time a ≢ time y) p apart), IsDistinct-Permᴰ p d)
  IsDistinct-Permᴰ (swap {l = l} e e') ((ne, apart), (apart', d)) = (
    (λ same. ne (ap time e ∙ sym same ∙ sym (ap time e')), apart_same l e' apart'),
    (apart_same l e apart, d),
  )
  IsDistinct-Permᴰ (trans p q) d = IsDistinct-Permᴰ q (IsDistinct-Permᴰ p d)

  order_by_time-eq :
      {xs ys : List A} → Permᴰ xs ys → IsDistinct time xs → order_by_time xs ≡ order_by_time ys
  order_by_time-eq nil d = refl
  order_by_time-eq (cons e p) (apart, d) = λ i. insert_by_time (e i) (order_by_time-eq p d i)
  order_by_time-eq (swap {l = l} e e') ((ne, apart), d) =
      insert_by_time_comm _ _ (order_by_time l) ne
      ∙ (λ i. insert_by_time (e' i) (insert_by_time (e i) (order_by_time l)))
  order_by_time-eq (trans p q) d = order_by_time-eq p d ∙ order_by_time-eq q (IsDistinct-Permᴰ p d)

  -- Rows with different times have one order only.
  pub order_unique :
      (order : List A → List A)
      → IsOrder time order
      → (xs : List A) → IsDistinct time xs
      → order xs ≡ order_by_time xs
  order_unique order law xs d =
      let same = law.same_rows xs in
      let d' = IsDistinct-Permᴰ (Permᴰ.symm same) d in
      sym (order_by_time_newest_first (order xs) (law.newest_first xs) d')
      ∙ order_by_time-eq same d'
