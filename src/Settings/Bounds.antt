-- ===== src/Settings/Bounds.antt =====
-- The bounds of the fields of a request (app/models.py), and the values that pass them.
use heltec_wifi_optimization.Prelude.{
  ℕ, All, zero, suc, ◌≤◌, ◌<◌, ◌≡◌, ◌⊎◌, inl, inr, true, false, Bool-cases, List, [], ◌∷◌, leb,
  contains, ==_refl, refl, arith, Result, ok, raise, http, ◌>>=◌,
}
use heltec_wifi_optimization.Db.{ℤ, pos, negsuc}
use heltec_wifi_optimization.Settings.{positive, non_negative, max_integer, fit_integer}

-- A check either gives a value with `P`, or refuses the request with status 422.
pub data Accepts {A : Type 0} (P : A → Type 0) : Result A → Type 0 where
  accepted : {a : A} → P a → Accepts P (ok a)
  refused : Accepts P (raise (http 422))

-- A chain of checks is one, if each step is for every value that the one before accepts.
pub >>=-Accepts :
    {A B : Type 0} {P : A → Type 0} {Q : B → Type 0} {m : Result A} {f : A → Result B}
    → Accepts P m
    → ((a : A) → P a → Accepts Q (f a))
    → Accepts Q (m >>= f)
>>=-Accepts (accepted {a} h) k = k a h
>>=-Accepts refused k = refused

pub positive-Accepts : (z : ℤ) → Accepts (λ n. (pos n ≡ z) × (0 < n)) (positive z)
unfolding positive
positive-Accepts (pos zero) = refused
positive-Accepts (pos (suc m)) = accepted (refl, omega arith)
positive-Accepts (negsuc m) = refused

pub non_negative-Accepts : (z : ℤ) → Accepts (λ n. pos n ≡ z) (non_negative z)
unfolding non_negative
non_negative-Accepts (pos m) = accepted refl
non_negative-Accepts (negsuc m) = refused

-- Numbers fit their INTEGER columns, or one of them is too large.
pub fit_integer-cases :
    (ns : List ℕ)
    → (fit_integer ns ≡ true) × All (λ n. n ≤ 2147483647) ns
      ⊎ (fit_integer ns ≡ false) × ((n : ℕ) × (contains ns n ≡ true) × (2147483647 < n))
unfolding fit_integer
fit_integer-cases [] = inl (refl, tt)
fit_integer-cases (n ∷ ns) = elim (Bool-cases (leb n max_integer)) [
  | inr above ↦ inr (simp above refl, (n, simp (==_refl n) refl, ground arith))
  | inl fits ↦ elim (fit_integer-cases ns) [
    | inl (all_fit, below) ↦ inl (simp (fits, all_fit) refl, (ground arith, below))
    | inr (one, (m, there, above)) ↦ inr (simp (fits, one) refl, (m, ground arith, above))
  ]
]
