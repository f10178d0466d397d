-- ===== src/Optimizer/Channels/RoundRobin.antt =====
-- The round robin over the channels of a bandwidth (app/optimizer.py).
use heltec_wifi_optimization.Prelude.{
  ℕ, zero, suc, ◌+◌, ◌-◌, ◌%◌, ◌≤◌, ◌<◌, ◌≡◌, ◌∙◌, ◌≢◌, inl, inr, Bool, true, false, not, none,
  some, List, [], ◌∷◌, map, arith, leb, ◌==◌, ==→eq, ==_refl, Bool-cases, Option-cases, length,
  get_or, find, contains, range_from,
}
use native.Mathlib.Nat.{add-mod_right, mod-eq_of_lt, mod-lt}
use heltec_wifi_optimization.Optimizer.Channels.{first_step, candidate, next_channel}

-- `find` on a list of computed values is the first index that passes.
find-range_some :
    (p : ℕ → Bool) (f : ℕ → ℕ) (k n c : ℕ)
    → find p (map f (range_from k n)) ≡ some c
    → (j : ℕ) × (k ≤ j)
      × (j < k + n)
      × (f j ≡ c)
      × (p c ≡ true)
      × ((i : ℕ) → k ≤ i → i < j → p (f i) ≡ false)
find-range_some p f k zero c h = cc
find-range_some p f k (suc n) c h = elim (Bool-cases (p (f k))) [
  | inl pass ↦
      let e : f k ≡ c = ground arith in
      (k, omega arith, omega arith, e, rw (← e) pass, λ i lo hi. absurd (omega arith))
  | inr fail ↦
      let (j, lo, hi, e, pass, before) = find-range_some p f (suc k) n c (ground arith) in
      (
        j,
        omega arith,
        omega arith,
        e,
        pass,
        λ i a b. elim (Bool-cases (i == k)) [
          | inl same ↦ rw (==→eq i k same) fail
          | inr other ↦ before i (ground arith) b
        ],
      )
]

find-range_none :
    (p : ℕ → Bool) (f : ℕ → ℕ) (k n i : ℕ)
    → find p (map f (range_from k n)) ≡ none
    → k ≤ i
    → i < k + n
    → p (f i) ≡ false
find-range_none p f k zero i h lo hi = absurd (omega arith)
find-range_none p f k (suc n) i h lo hi = ground (arith, find-range_none p f (suc k) n i)

contains-get_or : (xs : List ℕ) (i : ℕ) → i < length xs → contains xs (get_or xs i 0) ≡ true
contains-get_or [] i h = absurd (omega arith)
contains-get_or (x ∷ xs) zero h = rw (==_refl x)
contains-get_or (x ∷ xs) (suc i) h = ground (arith, contains-get_or xs i)

get_or-contains :
    (xs : List ℕ) (c : ℕ) → contains xs c ≡ true → (i : ℕ) × (i < length xs) × (get_or xs i 0 ≡ c)
get_or-contains [] c h = cc
get_or-contains (x ∷ xs) c h = elim (Bool-cases (x == c)) [
  | inl here ↦ (0, omega arith, ==→eq x c here)
  | inr there ↦ let (i, lt, e) = get_or-contains xs c (ground arith) in (suc i, omega arith, e)
]

first_step-le : (xs : List ℕ) (c : ℕ) → first_step xs c ≤ length xs
first_step-le [] c = omega arith
first_step-le (x ∷ xs) c = ground (arith, first_step-le xs c)

-- every index is reached in fewer than `n` steps from any start
step_to : (o n j : ℕ) → o ≤ n → j < n → (k : ℕ) × (k < n) × ((o + k) % n ≡ j)
step_to o n j ho hj = elim (Bool-cases (leb o j)) [
  | inl le ↦ let e : o + (j - o) ≡ j = ground arith in (j - o, ground arith, rw e (mod-eq_of_lt hj))
  | inr gt ↦
      let e : o + (j + n - o) ≡ j + n = ground arith in
      (j + n - o, ground arith, rw e (add-mod_right j n ∙ mod-eq_of_lt hj))
]

module _ (valid : List ℕ) (cur : ℕ) where
  -- each candidate is a valid channel
  candidate-valid : (k : ℕ) → 0 < length valid → contains valid (candidate valid cur k) ≡ true
  candidate-valid k h =
      contains-get_or valid ((first_step valid cur + k) % length valid) (mod-lt _ h)

  -- each valid channel is a candidate
  valid-candidate :
      (c : ℕ) → contains valid c ≡ true → (k : ℕ) × (k < length valid) × (candidate valid cur k ≡ c)
  valid-candidate c h =
      let (i, lt, e) = get_or-contains valid c h in
      let (k, below, m) =
        step_to (first_step valid cur) (length valid) i (first_step-le valid cur) lt in
      (k, below, rw m e)

  -- What a found channel is: the first candidate after the current channel that has not failed.
  pub record IsFirstUsable (failed : List ℕ) (c : ℕ) : Type 0 where
    pub step : ℕ
    pub in_round : step < length valid
    pub at_step : candidate valid cur step ≡ c
    pub is_channel : contains valid c ≡ true
    pub not_failed : contains failed c ≡ false
    pub skipped : (i : ℕ) → i < step → contains failed (candidate valid cur i) ≡ true

  not-false : (b : Bool) → not b ≡ false → b ≡ true
  not-false b h = ground arith

  pub next_channel-IsFirstUsable :
      (failed : List ℕ) (c : ℕ) → next_channel valid cur failed ≡ some c → IsFirstUsable failed c
  unfolding next_channel
  next_channel-IsFirstUsable failed c h =
      let (j, lo, hi, e, pass, before) =
        find-range_some (λ x. not (contains failed x)) (candidate valid cur) 0 (length valid) c h in
      record {
        step = j;
        in_round = omega arith;
        at_step = e;
        is_channel = rw e at (candidate-valid j (omega arith));
        not_failed = ground arith;
        skipped = λ i lt. not-false _ (before i (omega arith) lt);
      }

  pub next_channel-none :
      (failed : List ℕ)
      → next_channel valid cur failed ≡ none
      → (c : ℕ) → contains valid c ≡ true
      → contains failed c ≡ true
  unfolding next_channel
  next_channel-none failed h c m =
      let (k, lt, e) = valid-candidate c m in
      rw e at (
        not-false _ (
          find-range_none (λ x. not (contains failed x)) (candidate valid cur) 0 (length valid) k h
            (omega arith) (omega arith)))

  -- If every other channel has reverted and the current one has not, the round robin "cycles" to
  -- the channel that is in use already.
  pub next_channel_stays :
      (failed : List ℕ)
      → contains valid cur ≡ true
      → contains failed cur ≡ false
      → ((c : ℕ) → contains valid c ≡ true → c ≢ cur → contains failed c ≡ true)
      → next_channel valid cur failed ≡ some cur
  next_channel_stays failed valid_cur usable others =
      elim (Option-cases (next_channel valid cur failed)) [
        | inl e ↦ cc (next_channel-none failed e cur valid_cur)
        | inr (c, e) ↦
            let first = next_channel-IsFirstUsable failed c e in
            elim (Bool-cases (c == cur)) [
              | inl same ↦ rw (e, ==→eq c cur same)
              | inr other ↦ cc (others c first.is_channel (λ eq. ground arith), first.not_failed)
            ]
      ]
