-- ===== src/Optimizer/Channels/Cycle.antt =====
-- The order in which the round robin of app/optimizer.py looks at the channels of a bandwidth.
use mathlib.Core.List.{append_assoc, append-nil}
use heltec_wifi_optimization.Prelude.{
  ℕ, zero, suc, ◌+◌, ◌-◌, ◌%◌, ◌<◌, ◌≡◌, refl, sym, ap, ◌∙◌, inl, inr, not, none, some, List, [],
  ◌∷◌, ◌++◌, map, arith, ltb, ◌==◌, Bool-cases, length, length-append, get_or, find, contains,
  index, range_from, if◌then◌else◌,
}
use native.Mathlib.Nat.{add-mod_right, mod-eq_of_lt}
use heltec_wifi_optimization.Optimizer.Channels.{first_step, candidate, candidates, next_channel}

-- One pass over the channels `xs`, with the ones before them in `seen`: at the current channel,
-- what follows it comes first, then what was seen, then the current channel. If it is not among
-- them, they stay in order.
abbrev pub rotate : List ℕ → ℕ → List ℕ → List ℕ
rotate seen cur [] = seen
rotate seen cur (x ∷ xs) =
    if x == cur then xs ++ (seen ++ x ∷ []) else rotate (seen ++ x ∷ []) cur xs

get_or-append_left :
    (xs ys : List ℕ) (j : ℕ) → j < length xs → get_or (xs ++ ys) j 0 ≡ get_or xs j 0
get_or-append_left [] ys j h = absurd (omega arith)
get_or-append_left (x ∷ xs) ys zero h = refl
get_or-append_left (x ∷ xs) ys (suc j) h = get_or-append_left xs ys j (omega arith)

get_or-append_right : (xs ys : List ℕ) (j : ℕ) → get_or (xs ++ ys) (length xs + j) 0 ≡ get_or ys j 0
get_or-append_right [] ys j = let e : 0 + j ≡ j = omega arith in ap (λ i. get_or ys i 0) e
get_or-append_right (x ∷ xs) ys j =
    let e : suc (length xs) + j ≡ suc (length xs + j) = omega arith in
    ap (λ i. get_or (x ∷ (xs ++ ys)) i 0) e ∙ get_or-append_right xs ys j

-- A function that reads off the elements of a list tabulates it.
map-range :
    (f : ℕ → ℕ) (ys : List ℕ) (k : ℕ)
    → ((j : ℕ) → j < length ys → f (k + j) ≡ get_or ys j 0)
    → map f (range_from k (length ys)) ≡ ys
map-range f [] k h = refl
map-range f (y ∷ ys) k h =
    let e : k + 0 ≡ k = omega arith in
    let first : f k ≡ y = sym (ap f e) ∙ h 0 (omega arith) in
    let rest = map-range f ys (suc k) (λ j lt.
      let shift : suc k + j ≡ k + suc j = omega arith in ap f shift ∙ h (suc j) (omega arith)) in
    λ i. first i ∷ rest i

-- Reading a list from a place on, round to it, gives the rest and then the beginning.
read_round :
    (pre post : List ℕ) (j : ℕ)
    → j < length (post ++ pre)
    → get_or (pre ++ post) ((length pre + j) % length (pre ++ post)) 0 ≡ get_or (post ++ pre) j 0
read_round pre post j h =
    let n : length (pre ++ post) ≡ length pre + length post = length-append pre post in
    let m : length (post ++ pre) ≡ length post + length pre = length-append post pre in
    elim (Bool-cases (ltb j (length post))) [
      | inl below ↦
          ap (λ i. get_or (pre ++ post) i 0) (mod-eq_of_lt (ground arith))
          ∙ get_or-append_right pre post j
          ∙ sym (get_or-append_left post pre j (ground arith))
      | inr above ↦
          let k : ℕ = j - length post in
          let back : length post + k ≡ j = ground arith in
          let over : length pre + j ≡ k + length (pre ++ post) = ground arith in
          ap (λ i. get_or (pre ++ post) (i % length (pre ++ post)) 0) over
          ∙ ap (λ i. get_or (pre ++ post) i 0)
              (add-mod_right k (length (pre ++ post)) ∙ mod-eq_of_lt (ground arith))
          ∙ get_or-append_left pre post k (ground arith)
          ∙ sym (get_or-append_right post pre k)
          ∙ ap (λ i. get_or (post ++ pre) i 0) back
    ]

map-candidate :
    (pre post : List ℕ) (cur : ℕ)
    → first_step (pre ++ post) cur ≡ length pre
    → map (candidate (pre ++ post) cur) (range_from 0 (length (pre ++ post))) ≡ post ++ pre
map-candidate pre post cur start =
    let size : length (pre ++ post) ≡ length (post ++ pre) =
      omega (arith, length-append pre post, length-append post pre) in
    ap (λ n. map (candidate (pre ++ post) cur) (range_from 0 n)) size
    ∙ map-range (candidate (pre ++ post) cur) (post ++ pre) 0 (λ j lt.
      let z : 0 + j ≡ j = omega arith in
      (λ i. get_or (pre ++ post) ((start i + z i) % length (pre ++ post)) 0)
      ∙ read_round pre post j lt)

-- Where the current channel divides the list, if it is there.
data Divided (cur : ℕ) (xs : List ℕ) : Type 0 where
  absent :
      index xs cur ≡ none → ((seen : List ℕ) → rotate seen cur xs ≡ seen ++ xs) → Divided cur xs
  present :
      (pre post : List ℕ) (i : ℕ)
      → xs ≡ pre ++ post
      → index xs cur ≡ some i
      → length pre ≡ suc i
      → ((seen : List ℕ) → rotate seen cur xs ≡ post ++ (seen ++ pre))
      → Divided cur xs

divide : (cur : ℕ) (xs : List ℕ) → Divided cur xs
divide cur [] = absent refl (λ seen. sym (append-nil seen))
divide cur (x ∷ xs) = elim (Bool-cases (x == cur)) [
  | inl hit ↦ present (x ∷ []) xs 0 refl (simp hit refl) refl (λ seen. simp hit refl)
  | inr miss ↦ elim (divide cur xs) [
    | absent off order ↦
        absent (simp (miss, off) refl)
          (λ seen. simp miss (order (seen ++ x ∷ []) ∙ append_assoc seen (x ∷ []) xs))
    | present pre post i e at size order ↦
        present (x ∷ pre) post (suc i) (ap (λ l. x ∷ l) e) (simp (miss, at) refl) (ap suc size)
          (λ seen.
            simp miss
              (order (seen ++ x ∷ []) ∙ ap (λ l. post ++ l) (append_assoc seen (x ∷ []) pre)))
  ]
]

candidates-rotate : (valid : List ℕ) (cur : ℕ) → candidates valid cur ≡ rotate [] cur valid
unfolding candidates
candidates-rotate valid cur = elim (divide cur valid) [
  | absent off order ↦
      let start : first_step valid cur ≡ 0 = ap (λ o. elim o [ none ↦ 0 | some i ↦ i + 1 ]) off in
      map-candidate [] valid cur start ∙ append-nil valid ∙ sym (order [])
  | present pre post i e at size order ↦
      let start : first_step valid cur ≡ length pre =
        ap (λ o. elim o [ none ↦ 0 | some i ↦ i + 1 ]) at ∙ omega (arith, size) in
      ap (λ l. map (candidate l cur) (range_from 0 (length l))) e
      ∙ map-candidate pre post cur (sym (ap (λ l. first_step l cur) e) ∙ start)
      ∙ sym (order [])
]

-- The round robin returns the first channel that has not reverted of those after the current one,
-- then those before it, then the current one itself, and nothing if all have reverted. If the
-- current channel is not one of the bandwidth, it returns the bandwidth's first that has not
-- reverted.
pub next_channel-rotate :
    (valid : List ℕ) (cur : ℕ) (failed : List ℕ)
    → next_channel valid cur failed ≡ find (λ c. not (contains failed c)) (rotate [] cur valid)
unfolding next_channel
next_channel-rotate valid cur failed =
    ap (find (λ c. not (contains failed c))) (candidates-rotate valid cur)
