-- ===== src/Queries/Pages.antt =====
-- The pages of `get_events` of app/main.py, one after another.
use mathlib.Core.List.{Permᴰ}
use heltec_wifi_optimization.Prelude.{
  ℕ, zero, suc, ◌+◌, ◌*◌, ◌≤◌, ◌<◌, ◌≡◌, refl, sym, ap, true, List, [], ◌∷◌, ◌++◌, arith, leb,
  length, Result, ok, ◌>>=◌,
}
use heltec_wifi_optimization.Db.{Db, pos}
use heltec_wifi_optimization.Settings.{positive, non_negative}
use heltec_wifi_optimization.Targets.{at_most}
use heltec_wifi_optimization.Backups.{take}
use heltec_wifi_optimization.OrderBy.{
  IsNewestFirst, IsDistinct, IsOrder, length-Permᴰ, order_by_time, order_by_time-IsOrder,
  order_unique,
}
use heltec_wifi_optimization.Queries.{
  drop, bigint, DeviceEventEntry, join_events, occurred_at, get_events,
}

module _ {A : Type 0} where
  take-drop : (n : ℕ) (xs : List A) → take n xs ++ drop n xs ≡ xs
  take-drop zero xs = refl
  take-drop (suc n) [] = refl
  take-drop (suc n) (x ∷ xs) = ap (λ r. x ∷ r) (take-drop n xs)

  -- Dropping `s` is dropping `k` and then the rest.
  drop-drop : (s k n : ℕ) (xs : List A) → s ≡ k + n → drop n (drop k xs) ≡ drop s xs
  drop-drop s zero n xs e = let same : n ≡ s = omega arith in ap (λ i. drop i xs) same
  drop-drop zero (suc k) n xs e = absurd (omega arith)
  drop-drop (suc s) (suc k) zero [] e = refl
  drop-drop (suc s) (suc k) (suc n) [] e = refl
  drop-drop (suc s) (suc k) n (x ∷ xs) e = drop-drop s k n xs (omega arith)

  length-drop : (n : ℕ) (xs : List A) → length xs ≤ length (drop n xs) + n
  length-drop zero xs = omega arith
  length-drop (suc n) [] = omega arith
  length-drop (suc n) (x ∷ xs) = omega (arith, length-drop n xs)

  drop_past : (n : ℕ) (xs : List A) → length xs ≤ n → drop n xs ≡ []
  drop_past zero [] h = refl
  drop_past (suc n) [] h = refl
  drop_past zero (x ∷ xs) h = absurd (omega arith)
  drop_past (suc n) (x ∷ xs) h = drop_past n xs (omega arith)

-- The events of `m` requests for `n` events each, the first one from `offset` on. The database
-- may give each request another order.
abbrev pub pages :
    {F : Type 0}
    → (ℕ → List (DeviceEventEntry F) → List (DeviceEventEntry F))
    → ℕ
    → ℕ
    → ℕ
    → Db F
    → Result (List (DeviceEventEntry F))
pages orders n offset zero db = ok []
pages orders n offset (suc m) db = do
  page ← get_events (orders m) (pos n) (pos offset) db
  rest ← pages orders n (offset + n) m db
  ok (page ++ rest)

module _ {F : Type 0} (orders : ℕ → List (DeviceEventEntry F) → List (DeviceEventEntry F))
    (laws : (i : ℕ) → IsOrder occurred_at (orders i)) (db : Db F)
    (distinct : IsDistinct occurred_at (join_events db.devices db.events)) where
  abbrev log : List (DeviceEventEntry F)
  log = order_by_time occurred_at (join_events db.devices db.events)

  get_events_lem :
      (i n offset : ℕ)
      → 0 < n
      → n ≤ 1000
      → offset ≤ 9223372036854775807
      → get_events (orders i) (pos n) (pos offset) db ≡ ok (take n (drop offset log))
  unfolding get_events positive at_most non_negative bigint
  get_events_lem i zero offset positive_n bound fits = absurd (omega arith)
  get_events_lem i (suc n) offset positive_n bound fits =
      let starts : leb offset 9223372036854775807 ≡ true = ground arith in
      let below : leb (suc n) 1000 ≡ true = ground arith in
      simp (below, starts)
        (ap (λ rows. ok (take (suc n) (drop offset rows)))
          (order_unique occurred_at (orders i) (laws i) _ distinct))

  pages-drop :
      (n offset m : ℕ)
      → 0 < n
      → n ≤ 1000
      → offset + m * n ≤ 9223372036854775807
      → length log ≤ offset + m * n
      → pages orders n offset m db ≡ ok (drop offset log)
  pages-drop n offset zero positive_n bound fits enough =
      sym (ap ok (drop_past offset log (omega arith)))
  pages-drop n offset (suc m) positive_n bound fits enough =
      simp
        (
          get_events_lem m n offset positive_n bound (omega arith),
          pages-drop n (offset + n) m positive_n bound (omega arith) (omega arith),
          sym (drop-drop (offset + n) offset n log refl),
          take-drop n (drop offset log),
        )
        refl

-- Pages of `n` events, 1 to 1000, are together the whole log if there are enough of them and no
-- two events have the same time, as far as a BIGINT can number them: the events of known devices, each once, with none later than the
-- one before it. The table is the same for all pages; the database orders each page for itself.
pub pages_together :
    {F : Type 0} (orders : ℕ → List (DeviceEventEntry F) → List (DeviceEventEntry F)) (db : Db F)
    (n m : ℕ)
    → ((i : ℕ) → IsOrder occurred_at (orders i))
    → IsDistinct occurred_at (join_events db.devices db.events)
    → 0 < n
    → n ≤ 1000
    → m * n ≤ 9223372036854775807
    → length (join_events db.devices db.events) ≤ m * n
    → (log : List (DeviceEventEntry F)) × (pages orders n 0 m db ≡ ok log)
      × IsNewestFirst occurred_at log
      × Permᴰ log (join_events db.devices db.events)
pages_together orders db n m laws distinct positive_n bound fits enough =
    let law = order_by_time-IsOrder occurred_at in
    let same = law.same_rows (join_events db.devices db.events) in
    (
      order_by_time occurred_at (join_events db.devices db.events),
      pages-drop orders laws db distinct n 0 m positive_n bound (omega arith)
          (omega (arith, length-Permᴰ same)),
      law.newest_first (join_events db.devices db.events),
      same,
    )
