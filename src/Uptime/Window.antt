-- ===== src/Uptime/Window.antt =====
-- `_uptime_pct` of app/main.py: the downtime and the window.
use heltec_wifi_optimization.Prelude.{
  ℕ, ◌+◌, ◌-◌, ◌≤◌, ◌&&◌, List, [], ◌∷◌, ◌++◌, arith, ◌==◌, ltb, leb, &&→both, Bool-cases, inl, inr,
}
use heltec_wifi_optimization.Db.{Db, Telemetry, halow, same_radio}
use heltec_wifi_optimization.Uptime.{
  readings, insert_time, order_times, downtime_after, sum_of_gaps, downtime,
}

-- Every time is within the bounds.
abbrev pub Within : ℕ → ℕ → List ℕ → Type 0
Within first last [] = Unit
Within first last (t ∷ ts) = ((first ≤ t) × (t ≤ last)) × Within first last ts

abbrev pub Ascending : ℕ → List ℕ → Type 0
Ascending prev [] = Unit
Ascending prev (t ∷ ts) = (prev ≤ t) × Ascending t ts

insert_time-Within :
    (first last t : ℕ) (ts : List ℕ)
    → (first ≤ t) × (t ≤ last)
    → Within first last ts
    → Within first last (insert_time t ts)
insert_time-Within first last t [] here h = (here, h)
insert_time-Within first last t (u ∷ us) here (at, rest) = elim (Bool-cases (leb t u)) [
  | inl before ↦ simp before (here, (at, rest))
  | inr after ↦ simp after (at, insert_time-Within first last t us here rest)
]

order_times-Within :
    (first last : ℕ) (ts : List ℕ) → Within first last ts → Within first last (order_times ts)
order_times-Within first last [] h = h
order_times-Within first last (t ∷ ts) (here, rest) =
    insert_time-Within first last t _ here (order_times-Within first last ts rest)

insert_time-Ascending :
    (prev t : ℕ) (ts : List ℕ) → prev ≤ t → Ascending prev ts → Ascending prev (insert_time t ts)
insert_time-Ascending prev t [] after h = (after, tt)
insert_time-Ascending prev t (u ∷ us) after (first, rest) = elim (Bool-cases (leb t u)) [
  | inl before ↦ simp before (after, (ground (arith, before), rest))
  | inr later ↦ simp later (first, insert_time-Ascending u t us (ground (arith, later)) rest)
]

order_times-Ascending :
    (first last : ℕ) (ts : List ℕ) → Within first last ts → Ascending first (order_times ts)
order_times-Ascending first last [] h = tt
order_times-Ascending first last (t ∷ ts) ((low, high), rest) =
    insert_time-Ascending first t _ low (order_times-Ascending first last ts rest)

downtime_after_le :
    (start prev last : ℕ) (ts : List ℕ)
    → prev ≤ last
    → Ascending prev ts
    → Within start last ts
    → downtime_after prev ts + prev ≤ last
downtime_after_le start prev last [] within asc bounds = omega (arith, within)
downtime_after_le start prev last (t ∷ ts) within (later, rest) ((_, high), bounds) =
    omega (arith, later, downtime_after_le start t last ts high rest bounds)

sum_of_gaps_le :
    (first last : ℕ) (ts : List ℕ)
    → Ascending first ts
    → Within first last ts
    → sum_of_gaps ts ≤ last - first
sum_of_gaps_le first last [] asc bounds = omega arith
sum_of_gaps_le first last (t ∷ ts) (low, asc) ((_, high), bounds) =
    omega (arith, low, high, downtime_after_le first t last ts high asc bounds)

-- No reading is from the future.
abbrev pub Until : {F : Type 0} → ℕ → List (Telemetry F) → Type 0
Until now [] = Unit
Until now (r ∷ rows) = (r.time ≤ now) × Until now rows

Within-append :
    (first last t : ℕ) (ts : List ℕ)
    → (first ≤ t) × (t ≤ last)
    → Within first last ts
    → Within first last (ts ++ t ∷ [])
Within-append first last t [] here h = (here, tt)
Within-append first last t (u ∷ us) here (at, rest) = (at, Within-append first last t us here rest)

module _ {F : Type 0} where
  readings-Within :
      (device_id first now : ℕ) (rows : List (Telemetry F))
      → Until now rows
      → Within first now (readings device_id first rows)
  unfolding readings
  readings-Within device_id first now [] h = tt
  readings-Within device_id first now (r ∷ rows) (past, h) =
      elim (Bool-cases
        ((r.device_id == device_id && same_radio r.radio halow) && ltb first r.time)) [
          | inl read ↦ simp read (
            (ground (arith, &&→both _ (ltb first r.time) read), past),
            readings-Within device_id first now rows h,
          )
          | inr skipped ↦ simp skipped (readings-Within device_id first now rows h)
        ]

  -- When no reading is from the future, the downtime found in a window is at most the window.
  pub downtime_le :
      (now device_id window : ℕ) (db : Db F)
      → window ≤ now
      → Until now db.telemetry
      → downtime now device_id window db ≤ window
  unfolding downtime
  downtime_le now device_id window db fits past =
      let first = now - window in
      let times = readings device_id first db.telemetry ++ now ∷ [] in
      let within : Within first now (first ∷ times) = (
        (omega arith, omega arith),
        Within-append first now now _ (omega arith, omega arith)
            (readings-Within device_id first now db.telemetry past),
      ) in
      omega (
        arith,
        fits,
        sum_of_gaps_le first now (order_times (first ∷ times))
            (order_times-Ascending first now (first ∷ times) within)
            (order_times-Within first now (first ∷ times) within),
      )
