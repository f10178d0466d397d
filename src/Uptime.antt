-- ===== src/Uptime.antt =====
-- `_uptime_pct` of app/main.py: the downtime that its query finds in the readings of a device. A
-- window is a number of microseconds here; the percentage is left to the floats of the caller.
pub mod Window
use heltec_wifi_optimization.Prelude.{
  ℕ, ◌+◌, ◌-◌, Bool, ◌&&◌, List, [], ◌∷◌, ◌++◌, map, ◌==◌, ltb, leb, if◌then◌else◌, select,
}
use heltec_wifi_optimization.Db.{Db, Telemetry, halow, same_radio, seconds}

abbrev pub expected_poll_interval_seconds : ℕ
expected_poll_interval_seconds = 60

-- `readings`: the heartbeats after the start of the window
unfoldable pub readings : {F : Type 0} → ℕ → ℕ → List (Telemetry F) → List ℕ
readings device_id window_start rows =
    map (λ r. r.time)
      (select
        (λ r. (r.device_id == device_id && same_radio r.radio halow) && ltb window_start r.time)
        rows)

-- `OVER (ORDER BY time)`
abbrev pub insert_time : ℕ → List ℕ → List ℕ
insert_time t [] = t ∷ []
insert_time t (u ∷ us) = let rest = insert_time t us in if leb t u then t ∷ u ∷ us else u ∷ rest

abbrev pub order_times : List ℕ → List ℕ
order_times [] = []
order_times (t ∷ ts) = insert_time t (order_times ts)

-- `SUM(GREATEST(time - prev_time - interval, 0))`, where the times ascend
abbrev pub downtime_after : ℕ → List ℕ → ℕ
downtime_after prev_time [] = 0
downtime_after prev_time (time ∷ times) =
    time - prev_time - seconds expected_poll_interval_seconds + downtime_after time times

-- The first row has no `prev_time`.
abbrev pub sum_of_gaps : List ℕ → ℕ
sum_of_gaps [] = 0
sum_of_gaps (time ∷ times) = downtime_after time times

unfoldable pub downtime : {F : Type 0} → ℕ → ℕ → ℕ → Db F → ℕ
downtime now device_id window db =
    let window_start = now - window in
    sum_of_gaps
      (order_times (window_start ∷ readings device_id window_start db.telemetry ++ now ∷ []))
