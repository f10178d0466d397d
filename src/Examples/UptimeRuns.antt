-- ===== src/Examples/UptimeRuns.antt =====
-- The downtime of a window at concrete readings.
use heltec_wifi_optimization.Prelude.{ℕ, ◌≤◌, ◌≡◌, refl, [], ◌∷◌, arith}
use heltec_wifi_optimization.Db.{Db}
use heltec_wifi_optimization.Uptime.{readings, downtime}
use heltec_wifi_optimization.Uptime.Window.{downtime_le}
use heltec_wifi_optimization.Examples.Data.{empty, reading}

-- readings after 100 and 130 seconds
abbrev heard : Db ℕ
heard = record empty { telemetry = reading 100000000 0 6 2 0 ∷ reading 130000000 0 6 2 0 ∷ [] }

downtime_le_example : downtime 300000000 1 300000000 heard ≤ 300000000
downtime_le_example =
    downtime_le 300000000 1 300000000 heard (omega arith) (omega arith, (omega arith, tt))

-- 40 seconds before the first reading, 110 after the last one
downtime_test : downtime 300000000 1 300000000 heard ≡ 150000000
unfolding downtime readings
downtime_test = refl
