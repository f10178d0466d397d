-- ===== src/Optimizer/Pass/Paused.antt =====
-- What stops an optimizer pass: the kill switch, and a bandwidth that is no tier.
use heltec_wifi_optimization.Float.{Float}
use heltec_wifi_optimization.Db.{Db}
use heltec_wifi_optimization.Optimizer.Halow.Rules
