-- ===== src/Optimizer/Pass.antt =====
-- `run_optimizer_pass` of app/optimizer.py.
pub mod Invariant
pub mod Paused
use heltec_wifi_optimization.Prelude.{ℕ, Bool, ◌||◌, if◌then◌else◌, Result, ok, raise, ◌>>=◌}
use heltec_wifi_optimization.Float.{Float}
use heltec_wifi_optimization.Db.{Db}
use heltec_wifi_optimization.Optimizer.Halow.{evaluate_halow_link}
use heltec_wifi_optimization.Optimizer.Wifi24.{evaluate_wifi24_link}

module _ {F : Type 0} ⦃fl : Float F⦄ where
  abbrev pub halow_part : ℕ → Db F → Result (Db F)
  halow_part now db =
      let s = db.optimizer_state in
      if s.halow_channel_cycling_enabled || s.halow_bandwidth_changes_enabled
      then evaluate_halow_link now db
      else ok db

  abbrev pub wifi24_part : Bool → ℕ → Db F → Db F
  wifi24_part enabled now db = if enabled then evaluate_wifi24_link now db else db

  -- `except Exception: logger.exception(…)`: the code writes nothing before it raises.
  abbrev pub catch_all : Db F → Result (Db F) → Db F
  catch_all db (ok db') = db'
  catch_all db (raise e) = db

  -- the settings are fetched once, before either link is evaluated
  unfoldable pub run_optimizer_pass : ℕ → Db F → Db F
  run_optimizer_pass now db =
      let s = db.optimizer_state in
      if s.enabled
      then catch_all db
          (do db' ← halow_part now db; ok (wifi24_part s.wifi24_channel_cycling_enabled now db'))
      else db
