-- ===== src/Thresholds.antt =====
-- `set_optimizer_settings` and `get_optimizer_settings` of app/main.py.
pub mod Stored
use heltec_wifi_optimization.Prelude.{
  ℕ, List, [], ◌∷◌, value_error, Bool, true, false, ◌&&◌, Option, none, some, if◌then◌else◌, Result,
  ok, raise, http, ◌>>=◌,
}
use heltec_wifi_optimization.Float.{Float}
use heltec_wifi_optimization.Db.{Db, ℤ, OptimizerSettings}
use heltec_wifi_optimization.Settings.{positive, parse_body, fit_integer}

-- the model `OptimizerSettings`, which is both the request and the response
pub record OptimizerUpdate (F N : Type 0) : Type 0 where
  pub retry_rate_degraded_threshold : F
  pub degraded_sustain_minutes : N
  pub channel_cooldown_minutes : N
  pub bandwidth_widen_utilization_threshold : F
  pub bandwidth_widen_sustain_minutes : N
  pub bandwidth_narrow_utilization_threshold : F
  pub bandwidth_narrow_sustain_minutes : N
  pub halow_channel_cycling_enabled : Bool
  pub halow_bandwidth_changes_enabled : Bool
  pub wifi24_channel_cycling_enabled : Bool

module _ {F : Type 0} ⦃fl : Float F⦄ where
  -- `Field(ge=0, le=1)`
  unfoldable pub fraction : F → Result F
  fraction x = if fl.le (fl.of_ℕ 0) x && fl.le x (fl.of_ℕ 1) then ok x else raise (http 422)

  unfoldable pub check_optimizer_update : OptimizerUpdate F ℤ → Result (OptimizerUpdate F ℕ)
  unfolding fraction positive
  check_optimizer_update body = do
    degraded ← fraction body.retry_rate_degraded_threshold
    sustain ← positive body.degraded_sustain_minutes
    cooldown ← positive body.channel_cooldown_minutes
    widen ← fraction body.bandwidth_widen_utilization_threshold
    widen_sustain ← positive body.bandwidth_widen_sustain_minutes
    narrow ← fraction body.bandwidth_narrow_utilization_threshold
    narrow_sustain ← positive body.bandwidth_narrow_sustain_minutes
    ok (record {
      retry_rate_degraded_threshold = degraded;
      degraded_sustain_minutes = sustain;
      channel_cooldown_minutes = cooldown;
      bandwidth_widen_utilization_threshold = widen;
      bandwidth_widen_sustain_minutes = widen_sustain;
      bandwidth_narrow_utilization_threshold = narrow;
      bandwidth_narrow_sustain_minutes = narrow_sustain;
      halow_channel_cycling_enabled = body.halow_channel_cycling_enabled;
      halow_bandwidth_changes_enabled = body.halow_bandwidth_changes_enabled;
      wifi24_channel_cycling_enabled = body.wifi24_channel_cycling_enabled;
    })

module _ {F : Type 0} where
  unfoldable pub stored_thresholds : OptimizerUpdate F ℕ → OptimizerSettings F → OptimizerSettings F
  stored_thresholds settings row = record {
    enabled = row.enabled;
    retry_rate_degraded_threshold = settings.retry_rate_degraded_threshold;
    degraded_sustain_minutes = settings.degraded_sustain_minutes;
    channel_cooldown_minutes = settings.channel_cooldown_minutes;
    bandwidth_widen_utilization_threshold = settings.bandwidth_widen_utilization_threshold;
    bandwidth_widen_sustain_minutes = settings.bandwidth_widen_sustain_minutes;
    bandwidth_narrow_utilization_threshold = settings.bandwidth_narrow_utilization_threshold;
    bandwidth_narrow_sustain_minutes = settings.bandwidth_narrow_sustain_minutes;
    halow_channel_cycling_enabled = settings.halow_channel_cycling_enabled;
    halow_bandwidth_changes_enabled = settings.halow_bandwidth_changes_enabled;
    wifi24_channel_cycling_enabled = settings.wifi24_channel_cycling_enabled;
  }

  unfoldable pub get_optimizer_settings : Db F → OptimizerUpdate F ℕ
  get_optimizer_settings db =
      let row = db.optimizer_state in
      record {
        retry_rate_degraded_threshold = row.retry_rate_degraded_threshold;
        degraded_sustain_minutes = row.degraded_sustain_minutes;
        channel_cooldown_minutes = row.channel_cooldown_minutes;
        bandwidth_widen_utilization_threshold = row.bandwidth_widen_utilization_threshold;
        bandwidth_widen_sustain_minutes = row.bandwidth_widen_sustain_minutes;
        bandwidth_narrow_utilization_threshold = row.bandwidth_narrow_utilization_threshold;
        bandwidth_narrow_sustain_minutes = row.bandwidth_narrow_sustain_minutes;
        halow_channel_cycling_enabled = row.halow_channel_cycling_enabled;
        halow_bandwidth_changes_enabled = row.halow_bandwidth_changes_enabled;
        wifi24_channel_cycling_enabled = row.wifi24_channel_cycling_enabled;
      }

  -- the parameters for the INTEGER columns
  unfoldable pub threshold_integers : OptimizerUpdate F ℕ → List ℕ
  threshold_integers settings =
      settings.degraded_sustain_minutes ∷ settings.channel_cooldown_minutes
      ∷ settings.bandwidth_widen_sustain_minutes ∷ settings.bandwidth_narrow_sustain_minutes ∷ []

  abbrev pub store_thresholds : Result (OptimizerUpdate F ℕ) → Db F → Result (Unit {0}) × Db F
  store_thresholds (raise e) db = (raise e, db)
  store_thresholds (ok settings) db =
      if fit_integer (threshold_integers settings)
      then (ok tt, record db { optimizer_state = stored_thresholds settings db.optimizer_state })
      else (raise value_error, db)

module _ {F : Type 0} ⦃fl : Float F⦄ where
  unfoldable pub set_optimizer_settings :
      Option (OptimizerUpdate F ℤ) → Db F → Result (Unit {0}) × Db F
  unfolding check_optimizer_update fit_integer threshold_integers stored_thresholds
  set_optimizer_settings body db = store_thresholds (parse_body check_optimizer_update body) db
