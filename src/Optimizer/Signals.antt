-- ===== src/Optimizer/Signals.antt =====
-- What the rules read from the database (app/optimizer.py): pending commands, cooldowns, channels
-- that have reverted, averages over a window.
use heltec_wifi_optimization.Prelude.{
  ℕ, ◌+◌, Bool, false, ◌&&◌, Option, none, some, List, map, ◌==◌, ltb, leb, length, any, select,
  latest, filter_some, if◌then◌else◌,
}
use heltec_wifi_optimization.Float.{Float, mean}
use heltec_wifi_optimization.Db.{
  Telemetry, RadioClient, Command, halow, wifi24, Param, reverted, same_radio, same_param,
  same_status, in_flight, minutes,
}

abbrev pub of_param : ℕ → Param → Command → Bool
of_param device_id param c = c.device_id == device_id && same_param c.param param

-- `_has_pending_command`
unfoldable pub has_pending_command : ℕ → Param → List Command → Bool
has_pending_command device_id param = any (λ c. of_param device_id param c && in_flight c.status)

-- `_in_cooldown`
unfoldable pub in_cooldown : ℕ → ℕ → Param → ℕ → List Command → Bool
in_cooldown now device_id param cooldown_minutes commands =
    elim (latest (λ c. c.created_at) (select (of_param device_id param) commands)) [
      | none ↦ false
      | some last_change ↦ ltb now (last_change.created_at + minutes cooldown_minutes)
    ]

-- `_reverted_channels`
unfoldable pub reverted_channels : ℕ → Param → List Command → List ℕ
reverted_channels device_id param commands = filter_some (
    map (λ c. c.target_value.channel)
      (select (λ c. of_param device_id param c && same_status c.status reverted) commands))

abbrev pub min_samples_for_average : ℕ
min_samples_for_average = 3

-- `time >= now - interval`
abbrev pub since : ℕ → ℕ → ℕ → Bool
since now window_minutes time = leb now (time + minutes window_minutes)

module _ {F : Type 0} ⦃fl : Float F⦄ where
  abbrev pub mean_of_enough : List F → Option F
  mean_of_enough values =
      if ltb (length values) min_samples_for_average then none else some (mean values)

  -- `_avg_over_window` on the retries of `telemetry`, where radio = 'halow'
  unfoldable pub avg_halow_retries : ℕ → ℕ → ℕ → List (Telemetry F) → Option F
  avg_halow_retries now device_id window_minutes rows = mean_of_enough (
      filter_some (
        map (λ r. r.retries)
          (select
            (λ r.
              r.device_id == device_id
              && (same_radio r.radio halow && since now window_minutes r.time))
            rows)))

  -- `_avg_over_window` on the retries of `radio_clients`, where radio = 'wifi24'
  unfoldable pub avg_client_retries : ℕ → ℕ → ℕ → List (RadioClient F) → Option F
  avg_client_retries now device_id window_minutes rows = mean_of_enough (
      filter_some (
        map (λ r. r.retries)
          (select
            (λ r.
              r.device_id == device_id
              && (same_radio r.radio wifi24 && since now window_minutes r.time))
            rows)))

  -- the throughput against the negotiated rate, where both are known and the rate is not 0
  abbrev pub ratio : Telemetry F → Option F
  ratio r = elim r.throughput_mbps [
    | none ↦ none
    | some t ↦ elim r.rate_mbps [
      | none ↦ none
      | some rate ↦ if fl.is_zero rate then none else some (fl.div t rate)
    ]
  ]

  -- `_throughput_utilization`
  unfoldable pub throughput_utilization : ℕ → ℕ → ℕ → List (Telemetry F) → Option F
  throughput_utilization now device_id window_minutes rows = mean_of_enough (
      filter_some (
        map ratio (
          select
            (λ r.
              r.device_id == device_id
              && (same_radio r.radio halow && since now window_minutes r.time))
            rows)))
