-- ===== src/Optimizer/Wifi24.antt =====
-- `_evaluate_wifi24_link` of app/optimizer.py: cycle the 2.4GHz channel of a degraded link.
pub mod Rules
use heltec_wifi_optimization.Prelude.{
  ℕ, ◌+◌, Option, none, some, List, [], ◌∷◌, ◌++◌, ◌==◌, latest, select, find, ◌&&◌, if◌then◌else◌,
}
use heltec_wifi_optimization.Float.{Float}
use heltec_wifi_optimization.Db.{
  Db, Command, Device, Telemetry, wifi24_degraded, wifi24_command_issued, wifi24, same_radio, sta,
  same_role, wifi24_channel, pending,
}
use heltec_wifi_optimization.Notify.{notify}
use heltec_wifi_optimization.Events.{record_server_event}
use heltec_wifi_optimization.Optimizer.Signals.{
  has_pending_command, in_cooldown, reverted_channels, avg_client_retries,
}
use heltec_wifi_optimization.Optimizer.Channels.{next_channel}

-- `WIFI24_CHANNELS` of app/config.py
abbrev pub wifi24_channels : List ℕ
wifi24_channels = 1 ∷ 6 ∷ 11 ∷ []

-- `DEFAULT_COMMAND_TTL_SECONDS["wifi24_channel"]`
abbrev pub wifi24_ttl_seconds : ℕ
wifi24_ttl_seconds = 90

abbrev pub wifi24_command : ℕ → ℕ → ℕ → ℕ → ℕ → Command
wifi24_command id now device_id channel current_channel = record {
  id = id;
  device_id = device_id;
  param = wifi24_channel;
  target_value = record { channel = some channel; bandwidth_mhz = none };
  previous_value = some (record { channel = some current_channel; bandwidth_mhz = none });
  created_at = now;
  ttl_seconds = wifi24_ttl_seconds;
  status = pending;
  applied_at = none;
  acked_at = none;
  reason = none;
}

-- the channel of the newest wifi24 reading
unfoldable pub current_wifi24_channel : {F : Type 0} → ℕ → List (Telemetry F) → Option ℕ
current_wifi24_channel device_id rows =
    elim (latest (λ r. r.time)
      (select (λ r. r.device_id == device_id && same_radio r.radio wifi24) rows)) [
        | none ↦ none
        | some current ↦ current.channel
      ]

module _ {F : Type 0} ⦃fl : Float F⦄ where
  -- the insert, the push and the event, in the code's order
  unfoldable pub emit_wifi24_command : ℕ → Device → ℕ → ℕ → F → Db F → Db F
  emit_wifi24_command now d channel current_channel avg_retries db =
      let sustain_minutes = db.optimizer_state.degraded_sustain_minutes in
      record_server_event now d.id
        (wifi24_command_issued avg_retries sustain_minutes current_channel channel)
        (notify (wifi24_degraded d.mac avg_retries sustain_minutes current_channel channel)
          (record db {
            commands =
                db.commands ++ wifi24_command db.next_id now d.id channel current_channel ∷ [];
            next_id = db.next_id + 1;
          }))

  -- `None` and an average below the threshold end the evaluation alike.
  abbrev pub client_degradation : Db F → Option F → Option F
  client_degradation db none = none
  client_degradation db (some avg) =
      if fl.lt avg db.optimizer_state.retry_rate_degraded_threshold then none else some avg

  unfoldable pub degraded_client_retries : ℕ → ℕ → Db F → Option F
  degraded_client_retries now device_id db = client_degradation db (
      avg_client_retries now device_id db.optimizer_state.degraded_sustain_minutes db.radio_clients)

  -- the pick among the standard channels, and the command
  unfoldable pub cycle_wifi24_channel : ℕ → Device → ℕ → F → Db F → Db F
  cycle_wifi24_channel now d current_channel avg_retries db =
      elim (next_channel wifi24_channels current_channel
        (reverted_channels d.id wifi24_channel db.commands)) [
          | none ↦ db
          | some channel ↦ emit_wifi24_command now d channel current_channel avg_retries db
        ]

  -- `_evaluate_wifi24_link`
  unfoldable pub evaluate_wifi24_link : ℕ → Db F → Db F
  evaluate_wifi24_link now db = elim (find (λ d. same_role d.role sta) db.devices) [
    | none ↦ db
    | some d ↦ elim (degraded_client_retries now d.id db) [
      | none ↦ db
      | some avg_retries ↦
          if in_cooldown now d.id wifi24_channel db.optimizer_state.channel_cooldown_minutes
            db.commands
          then db
          else if has_pending_command d.id wifi24_channel db.commands
          then db
          else elim (current_wifi24_channel d.id db.telemetry) [
            | none ↦ db
            | some current_channel ↦ cycle_wifi24_channel now d current_channel avg_retries db
          ]
    ]
  ]
