-- ===== src/Ingest/Channel.antt =====
-- `_record_channel_change_if_any` of app/main.py: was a channel change commanded?
use heltec_wifi_optimization.Prelude.{
  ℕ, ◌+◌, Bool, false, ◌&&◌, ◌||◌, Option, none, some, ◌==◌, ltb, any, select, latest,
  if◌then◌else◌,
}
use heltec_wifi_optimization.Db.{
  Db, Command, Radio, halow, wifi24, Param, halow_operating_freq, wifi24_channel, same_radio,
  same_param, applied, acked, same_status, channel_changed, minutes,
}
use heltec_wifi_optimization.Events.{record_server_event}

-- `CHANNEL_PARAM_BY_RADIO`
abbrev pub channel_param_by_radio : Radio → Param
channel_param_by_radio halow = halow_operating_freq
channel_param_by_radio wifi24 = wifi24_channel

abbrev pub channel_change_command_lookback_minutes : ℕ
channel_change_command_lookback_minutes = 10

-- `column = value`, and `column > now - interval`; both fail for a NULL
abbrev pub is_value : Option ℕ → ℕ → Bool
is_value none n = false
is_value (some m) n = m == n

abbrev pub is_recent : ℕ → Option ℕ → Bool
is_recent now none = false
is_recent now (some t) = ltb now (t + minutes channel_change_command_lookback_minutes)

-- a command that accounts for the change
unfoldable pub explains : ℕ → ℕ → Param → ℕ → Command → Bool
explains now device_id param channel c =
    (c.device_id == device_id && same_param c.param param)
    && ((same_status c.status applied || same_status c.status acked)
        && (is_value c.target_value.channel channel && is_recent now c.applied_at))

module _ {F : Type 0} where
  -- the channel of the newest reading of the radio
  unfoldable pub previous_channel : ℕ → Radio → Db F → Option ℕ
  previous_channel device_id radio db =
      elim (latest (λ r. r.time)
        (select (λ r. r.device_id == device_id && same_radio r.radio radio) db.telemetry)) [
          | none ↦ none
          | some r ↦ r.channel
        ]

  abbrev pub record_change : ℕ → ℕ → Radio → ℕ → Option ℕ → Db F → Db F
  record_change now device_id radio new_channel none db = db
  record_change now device_id radio new_channel (some prev_channel) db =
      if prev_channel == new_channel
      then db
      else record_server_event now device_id
          (channel_changed radio prev_channel new_channel
            (any (explains now device_id (channel_param_by_radio radio) new_channel) db.commands))
          db

  unfoldable pub record_channel_change_if_any : ℕ → ℕ → Radio → Option ℕ → Db F → Db F
  record_channel_change_if_any now device_id radio none db = db
  record_channel_change_if_any now device_id radio (some new_channel) db =
      record_change now device_id radio new_channel (previous_channel device_id radio db) db
