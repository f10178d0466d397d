-- ===== src/Optimizer/Halow.antt =====
-- `_evaluate_halow_link` of app/optimizer.py: cycle a degraded link, else widen or narrow it.
pub mod Issued
pub mod Rules
use heltec_wifi_optimization.Prelude.{
  ℕ, ◌+◌, Option, none, some, List, [], ◌∷◌, ◌++◌, ◌==◌, latest, select, find, ◌&&◌, if◌then◌else◌,
  Result, ok, ◌>>=◌,
}
use heltec_wifi_optimization.Float.{Float}
use heltec_wifi_optimization.Db.{
  Db, Command, Device, Telemetry, Move, degraded, widening, narrowing, halow_degraded,
  halow_command_issued, halow, same_radio, ap, same_role, halow_operating_freq, pending,
}
use heltec_wifi_optimization.ChannelPlan.{valid_channels}
use heltec_wifi_optimization.Notify.{notify}
use heltec_wifi_optimization.Events.{record_server_event}
use heltec_wifi_optimization.Optimizer.Signals.{
  has_pending_command, in_cooldown, reverted_channels, avg_halow_retries, throughput_utilization,
}
use heltec_wifi_optimization.Optimizer.Channels.{
  next_channel, pick_channel_for_bandwidth, wider_tier, narrower_tier,
}

-- `DEFAULT_COMMAND_TTL_SECONDS["halow_operating_freq"]`
abbrev pub halow_ttl_seconds : ℕ
halow_ttl_seconds = 120

-- The row that `_emit_halow_command` inserts; `id`, `status` and `created_at` have defaults.
abbrev pub halow_command : ℕ → ℕ → ℕ → ℕ → ℕ → ℕ → Command
halow_command id now device_id channel current_channel current_bw = record {
  id = id;
  device_id = device_id;
  param = halow_operating_freq;
  target_value = record { channel = some channel; bandwidth_mhz = none };
  previous_value =
      some (record { channel = some current_channel; bandwidth_mhz = some current_bw });
  created_at = now;
  ttl_seconds = halow_ttl_seconds;
  status = pending;
  applied_at = none;
  acked_at = none;
  reason = none;
}

-- The channel and the bandwidth of a reading, if it has both.
abbrev pub known_setting : {F : Type 0} → Telemetry F → Option (ℕ × ℕ)
known_setting r = elim r.channel [
  | none ↦ none
  | some channel ↦ elim r.bandwidth_mhz [ none ↦ none | some bw ↦ some (channel, bw) ]
]

-- the newest halow reading of a device, and its setting
unfoldable pub current_setting : {F : Type 0} → ℕ → List (Telemetry F) → Option (ℕ × ℕ)
current_setting device_id rows =
    elim (latest (λ r. r.time)
      (select (λ r. r.device_id == device_id && same_radio r.radio halow) rows)) [
        | none ↦ none
        | some current ↦ known_setting current
      ]

module _ {F : Type 0} ⦃fl : Float F⦄ where
  -- `_emit_halow_command`
  unfoldable pub emit_halow_command : ℕ → Device → ℕ → ℕ → ℕ → ℕ → Move F → Db F → Db F
  emit_halow_command now d channel bandwidth_mhz current_channel current_bw why db =
      record_server_event now d.id
        (halow_command_issued why current_channel channel current_bw bandwidth_mhz)
        (record db {
          commands =
              db.commands
              ++ halow_command db.next_id now d.id channel current_channel current_bw ∷ [];
          next_id = db.next_id + 1;
        })

  -- 1. A degraded link cycles to the next channel of its bandwidth, if it may.
  unfoldable pub cycle_channel : ℕ → Device → ℕ → ℕ → F → Db F → Db F
  cycle_channel now d cur_channel cur_bw avg_retries db =
      let s = db.optimizer_state in
      let sustain_minutes = s.degraded_sustain_minutes in
      if s.halow_channel_cycling_enabled
      then elim (next_channel (valid_channels cur_bw) cur_channel
          (reverted_channels d.id halow_operating_freq db.commands)) [
            | none ↦ db
            | some channel ↦
                notify (halow_degraded d.mac avg_retries sustain_minutes cur_channel channel cur_bw)
                  (emit_halow_command now d channel cur_bw cur_channel cur_bw
                    (degraded avg_retries sustain_minutes) db)
          ]
      else db

  -- The move to another bandwidth, if a channel there has not reverted before.
  abbrev pub emit_picked : ℕ → Device → ℕ → ℕ → ℕ → Move F → Db F → Option ℕ → Option (Db F)
  emit_picked now d cur_channel cur_bw new_bw why db none = none
  emit_picked now d cur_channel cur_bw new_bw why db (some channel) =
      some (emit_halow_command now d channel new_bw cur_channel cur_bw why db)

  abbrev pub change_bandwidth : ℕ → Device → ℕ → ℕ → ℕ → Move F → Db F → Option (Db F)
  change_bandwidth now d cur_channel cur_bw new_bw why db =
      emit_picked now d cur_channel cur_bw new_bw why db (
        pick_channel_for_bandwidth new_bw (reverted_channels d.id halow_operating_freq db.commands))

  -- 2. Widen on high utilization; `none` if the evaluation goes on.
  unfoldable pub widen : ℕ → Device → ℕ → ℕ → Db F → Result (Option (Db F))
  widen now d cur_channel cur_bw db =
      let s = db.optimizer_state in
      let widen_minutes = s.bandwidth_widen_sustain_minutes in
      if cur_bw == 8
      then ok none
      else elim (throughput_utilization now d.id widen_minutes db.telemetry) [
        | none ↦ ok none
        | some util ↦
            if fl.le s.bandwidth_widen_utilization_threshold util
            then (do
              new_bw ← wider_tier cur_bw
              ok (
                  change_bandwidth now d cur_channel cur_bw new_bw (widening util widen_minutes)
                    db))
            else ok none
      ]

  -- 3. Narrow on low utilization.
  unfoldable pub narrow : ℕ → Device → ℕ → ℕ → Db F → Result (Option (Db F))
  narrow now d cur_channel cur_bw db =
      let s = db.optimizer_state in
      let narrow_minutes = s.bandwidth_narrow_sustain_minutes in
      if cur_bw == 1
      then ok none
      else elim (throughput_utilization now d.id narrow_minutes db.telemetry) [
        | none ↦ ok none
        | some util ↦
            if fl.le util s.bandwidth_narrow_utilization_threshold
            then (do
              new_bw ← narrower_tier cur_bw
              ok (
                  change_bandwidth now d cur_channel cur_bw new_bw (narrowing util narrow_minutes)
                    db))
            else ok none
      ]

  abbrev pub or_unchanged : Db F → Option (Db F) → Db F
  or_unchanged db none = db
  or_unchanged db (some db') = db'

  -- what follows a widening that did not return
  unfoldable pub narrow_unless : ℕ → Device → ℕ → ℕ → Db F → Option (Db F) → Result (Db F)
  narrow_unless now d cur_channel cur_bw db (some db') = ok db'
  narrow_unless now d cur_channel cur_bw db none = do
    narrowed ← narrow now d cur_channel cur_bw db
    ok (or_unchanged db narrowed)

  unfoldable pub change_width : ℕ → Device → ℕ → ℕ → Db F → Result (Db F)
  unfolding narrow_unless
  change_width now d cur_channel cur_bw db = do
    widened ← widen now d cur_channel cur_bw db
    narrow_unless now d cur_channel cur_bw db widened

  -- `avg_retries is not None and avg_retries >= threshold`
  abbrev pub degradation : Db F → Option F → Option F
  degradation db none = none
  degradation db (some avg) =
      if fl.le db.optimizer_state.retry_rate_degraded_threshold avg then some avg else none

  -- the average retries of the link, if it is degraded
  unfoldable pub degraded_retries : ℕ → ℕ → Db F → Option F
  degraded_retries now device_id db =
      degradation db
        (avg_halow_retries now device_id db.optimizer_state.degraded_sustain_minutes db.telemetry)

  -- the rules, in their order
  unfoldable pub apply_rules : ℕ → Device → ℕ → ℕ → Db F → Result (Db F)
  apply_rules now d cur_channel cur_bw db = elim (degraded_retries now d.id db) [
    | some avg_retries ↦ ok (cycle_channel now d cur_channel cur_bw avg_retries db)
    | none ↦
        if db.optimizer_state.halow_bandwidth_changes_enabled
        then change_width now d cur_channel cur_bw db
        else ok db
  ]

  -- `_evaluate_halow_link`
  unfoldable pub evaluate_halow_link : ℕ → Db F → Result (Db F)
  evaluate_halow_link now db = elim (find (λ d. same_role d.role ap) db.devices) [
    | none ↦ ok db
    | some d ↦
        if has_pending_command d.id halow_operating_freq db.commands
        then ok db
        else elim (current_setting d.id db.telemetry) [
          | none ↦ ok db
          | some (cur_channel, cur_bw) ↦
              if in_cooldown now d.id halow_operating_freq
                db.optimizer_state.channel_cooldown_minutes db.commands
              then ok db
              else apply_rules now d cur_channel cur_bw db
        ]
  ]
