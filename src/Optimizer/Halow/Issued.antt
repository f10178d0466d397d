-- ===== src/Optimizer/Halow/Issued.antt =====
-- A command of `_evaluate_halow_link` of app/optimizer.py, and what justifies it.
use heltec_wifi_optimization.Prelude.{ℕ, ◌*◌, ◌≡◌, true, false, none, some, [], ◌∷◌, ◌++◌, contains}
use heltec_wifi_optimization.Float.{Float}
use heltec_wifi_optimization.Db.{
  Db, Device, Move, degraded, widening, narrowing, halow_operating_freq,
}
use heltec_wifi_optimization.ChannelPlan.{is_valid}
use heltec_wifi_optimization.Optimizer.Signals.{reverted_channels, throughput_utilization}
use heltec_wifi_optimization.Optimizer.Halow.{halow_command, degraded_retries}

module _ {F : Type 0} ⦃fl : Float F⦄ where
  module _ (now : ℕ) (d : Device) (cur_bw new_bw : ℕ) (db : Db F) where
    -- Why a command may be issued, and to which bandwidth: a degraded link keeps its bandwidth, a
    -- healthy link goes to the tier twice or half as wide, each by its own switch and threshold.
    abbrev pub IsJustified : Move F → Type 0
    IsJustified (degraded avg m) =
        (degraded_retries now d.id db ≡ some avg)
        × (db.optimizer_state.halow_channel_cycling_enabled ≡ true)
        × (new_bw ≡ cur_bw)
    IsJustified (widening util m) =
        (degraded_retries now d.id db ≡ none)
        × (db.optimizer_state.halow_bandwidth_changes_enabled ≡ true)
        × (throughput_utilization now d.id m db.telemetry ≡ some util)
        × (m ≡ db.optimizer_state.bandwidth_widen_sustain_minutes)
        × (fl.le db.optimizer_state.bandwidth_widen_utilization_threshold util ≡ true)
        × (new_bw ≡ cur_bw * 2)
    IsJustified (narrowing util m) =
        (degraded_retries now d.id db ≡ none)
        × (db.optimizer_state.halow_bandwidth_changes_enabled ≡ true)
        × (throughput_utilization now d.id m db.telemetry ≡ some util)
        × (m ≡ db.optimizer_state.bandwidth_narrow_sustain_minutes)
        × (fl.le util db.optimizer_state.bandwidth_narrow_utilization_threshold ≡ true)
        × (new_bw * 2 ≡ cur_bw)

  -- One command was issued, and why.
  pub record IsIssued (now : ℕ) (d : Device) (cur_channel cur_bw : ℕ) (db db' : Db F) : Type 0 where
    pub channel : ℕ
    pub new_bw : ℕ
    pub why : Move F
    pub commands :
        db'.commands
        ≡ db.commands ++ halow_command db.next_id now d.id channel cur_channel cur_bw ∷ []
    pub on_plan : is_valid channel new_bw ≡ true
    pub not_reverted :
        contains (reverted_channels d.id halow_operating_freq db.commands) channel ≡ false
    pub justified : IsJustified now d cur_bw new_bw db why
