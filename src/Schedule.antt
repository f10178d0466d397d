-- ===== src/Schedule.antt =====
-- The jobs of app/main.py between their waits: what one job does while another awaits an SSH reply.
--
-- A step is what runs between two waits that touch the commands table: a job's query, one SSH call,
-- what the job writes when the reply is there, and the writes of the optimizer and the dashboard.
-- The check reads its clock once, when it reads its rows.
pub mod Frames
pub mod Keeps
pub mod Turns
pub mod Reached
pub mod Alone
pub mod Others
pub mod Watchdog
pub mod Ingests
pub mod Polls
use heltec_wifi_optimization.Prelude.{
  ℕ, ◌≤◌, ◌≡◌, ◌⊎◌, Bool, true, false, Option, none, some, List, [], ◌∷◌, Result, ok, raise,
}
use heltec_wifi_optimization.Db.{
  Db, Command, Device, DeviceTarget, Param, halow_operating_freq, wifi24_channel, reboot, Move,
  pending, applied,
}
use heltec_wifi_optimization.Float.{Float}
use heltec_wifi_optimization.DeviceClient.{DeviceClient}
use heltec_wifi_optimization.Commands.Rows.{
  Joined, join_devices, order_by_age, commands_in, target_of_role,
}
use heltec_wifi_optimization.Commands.Apply.{
  mark_applied, mark_rebooted, default_ttl_seconds, record_sent,
}
use heltec_wifi_optimization.Commands.Verify.{too_early, settle}
use heltec_wifi_optimization.Optimizer.Halow.{emit_halow_command}
use heltec_wifi_optimization.Optimizer.Wifi24.{emit_wifi24_command}
use heltec_wifi_optimization.Dashboard.{reboot_device}

-- where `apply_pending_commands` stands: between two ticks, before the call for its first row, or
-- with the reply to it
pub data Applying : Type 0 where
  resting : Applying
  sending : List DeviceTarget → List Joined → Applying
  replied : List DeviceTarget → Joined → List Joined → Result (Unit {0}) → Applying

-- where `check_in_flight_commands` stands, with the time and the delay that it read; a reply goes
-- with the row's `applied_at`
pub data Checking : Type 0 where
  resting : Checking
  verifying : ℕ → ℕ → List DeviceTarget → List Joined → Checking
  answered : ℕ → ℕ → List DeviceTarget → Joined → List Joined → ℕ → Result Bool → Checking

pub record System (F W : Type 0) : Type 0 where
  pub db : Db F
  pub network : W
  pub applying : Applying
  pub checking : Checking

abbrev pub mark_of : Param → ℕ → Command → Command
mark_of reboot = mark_rebooted
mark_of halow_operating_freq = mark_applied
mark_of wifi24_channel = mark_applied

module _ {F W : Type 0} (client : DeviceClient F W) where
  -- the SSH call of `apply_pending_commands` for a command
  unfoldable pub call_of : Param → Command → DeviceTarget → W → Result (Unit {0}) × W
  call_of reboot c target w = client.reboot target w
  call_of _ c target w =
      client.apply_command target c.param c.target_value (default_ttl_seconds c.param) w

module _ {F W : Type 0} ⦃fl : Float F⦄ (client : DeviceClient F W) where
  -- One step from `s`.
  pub data Step (s : System F W) : System F W → Type 0 where
    apply_reads :
        s.applying ≡ Applying.resting
        → Step s (record s {
          applying =
              sending s.db.targets
                (order_by_age (join_devices s.db.devices (commands_in pending s.db.commands)));
        })
    apply_skips :
        (targets : List DeviceTarget) (row : Joined) (rows : List Joined)
        → s.applying ≡ sending targets (row ∷ rows)
        → target_of_role row.role targets ≡ none
        → Step s (record s { applying = sending targets rows })
    apply_calls :
        (targets : List DeviceTarget) (row : Joined) (rows : List Joined) (target : DeviceTarget)
        → s.applying ≡ sending targets (row ∷ rows)
        → target_of_role row.role targets ≡ some target
        → Step s (record s {
          network = (call_of client row.command.param row.command target s.network).1;
          applying =
              replied targets row rows
                (call_of client row.command.param row.command target s.network).0;
        })
    apply_writes :
        (now : ℕ) (targets : List DeviceTarget) (row : Joined) (rows : List Joined)
        (reply : Result (Unit {0}))
        → s.applying ≡ replied targets row rows reply
        → Step s (record s {
          db =
              (record_sent client now
                (mark_of row.command.param)
                row.command.id
                (reply, s.network)
                s.db).0;
          applying = sending targets rows;
        })
    apply_ends :
        (targets : List DeviceTarget)
        → s.applying ≡ sending targets []
        → Step s (record s { applying = Applying.resting })
    check_reads :
        (now : ℕ)
        → s.checking ≡ Checking.resting
        → Step s (record s {
          checking =
              verifying now s.db.app_settings.command_verify_delay_seconds s.db.targets
                (join_devices s.db.devices (commands_in applied s.db.commands));
        })
    check_skips :
        (now delay applied_at : ℕ) (targets : List DeviceTarget) (row : Joined) (rows : List Joined)
        → s.checking ≡ verifying now delay targets (row ∷ rows)
        → row.command.applied_at ≡ some applied_at
        → (too_early now applied_at delay ≡ true) ⊎ (target_of_role row.role targets ≡ none)
        → Step s (record s { checking = verifying now delay targets rows })
    check_calls :
        (now delay applied_at : ℕ) (targets : List DeviceTarget) (row : Joined) (rows : List Joined)
        (target : DeviceTarget)
        → s.checking ≡ verifying now delay targets (row ∷ rows)
        → row.command.applied_at ≡ some applied_at
        → too_early now applied_at delay ≡ false
        → target_of_role row.role targets ≡ some target
        → Step s (record s {
          network =
              (client.verify_and_confirm target row.command.param row.command.target_value
                s.network).1;
          checking =
              answered now delay targets row rows applied_at
                (client.verify_and_confirm target row.command.param row.command.target_value
                  s.network).0;
        })
    check_writes :
        (now delay applied_at : ℕ) (targets : List DeviceTarget) (row : Joined) (rows : List Joined)
        (reply : Result Bool)
        → s.checking ≡ answered now delay targets row rows applied_at reply
        → Step s (record s {
          db = settle client now row.command applied_at reply s.db;
          checking = verifying now delay targets rows;
        })
    check_ends :
        (now delay : ℕ) (targets : List DeviceTarget)
        → s.checking ≡ verifying now delay targets []
        → Step s (record s { checking = Checking.resting })
    -- `check_in_flight_commands` is ended by a row without a time.
    check_raises :
        (now delay : ℕ) (targets : List DeviceTarget) (row : Joined) (rows : List Joined)
        → s.checking ≡ verifying now delay targets (row ∷ rows)
        → row.command.applied_at ≡ none
        → Step s (record s { checking = Checking.resting })
    -- the inserts of `run_optimizer_pass` and of the dashboard
    emits_halow :
        (now : ℕ) (d : Device) (channel bandwidth_mhz current_channel current_bw : ℕ) (why : Move F)
        → Step s (record s {
          db = emit_halow_command now d channel bandwidth_mhz current_channel current_bw why s.db;
        })
    emits_wifi24 :
        (now : ℕ) (d : Device) (channel current_channel : ℕ) (avg_retries : F)
        → Step s
            (record s { db = emit_wifi24_command now d channel current_channel avg_retries s.db })
    queues_reboot :
        (now device_mac : ℕ) → Step s (record s { db = (reboot_device now device_mac s.db).1 })
    -- The other jobs and endpoints leave the table alone.
    leaves :
        (db' : Db F) (network : W)
        → db'.commands ≡ s.db.commands
        → s.db.next_id ≤ db'.next_id
        → Step s (record s { db = db'; network = network })

  pub data Reach (s : System F W) : System F W → Type 0 where
    here : Reach s s
    next : {t u : System F W} → Reach s t → Step t u → Reach s u
