-- ===== src/Commands/Updates.antt =====
-- One turn of a command job of app/main.py, as a change of the commands table.
use heltec_wifi_optimization.Prelude.{
  ℕ, ◌≡◌, refl, ◌⊎◌, inl, inr, Bool, true, false, Option, none, some, List, Bool-cases, Result, ok,
  raise,
}
use heltec_wifi_optimization.Db.{
  Db, Command, DeviceTarget, Param, reboot, halow_operating_freq, wifi24_channel, Status, pending,
  applied, acked, reverted, unknown, EventType, Reason, Device,
}
use heltec_wifi_optimization.Notify.{notify}
use heltec_wifi_optimization.Events.{record_server_event}
use heltec_wifi_optimization.DeviceClient.{DeviceClient}
use heltec_wifi_optimization.Commands.Rows.{
  set_command, notify_outcome, outcome_row, notify_command_outcome,
}
use heltec_wifi_optimization.Commands.Apply.{mark_applied, mark_rebooted, record_sent, send}
use heltec_wifi_optimization.Commands.Verify.{
  mark_acked, mark_reverted, mark_unknown, overdue, settle,
}
use heltec_wifi_optimization.Commands.Steps.{
  Step, sent, rebooted, confirmed, failed, lost, update_at,
}

-- A row that says it was applied or ended has the time or the reason that goes with it.
pub record IsTimed (c : Command) : Type 0 where
  pub applied_time : c.status ≡ applied → (t : ℕ) × (c.applied_at ≡ some t)
  pub acked_time : c.status ≡ acked → (t : ℕ) × (c.acked_at ≡ some t)
  pub reverted_reason : c.status ≡ reverted → (r : Reason) × (c.reason ≡ some r)
  pub unknown_reason : c.status ≡ unknown → (r : Reason) × (c.reason ≡ some r)

-- One legal step of the row of `c`, made by an `UPDATE`.
pub record IsUpdate (c : Command) (cs cs' : List Command) : Type 0 where
  pub change : Command → Command
  pub result : cs' ≡ update_at c.id change cs
  pub same_id : (d : Command) → (change d).id ≡ d.id
  pub timed : (d : Command) → IsTimed (change d)
  pub step : Step c (change c)

abbrev pub IsTurn : Command → List Command → List Command → Type 0
IsTurn c cs cs' = (cs' ≡ cs) ⊎ IsUpdate c cs cs'

module _ {F : Type 0} where
  commands-notify_outcome :
      (now : ℕ) (status : Status) (event : ℕ → EventType F) (reason : Option Reason)
      (row : Option (Command × Device)) (db : Db F)
      → (notify_outcome now status event reason row db).commands ≡ db.commands
  unfolding record_server_event notify
  commands-notify_outcome now status event reason none db = refl
  commands-notify_outcome now status event reason (some (c, d)) db = refl

  pub commands-notify_command_outcome :
      (now id : ℕ) (status : Status) (event : ℕ → EventType F) (reason : Option Reason) (db : Db F)
      → (notify_command_outcome now id status event reason db).commands ≡ db.commands
  unfolding notify_command_outcome
  commands-notify_command_outcome now id status event reason db =
      commands-notify_outcome now status event reason (outcome_row id db) db

pub mark_applied-IsTimed : (now : ℕ) (c : Command) → IsTimed (mark_applied now c)
mark_applied-IsTimed now c = record {
  applied_time = λ _. (now, refl);
  acked_time = λ h. cc;
  reverted_reason = λ h. cc;
  unknown_reason = λ h. cc;
}

pub mark_rebooted-IsTimed : (now : ℕ) (c : Command) → IsTimed (mark_rebooted now c)
mark_rebooted-IsTimed now c = record {
  applied_time = λ h. cc;
  acked_time = λ _. (now, refl);
  reverted_reason = λ h. cc;
  unknown_reason = λ h. cc;
}

mark_acked-IsTimed : (now : ℕ) (c : Command) → IsTimed (mark_acked now c)
mark_acked-IsTimed now c = record {
  applied_time = λ h. cc;
  acked_time = λ _. (now, refl);
  reverted_reason = λ h. cc;
  unknown_reason = λ h. cc;
}

mark_reverted-IsTimed : (c : Command) → IsTimed (mark_reverted c)
mark_reverted-IsTimed c = record {
  applied_time = λ h. cc;
  acked_time = λ h. cc;
  reverted_reason = λ _. (Reason.target_not_reached, refl);
  unknown_reason = λ h. cc;
}

mark_unknown-IsTimed : (c : Command) → IsTimed (mark_unknown c)
mark_unknown-IsTimed c = record {
  applied_time = λ h. cc;
  acked_time = λ h. cc;
  reverted_reason = λ h. cc;
  unknown_reason = λ _. (Reason.could_not_reach_device, refl);
}

module _ {F W : Type 0} (client : DeviceClient F W) (now : ℕ) (c : Command) (db : Db F) where
  pub record_sent-IsTurn :
      (mark : ℕ → Command → Command) (reply : Result (Unit {0}) × W)
      → ((d : Command) → (mark now d).id ≡ d.id)
      → ((d : Command) → IsTimed (mark now d))
      → Step c (mark now c)
      → IsTurn c db.commands (record_sent client now mark c.id reply db).0.commands
  unfolding record_sent set_command
  record_sent-IsTurn mark (ok _, w) same timed step =
      inr (record { change = mark now; result = refl; same_id = same; timed = timed; step = step })
  record_sent-IsTurn mark (raise e, w) same timed step = inl refl

  pub send-IsTurn :
      (target : DeviceTarget) (param : Param) (w : W)
      → c.param ≡ param
      → c.status ≡ pending
      → IsTurn c db.commands (send client now c target param db w).0.commands
  unfolding send
  send-IsTurn target reboot w kind ready =
      record_sent-IsTurn mark_rebooted (client.reboot target w) (λ d. refl)
        (mark_rebooted-IsTimed now) (rebooted now ready kind refl)
  send-IsTurn target halow_operating_freq w kind ready =
      record_sent-IsTurn mark_applied _ (λ d. refl) (mark_applied-IsTimed now)
        (sent now ready (λ e. cc) refl)
  send-IsTurn target wifi24_channel w kind ready =
      record_sent-IsTurn mark_applied _ (λ d. refl) (mark_applied-IsTimed now)
        (sent now ready (λ e. cc) refl)

  pub settle-IsTurn :
      (applied_at : ℕ) (reply : Result Bool)
      → c.status ≡ applied
      → IsTurn c db.commands (settle client now c applied_at reply db).commands
  unfolding settle set_command record_server_event
  settle-IsTurn applied_at (ok true) flying = inr (record {
    change = mark_acked now;
    result = refl;
    same_id = λ d. refl;
    timed = mark_acked-IsTimed now;
    step = confirmed now flying refl;
  })
  settle-IsTurn applied_at (ok false) flying = inr (record {
    change = mark_reverted;
    result = commands-notify_command_outcome now c.id reverted _ _ _;
    same_id = λ d. refl;
    timed = mark_reverted-IsTimed;
    step = failed flying refl;
  })
  settle-IsTurn applied_at (raise e) flying =
      elim (Bool-cases (overdue now applied_at c.ttl_seconds)) [
        | inl late ↦ inr (record {
          change = mark_unknown;
          result = simp late (commands-notify_command_outcome now c.id unknown _ _ _);
          same_id = λ d. refl;
          timed = mark_unknown-IsTimed;
          step = lost flying refl;
        })
        | inr early ↦ inl (simp early)
      ]
