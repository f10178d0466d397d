-- ===== src/Schedule/Turns.antt =====
-- The writes of the two command jobs of app/main.py, as turns of the table.
use heltec_wifi_optimization.Prelude.{
  ℕ, ◌≡◌, refl, Bool, true, false, Option, none, some, inl, inr, Result, ok, raise, Bool-cases,
}
use heltec_wifi_optimization.Db.{
  Db, Command, Device, Param, reboot, halow_operating_freq, wifi24_channel, pending, Status,
  EventType, Reason,
}
use heltec_wifi_optimization.Events.{record_server_event}
use heltec_wifi_optimization.Notify.{notify}
use heltec_wifi_optimization.DeviceClient.{DeviceClient}
use heltec_wifi_optimization.Commands.Apply.{mark_applied, mark_rebooted, record_sent}
use heltec_wifi_optimization.Commands.Verify.{settle, overdue}
use heltec_wifi_optimization.Commands.Rows.{
  set_command, notify_command_outcome, notify_outcome, outcome_row,
}
use heltec_wifi_optimization.Commands.Steps.{sent, rebooted}
use heltec_wifi_optimization.Commands.Updates.{
  IsTurn, record_sent-IsTurn, mark_applied-IsTimed, mark_rebooted-IsTimed,
}
use heltec_wifi_optimization.Schedule.{mark_of}

module _ {F W : Type 0} (client : DeviceClient F W) where
  pub record_sent-mark_of :
      (now : ℕ) (c : Command) (param : Param) (reply : Result (Unit {0}) × W) (db : Db F)
      → c.param ≡ param
      → c.status ≡ pending
      → IsTurn c db.commands (record_sent client now (mark_of param) c.id reply db).0.commands
  record_sent-mark_of now c reboot reply db kind ready =
      record_sent-IsTurn client now c db mark_rebooted reply (λ d. refl) (mark_rebooted-IsTimed now)
        (rebooted now ready kind refl)
  record_sent-mark_of now c halow_operating_freq reply db kind ready =
      record_sent-IsTurn client now c db mark_applied reply (λ d. refl) (mark_applied-IsTimed now)
        (sent now ready (λ e. cc) refl)
  record_sent-mark_of now c wifi24_channel reply db kind ready =
      record_sent-IsTurn client now c db mark_applied reply (λ d. refl) (mark_applied-IsTimed now)
        (sent now ready (λ e. cc) refl)

  pub next_id-record_sent :
      (now id : ℕ) (mark : ℕ → Command → Command) (reply : Result (Unit {0}) × W) (db : Db F)
      → (record_sent client now mark id reply db).0.next_id ≡ db.next_id
  unfolding record_sent set_command
  next_id-record_sent now id mark (ok _, w) db = refl
  next_id-record_sent now id mark (raise e, w) db = refl

  next_id-notify_command_outcome :
      (now id : ℕ) (status : Status) (event : ℕ → EventType F) (reason : Option Reason) (db : Db F)
      → (notify_command_outcome now id status event reason db).next_id ≡ db.next_id
  unfolding notify_command_outcome record_server_event notify
  next_id-notify_command_outcome now id status event reason db = by_row (outcome_row id db)
    where
      by_row :
          (row : Option (Command × Device))
          → (notify_outcome now status event reason row db).next_id ≡ db.next_id
      by_row none = refl
      by_row (some (c, d)) = refl

  pub next_id-settle :
      (now applied_at : ℕ) (c : Command) (reply : Result Bool) (db : Db F)
      → (settle client now c applied_at reply db).next_id ≡ db.next_id
  unfolding settle set_command record_server_event
  next_id-settle now applied_at c (ok true) db = refl
  next_id-settle now applied_at c (ok false) db = next_id-notify_command_outcome now c.id _ _ _ _
  next_id-settle now applied_at c (raise e) db =
      elim (Bool-cases (overdue now applied_at c.ttl_seconds)) [
        | inl late ↦ simp late (next_id-notify_command_outcome now c.id _ _ _ _)
        | inr early ↦ simp early
      ]
