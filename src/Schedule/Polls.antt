-- ===== src/Schedule/Polls.antt =====
-- The polling jobs of app/main.py as steps of the schedule.
use heltec_wifi_optimization.Prelude.{
  ℕ, Bool, true, false, Option, none, some, List, [], ◌∷◌, Result, ok, raise,
}
use heltec_wifi_optimization.Float.{Float}
use heltec_wifi_optimization.Db.{Db, DeviceTarget}
use heltec_wifi_optimization.Report.{Reading, RawReply}
use heltec_wifi_optimization.DeviceClient.{DeviceClient}
use heltec_wifi_optimization.Devices.Liveness.{check_device_liveness}
use heltec_wifi_optimization.Backups.{poll_backups}
use heltec_wifi_optimization.Ingest.Collect.{ingest_collect}
use heltec_wifi_optimization.Poll.{
  watch, watch_read, handle_reply, then_poll, poll_targets, poll_telemetry,
}
use heltec_wifi_optimization.Schedule.Others.{
  Leaves, Leaves-refl, Leaves-trans, poll_backups-Leaves, check_device_liveness-Leaves,
}
use heltec_wifi_optimization.Schedule.Watchdog.{
  maybe_auto_recover_radio-Leaves, reset_auto_recovery-Leaves,
}
use heltec_wifi_optimization.Schedule.Ingests.{ingest_validated-Leaves}
use heltec_wifi_optimization.Schedule.{System, Step, leaves}

module _ {F W : Type 0} ⦃fl : Float F⦄ (client : DeviceClient F W) where
  watch-Leaves :
      (now : ℕ) (target : DeviceTarget) (mac : Option ℕ) (up : Option Bool) (db : Db F) (w : W)
      → Leaves db (watch client now target mac up db w).0
  unfolding watch
  watch-Leaves now target none up db w = Leaves-refl db
  watch-Leaves now target (some mac) none db w = Leaves-refl db
  watch-Leaves now target (some mac) (some false) db w =
      maybe_auto_recover_radio-Leaves client now target.role mac target db w
  watch-Leaves now target (some mac) (some true) db w =
      reset_auto_recovery-Leaves now target.role mac db

  watch_read-Leaves :
      (now : ℕ) (target : DeviceTarget) (read : Result Reading) (db : Db F) (w : W)
      → Leaves db (watch_read client now target read db w).1
  watch_read-Leaves now target (raise e) db w = Leaves-refl db
  watch_read-Leaves now target (ok reading) db w =
      watch-Leaves now target reading.device_mac reading.radio_up db w

  handle_reply-Leaves :
      (now : ℕ) (target : DeviceTarget) (reply : Result (RawReply F) × W) (db : Db F)
      → Leaves db (handle_reply client now target reply db).1
  unfolding handle_reply ingest_collect
  handle_reply-Leaves now target (raise e, w) db = Leaves-refl db
  handle_reply-Leaves now target (ok raw, w) db =
      Leaves-trans (ingest_validated-Leaves now target.role raw.validated db)
        (watch_read-Leaves now target raw.read _ w)

  then_poll-Leaves :
      (rest : Db F → W → Result (Unit {0}) × Db F × W) (done : Result (Unit {0}) × Db F × W)
      (db : Db F)
      → Leaves db done.1
      → ((db' : Db F) (w' : W) → Leaves db' (rest db' w').1)
      → Leaves db (then_poll client rest done).1
  then_poll-Leaves rest (raise e, db', w') db left more = left
  then_poll-Leaves rest (ok tt, db', w') db left more = Leaves-trans left (more db' w')

  poll_targets-Leaves :
      (now : ℕ) (targets : List DeviceTarget) (db : Db F) (w : W)
      → Leaves db (poll_targets client now targets db w).1
  unfolding poll_targets
  poll_targets-Leaves now [] db w = Leaves-refl db
  poll_targets-Leaves now (target ∷ targets) db w =
      then_poll-Leaves (poll_targets client now targets)
        (handle_reply client now target (client.collect target w) db) db
        (handle_reply-Leaves now target (client.collect target w) db)
        (poll_targets-Leaves now targets)

  poll_telemetry-Leaves :
      (now : ℕ) (db : Db F) (w : W) → Leaves db (poll_telemetry client now db w).1
  unfolding poll_telemetry
  poll_telemetry-Leaves now db w = poll_targets-Leaves now db.targets db w

  -- `poll_telemetry`, `poll_backups` and `check_device_liveness` are steps of the schedule: whatever
  -- the devices answer, and also when an exception ends a poll, they leave the table of commands as it is and give no id back.
  pub leaves-Step :
      (sha256 : List ℕ → ℕ) (now : ℕ) (s : System F W)
      → let (_, polled, w') = poll_telemetry client now s.db s.network in
        let (fetched, w'') = poll_backups sha256 client now s.db s.network in
        Step client s (record s { db = polled; network = w' })
        × Step client s (record s { db = fetched; network = w'' })
        × Step client s (record s { db = check_device_liveness now s.db })
  leaves-Step sha256 now s =
      let p = poll_telemetry-Leaves now s.db s.network in
      let b = poll_backups-Leaves sha256 client now s.db s.network in
      let l = check_device_liveness-Leaves now s.db in
      (
        leaves _ _ p.commands p.next_id,
        leaves _ _ b.commands b.next_id,
        leaves _ s.network l.commands l.next_id,
      )
