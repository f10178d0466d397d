-- ===== src/Schedule/Others.antt =====
-- The jobs of app/main.py that are not about commands, and the table of commands.
use heltec_wifi_optimization.Prelude.{
  ℕ, ◌≤◌, ◌≡◌, refl, ◌∙◌, Bool-cases, inl, inr, Option, none, some, List, [], ◌∷◌, arith, Result,
  ok, raise, select,
}
use heltec_wifi_optimization.Db.{Db, Device, DeviceTarget, Role}
use heltec_wifi_optimization.DeviceClient.{DeviceClient}
use heltec_wifi_optimization.Notify.{notify}
use heltec_wifi_optimization.Events.{record_event, record_server_event}
use heltec_wifi_optimization.Devices.{set_device}
use heltec_wifi_optimization.Devices.Liveness.{
  is_stale, alert_offline, alert_all, check_device_liveness,
}
use heltec_wifi_optimization.Backups.{
  is_sha256, latest_sha256, device_of_role, insert_backup, store_backup, store_for, handle_archive,
  fetch_backups, poll_backups,
}

-- No command is added, changed or removed, and no id is given back.
pub record Leaves {F : Type 0} (db db' : Db F) : Type 0 where
  pub commands : db'.commands ≡ db.commands
  pub next_id : db.next_id ≤ db'.next_id

module _ {F : Type 0} where
  pub Leaves-refl : (db : Db F) → Leaves db db
  Leaves-refl db = record { commands = refl; next_id = omega arith }

  pub Leaves-trans : {db db' db'' : Db F} → Leaves db db' → Leaves db' db'' → Leaves db db''
  Leaves-trans h h' = record {
    commands = h'.commands ∙ h.commands;
    next_id = omega (arith, h.next_id, h'.next_id);
  }

  alert_all-Leaves :
      (now secs : ℕ) (ds : List Device) (db : Db F) → Leaves db (alert_all now secs ds db)
  unfolding alert_all alert_offline record_server_event record_event notify set_device
  alert_all-Leaves now secs [] db = Leaves-refl db
  alert_all-Leaves now secs (d ∷ ds) db =
      let h = alert_all-Leaves now secs ds (alert_offline now secs d db) in
      record { commands = h.commands; next_id = h.next_id }

  pub check_device_liveness-Leaves :
      (now : ℕ) (db : Db F) → Leaves db (check_device_liveness now db)
  unfolding check_device_liveness
  check_device_liveness-Leaves now db =
      alert_all-Leaves now db.app_settings.offline_alert_seconds
        (select (is_stale now db.app_settings.offline_alert_seconds) db.devices) db

  module _ (sha256 : List ℕ → ℕ) where
    store_backup-Leaves :
        (now retention device_id : ℕ) (archive : List ℕ) (db : Db F)
        → Leaves db (store_backup sha256 now retention device_id archive db)
    unfolding store_backup insert_backup
    store_backup-Leaves now retention device_id archive db =
        elim (Bool-cases (is_sha256 (latest_sha256 device_id db.backups) (sha256 archive))) [
          | (inl known) ↦ simp (known) (Leaves-refl db)
          | (inr new) ↦ simp (new) (record { commands = refl; next_id = omega arith })
        ]

    store_for-Leaves :
        (now retention : ℕ) (d : Option Device) (archive : List ℕ) (db : Db F)
        → Leaves db (store_for sha256 now retention d archive db)
    store_for-Leaves now retention none archive db = Leaves-refl db
    store_for-Leaves now retention (some d) archive db =
        store_backup-Leaves now retention d.id archive db

    handle_archive-Leaves :
        (now retention : ℕ) (role : Role) (reply : Result (List ℕ)) (db : Db F)
        → Leaves db (handle_archive sha256 now retention role reply db)
    unfolding handle_archive
    handle_archive-Leaves now retention role (raise e) db = Leaves-refl db
    handle_archive-Leaves now retention role (ok []) db = Leaves-refl db
    handle_archive-Leaves now retention role (ok (byte ∷ bytes)) db =
        store_for-Leaves now retention (device_of_role role db.devices) (byte ∷ bytes) db

    fetch_backups-Leaves :
        {W : Type 0} (client : DeviceClient F W) (now retention : ℕ) (targets : List DeviceTarget)
        (db : Db F) (w : W)
        → Leaves db (fetch_backups sha256 client now retention targets db w).0
    unfolding fetch_backups
    fetch_backups-Leaves client now retention [] db w = Leaves-refl db
    fetch_backups-Leaves client now retention (target ∷ targets) db w =
        let (reply, w') = client.fetch_backup target w in
        let db' = handle_archive sha256 now retention target.role reply db in
        Leaves-trans (handle_archive-Leaves now retention target.role reply db)
          (fetch_backups-Leaves client now retention targets db' w')

    pub poll_backups-Leaves :
        {W : Type 0} (client : DeviceClient F W) (now : ℕ) (db : Db F) (w : W)
        → Leaves db (poll_backups sha256 client now db w).0
    unfolding poll_backups
    poll_backups-Leaves client now db w =
        fetch_backups-Leaves client now db.app_settings.backup_retention_count db.targets db w
