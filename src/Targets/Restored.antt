-- ===== src/Targets/Restored.antt =====
-- What `restore_backup` of app/main.py does: where the archive goes and what the log says.
use heltec_wifi_optimization.Prelude.{
  ℕ, ◌≡◌, refl, inl, inr, none, some, Option-cases, [], ◌∷◌, ◌++◌, ◌==◌, find, Error, Result, ok,
  raise, http,
}
use heltec_wifi_optimization.Db.{Db, Device, DeviceTarget, Backup, server, backup_restored}
use heltec_wifi_optimization.Events.{record_event, record_server_event, insert_event}
use heltec_wifi_optimization.Commands.Rows.{target_of_role}
use heltec_wifi_optimization.Targets.{Installer, backup_by_id, record_restored, restore_backup}

module _ {F W : Type 0} (installer : Installer W) (now backup_id : ℕ) (db : Db F) (w : W) where
  -- The backup of the id, the device it was taken from, and the target of this device's role.
  pub record IsJoined (b : Backup) (d : Device) (t : DeviceTarget) : Type 0 where
    pub backup : backup_by_id backup_id db.backups ≡ some b
    pub device : find (λ (x : Device). x.id == b.device_id) db.devices ≡ some d
    pub target : target_of_role d.role db.targets ≡ some t

  pub data Outcome : Result (Unit {0}) → Db F → W → Type 0 where
    restored :
        {w' : W} (b : Backup) (d : Device) (t : DeviceTarget)
        → IsJoined b d t
        → installer.restore_backup t b.archive w ≡ (ok tt, w')
        → Outcome
            (ok tt)
            (record db {
              events =
                  db.events
                  ++ record {
                    device_id = d.id;
                    occurred_at = now;
                    source = server;
                    event = backup_restored b.id;
                    device_seq = none;
                  }
                    ∷ [];
            })
            w'
    not_restored :
        {w' : W} (b : Backup) (d : Device) (t : DeviceTarget) (e : Error)
        → IsJoined b d t
        → installer.restore_backup t b.archive w ≡ (raise e, w')
        → Outcome (raise (http 502)) db w'
    untouched : Outcome (raise (http 404)) db w

  abbrev Ends : Result (Unit {0}) × Db F × W → Type 0
  Ends (result, db', w') = Outcome result db' w'

  record_restored-Ends :
      (b : Backup) (d : Device) (t : DeviceTarget) (reply : Result (Unit {0})) (w' : W)
      → IsJoined b d t
      → installer.restore_backup t b.archive w ≡ (reply, w')
      → Ends (record_restored installer now b.id d.id (reply, w') db)
  unfolding record_restored record_server_event record_event insert_event
  record_restored-Ends b d t (ok tt) w' joined answers = restored b d t joined answers
  record_restored-Ends b d t (raise e) w' joined answers = not_restored b d t e joined answers

  -- A restoration either sends the archive of the backup to the target of the role of the device
  -- it was taken from, and then succeeds with one event in the log or ends with 502 and no
  -- change, as the device answers; or it ends with 404, with the database and the device as they
  -- were.
  pub restore_backup-Outcome :
      let (result, db', w') = restore_backup installer now backup_id db w in Outcome result db' w'
  unfolding restore_backup
  restore_backup-Outcome = elim (Option-cases (backup_by_id backup_id db.backups)) [
    | (inl no_backup) ↦ simp (no_backup) untouched
    | (inr (b, backup)) ↦
        elim (Option-cases (find (λ (x : Device). x.id == b.device_id) db.devices)) [
          | (inl no_device) ↦ simp (backup, no_device) untouched
          | (inr (d, device)) ↦ elim (Option-cases (target_of_role d.role db.targets)) [
            | (inl no_target) ↦ simp (backup, device, no_target) untouched
            | (inr (t, target)) ↦
                simp (backup, device, target)
                  (record_restored-Ends b d t _ _
                    (record { backup = backup; device = device; target = target }) refl)
          ]
        ]
  ]
