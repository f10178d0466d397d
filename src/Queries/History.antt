-- ===== src/Queries/History.antt =====
-- The histories of the dashboard: `get_command_history`, `get_backup_history` and `download_backup`
-- of app/main.py.
pub mod Downloads
use heltec_wifi_optimization.Prelude.{
  ℕ, Option, none, some, List, ◌==◌, find, filter_some, map, length, Result, ok, raise, http, ◌>>=◌,
}
use heltec_wifi_optimization.Db.{Db, ℤ, Device, Command, Backup, Role}
use heltec_wifi_optimization.Settings.{positive}
use heltec_wifi_optimization.Targets.{at_most, backup_by_id}
use heltec_wifi_optimization.Backups.{take}

abbrev pub device_by_id : ℕ → List Device → Option Device
device_by_id id = find (λ d. d.id == id)

-- a `CommandHistoryEntry`
pub record CommandHistoryEntry : Type 0 where
  pub device_mac : ℕ
  pub device_role : Role
  pub command : Command

abbrev pub command_entry : Command → Option Device → Option CommandHistoryEntry
command_entry c none = none
command_entry c (some d) = some (record { device_mac = d.mac; device_role = d.role; command = c })

-- `Query(default=50, gt=0, le=500)`
unfoldable pub get_command_history :
    {F : Type 0}
    → (List CommandHistoryEntry → List CommandHistoryEntry)
    → ℤ
    → Db F
    → Result (List CommandHistoryEntry)
unfolding positive at_most
get_command_history order limit db = do
  number ← positive limit
  n ← at_most 500 number
  ok (
      take n (
        order (
          filter_some
            (map (λ c. command_entry c (device_by_id c.device_id db.devices)) db.commands))))

-- a `BackupHistoryEntry`
pub record BackupHistoryEntry : Type 0 where
  pub id : ℕ
  pub device_mac : ℕ
  pub device_role : Role
  pub created_at : ℕ
  pub sha256 : ℕ
  pub size_bytes : ℕ

abbrev pub backup_entry : Backup → Option Device → Option BackupHistoryEntry
backup_entry b none = none
backup_entry b (some d) = some (record {
  id = b.id;
  device_mac = d.mac;
  device_role = d.role;
  created_at = b.created_at;
  sha256 = b.sha256;
  size_bytes = b.size_bytes;
})

unfoldable pub join_backups : List Device → List Backup → List BackupHistoryEntry
join_backups devices backups =
    filter_some (map (λ b. backup_entry b (device_by_id b.device_id devices)) backups)

-- `Query(default=100, gt=0, le=1000)`
unfoldable pub get_backup_history :
    {F : Type 0}
    → (List BackupHistoryEntry → List BackupHistoryEntry)
    → ℤ
    → Db F
    → Result (List BackupHistoryEntry)
unfolding positive at_most join_backups
get_backup_history order limit db = do
  number ← positive limit
  n ← at_most 1000 number
  ok (take n (order (join_backups db.devices db.backups)))

-- the file, with what its name is formatted from
pub record Download : Type 0 where
  pub archive : List ℕ
  pub created_at : ℕ
  pub mac : ℕ
  pub role : Role

abbrev pub download_of : Backup → Option Device → Result Download
download_of b none = raise (http 404)
download_of b (some d) =
    ok (record { archive = b.archive; created_at = b.created_at; mac = d.mac; role = d.role })

abbrev pub download_found : List Device → Option Backup → Result Download
download_found devices none = raise (http 404)
download_found devices (some b) = download_of b (device_by_id b.device_id devices)

unfoldable pub download_backup : {F : Type 0} → ℕ → Db F → Result Download
download_backup backup_id db = download_found db.devices (backup_by_id backup_id db.backups)
