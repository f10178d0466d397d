-- ===== src/Backups.antt =====
-- `poll_backups` of app/main.py: the configuration archives, without repetition and with a limit.
pub mod Newest
pub mod Limit
pub mod Stored
use heltec_wifi_optimization.Prelude.{
  ℕ, zero, suc, ◌+◌, ◌≡◌, Bool, true, false, not, ◌&&◌, Option, none, some, List, [], ◌∷◌, ◌++◌,
  map, ◌==◌, leb, ltb, if◌then◌else◌, select, find, latest, contains, length, Result, ok, raise,
}
use heltec_wifi_optimization.Db.{Db, Device, DeviceTarget, Backup, Role, same_role}
use heltec_wifi_optimization.DeviceClient.{DeviceClient}

abbrev pub of_device : ℕ → Backup → Bool
of_device device_id b = b.device_id == device_id

abbrev pub take {ℓ} : {A : Type ℓ} → ℕ → List A → List A
take zero xs = []
take (suc n) [] = []
take (suc n) (x ∷ xs) = x ∷ take n xs

-- `ORDER BY created_at DESC`; of rows with one time, the one inserted last comes first
abbrev pub insert_newest : Backup → List Backup → List Backup
insert_newest b [] = b ∷ []
insert_newest b (c ∷ rows) =
    let rest = insert_newest b rows in
    if leb b.created_at c.created_at then c ∷ rest else b ∷ c ∷ rows

abbrev pub newest_first : List Backup → List Backup
newest_first [] = []
newest_first (b ∷ rows) = insert_newest b (newest_first rows)

-- the ids of the subquery
abbrev pub newest_ids : ℕ → ℕ → List Backup → List ℕ
newest_ids device_id n rows =
    map (λ b. b.id) (take n (newest_first (select (of_device device_id) rows)))

-- `DELETE … WHERE device_id = … AND id NOT IN (…)`
unfoldable pub delete_old : ℕ → ℕ → List Backup → List Backup
delete_old device_id n rows =
    let kept = newest_ids device_id n rows in
    select (λ b. not (of_device device_id b && not (contains kept b.id))) rows

-- `if backup_retention_count > 0`
unfoldable pub enforce_retention : ℕ → ℕ → List Backup → List Backup
enforce_retention device_id retention rows =
    if ltb 0 retention then delete_old device_id retention rows else rows

abbrev pub sha256_of : Option Backup → Option ℕ
sha256_of none = none
sha256_of (some b) = some b.sha256

abbrev pub latest_sha256 : ℕ → List Backup → Option ℕ
latest_sha256 device_id rows =
    sha256_of (latest (λ b. b.created_at) (select (of_device device_id) rows))

abbrev pub is_sha256 : Option ℕ → ℕ → Bool
is_sha256 none n = false
is_sha256 (some m) n = m == n

abbrev pub device_of_role : Role → List Device → Option Device
device_of_role role = find (λ d. same_role d.role role)

-- the row of an INSERT
abbrev pub new_backup : (List ℕ → ℕ) → ℕ → ℕ → ℕ → List ℕ → Backup
new_backup sha256 id now device_id archive = record {
  id = id;
  device_id = device_id;
  created_at = now;
  sha256 = sha256 archive;
  size_bytes = length archive;
  archive = archive;
}

-- `hashlib.sha256`, as a number
module _ {F : Type 0} (sha256 : List ℕ → ℕ) where
  unfoldable pub insert_backup : ℕ → ℕ → ℕ → List ℕ → Db F → Db F
  unfolding enforce_retention
  insert_backup now retention device_id archive db = record db {
    backups =
        enforce_retention device_id retention
          (db.backups ++ new_backup sha256 db.next_id now device_id archive ∷ []);
    next_id = db.next_id + 1;
  }

  -- An archive is stored unless it is the newest one already.
  unfoldable pub store_backup : ℕ → ℕ → ℕ → List ℕ → Db F → Db F
  unfolding insert_backup
  store_backup now retention device_id archive db =
      if is_sha256 (latest_sha256 device_id db.backups) (sha256 archive)
      then db
      else insert_backup now retention device_id archive db

  abbrev pub store_for : ℕ → ℕ → Option Device → List ℕ → Db F → Db F
  store_for now retention none archive db = db
  store_for now retention (some d) archive db = store_backup now retention d.id archive db

  -- an empty archive is skipped, and a device that no telemetry has registered yet
  unfoldable pub handle_archive : ℕ → ℕ → Role → Result (List ℕ) → Db F → Db F
  handle_archive now retention role (raise e) db = db
  handle_archive now retention role (ok []) db = db
  handle_archive now retention role (ok (byte ∷ bytes)) db =
      store_for now retention (device_of_role role db.devices) (byte ∷ bytes) db

  module _ {W : Type 0} (client : DeviceClient F W) where
    unfoldable pub fetch_backups : ℕ → ℕ → List DeviceTarget → Db F → W → Db F × W
    unfolding handle_archive
    fetch_backups now retention [] db w = (db, w)
    fetch_backups now retention (target ∷ targets) db w =
        let (reply, w') = client.fetch_backup target w in
        fetch_backups now retention targets (handle_archive now retention target.role reply db) w'

    unfoldable pub poll_backups : ℕ → Db F → W → Db F × W
    unfolding fetch_backups
    poll_backups now db w = fetch_backups now db.app_settings.backup_retention_count db.targets db w
