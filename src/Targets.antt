-- ===== src/Targets.antt =====
-- Where each device is reached, its first set-up and the restoration of an archive:
-- `update_device_target`, `provision_device` and `restore_backup` of app/main.py.
--
-- A role that is neither of the two has no target, so the path parameter is a `Role`. What the
-- calls of app/device_client.py do to the device is an interface here.
pub mod Updated
pub mod Provisioned
pub mod Attempts
pub mod Restored
use heltec_wifi_optimization.Prelude.{
  ℕ, String, Bool, true, false, ◌&&◌, Option, none, some, List, [], ◌∷◌, ltb, leb, ◌==◌,
  if◌then◌else◌, any, find, update, Error, Result, ok, raise, http, ◌>>=◌,
}
use heltec_wifi_optimization.Db.{
  Db, ℤ, Device, DeviceTarget, Backup, Role, same_role, ProvisionStatus, succeeded, failed,
  device_provisioned, backup_restored,
}
use heltec_wifi_optimization.Events.{record_server_event}
use heltec_wifi_optimization.Settings.{positive, parse_body}
use heltec_wifi_optimization.Commands.Rows.{target_of_role}
use heltec_wifi_optimization.Backups.{device_of_role}

-- a decoded `DeviceTargetUpdate`, with the defaults filled in; `none` is the empty text
pub record DeviceTargetUpdate : Type 0 where
  pub ssh_host : Option ℕ
  pub ssh_port : ℤ
  pub ssh_user : Option ℕ
  pub label : Option String

-- what passes the checks
pub record TargetAddress : Type 0 where
  pub ssh_host : ℕ
  pub ssh_port : ℕ
  pub ssh_user : ℕ
  pub label : Option String

-- `Field(min_length=1)`
unfoldable pub non_empty {ℓ} : {A : Type ℓ} → Option A → Result A
non_empty none = raise (http 422)
non_empty (some text) = ok text

-- `Field(gt=0, le=65535)`
unfoldable pub at_most : ℕ → ℕ → Result ℕ
at_most bound n = if leb n bound then ok n else raise (http 422)

unfoldable pub check_target_update : DeviceTargetUpdate → Result TargetAddress
unfolding non_empty positive at_most
check_target_update body = do
  host ← non_empty body.ssh_host
  number ← positive body.ssh_port
  port ← at_most 65535 number
  user ← non_empty body.ssh_user
  ok (record { ssh_host = host; ssh_port = port; ssh_user = user; label = body.label })

-- `COALESCE($5, label)`
abbrev pub or_label : Option String → String → String
or_label none old = old
or_label (some label) old = label

unfoldable pub moved_to : ℕ → TargetAddress → DeviceTarget → DeviceTarget
moved_to now address t = record t {
  ssh_host = address.ssh_host;
  ssh_port = address.ssh_port;
  ssh_user = address.ssh_user;
  label = or_label address.label t.label;
  updated_at = now;
}

abbrev pub has_role : Role → DeviceTarget → Bool
has_role role t = same_role t.role role

-- `UPDATE device_targets SET … WHERE role = …`
unfoldable pub set_target : {F : Type 0} → Role → (DeviceTarget → DeviceTarget) → Db F → Db F
set_target role change db = record db { targets = update (has_role role) change db.targets }

module _ {F : Type 0} where
  -- "UPDATE 0" is the answer when no row has the role.
  abbrev pub store_address : ℕ → Role → Result TargetAddress → Db F → Result (Unit {0}) × Db F
  store_address now role (raise e) db = (raise e, db)
  store_address now role (ok address) db =
      if any (has_role role) db.targets
      then (ok tt, set_target role (moved_to now address) db)
      else (raise (http 404), db)

  unfoldable pub update_device_target :
      ℕ → Role → Option DeviceTargetUpdate → Db F → Result (Unit {0}) × Db F
  unfolding check_target_update set_target moved_to
  update_device_target now role body db =
      store_address now role (parse_body check_target_update body) db

-- the calls of app/device_client.py that these requests make
pub record Installer (W : Type 0) : Type 0 where
  pub provision : DeviceTarget → String → Option (List ℕ) → W → Result (Unit {0}) × W
  pub restore_backup : DeviceTarget → List ℕ → W → Result (Unit {0}) × W

-- a decoded `ProvisionRequest`; the length of the password is checked by pydantic
pub record ProvisionRequest : Type 0 where
  pub password : String
  pub restore_backup_id : Option ℕ

abbrev pub backup_by_id : ℕ → List Backup → Option Backup
backup_by_id id = find (λ b. b.id == id)

abbrev pub archive_of : Option Backup → Result (Option (List ℕ))
archive_of none = raise (http 404)
archive_of (some b) = ok (some b.archive)

-- the archive to restore: none is asked for, or a backup of any device
unfoldable pub restore_archive : Option ℕ → List Backup → Result (Option (List ℕ))
restore_archive none backups = ok none
restore_archive (some id) backups = archive_of (backup_by_id id backups)

unfoldable pub mark_failed : Error → DeviceTarget → DeviceTarget
mark_failed e t = record t { last_provision_status = some failed; last_provision_error = some e }

unfoldable pub mark_provisioned : ℕ → DeviceTarget → DeviceTarget
mark_provisioned now t = record t {
  provisioned_at = some now;
  last_provision_status = some succeeded;
  last_provision_error = none;
}

module _ {F : Type 0} where
  -- a new device has no row yet to attach the event to
  abbrev pub record_provisioned : ℕ → Option Device → Db F → Db F
  record_provisioned now none db = db
  record_provisioned now (some d) db = record_server_event now d.id device_provisioned db

  unfoldable pub record_outcome : ℕ → Role → Result (Unit {0}) → Db F → Result (Unit {0}) × Db F
  unfolding set_target mark_failed mark_provisioned
  record_outcome now role (raise e) db = (raise (http 502), set_target role (mark_failed e) db)
  record_outcome now role (ok tt) db =
      let db' = set_target role (mark_provisioned now) db in
      (ok tt, record_provisioned now (device_of_role role db'.devices) db')

  module _ {W : Type 0} (installer : Installer W) where
    abbrev pub provision_target :
        ℕ
        → Role
        → DeviceTarget
        → String
        → Result (Option (List ℕ))
        → Db F
        → W
        → Result (Unit {0}) × Db F × W
    provision_target now role t password (raise e) db w = (raise e, db, w)
    provision_target now role t password (ok archive) db w =
        let (reply, w') = installer.provision t password archive w in
        let (result, db') = record_outcome now role reply db in (result, db', w')

    abbrev pub provision_found :
        ℕ → Role → Option DeviceTarget → ProvisionRequest → Db F → W → Result (Unit {0}) × Db F × W
    provision_found now role none body db w = (raise (http 404), db, w)
    provision_found now role (some t) body db w =
        provision_target now role t body.password
          (restore_archive body.restore_backup_id db.backups) db w

    -- `now` is the moment the call of the device returns
    unfoldable pub provision_device :
        ℕ → Role → Option ProvisionRequest → Db F → W → Result (Unit {0}) × Db F × W
    unfolding restore_archive record_outcome
    provision_device now role none db w = (raise (http 422), db, w)
    provision_device now role (some body) db w =
        provision_found now role (target_of_role role db.targets) body db w

    unfoldable pub record_restored :
        ℕ → ℕ → ℕ → Result (Unit {0}) × W → Db F → Result (Unit {0}) × Db F × W
    record_restored now backup_id device_id (raise e, w) db = (raise (http 502), db, w)
    record_restored now backup_id device_id (ok tt, w) db =
        (ok tt, record_server_event now device_id (backup_restored backup_id) db, w)

    abbrev pub restore_on :
        ℕ → Backup → Device → Option DeviceTarget → Db F → W → Result (Unit {0}) × Db F × W
    restore_on now b d none db w = (raise (http 404), db, w)
    restore_on now b d (some t) db w =
        record_restored now b.id d.id (installer.restore_backup t b.archive w) db

    -- the join of the backup with its device
    abbrev pub restore_joined : ℕ → Backup → Option Device → Db F → W → Result (Unit {0}) × Db F × W
    restore_joined now b none db w = (raise (http 404), db, w)
    restore_joined now b (some d) db w = restore_on now b d (target_of_role d.role db.targets) db w

    abbrev pub restore_found : ℕ → Option Backup → Db F → W → Result (Unit {0}) × Db F × W
    restore_found now none db w = (raise (http 404), db, w)
    restore_found now (some b) db w =
        restore_joined now b (find (λ d. d.id == b.device_id) db.devices) db w

    unfoldable pub restore_backup : ℕ → ℕ → Db F → W → Result (Unit {0}) × Db F × W
    unfolding record_restored
    restore_backup now backup_id db w = restore_found now (backup_by_id backup_id db.backups) db w
