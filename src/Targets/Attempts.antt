-- ===== src/Targets/Attempts.antt =====
-- The columns `provisioned_at`, `last_provision_status` and `last_provision_error` over any series
-- of requests (app/main.py).
use heltec_wifi_optimization.Prelude.{
  All, ℕ, Bool-cases, inl, inr, Option, none, some, List, [], ◌∷◌, update, Error, Result, ok, raise,
  any,
}
use heltec_wifi_optimization.Db.{Db, Device, DeviceTarget, Role, ProvisionStatus, succeeded, failed}
use heltec_wifi_optimization.Events.{record_event, record_server_event}
use heltec_wifi_optimization.Settings.{parse_body}
use heltec_wifi_optimization.Commands.Rows.{target_of_role}
use heltec_wifi_optimization.Targets.{
  DeviceTargetUpdate, TargetAddress, check_target_update, moved_to, has_role, set_target,
  store_address, update_device_target, Installer, ProvisionRequest, restore_archive, mark_failed,
  mark_provisioned, record_provisioned, record_outcome, provision_target, provision_found,
  provision_device,
}

-- A row whose device was never provisioned, whose last provisioning succeeded, or failed.
pub data IsAttempt : Option ℕ → Option ProvisionStatus → Option Error → Type 0 where
  never_tried : IsAttempt none none none
  last_succeeded : {at : ℕ} → IsAttempt (some at) (some succeeded) none
  last_failed : {at : Option ℕ} {e : Error} → IsAttempt at (some failed) (some e)

abbrev pub IsHonest : DeviceTarget → Type 0
IsHonest t = IsAttempt t.provisioned_at t.last_provision_status t.last_provision_error

abbrev pub AllHonest : List DeviceTarget → Type 0
AllHonest = All IsHonest

update-AllHonest :
    (role : Role) (f : DeviceTarget → DeviceTarget) (ts : List DeviceTarget)
    → ((t : DeviceTarget) → IsHonest t → IsHonest (f t))
    → AllHonest ts
    → AllHonest (update (has_role role) f ts)
update-AllHonest role f [] keeps h = tt
update-AllHonest role f (t ∷ ts) keeps (p, h) = elim (Bool-cases (has_role role t)) [
  | (inl hit) ↦ simp (hit) (keeps t p, update-AllHonest role f ts keeps h)
  | (inr miss) ↦ simp (miss) (p, update-AllHonest role f ts keeps h)
]

-- A request to the targets, and what it makes of the database and of the devices.
pub data Request : Type 0 where
  update_request : ℕ → Role → Option DeviceTargetUpdate → Request
  provision_request : ℕ → Role → Option ProvisionRequest → Request

module _ {F W : Type 0} (installer : Installer W) where
  abbrev pub handle : Request → Db F × W → Db F × W
  handle (update_request now role body) (db, w) = ((update_device_target now role body db).1, w)
  handle (provision_request now role body) (db, w) =
      let (_, db', w') = provision_device installer now role body db w in (db', w')

  abbrev pub handle_all : List Request → Db F × W → Db F × W
  handle_all [] s = s
  handle_all (r ∷ rest) s = handle_all rest (handle r s)

  store_address-AllHonest :
      (now : ℕ) (role : Role) (r : Result TargetAddress) (db : Db F)
      → AllHonest db.targets
      → AllHonest (store_address now role r db).1.targets
  unfolding set_target moved_to
  store_address-AllHonest now role (raise e) db h = h
  store_address-AllHonest now role (ok a) db h =
      elim (Bool-cases (any (has_role role) db.targets)) [
        | (inl there) ↦
            simp (there) (update-AllHonest role (moved_to now a) db.targets (λ _ p. p) h)
        | (inr absent) ↦ simp (absent) h
      ]

  record_provisioned-AllHonest :
      (now : ℕ) (d : Option Device) (db : Db F)
      → AllHonest db.targets
      → AllHonest (record_provisioned now d db).targets
  unfolding record_server_event record_event
  record_provisioned-AllHonest now none db h = h
  record_provisioned-AllHonest now (some d) db h = h

  record_outcome-AllHonest :
      (now : ℕ) (role : Role) (reply : Result (Unit {0})) (db : Db F)
      → AllHonest db.targets
      → AllHonest (record_outcome now role reply db).1.targets
  unfolding record_outcome set_target mark_failed mark_provisioned
  record_outcome-AllHonest now role (raise e) db h =
      update-AllHonest role (mark_failed e) db.targets (λ _ _. last_failed) h
  record_outcome-AllHonest now role (ok tt) db h =
      record_provisioned-AllHonest now _ (set_target role (mark_provisioned now) db)
        (update-AllHonest role (mark_provisioned now) db.targets (λ _ _. last_succeeded) h)

  provision_target-AllHonest :
      (now : ℕ) (role : Role) (t : DeviceTarget) (body : ProvisionRequest)
      (archive : Result (Option (List ℕ))) (db : Db F) (w : W)
      → AllHonest db.targets
      → AllHonest (provision_target installer now role t body.password archive db w).1.targets
  provision_target-AllHonest now role t body (raise e) db w h = h
  provision_target-AllHonest now role t body (ok archive) db w h =
      record_outcome-AllHonest now role (installer.provision t body.password archive w).0 db h

  provision_found-AllHonest :
      (now : ℕ) (role : Role) (t : Option DeviceTarget) (body : ProvisionRequest) (db : Db F)
      (w : W)
      → AllHonest db.targets
      → AllHonest (provision_found installer now role t body db w).1.targets
  provision_found-AllHonest now role none body db w h = h
  provision_found-AllHonest now role (some t) body db w h =
      provision_target-AllHonest now role t body (restore_archive body.restore_backup_id db.backups)
        db w h

  handle-AllHonest :
      (r : Request) (db : Db F) (w : W)
      → AllHonest db.targets
      → AllHonest (handle r (db, w)).0.targets
  unfolding update_device_target provision_device
  handle-AllHonest (update_request now role body) db w h =
      store_address-AllHonest now role (parse_body check_target_update body) db h
  handle-AllHonest (provision_request now role none) db w h = h
  handle-AllHonest (provision_request now role (some body)) db w h =
      provision_found-AllHonest now role (target_of_role role db.targets) body db w h

  -- If every row says at first that its device was never provisioned, or that it was, or that
  -- this failed, each with the columns that go with it, then every row does after any series of
  -- requests to update or to provision targets.
  pub handle_all-AllHonest :
      (requests : List Request) (db : Db F) (w : W)
      → AllHonest db.targets
      → AllHonest (handle_all requests (db, w)).0.targets
  handle_all-AllHonest [] db w h = h
  handle_all-AllHonest (r ∷ rest) db w h =
      handle_all-AllHonest rest (handle r (db, w)).0 (handle r (db, w)).1
        (handle-AllHonest r db w h)
