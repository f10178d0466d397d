-- ===== src/Targets/Provisioned.antt =====
-- What `provision_device` of app/main.py records, and the state of the rows of `device_targets`.
use mathlib.Core.Option.{map as map_option}
use heltec_wifi_optimization.Prelude.{
  ℕ, ◌≡◌, refl, ap, ◌∙◌, ◌⊎◌, inl, inr, String, Option, none, some, Option-cases, List, Error,
  Result, ok, raise, http,
}
use heltec_wifi_optimization.Db.{Db, Device, DeviceTarget, Role, succeeded, failed}
use heltec_wifi_optimization.Events.{record_event, record_server_event}
use heltec_wifi_optimization.Commands.Rows.{target_of_role}
use heltec_wifi_optimization.Targets.{
  set_target, Installer, ProvisionRequest, backup_by_id, restore_archive, mark_failed,
  mark_provisioned, record_provisioned, record_outcome, provision_target, provision_device,
}
use heltec_wifi_optimization.Targets.Updated.{target_of_role-update, others, others-update}

-- the columns that a provisioning leaves
pub record IsKept (t t' : DeviceTarget) : Type 0 where
  pub role : t'.role ≡ t.role
  pub label : t'.label ≡ t.label
  pub ssh_host : t'.ssh_host ≡ t.ssh_host
  pub ssh_port : t'.ssh_port ≡ t.ssh_port
  pub ssh_user : t'.ssh_user ≡ t.ssh_user
  pub updated_at : t'.updated_at ≡ t.updated_at

module _ {F : Type 0} where
  -- The row of the role goes from `t` to `t'`, and those of the other roles stay.
  pub record IsRewritten (role : Role) (db db' : Db F) (t t' : DeviceTarget) : Type 0 where
    pub before : target_of_role role db.targets ≡ some t
    pub after : target_of_role role db'.targets ≡ some t'
    pub kept : IsKept t t'
    pub rest : others role db'.targets ≡ others role db.targets

  -- how a request ends, with the database and the devices before and after it
  pub data Outcome {W : Type 0} (installer : Installer W) (now : ℕ) (role : Role) (db : Db F)
      (w : W) : Result (Unit {0}) → Db F → W → Type 0 where
    installed :
        {db' : Db F} {w' : W} (t t' : DeviceTarget) (password : String) (archive : Option (List ℕ))
        → installer.provision t password archive w ≡ (ok tt, w')
        → IsRewritten role db db' t t'
        → t'.provisioned_at ≡ some now
        → t'.last_provision_status ≡ some succeeded
        → t'.last_provision_error ≡ none
        → Outcome installer now role db w (ok tt) db' w'
    broken_off :
        {db' : Db F} {w' : W} (t t' : DeviceTarget) (password : String) (archive : Option (List ℕ))
        (e : Error)
        → installer.provision t password archive w ≡ (raise e, w')
        → IsRewritten role db db' t t'
        → t'.provisioned_at ≡ t.provisioned_at
        → t'.last_provision_status ≡ some failed
        → t'.last_provision_error ≡ some e
        → db'.events ≡ db.events
        → Outcome installer now role db w (raise (http 502)) db' w'
    untouched :
        {status : ℕ}
        → (status ≡ 404) ⊎ (status ≡ 422)
        → Outcome installer now role db w (raise (http status)) db w

  record_provisioned_targets :
      (now : ℕ) (d : Option Device) (db : Db F) → (record_provisioned now d db).targets ≡ db.targets
  unfolding record_server_event record_event
  record_provisioned_targets now none db = refl
  record_provisioned_targets now (some d) db = refl

  set_target-IsRewritten :
      (role : Role) (f : DeviceTarget → DeviceTarget) (db : Db F) (t : DeviceTarget)
      → ((x : DeviceTarget) → IsKept x (f x))
      → target_of_role role db.targets ≡ some t
      → IsRewritten role db (set_target role f db) t (f t)
  unfolding set_target
  set_target-IsRewritten role f db t kept found = record {
    before = found;
    after = target_of_role-update role f db.targets (λ x. (kept x).role) ∙ ap (map_option f) found;
    kept = kept t;
    rest = others-update role f db.targets (λ x. (kept x).role);
  }

mark_failed-IsKept : (e : Error) (t : DeviceTarget) → IsKept t (mark_failed e t)
unfolding mark_failed
mark_failed-IsKept e t = record {
  role = refl;
  label = refl;
  ssh_host = refl;
  ssh_port = refl;
  ssh_user = refl;
  updated_at = refl;
}

mark_provisioned-IsKept : (now : ℕ) (t : DeviceTarget) → IsKept t (mark_provisioned now t)
unfolding mark_provisioned
mark_provisioned-IsKept now t = record {
  role = refl;
  label = refl;
  ssh_host = refl;
  ssh_port = refl;
  ssh_user = refl;
  updated_at = refl;
}

module _ {F W : Type 0} (installer : Installer W) (now : ℕ) (role : Role) (db : Db F) (w : W) where
  abbrev Ends : Result (Unit {0}) × Db F × W → Type 0
  Ends (result, db', w') = Outcome installer now role db w result db' w'

  record_outcome-Ends :
      (t : DeviceTarget) (password : String) (archive : Option (List ℕ)) (reply : Result (Unit {0}))
      (w' : W)
      → installer.provision t password archive w ≡ (reply, w')
      → target_of_role role db.targets ≡ some t
      → let (result, db') = record_outcome now role reply db in Ends (result, db', w')
  unfolding record_outcome mark_failed mark_provisioned set_target
  record_outcome-Ends t password archive (raise e) w' answers found =
      broken_off t (mark_failed e t) password archive e answers
        (set_target-IsRewritten role (mark_failed e) db t (mark_failed-IsKept e) found) refl refl
        refl refl
  record_outcome-Ends t password archive (ok tt) w' answers found =
      let rewritten =
        set_target-IsRewritten role (mark_provisioned now) db t (mark_provisioned-IsKept now)
          found in
      let same = record_provisioned_targets now _ (set_target role (mark_provisioned now) db) in
      installed t (mark_provisioned now t) password archive answers
        (record {
          before = found;
          after = ap (target_of_role role) same ∙ rewritten.after;
          kept = rewritten.kept;
          rest = ap (others role) same ∙ rewritten.rest;
        })
        refl refl refl

  provision_target-Ends :
      (t : DeviceTarget) (password : String) (archive : Result (Option (List ℕ)))
      → target_of_role role db.targets ≡ some t
      → (archive ≡ raise (http 404)) ⊎ ((a : Option (List ℕ)) × (archive ≡ ok a))
      → Ends (provision_target installer now role t password archive db w)
  provision_target-Ends t password archive found (inl missing) =
      simp (missing) (untouched (inl refl))
  provision_target-Ends t password archive found (inr (a, known)) = simp (known) (
      record_outcome-Ends t password a (installer.provision t password a w).0
        (installer.provision t password a w).1 refl found)

  restore_archive_cases :
      (id : Option ℕ)
      → (restore_archive id db.backups ≡ raise (http 404))
        ⊎ ((a : Option (List ℕ)) × (restore_archive id db.backups ≡ ok a))
  unfolding restore_archive
  restore_archive_cases none = inr (none, refl)
  restore_archive_cases (some id) = elim (Option-cases (backup_by_id id db.backups)) [
    | (inl missing) ↦ simp (missing) (inl refl)
    | (inr (b, found)) ↦ simp (found) (inr (some b.archive, refl))
  ]

  -- However the device answers, a request ends in one of three ways. It succeeds if the
  -- provisioning did: the row of the role then says so, at this time and without an error. It
  -- ends with 502 if the provisioning raised: the row then has the error, and `provisioned_at`
  -- and the events are as they were. Or it ends with 404 or 422, with the database and the
  -- device as they were. The address in the row and the rows of the other roles stay.
  pub provision_device-Outcome :
      (body : Option ProvisionRequest)
      → let (result, db', w') = provision_device installer now role body db w in
        Outcome installer now role db w result db' w'
  unfolding provision_device
  provision_device-Outcome none = untouched (inr refl)
  provision_device-Outcome (some body) = elim (Option-cases (target_of_role role db.targets)) [
    | (inl missing) ↦ simp (missing) (untouched (inl refl))
    | (inr (t, found)) ↦ simp (found) (
        provision_target-Ends t body.password (restore_archive body.restore_backup_id db.backups)
          found (restore_archive_cases body.restore_backup_id))
  ]
