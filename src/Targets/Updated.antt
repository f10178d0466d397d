-- ===== src/Targets/Updated.antt =====
-- What a request to `update_device_target` of app/main.py leaves.
use mathlib.Core.Option.{map as map_option}
use heltec_wifi_optimization.Prelude.{
  ℕ, ◌<◌, ◌≤◌, ◌≡◌, ◌⊎◌, refl, ap, subst, ◌∙◌, String, true, false, Bool-cases, inl, inr, Option,
  none, some, List, [], ◌∷◌, arith, leb, any, update, select, not, Result, ok, raise, http,
}
use heltec_wifi_optimization.Db.{Db, pos, DeviceTarget, Role, same_role}
use heltec_wifi_optimization.Settings.Bounds.{
  Accepts, accepted, refused, >>=-Accepts, positive-Accepts,
}
use heltec_wifi_optimization.Commands.Rows.{target_of_role}
use heltec_wifi_optimization.Targets.{
  DeviceTargetUpdate, TargetAddress, non_empty, at_most, check_target_update, or_label, moved_to,
  has_role, set_target, store_address, update_device_target,
}

-- An update of the row of a role, which keeps the role, gives the row that is found.
pub target_of_role-update :
    (role : Role) (f : DeviceTarget → DeviceTarget) (ts : List DeviceTarget)
    → ((x : DeviceTarget) → (f x).role ≡ x.role)
    → target_of_role role (update (has_role role) f ts) ≡ map_option f (target_of_role role ts)
unfolding target_of_role
target_of_role-update role f [] keeps = refl
target_of_role-update role f (x ∷ ts) keeps = elim (Bool-cases (same_role x.role role)) [
  | (inl hit) ↦ simp (hit, keeps x) refl
  | (inr miss) ↦ simp (miss) (target_of_role-update role f ts keeps)
]

-- the rows of the other roles
abbrev pub others : Role → List DeviceTarget → List DeviceTarget
others role = select (λ t. not (has_role role t))

pub others-update :
    (role : Role) (f : DeviceTarget → DeviceTarget) (ts : List DeviceTarget)
    → ((x : DeviceTarget) → (f x).role ≡ x.role)
    → others role (update (has_role role) f ts) ≡ others role ts
others-update role f [] keeps = refl
others-update role f (x ∷ ts) keeps = elim (Bool-cases (same_role x.role role)) [
  | (inl hit) ↦ simp (hit, keeps x) (others-update role f ts keeps)
  | (inr miss) ↦ simp (miss, others-update role f ts keeps) refl
]

-- Some row has the role, or none is found.
pub target_of_role-any :
    (role : Role) (ts : List DeviceTarget)
    → (any (has_role role) ts ≡ true) × ((t : DeviceTarget) × (target_of_role role ts ≡ some t))
      ⊎ (any (has_role role) ts ≡ false) × (target_of_role role ts ≡ none)
unfolding target_of_role
target_of_role-any role [] = inr (refl, refl)
target_of_role-any role (x ∷ ts) = elim (Bool-cases (same_role x.role role)) [
  | (inl hit) ↦ simp (hit) (inl (refl, (x, refl)))
  | (inr miss) ↦ simp (miss) (target_of_role-any role ts)
]

-- the request that a row answers, with the label that was sent
abbrev pub as_request : DeviceTarget → Option String → DeviceTargetUpdate
as_request t label = record {
  ssh_host = some t.ssh_host;
  ssh_port = pos t.ssh_port;
  ssh_user = some t.ssh_user;
  label = label;
}

-- The row `t'` has the address that the body asks for and the moment of the request, and the rest of
-- `t`.
pub record IsMoved (now : ℕ) (body : DeviceTargetUpdate) (t t' : DeviceTarget) : Type 0 where
  pub address : body ≡ as_request t' body.label
  pub port_positive : 0 < t'.ssh_port
  pub port_bound : t'.ssh_port ≤ 65535
  pub label : t'.label ≡ or_label body.label t.label
  pub role : t'.role ≡ t.role
  pub provisioned_at : t'.provisioned_at ≡ t.provisioned_at
  pub status : t'.last_provision_status ≡ t.last_provision_status
  pub error : t'.last_provision_error ≡ t.last_provision_error
  pub updated_at : t'.updated_at ≡ now

module _ {F : Type 0} where
  -- how a request ends, with the database before and after it
  pub data Outcome (now : ℕ) (role : Role) (db : Db F)
      : Option DeviceTargetUpdate → Result (Unit {0}) → Db F → Type 0 where
    moved :
        {body : DeviceTargetUpdate} {db' : Db F} (t t' : DeviceTarget)
        → target_of_role role db.targets ≡ some t
        → target_of_role role db'.targets ≡ some t'
        → IsMoved now body t t'
        → others role db'.targets ≡ others role db.targets
        → db' ≡ record db { targets = db'.targets }
        → Outcome now role db (some body) (ok tt) db'
    unknown_role :
        {body : DeviceTargetUpdate}
        → target_of_role role db.targets ≡ none
        → Outcome now role db (some body) (raise (http 404)) db
    refused_request :
        {body : Option DeviceTargetUpdate} → Outcome now role db body (raise (http 422)) db

abbrev IsChecked : DeviceTargetUpdate → TargetAddress → Type 0
IsChecked body a =
    (record {
      ssh_host = some a.ssh_host;
      ssh_port = pos a.ssh_port;
      ssh_user = some a.ssh_user;
      label = a.label;
    }
      ≡ body)
    × (0 < a.ssh_port)
    × (a.ssh_port ≤ 65535)

non_empty-Accepts : {A : Type 0} (o : Option A) → Accepts (λ a. some a ≡ o) (non_empty o)
unfolding non_empty
non_empty-Accepts none = refused
non_empty-Accepts (some a) = accepted refl

at_most-Accepts : (bound n : ℕ) → Accepts (λ m. (m ≡ n) × (m ≤ bound)) (at_most bound n)
unfolding at_most
at_most-Accepts bound n = elim (Bool-cases (leb n bound)) [
  | (inl below) ↦ simp (below) (accepted (refl, ground arith))
  | (inr above) ↦ simp (above) refused
]

check_target_update-Accepts :
    (body : DeviceTargetUpdate) → Accepts (IsChecked body) (check_target_update body)
unfolding check_target_update
check_target_update-Accepts body = >>=-Accepts (non_empty-Accepts body.ssh_host) λ host eh.
    >>=-Accepts (positive-Accepts body.ssh_port) λ number (en, pn).
      >>=-Accepts (at_most-Accepts 65535 number) λ port (ep, bound).
        >>=-Accepts (non_empty-Accepts body.ssh_user) λ user eu. accepted (
          (λ i. record {
            ssh_host = eh i;
            ssh_port = (ap pos ep ∙ en) i;
            ssh_user = eu i;
            label = body.label;
          }),
          omega (arith, ep),
          bound,
        )

moved_to-IsMoved :
    (now : ℕ) (a : TargetAddress) (t : DeviceTarget)
    → 0 < a.ssh_port
    → a.ssh_port ≤ 65535
    → let t' = moved_to now a t in IsMoved now (as_request t' a.label) t t'
unfolding moved_to
moved_to-IsMoved now a t positive_port bound = record {
  address = refl;
  port_positive = positive_port;
  port_bound = bound;
  label = refl;
  role = refl;
  provisioned_at = refl;
  status = refl;
  error = refl;
  updated_at = refl;
}

module _ {F : Type 0} where
  store_address-Outcome :
      (now : ℕ) (role : Role) (body : DeviceTargetUpdate) (db : Db F) {r : Result TargetAddress}
      → Accepts (IsChecked body) r
      → let (result, db') = store_address now role r db in
        Outcome now role db (some body) result db'
  unfolding set_target moved_to
  store_address-Outcome now role body db refused = refused_request
  store_address-Outcome now role body db (accepted {a = a} (same, positive_port, bound)) =
      elim (target_of_role-any role db.targets) [
        | (inl (there, (t, found))) ↦ simp (there) (
            moved t (moved_to now a t) found
              (target_of_role-update role (moved_to now a) db.targets (λ _. refl)
                ∙ ap (map_option (moved_to now a)) found)
              (subst (λ b. IsMoved now b t (moved_to now a t)) same
                (moved_to-IsMoved now a t positive_port bound))
              (others-update role (moved_to now a) db.targets (λ _. refl)) refl)
        | (inr (absent, missing)) ↦ simp (absent) (unknown_role missing)
      ]

  -- A request is refused with 422 or, if no row has the role, with 404, and changes nothing; or
  -- it succeeds: the row of the role then has the address of the body, with a port from 1 to
  -- 65535, the label of the body if it has one, the moment of the request as its `updated_at`, and
  -- its other columns as they were. The other
  -- rows stay.
  pub update_device_target-Outcome :
      (now : ℕ) (role : Role) (body : Option DeviceTargetUpdate) (db : Db F)
      → let (result, db') = update_device_target now role body db in
        Outcome now role db body result db'
  unfolding update_device_target
  update_device_target-Outcome now role none db = refused_request
  update_device_target-Outcome now role (some body) db =
      store_address-Outcome now role body db (check_target_update-Accepts body)
