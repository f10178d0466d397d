-- ===== src/Examples/TargetRuns.antt =====
-- The theorems on the targets, the set-up and the activity log at concrete devices.
use mathlib.Core.List.{Permᴰ}
use heltec_wifi_optimization.Prelude.{
  All, ℕ, ◌+◌, ◌≡◌, refl, arith, true, Bool, Option, none, some, List, [], ◌∷◌, ◌++◌, ssh_error,
  Result, ok, raise,
}
use heltec_wifi_optimization.Db.{Db, pos, Role, Backup, Event, server, manual_reboot_requested}
use heltec_wifi_optimization.Ssh.{Reply}
use heltec_wifi_optimization.Targets.{
  DeviceTargetUpdate, update_device_target, Installer, ProvisionRequest, provision_device,
  restore_backup,
}
use heltec_wifi_optimization.Targets.Updated.{Outcome, update_device_target-Outcome}
use heltec_wifi_optimization.Targets.Provisioned.{
  Outcome as ProvisionOutcome, provision_device-Outcome,
}
use heltec_wifi_optimization.Targets.Restored.{Outcome as RestoreOutcome, restore_backup-Outcome}
use heltec_wifi_optimization.Targets.Attempts.{
  never_tried, AllHonest, Request, update_request, provision_request, handle_all,
  handle_all-AllHonest,
}
use heltec_wifi_optimization.Setup.{SetupCommand, setup, Bootstrap, provision}
use heltec_wifi_optimization.Setup.Follows.{Action, ran, copied, wrote, Follows, is_ok, exited_zero}
use heltec_wifi_optimization.Setup.Plan.{IsLogged, plan, key_of, provision-Follows}
use heltec_wifi_optimization.OrderBy.{
  IsNewestFirst, IsDistinct, order_by_time, order_by_time-IsOrder,
}
use heltec_wifi_optimization.Backups.{poll_backups}
use heltec_wifi_optimization.Backups.Stored.{IsStored}
use heltec_wifi_optimization.Queries.Pages.{pages, pages_together}
use heltec_wifi_optimization.Queries.{DeviceEventEntry, join_events, occurred_at}
use heltec_wifi_optimization.Queries.History.{BackupHistoryEntry, get_backup_history}
use heltec_wifi_optimization.Queries.History.Downloads.{IsOffered, poll_backups-Offered}
use heltec_wifi_optimization.Examples.Data.{empty, target, obedient}
use heltec_wifi_optimization.Examples.BackupRuns.{total}

abbrev body : DeviceTargetUpdate
body = record { ssh_host = some 9; ssh_port = pos 2222; ssh_user = some 0; label = none }

update_device_target-Outcome_example :
    let (result, db') = update_device_target 60 Role.ap (some body) empty in
    Outcome 60 Role.ap empty (some body) result db'
update_device_target-Outcome_example = update_device_target-Outcome 60 Role.ap (some body) empty

-- devices that take every archive and refuse to be provisioned without one, and count the calls
abbrev installed_with : Option (List ℕ) → ℕ → Result (Unit {0}) × ℕ
installed_with none w = (raise ssh_error, w + 1)
installed_with (some archive) w = (ok tt, w + 1)

abbrev installer : Installer ℕ
installer = record {
  provision = λ t password archive w. installed_with archive w;
  restore_backup = λ t archive w. (ok tt, w + 1);
}

abbrev backup : Backup
backup = record {
  id = 4;
  device_id = 1;
  created_at = 3;
  sha256 = 0;
  size_bytes = 1;
  archive = 5 ∷ [];
}

abbrev stocked : Db ℕ
stocked = record empty { backups = backup ∷ []; next_id = 5 }

abbrev request : ProvisionRequest
request = record { password = "once"; restore_backup_id = some 4 }

abbrev bare_request : ProvisionRequest
bare_request = record { password = "once"; restore_backup_id = none }

provision_device-Outcome_example :
    let (result, db', w') = provision_device installer 60 Role.ap (some request) stocked 0 in
    ProvisionOutcome installer 60 Role.ap stocked 0 result db' w'
provision_device-Outcome_example =
    provision_device-Outcome installer 60 Role.ap stocked 0 (some request)

restore_backup-Outcome_example :
    let (result, db', w') = restore_backup installer 60 4 stocked 0 in
    RestoreOutcome installer 60 4 stocked 0 result db' w'
restore_backup-Outcome_example = restore_backup-Outcome installer 60 4 stocked 0

abbrev series : List Request
series =
    provision_request 60 Role.ap (some bare_request)
    ∷ update_request 60 Role.ap (some body)
    ∷ provision_request 70 Role.ap (some request)
    ∷ []

handle_all-AllHonest_example : AllHonest (handle_all installer series (stocked, 0)).0.targets
handle_all-AllHonest_example = handle_all-AllHonest installer series stocked 0 (never_tried, tt)

-- A device that refuses one command, and a network that is the log of what was done to it.
abbrev answer : SetupCommand → Result Reply
answer setup = ok (record { exit_status = some 1; stdout = [] })
answer command = ok (record { exit_status = some 0; stdout = [] })

abbrev stubborn : Bootstrap ℕ ℕ (List (Action × Bool))
stubborn = record {
  read_public_key = λ w. (ok (8 ∷ []), w);
  connect = λ t password w. (ok 0, w);
  execute = λ c command timeout w.
      (answer command, w ++ (ran command, exited_zero (answer command)) ∷ []);
  close = λ c w. w;
  start_sftp_client = λ c w. (ok 0, w);
  put = λ p file w. (ok tt, w ++ (copied file, true) ∷ []);
  write = λ p archive w. (ok tt, w ++ (wrote archive, true) ∷ []);
  exit = λ p w. w;
}

stubborn-IsLogged : IsLogged stubborn (λ w. w)
stubborn-IsLogged = record {
  executed = λ c command timeout w. refl;
  put = λ p file w. refl;
  written = λ p archive w. refl;
  key_read = λ w. refl;
  connected = λ t password w. refl;
  closed = λ c w. refl;
  started = λ c w. refl;
  left = λ p w. refl;
}

provision-Follows_example :
    let (result, w') = provision stubborn target "once" (some (5 ∷ [])) [] in
    (done : List (Action × Bool)) × (w' ≡ [] ++ done)
    × Follows (plan (key_of (ok (8 ∷ []))) (some (5 ∷ []))) done (is_ok result)
provision-Follows_example =
    provision-Follows stubborn (λ w. w) stubborn-IsLogged target "once" (some (5 ∷ [])) []

abbrev event_at : ℕ → Event ℕ
event_at time = record {
  device_id = 1;
  occurred_at = time;
  source = server;
  event = manual_reboot_requested;
  device_seq = none;
}

abbrev busy_log : Db ℕ
busy_log = record empty { events = event_at 5 ∷ event_at 9 ∷ event_at 7 ∷ [] }

-- The database may well give each page its rows in another way; with these times it cannot.
abbrev orders : ℕ → List (DeviceEventEntry ℕ) → List (DeviceEventEntry ℕ)
orders i = order_by_time occurred_at

busy_log-IsDistinct : IsDistinct occurred_at (join_events busy_log.devices busy_log.events)
unfolding join_events
busy_log-IsDistinct = (
  ((λ e. omega (arith, e)), ((λ e. omega (arith, e)), tt)),
  (((λ e. omega (arith, e)), tt), (tt, tt)),
)

pages_together_example :
    (log : List (DeviceEventEntry ℕ)) × (pages orders 2 0 2 busy_log ≡ ok log)
    × IsNewestFirst occurred_at log
    × Permᴰ log (join_events busy_log.devices busy_log.events)
unfolding join_events
pages_together_example =
    pages_together orders busy_log 2 2 (λ i. order_by_time-IsOrder occurred_at) busy_log-IsDistinct
      (omega arith) (omega arith) (omega arith) (omega arith)

stocked-IsStored : IsStored stocked
stocked-IsStored = ((λ id. (ground arith, (λ later. ground (arith, later)))), (refl, tt))

poll_backups-Offered_example :
    let db' = (poll_backups total obedient 30 stocked 0).0 in
    (entries : List BackupHistoryEntry) × (get_backup_history
        (order_by_time (λ e. e.created_at))
        (pos 5)
        db'
      ≡ ok entries)
    × All (IsOffered db') entries
poll_backups-Offered_example =
    poll_backups-Offered total obedient 30 stocked 0 (order_by_time (λ e. e.created_at)) 5
      (order_by_time-IsOrder (λ e. e.created_at)) stocked-IsStored (omega arith) (omega arith)
