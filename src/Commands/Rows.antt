-- ===== src/Commands/Rows.antt =====
-- What the two command jobs of app/main.py read and write in the tables.
use heltec_wifi_optimization.Prelude.{
  ℕ, Option, none, some, List, [], ◌∷◌, ◌==◌, leb, find, update, select, if◌then◌else◌,
}
use heltec_wifi_optimization.Db.{
  Db, Command, Device, DeviceTarget, Role, Status, same_role, same_status, EventType, Reason,
  command_outcome,
}
use heltec_wifi_optimization.Notify.{notify}
use heltec_wifi_optimization.Events.{record_server_event}

-- A row of `commands c JOIN devices d ON d.id = c.device_id`
pub record Joined : Type 0 where
  pub command : Command
  pub mac : ℕ
  pub role : Role

abbrev pub device_at : ℕ → List Device → Option Device
device_at id = find (λ d. d.id == id)

-- A command whose device is not there has no row.
abbrev pub join_one : Command → Option Device → List Joined → List Joined
join_one c none rows = rows
join_one c (some d) rows = record { command = c; mac = d.mac; role = d.role } ∷ rows

unfoldable pub join_devices : List Device → List Command → List Joined
join_devices devices [] = []
join_devices devices (c ∷ commands) =
    join_one c (device_at c.device_id devices) (join_devices devices commands)

-- `ORDER BY c.created_at ASC`
abbrev pub insert_by_age : Joined → List Joined → List Joined
insert_by_age row [] = row ∷ []
insert_by_age row (r ∷ rows) =
    if leb row.command.created_at r.command.created_at
    then row ∷ r ∷ rows
    else r ∷ insert_by_age row rows

unfoldable pub order_by_age : List Joined → List Joined
order_by_age [] = []
order_by_age (row ∷ rows) = insert_by_age row (order_by_age rows)

unfoldable pub commands_in : Status → List Command → List Command
commands_in status = select (λ c. same_status c.status status)

-- `targets.get(role)` on `_get_device_targets`
unfoldable pub target_of_role : Role → List DeviceTarget → Option DeviceTarget
target_of_role role = find (λ t. same_role t.role role)

-- `UPDATE commands SET … WHERE id = …`
unfoldable pub set_command : {F : Type 0} → ℕ → (Command → Command) → Db F → Db F
set_command id change db = record db { commands = update (λ c. c.id == id) change db.commands }

module _ {F : Type 0} where
  -- the row that the query of `_notify_command_outcome` finds
  abbrev pub outcome_row : ℕ → Db F → Option (Command × Device)
  outcome_row id db = elim (find (λ (c : Command). c.id == id) db.commands) [
    | none ↦ none
    | some c ↦ elim (device_at c.device_id db.devices) [ none ↦ none | some d ↦ some (c, d) ]
  ]

  abbrev pub notify_outcome :
      ℕ → Status → (ℕ → EventType F) → Option Reason → Option (Command × Device) → Db F → Db F
  notify_outcome now status event reason none db = db
  notify_outcome now status event reason (some (c, d)) db =
      record_server_event now d.id (event c.id)
        (notify (command_outcome d.role c.param status reason) db)

  -- `_notify_command_outcome`, which `_notify_reverted` and `_notify_unknown` call
  unfoldable pub notify_command_outcome :
      ℕ → ℕ → Status → (ℕ → EventType F) → Option Reason → Db F → Db F
  notify_command_outcome now id status event reason db =
      notify_outcome now status event reason (outcome_row id db) db
