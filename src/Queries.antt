-- ===== src/Queries.antt =====
-- The activity log as the dashboard reads it: `get_events` of app/main.py. What the database makes
-- of an `ORDER BY` is a parameter of each query, since rows with one time have no fixed order.
pub mod Pages
pub mod History
use heltec_wifi_optimization.Prelude.{
  ℕ, zero, suc, Option, none, some, List, [], ◌∷◌, leb, ◌==◌, if◌then◌else◌, find, filter_some, map,
  Result, ok, raise, value_error, ◌>>=◌,
}
use heltec_wifi_optimization.Db.{Db, ℤ, Device, Event, Role}
use heltec_wifi_optimization.Settings.{positive, non_negative}
use heltec_wifi_optimization.Targets.{at_most}
use heltec_wifi_optimization.Backups.{take}

-- `OFFSET n`
abbrev pub drop {ℓ} : {A : Type ℓ} → ℕ → List A → List A
drop zero xs = xs
drop (suc n) [] = []
drop (suc n) (x ∷ xs) = drop n xs

-- a parameter of type BIGINT: for a larger number asyncpg raises its DataError, a ValueError
unfoldable pub bigint : ℕ → Result ℕ
bigint n = if leb n 9223372036854775807 then ok n else raise value_error

-- a `DeviceEventEntry`
pub record DeviceEventEntry (F : Type 0) : Type 0 where
  pub device_mac : ℕ
  pub device_role : Role
  pub event : Event F

module _ {F : Type 0} where
  abbrev pub with_device : Event F → Option Device → Option (DeviceEventEntry F)
  with_device e none = none
  with_device e (some d) = some (record { device_mac = d.mac; device_role = d.role; event = e })

  -- `JOIN devices d ON d.id = e.device_id`
  unfoldable pub join_events : List Device → List (Event F) → List (DeviceEventEntry F)
  join_events devices events =
      filter_some (map (λ e. with_device e (find (λ d. d.id == e.device_id) devices)) events)

  abbrev pub occurred_at : DeviceEventEntry F → ℕ
  occurred_at entry = entry.event.occurred_at

  -- `Query(default=50, gt=0, le=1000)` and `Query(default=0, ge=0)`; `order` is what the database
  -- makes of the `ORDER BY`
  unfoldable pub get_events :
      (List (DeviceEventEntry F) → List (DeviceEventEntry F))
      → ℤ
      → ℤ
      → Db F
      → Result (List (DeviceEventEntry F))
  unfolding positive at_most non_negative bigint join_events
  get_events order limit offset db = do
    number ← positive limit
    n ← at_most 1000 number
    from ← non_negative offset
    k ← bigint from
    ok (take n (drop k (order (join_events db.devices db.events))))
