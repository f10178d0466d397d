-- ===== src/Recovery/Bound.antt =====
-- The watchdog of app/main.py over a radio that stays down.
use heltec_wifi_optimization.Prelude.{
  Result, ℕ, ◌+◌, ◌≤◌, ◌≡◌, some, List, [], ◌∷◌, arith, if◌then◌else◌,
}
use Prim.Native.Nat.{max}
use heltec_wifi_optimization.Db.{Db, Device, DeviceTarget, Role}
use heltec_wifi_optimization.DeviceClient.{DeviceClient}
use heltec_wifi_optimization.Devices.{device_by_mac}
use heltec_wifi_optimization.Recovery.{maybe_auto_recover_radio}
use heltec_wifi_optimization.Recovery.Turns.{
  IsTurn, waits, reboots, gives_up, reboots_in, alerts_in, maybe_auto_recover_radio-Turned,
}

-- 1 for an alert that has been sent
abbrev pub alerted : Device → ℕ
alerted d = if d.auto_recovery_exhausted_alerted then 1 else 0

-- What a number of turns keeps: the recorded reboots and alerts are those that the row counts.
record IsCounted {F : Type 0} (d d' : Device) (db db' : Db F) : Type 0 where
  reboots_counted :
      reboots_in db'.events + d.consecutive_auto_reboots
      ≡ reboots_in db.events + d'.consecutive_auto_reboots
  alerts_counted : alerts_in db'.events + alerted d ≡ alerts_in db.events + alerted d'
  limited : d'.consecutive_auto_reboots ≤ max 3 d.consecutive_auto_reboots

IsCounted-trans :
    {F : Type 0} {d d' d'' : Device} {db db' db'' : Db F}
    → IsCounted d d' db db'
    → IsCounted d' d'' db' db''
    → IsCounted d d'' db db''
IsCounted-trans p q = record {
  reboots_counted = omega (arith, p.reboots_counted, q.reboots_counted);
  alerts_counted = omega (arith, p.alerts_counted, q.alerts_counted);
  limited = omega (arith, p.limited, q.limited);
}

module _ {F W : Type 0} (client : DeviceClient F W) (role : Role) (mac : ℕ)
    (target : DeviceTarget) where
  turn-IsCounted :
      (now : ℕ) (reply : Result (Unit {0})) (d d' : Device) (db db' : Db F)
      → IsTurn now reply d d' db.events db'.events
      → IsCounted d d' db db'
  turn-IsCounted now reply d d' db db' (waits must e r a) = ground arith
  turn-IsCounted now reply d d' db db' (reboots long cool left sent e r a) = ground arith
  turn-IsCounted now reply d d' db db' (gives_up long cool used fresh e r a) = ground arith

  -- readings of a radio that is down, at these times
  pub stay_down : List ℕ → Db F → W → Db F × W
  stay_down [] db w = (db, w)
  stay_down (now ∷ times) db w =
      let (db', w') = maybe_auto_recover_radio client now role mac target db w in
      stay_down times db' w'

  stay_down-IsCounted :
      (times : List ℕ) (db : Db F) (w : W) (d : Device)
      → device_by_mac mac db.devices ≡ some d
      → (d' : Device) × IsCounted d d' db (stay_down times db w).0
  unfolding stay_down
  stay_down-IsCounted [] db w d found = (d, ground arith)
  stay_down-IsCounted (now ∷ times) db w d found =
      let (d₁, found₁, turn) =
        maybe_auto_recover_radio-Turned now role mac d db found client target w in
      let (db', w') = maybe_auto_recover_radio client now role mac target db w in
      let one = turn-IsCounted now (client.reboot target w).0 d d₁ db db' turn in
      let (d₂, rest) = stay_down-IsCounted times db' w' d₁ found₁ in
      (d₂, IsCounted-trans {db = db} {db' = db'} one rest)

  -- However many readings find the radio down, with no healthy one between them, and however the
  -- reboot calls end: at most three automatic reboots are recorded, and at most one alert that
  -- they are used up.
  pub stay_down_bounds :
      (times : List ℕ) (db : Db F) (w : W) {d : Device}
      → device_by_mac mac db.devices ≡ some d
      → let db' = (stay_down times db w).0 in
        (reboots_in db'.events ≤ reboots_in db.events + 3)
        × (alerts_in db'.events ≤ alerts_in db.events + 1)
  stay_down_bounds times db w {d} found =
      let (d', counted) = stay_down-IsCounted times db w d found in
      (
        omega (arith, counted.reboots_counted, counted.limited),
        ground (arith, counted.alerts_counted),
      )
