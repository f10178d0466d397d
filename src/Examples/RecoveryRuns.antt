-- ===== src/Examples/RecoveryRuns.antt =====
-- The watchdog at concrete inputs.
use heltec_wifi_optimization.Prelude.{ok, ℕ, ◌+◌, ◌≤◌, ◌≡◌, refl, some, List, [], ◌∷◌}
use heltec_wifi_optimization.Db.{Device, Role, seconds}
use heltec_wifi_optimization.Devices.{device_by_mac}
use heltec_wifi_optimization.Recovery.{maybe_auto_recover_radio}
use heltec_wifi_optimization.Recovery.Turns.{
  IsTurn, reboots_in, alerts_in, maybe_auto_recover_radio-Turned,
}
use heltec_wifi_optimization.Recovery.Bound.{stay_down, stay_down_bounds}
use heltec_wifi_optimization.Examples.Data.{empty, access_point, obedient, target}

abbrev times : List ℕ
times =
    seconds 30
    ∷ seconds 60
    ∷ seconds 90
    ∷ seconds 1000
    ∷ seconds 2000
    ∷ seconds 3000
    ∷ seconds 4000
    ∷ []

stay_down_bounds_example :
    let db' = (stay_down obedient Role.ap 101 target times empty 0).0 in
    (reboots_in db'.events ≤ reboots_in empty.events + 3)
    × (alerts_in db'.events ≤ alerts_in empty.events + 1)
stay_down_bounds_example = stay_down_bounds obedient Role.ap 101 target times empty 0 refl

maybe_auto_recover_radio-Turned_example :
    (d' : Device) × (device_by_mac 101
        (maybe_auto_recover_radio obedient (seconds 90) Role.ap 101 target empty 0).0.devices
      ≡ some d')
    × IsTurn
        (seconds 90)
        (ok tt)
        access_point
        d'
        empty.events
        (maybe_auto_recover_radio obedient (seconds 90) Role.ap 101 target empty 0).0.events
maybe_auto_recover_radio-Turned_example =
    maybe_auto_recover_radio-Turned (seconds 90) Role.ap 101 access_point empty refl obedient target
      0
