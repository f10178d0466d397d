-- ===== src/Recovery/Turns.antt =====
-- One turn of the watchdog of app/main.py, and its outcomes.
use heltec_wifi_optimization.Prelude.{
  ℕ, ◌+◌, ◌≤◌, ◌<◌, ◌≡◌, refl, sym, ap, ◌∙◌, Error, inl, inr, Bool, true, false, some, List, [],
  ◌∷◌, ◌++◌, arith, ltb, leb, Bool-cases, length, length-append, select-append, select, Result, ok,
  raise,
}
use heltec_wifi_optimization.Db.{
  Db, Device, DeviceTarget, Role, Event, EventType, auto_recovery_exhausted, auto_recovery_reboot,
}
use heltec_wifi_optimization.Notify.{notify}
use heltec_wifi_optimization.Events.{record_server_event, insert_event}
use heltec_wifi_optimization.DeviceClient.{DeviceClient}
use heltec_wifi_optimization.Devices.{device_by_mac, device_by_mac-update, set_device}
use heltec_wifi_optimization.Recovery.{
  set_down_polls, set_exhausted, set_rebooted, cooling, give_up, record_reboot, recover,
  maybe_auto_recover_radio,
}

-- the recorded reboots and alerts of all devices
abbrev pub is_reboot : {F : Type 0} → EventType F → Bool
is_reboot (auto_recovery_reboot attempt polls) = true
is_reboot _ = false

abbrev pub is_alert : {F : Type 0} → EventType F → Bool
is_alert auto_recovery_exhausted = true
is_alert _ = false

abbrev pub reboots_in : {F : Type 0} → List (Event F) → ℕ
reboots_in events = length (select (λ e. is_reboot e.event) events)

abbrev pub alerts_in : {F : Type 0} → List (Event F) → ℕ
alerts_in events = length (select (λ e. is_alert e.event) events)

-- When a turn only waits: too few readings in a row, within the cooldown, with the limit reached
-- and alerted already, or with a reboot call that raised.
pub data MustWait (now : ℕ) (reply : Result (Unit {0})) (d : Device) : Type 0 where
  too_few : d.consecutive_radio_down_polls < 2 → MustWait now reply d
  too_soon : cooling now d.last_auto_reboot_at ≡ true → MustWait now reply d
  told :
      3 ≤ d.consecutive_auto_reboots
      → d.auto_recovery_exhausted_alerted ≡ true
      → MustWait now reply d
  not_sent : {e : Error} → d.consecutive_auto_reboots < 3 → reply ≡ raise e → MustWait now reply d

module _ {F : Type 0} where
  -- One turn, from the row `d` and the events `es` to the row `d'` and the events `es'`, where
  -- `reply` is what the reboot call gives or would give.
  pub data IsTurn (now : ℕ) (reply : Result (Unit {0})) (d d' : Device) (es es' : List (Event F))
      : Type 0 where
    waits :
        MustWait now reply d
        → d' ≡ set_down_polls (d.consecutive_radio_down_polls + 1) d
        → reboots_in es' ≡ reboots_in es
        → alerts_in es' ≡ alerts_in es
        → IsTurn now reply d d' es es'
    reboots :
        2 ≤ d.consecutive_radio_down_polls
        → cooling now d.last_auto_reboot_at ≡ false
        → d.consecutive_auto_reboots < 3
        → reply ≡ ok tt
        → d'
          ≡ set_rebooted now
              (d.consecutive_auto_reboots + 1)
              (set_down_polls (d.consecutive_radio_down_polls + 1) d)
        → reboots_in es' ≡ reboots_in es + 1
        → alerts_in es' ≡ alerts_in es
        → IsTurn now reply d d' es es'
    gives_up :
        2 ≤ d.consecutive_radio_down_polls
        → cooling now d.last_auto_reboot_at ≡ false
        → 3 ≤ d.consecutive_auto_reboots
        → d.auto_recovery_exhausted_alerted ≡ false
        → d' ≡ set_exhausted (set_down_polls (d.consecutive_radio_down_polls + 1) d)
        → reboots_in es' ≡ reboots_in es
        → alerts_in es' ≡ alerts_in es + 1
        → IsTurn now reply d d' es es'

  count-append :
      (test : Event F → Bool) (es : List (Event F)) (e : Event F)
      → length (select test (es ++ e ∷ []))
        ≡ length (select test es) + length (select test (e ∷ []))
  count-append test es e =
      ap length (select-append test es (e ∷ [])) ∙ length-append (select test es) _

  module _ (now : ℕ) (role : Role) (mac : ℕ) (d : Device) (db : Db F)
      (found : device_by_mac mac db.devices ≡ some d) (reply : Result (Unit {0})) where
    abbrev Turned : Db F → Type 0
    Turned db' =
        (d' : Device) × (device_by_mac mac db'.devices ≡ some d')
        × IsTurn now reply d d' db.events db'.events

    abbrev streak : Device
    streak = set_down_polls (d.consecutive_radio_down_polls + 1) d

    abbrev counted : Db F
    counted = set_device d.id (set_down_polls (d.consecutive_radio_down_polls + 1)) db

    found_streak : device_by_mac mac counted.devices ≡ some streak
    unfolding set_device
    found_streak =
        device_by_mac-update mac d (set_down_polls (d.consecutive_radio_down_polls + 1)) db.devices
          (λ x. refl) found

    events_counted : counted.events ≡ db.events
    unfolding set_device
    events_counted = refl

    waits-Turned : MustWait now reply d → Turned counted
    waits-Turned must =
        (streak, found_streak, waits must refl (rw events_counted) (rw events_counted))

    give_up-Turned :
        2 ≤ d.consecutive_radio_down_polls
        → cooling now d.last_auto_reboot_at ≡ false
        → 3 ≤ d.consecutive_auto_reboots
        → Turned (give_up now role d counted)
    unfolding give_up notify record_server_event insert_event set_device
    give_up-Turned long cool used = elim (Bool-cases d.auto_recovery_exhausted_alerted) [
      | inl before ↦ simp before (waits-Turned (told used before))
      | inr fresh ↦ simp fresh (
        set_exhausted streak,
        device_by_mac-update mac streak set_exhausted _ (λ x. refl) found_streak,
        gives_up long cool used fresh refl (count-append _ db.events _ ∙ omega arith)
            (count-append _ db.events _ ∙ omega arith),
      )
    ]

    record_reboot-Turned :
        {W : Type 0} (r : Result (Unit {0}) × W)
        → r.0 ≡ reply
        → 2 ≤ d.consecutive_radio_down_polls
        → cooling now d.last_auto_reboot_at ≡ false
        → d.consecutive_auto_reboots < 3
        → Turned (record_reboot now role d (d.consecutive_radio_down_polls + 1) r counted).0
    unfolding record_reboot notify record_server_event insert_event set_device
    record_reboot-Turned (raise e, w) is_reply long cool left =
        waits-Turned (not_sent left (sym is_reply))
    record_reboot-Turned (ok tt, w) is_reply long cool left = (
      set_rebooted now (d.consecutive_auto_reboots + 1) streak,
      device_by_mac-update mac streak (set_rebooted now (d.consecutive_auto_reboots + 1)) _
          (λ x. refl) found_streak,
      reboots long cool left (sym is_reply) refl (count-append _ db.events _ ∙ omega arith)
          (count-append _ db.events _ ∙ omega arith),
    )

    recover-Turned :
        {W : Type 0} (client : DeviceClient F W) (target : DeviceTarget) (w : W)
        → (client.reboot target w).0 ≡ reply
        → Turned (recover client now role d target db w).0
    unfolding recover
    recover-Turned client target w is_reply =
        elim (Bool-cases (ltb (d.consecutive_radio_down_polls + 1) 3)) [
          | inl short ↦ simp short (waits-Turned (too_few (ground arith)))
          | inr long ↦ elim (Bool-cases (cooling now d.last_auto_reboot_at)) [
            | inl hot ↦ simp (long, hot) (waits-Turned (too_soon hot))
            | inr cool ↦ elim (Bool-cases (leb 3 d.consecutive_auto_reboots)) [
              | inl used ↦
                  simp (long, cool, used) (give_up-Turned (ground arith) cool (ground arith))
              | inr left ↦
                  simp (long, cool, left)
                    (record_reboot-Turned (client.reboot target w) is_reply (ground arith) cool
                      (ground arith))
            ]
          ]
        ]

  -- For a known device, a reading of a radio that is down adds one to the streak. From the third
  -- reading in a row on and outside the cooldown, it records a reboot below the limit of three
  -- attempts if the reboot call returned, and at the limit it alerts. It only adds to the streak if
  -- there are fewer readings, within the cooldown, at the limit when it has alerted already, or
  -- below it when the reboot call raises.
  pub maybe_auto_recover_radio-Turned :
      (now : ℕ) (role : Role) (mac : ℕ) (d : Device) (db : Db F)
      (found : device_by_mac mac db.devices ≡ some d) {W : Type 0} (client : DeviceClient F W)
      (target : DeviceTarget) (w : W)
      → Turned now role mac d db found
          (client.reboot target w).0
          (maybe_auto_recover_radio client now role mac target db w).0
  unfolding maybe_auto_recover_radio
  maybe_auto_recover_radio-Turned now role mac d db found client target w =
      simp (found, maybe_auto_recover_radio)
        (recover-Turned now role mac d db found (client.reboot target w).0 client target w refl)
