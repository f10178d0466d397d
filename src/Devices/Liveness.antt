-- ===== src/Devices/Liveness.antt =====
-- `check_device_liveness` of app/main.py.
pub mod Once
use heltec_wifi_optimization.Prelude.{
  ℕ, zero, suc, ◌+◌, ◌-◌, ◌*◌, ◌/◌, ◌%◌, ◌≤◌, ◌<◌, String, ◌≡◌, refl, sym, ap, subst, ◌∙◌, ◌≢◌, ◌↔◌,
  ◌⊎◌, inl, inr, Bool, true, false, not, ◌&&◌, ◌||◌, Option, none, some, List, [], ◌∷◌, ◌++◌, map,
  foldl, arith, ltb, leb, ◌==◌, if◌then◌else◌, ==→eq, ==_refl, ne→==, &&→both, Bool-cases,
  Option-cases, length, length-append, select-append, select-any, get_or, any, all, select, find,
  later_of, latest, update, contains, index, range_from, filter_some, Error, value_error,
  index_error, type_error, ssh_error, runtime_error, http, Result, ok, raise, ◌>>=◌,
}
use mathlib.Core.List.{append-nil, append_assoc}
use heltec_wifi_optimization.Db.{Db, Device, Event, offline, device_offline, seconds, server}
use heltec_wifi_optimization.Notify.{notify}
use heltec_wifi_optimization.Events.{record_server_event, insert_event}
use heltec_wifi_optimization.Devices.{set_device}

-- `last_seen IS NULL OR last_seen < now() - make_interval(secs => …)`
abbrev pub silent : ℕ → ℕ → Option ℕ → Bool
silent now offline_alert_seconds none = true
silent now offline_alert_seconds (some t) = ltb (t + seconds offline_alert_seconds) now

abbrev pub is_stale : ℕ → ℕ → Device → Bool
is_stale now offline_alert_seconds d =
    not d.offline_alerted && silent now offline_alert_seconds d.last_seen

abbrev pub set_offline_alerted : Device → Device
set_offline_alerted d = record d { offline_alerted = true }

module _ {F : Type 0} where
  unfoldable pub alert_offline : ℕ → ℕ → Device → Db F → Db F
  alert_offline now offline_alert_seconds d db =
      record_server_event now d.id (device_offline offline_alert_seconds) (
        notify (offline d.role d.hostname d.mac offline_alert_seconds)
          (set_device d.id set_offline_alerted db))

  unfoldable pub alert_all : ℕ → ℕ → List Device → Db F → Db F
  unfolding alert_offline
  alert_all now offline_alert_seconds [] db = db
  alert_all now offline_alert_seconds (d ∷ ds) db =
      alert_all now offline_alert_seconds ds (alert_offline now offline_alert_seconds d db)

  unfoldable pub check_device_liveness : ℕ → Db F → Db F
  unfolding alert_all
  check_device_liveness now db =
      let secs = db.app_settings.offline_alert_seconds in
      alert_all now secs (select (is_stale now secs) db.devices) db
