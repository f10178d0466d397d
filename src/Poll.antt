-- ===== src/Poll.antt =====
-- `poll_telemetry` of app/main.py.
use heltec_wifi_optimization.Prelude.{
  ℕ, Bool, true, false, Option, none, some, List, [], ◌∷◌, Result, ok, raise,
}
use heltec_wifi_optimization.Float.{Float}
use heltec_wifi_optimization.Db.{Db, DeviceTarget}
use heltec_wifi_optimization.Report.{Reading, RawReply}
use heltec_wifi_optimization.DeviceClient.{DeviceClient}
use heltec_wifi_optimization.Ingest.Collect.{ingest_collect}
use heltec_wifi_optimization.Recovery.{maybe_auto_recover_radio}
use heltec_wifi_optimization.Recovery.Reset.{reset_auto_recovery}

module _ {F W : Type 0} ⦃fl : Float F⦄ (client : DeviceClient F W) where
  -- the watchdog's part of a poll: nothing, unless the report says up or down for a known MAC
  unfoldable pub watch : ℕ → DeviceTarget → Option ℕ → Option Bool → Db F → W → Db F × W
  watch now target none up db w = (db, w)
  watch now target (some mac) none db w = (db, w)
  watch now target (some mac) (some false) db w =
      maybe_auto_recover_radio client now target.role mac target db w
  watch now target (some mac) (some true) db w = (reset_auto_recovery now target.role mac db, w)

  -- no `try` is around the reads from the document
  abbrev pub watch_read :
      ℕ → DeviceTarget → Result Reading → Db F → W → Result (Unit {0}) × Db F × W
  watch_read now target (raise e) db w = (raise e, db, w)
  watch_read now target (ok reading) db w =
      let (db', w') = watch now target reading.device_mac reading.radio_up db w in (ok tt, db', w')

  -- An exception of the ingestion is logged, and the watchdog goes on with what it left.
  unfoldable pub handle_reply :
      ℕ → DeviceTarget → Result (RawReply F) × W → Db F → Result (Unit {0}) × Db F × W
  unfolding watch
  handle_reply now target (raise e, w) db = (ok tt, db, w)
  handle_reply now target (ok raw, w) db =
      watch_read now target raw.read (ingest_collect now target.role raw db).1 w

  -- what follows in the loop, unless an exception has ended it
  abbrev pub then_poll :
      (Db F → W → Result (Unit {0}) × Db F × W)
      → Result (Unit {0}) × Db F × W
      → Result (Unit {0}) × Db F × W
  then_poll rest (raise e, db, w) = (raise e, db, w)
  then_poll rest (ok tt, db, w) = rest db w

  unfoldable pub poll_targets : ℕ → List DeviceTarget → Db F → W → Result (Unit {0}) × Db F × W
  unfolding handle_reply
  poll_targets now [] db w = (ok tt, db, w)
  poll_targets now (target ∷ targets) db w =
      then_poll (poll_targets now targets) (handle_reply now target (client.collect target w) db)

  unfoldable pub poll_telemetry : ℕ → Db F → W → Result (Unit {0}) × Db F × W
  unfolding poll_targets
  poll_telemetry now db w = poll_targets now db.targets db w
