-- ===== src/DeviceClient.antt =====
-- The operations of app/device_client.py as the jobs of app/main.py see them: an interface over the
-- state `W` of the connections and of the devices behind them.
use heltec_wifi_optimization.Prelude.{ℕ, Bool, List, Result}
use heltec_wifi_optimization.Report.{RawReply}
use heltec_wifi_optimization.Db.{DeviceTarget, Param, Setting}

pub record DeviceClient (F W : Type 0) : Type 0 where
  pub collect : DeviceTarget → W → Result (RawReply F) × W
  pub apply_command : DeviceTarget → Param → Setting → ℕ → W → Result (Unit {0}) × W
  pub verify_and_confirm : DeviceTarget → Param → Setting → W → Result Bool × W
  pub fetch_backup : DeviceTarget → W → Result (List ℕ) × W
  pub reboot : DeviceTarget → W → Result (Unit {0}) × W
