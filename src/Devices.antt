-- ===== src/Devices.antt =====
-- The `devices` table (app/main.py): rows by MAC address, and updates by id.
pub mod Liveness
use heltec_wifi_optimization.Prelude.{
  ℕ, ◌≡◌, ◌≢◌, refl, Option, some, List, [], ◌∷◌, arith, ◌==◌, find, update,
}
use heltec_wifi_optimization.Db.{Db, Device}

-- `SELECT … FROM devices WHERE mac = …`
abbrev pub device_by_mac : ℕ → List Device → Option Device
device_by_mac mac = find (λ d. d.mac == mac)

-- `UPDATE devices SET … WHERE id = …`
unfoldable pub set_device : {F : Type 0} → ℕ → (Device → Device) → Db F → Db F
set_device id change db = record db { devices = update (λ d. d.id == id) change db.devices }

-- After an update of the row that a MAC address finds, it finds the updated row.
pub device_by_mac-update :
    (mac : ℕ) (d : Device) (f : Device → Device) (ds : List Device)
    → ((x : Device) → (f x).mac ≡ x.mac)
    → device_by_mac mac ds ≡ some d
    → device_by_mac mac (update (λ x. x.id == d.id) f ds) ≡ some (f d)
device_by_mac-update mac d f [] same h = cc
device_by_mac-update mac d f (x ∷ ds) same h =
    ground (arith, same x, device_by_mac-update mac d f ds same)
