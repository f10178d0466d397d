-- ===== src/Db/Int.antt =====
-- Signal levels in dBm are negative: `negsuc n` is -(n + 1). They are stored and handed on.
use heltec_wifi_optimization.Prelude.{ℕ}

pub data ℤ : Type 0 where
  pos : ℕ → ℤ
  negsuc : ℕ → ℤ
