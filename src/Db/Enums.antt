-- ===== src/Db/Enums.antt =====
-- The enumerations of the database and of the messages.
use heltec_wifi_optimization.Prelude.{ℕ, String, ◌≡◌, Bool, true, false, Option, arith}

-- `device_role`
pub data Role : Type 0 where
  ap sta : Role

-- `radio_type`
pub data Radio : Type 0 where
  halow wifi24 : Radio

-- `command_param`
pub data Param : Type 0 where
  halow_operating_freq wifi24_channel reboot : Param

-- `command_status`
pub data Status : Type 0 where
  pending applied acked reverted unknown expired : Status

-- `commands.reason`, the two texts that `check_in_flight_commands` writes
pub data Reason : Type 0 where
  target_not_reached could_not_reach_device : Reason

-- `last_provision_status`
pub data ProvisionStatus : Type 0 where
  succeeded failed : ProvisionStatus

pub data EventSource : Type 0 where
  server device : EventSource

-- Why the optimizer issued a HaLow command: the average or the utilization, over so many minutes.
pub data Move (F : Type 0) : Type 0 where
  degraded widening narrowing : F → ℕ → Move F

-- `event_type` with the details that the message is formatted from. `reported` is an event of the
-- device's own log: its type, message and details.
pub data EventType (F : Type 0) : Type 0 where
  halow_command_issued : Move F → ℕ → ℕ → ℕ → ℕ → EventType F
  wifi24_command_issued : F → ℕ → ℕ → ℕ → EventType F
  device_online manual_reboot_requested device_provisioned : EventType F
  backup_restored : ℕ → EventType F
  device_offline : ℕ → EventType F
  command_confirmed command_reverted command_outcome_unknown : ℕ → EventType F
  channel_changed : Radio → ℕ → ℕ → Bool → EventType F
  auto_recovery_exhausted : EventType F
  auto_recovery_reboot : ℕ → ℕ → EventType F
  radio_recovered : ℕ → EventType F
  reported : String → String → Option String → EventType F

-- A push: one constructor for each title, with what its text is formatted from.
pub data Alert (F : Type 0) : Type 0 where
  halow_degraded : ℕ → F → ℕ → ℕ → ℕ → ℕ → Alert F
  wifi24_degraded : ℕ → F → ℕ → ℕ → ℕ → Alert F
  back_online : Role → Option String → ℕ → Alert F
  offline : Role → String → ℕ → ℕ → Alert F
  command_outcome : Role → Param → Status → Option Reason → Alert F
  recovery_exhausted : Role → ℕ → Alert F
  recovery_reboot : Role → ℕ → ℕ → Alert F
  recovered : Role → ℕ → ℕ → Alert F

-- Equality of the enumerations, as SQL's `=`.
abbrev pub same_role : Role → Role → Bool
same_role ap ap = true
same_role ap sta = false
same_role sta ap = false
same_role sta sta = true

abbrev pub same_radio : Radio → Radio → Bool
same_radio halow halow = true
same_radio halow wifi24 = false
same_radio wifi24 halow = false
same_radio wifi24 wifi24 = true

abbrev pub same_param : Param → Param → Bool
same_param halow_operating_freq halow_operating_freq = true
same_param wifi24_channel wifi24_channel = true
same_param reboot reboot = true
same_param _ _ = false

abbrev pub same_status : Status → Status → Bool
same_status pending pending = true
same_status applied applied = true
same_status acked acked = true
same_status reverted reverted = true
same_status unknown unknown = true
same_status expired expired = true
same_status _ _ = false

-- `status IN ('pending', 'applied')`
abbrev pub in_flight : Status → Bool
in_flight pending = true
in_flight applied = true
in_flight _ = false

pub same_radio→eq : (a b : Radio) → same_radio a b ≡ true → a ≡ b
same_radio→eq a b h = ground arith

pub same_param→eq : (a b : Param) → same_param a b ≡ true → a ≡ b
same_param→eq a b h = ground arith

pub same_status→eq : (a b : Status) → same_status a b ≡ true → a ≡ b
same_status→eq a b h = ground arith

pub same_param_refl : (a : Param) → same_param a a ≡ true
same_param_refl a = ground arith
