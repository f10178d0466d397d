-- ===== src/Settings.antt =====
-- The settings of the dashboard (app/main.py, app/models.py): what the requests may contain, and
-- what they store and show.
--
-- A body is what pydantic decodes of the JSON document, before it checks the bounds of the fields;
-- `none` is a document that is not of these types. The fields have no upper bound, but an INTEGER
-- column does: for a number above it asyncpg raises its DataError, which is a ValueError.
pub mod Bounds
use text.Mathlib.Text.{◌==◌ as str_eq}
use heltec_wifi_optimization.Prelude.{
  ℕ, zero, suc, String, Bool, true, false, List, [], ◌∷◌, all, leb, not, ◌&&◌, ◌||◌, Option, none,
  some, if◌then◌else◌, Result, ok, raise, http, ◌>>=◌,
}
use heltec_wifi_optimization.Float.{Float}
use heltec_wifi_optimization.Db.{Db, ℤ, pos, negsuc, AppSettings, OptimizerSettings}

-- `Field(gt=0)` and `Field(ge=0)`
unfoldable pub positive : ℤ → Result ℕ
positive (pos zero) = raise (http 422)
positive (pos (suc n)) = ok (suc n)
positive (negsuc n) = raise (http 422)

unfoldable pub non_negative : ℤ → Result ℕ
non_negative (pos n) = ok n
non_negative (negsuc n) = raise (http 422)

-- The numbers of an INTEGER column are up to this one; those that are checked here are not negative.
abbrev pub max_integer : ℕ
max_integer = 2147483647

-- The parameters of a statement are encoded before it is sent.
unfoldable pub fit_integer : List ℕ → Bool
fit_integer = all (λ n. leb n max_integer)

-- a decoded `AppSettingsUpdate`, with numbers of type `N`
pub record AppSettingsUpdate (N : Type 0) : Type 0 where
  pub ssh_poll_interval_seconds : N
  pub command_poll_interval_seconds : N
  pub command_verify_delay_seconds : N
  pub backup_poll_interval_seconds : N
  pub optimizer_interval_seconds : N
  pub liveness_check_interval_seconds : N
  pub offline_alert_seconds : N
  pub telemetry_retention_days : N
  pub backup_retention_count : N
  pub ntfy_url : String
  pub ntfy_topic : String
  pub ntfy_token : Option String

unfoldable pub check_update : AppSettingsUpdate ℤ → Result (AppSettingsUpdate ℕ)
unfolding positive non_negative
check_update body = do
  ssh_poll ← positive body.ssh_poll_interval_seconds
  command_poll ← positive body.command_poll_interval_seconds
  verify_delay ← positive body.command_verify_delay_seconds
  backup_poll ← positive body.backup_poll_interval_seconds
  optimizer ← positive body.optimizer_interval_seconds
  liveness ← positive body.liveness_check_interval_seconds
  offline_alert ← positive body.offline_alert_seconds
  retention_days ← non_negative body.telemetry_retention_days
  retention_count ← non_negative body.backup_retention_count
  ok (record {
    ssh_poll_interval_seconds = ssh_poll;
    command_poll_interval_seconds = command_poll;
    command_verify_delay_seconds = verify_delay;
    backup_poll_interval_seconds = backup_poll;
    optimizer_interval_seconds = optimizer;
    liveness_check_interval_seconds = liveness;
    offline_alert_seconds = offline_alert;
    telemetry_retention_days = retention_days;
    backup_retention_count = retention_count;
    ntfy_url = body.ntfy_url;
    ntfy_topic = body.ntfy_topic;
    ntfy_token = body.ntfy_token;
  })

-- `parse_body`, for a model whose bounds `check` tests
abbrev pub parse_body : {A B : Type 0} → (A → Result B) → Option A → Result B
parse_body check none = raise (http 422)
parse_body check (some body) = check body

-- the parameters for the INTEGER columns
unfoldable pub app_integers : AppSettingsUpdate ℕ → List ℕ
app_integers update =
    update.ssh_poll_interval_seconds ∷ update.command_poll_interval_seconds
    ∷ update.command_verify_delay_seconds ∷ update.backup_poll_interval_seconds
    ∷ update.optimizer_interval_seconds ∷ update.liveness_check_interval_seconds
    ∷ update.offline_alert_seconds ∷ update.telemetry_retention_days ∷ update.backup_retention_count
    ∷ []

-- `if update.ntfy_token`: a missing and an empty token leave the stored one
abbrev pub token_or : String → Option String → String
token_or stored none = stored
token_or stored (some token) = if str_eq token "" then stored else token

unfoldable pub stored_settings : AppSettingsUpdate ℕ → AppSettings → AppSettings
stored_settings update row = record {
  ssh_poll_interval_seconds = update.ssh_poll_interval_seconds;
  command_poll_interval_seconds = update.command_poll_interval_seconds;
  command_verify_delay_seconds = update.command_verify_delay_seconds;
  backup_poll_interval_seconds = update.backup_poll_interval_seconds;
  optimizer_interval_seconds = update.optimizer_interval_seconds;
  liveness_check_interval_seconds = update.liveness_check_interval_seconds;
  offline_alert_seconds = update.offline_alert_seconds;
  telemetry_retention_days = update.telemetry_retention_days;
  backup_retention_count = update.backup_retention_count;
  ntfy_url = update.ntfy_url;
  ntfy_topic = update.ntfy_topic;
  ntfy_token = token_or row.ntfy_token update.ntfy_token;
}

-- the response `AppSettings` of `get_app_settings`, in which the token is a flag
pub record ShownSettings : Type 0 where
  pub ssh_poll_interval_seconds : ℕ
  pub command_poll_interval_seconds : ℕ
  pub command_verify_delay_seconds : ℕ
  pub backup_poll_interval_seconds : ℕ
  pub optimizer_interval_seconds : ℕ
  pub liveness_check_interval_seconds : ℕ
  pub offline_alert_seconds : ℕ
  pub telemetry_retention_days : ℕ
  pub backup_retention_count : ℕ
  pub ntfy_url : String
  pub ntfy_topic : String
  pub ntfy_token_set : Bool

unfoldable pub get_app_settings : {F : Type 0} → Db F → ShownSettings
get_app_settings db =
    let row = db.app_settings in
    record {
      ssh_poll_interval_seconds = row.ssh_poll_interval_seconds;
      command_poll_interval_seconds = row.command_poll_interval_seconds;
      command_verify_delay_seconds = row.command_verify_delay_seconds;
      backup_poll_interval_seconds = row.backup_poll_interval_seconds;
      optimizer_interval_seconds = row.optimizer_interval_seconds;
      liveness_check_interval_seconds = row.liveness_check_interval_seconds;
      offline_alert_seconds = row.offline_alert_seconds;
      telemetry_retention_days = row.telemetry_retention_days;
      backup_retention_count = row.backup_retention_count;
      ntfy_url = row.ntfy_url;
      ntfy_topic = row.ntfy_topic;
      ntfy_token_set = not (str_eq row.ntfy_token "");
    }

-- `UPDATE app_settings`, the first write of `update_app_settings`
unfoldable pub store_settings : {F : Type 0} → AppSettingsUpdate ℕ → Db F → Db F
unfolding stored_settings
store_settings update db = record db { app_settings = stored_settings update db.app_settings }
