-- ===== src/Server/Shown.antt =====
-- What a request to `update_app_settings` of app/main.py stores, and what `get_app_settings` shows
-- afterwards.
use text.Mathlib.Text.{◌==◌ as str_eq}
use heltec_wifi_optimization.Prelude.{
  All, ℕ, ◌≤◌, ◌<◌, ◌≡◌, contains, value_error, refl, sym, subst, String, true, false, Bool-cases,
  inl, inr, Option, none, some, Result, ok, raise, http,
}
use heltec_wifi_optimization.Db.{Db, ℤ, pos}
use heltec_wifi_optimization.Settings.{
  AppSettingsUpdate, app_integers, check_update, token_or, ShownSettings, get_app_settings,
  store_settings,
}
use heltec_wifi_optimization.Settings.Bounds.{
  Accepts, accepted, refused, >>=-Accepts, positive-Accepts, non_negative-Accepts,
  fit_integer-cases,
}
use heltec_wifi_optimization.Server.{
  Job, Scheduler, Timescale, Server, apply_update, update_app_settings,
}
use heltec_wifi_optimization.Server.Scheduled.{IsScheduler}
use heltec_wifi_optimization.Server.Restart.{IsRunning, apply_update_ok}

-- the request that these settings answer, with the token that was sent
abbrev pub as_sent : ShownSettings → Option String → AppSettingsUpdate ℤ
as_sent shown token = record {
  ssh_poll_interval_seconds = pos shown.ssh_poll_interval_seconds;
  command_poll_interval_seconds = pos shown.command_poll_interval_seconds;
  command_verify_delay_seconds = pos shown.command_verify_delay_seconds;
  backup_poll_interval_seconds = pos shown.backup_poll_interval_seconds;
  optimizer_interval_seconds = pos shown.optimizer_interval_seconds;
  liveness_check_interval_seconds = pos shown.liveness_check_interval_seconds;
  offline_alert_seconds = pos shown.offline_alert_seconds;
  telemetry_retention_days = pos shown.telemetry_retention_days;
  backup_retention_count = pos shown.backup_retention_count;
  ntfy_url = shown.ntfy_url;
  ntfy_topic = shown.ntfy_topic;
  ntfy_token = token;
}

-- the bounds of the model's fields
pub record IsInBounds (shown : ShownSettings) : Type 0 where
  pub ssh_poll : 0 < shown.ssh_poll_interval_seconds
  pub command_poll : 0 < shown.command_poll_interval_seconds
  pub verify_delay : 0 < shown.command_verify_delay_seconds
  pub backup_poll : 0 < shown.backup_poll_interval_seconds
  pub optimizer : 0 < shown.optimizer_interval_seconds
  pub liveness : 0 < shown.liveness_check_interval_seconds
  pub offline_alert : 0 < shown.offline_alert_seconds

-- The stored token before, the token of the request and the stored token after.
pub data TokenAfter (old : String) : Option String → String → Type 0 where
  missing : TokenAfter old none old
  blank : {token : String} → str_eq token "" ≡ true → TokenAfter old (some token) old
  replaced : {token : String} → str_eq token "" ≡ false → TokenAfter old (some token) token

-- The settings of `db'` are in their bounds and shown as the body has them, the token is the one
-- sent or the old one, and the rest of the database is as it was.
pub record IsShown {F : Type 0} (body : AppSettingsUpdate ℤ) (db db' : Db F) : Type 0 where
  pub same : body ≡ as_sent (get_app_settings db') body.ntfy_token
  pub in_bounds : IsInBounds (get_app_settings db')
  pub token : TokenAfter db.app_settings.ntfy_token body.ntfy_token db'.app_settings.ntfy_token
  pub rest : db' ≡ record db { app_settings = db'.app_settings }

-- the body that has these numbers
abbrev pub as_body : AppSettingsUpdate ℕ → AppSettingsUpdate ℤ
as_body u = record {
  ssh_poll_interval_seconds = pos u.ssh_poll_interval_seconds;
  command_poll_interval_seconds = pos u.command_poll_interval_seconds;
  command_verify_delay_seconds = pos u.command_verify_delay_seconds;
  backup_poll_interval_seconds = pos u.backup_poll_interval_seconds;
  optimizer_interval_seconds = pos u.optimizer_interval_seconds;
  liveness_check_interval_seconds = pos u.liveness_check_interval_seconds;
  offline_alert_seconds = pos u.offline_alert_seconds;
  telemetry_retention_days = pos u.telemetry_retention_days;
  backup_retention_count = pos u.backup_retention_count;
  ntfy_url = u.ntfy_url;
  ntfy_topic = u.ntfy_topic;
  ntfy_token = u.ntfy_token;
}

pub data Outcome {F S T : Type 0} (s : Server F S T)
    : Option (AppSettingsUpdate ℤ) → Result (Unit {0}) → Server F S T → Type 0 where
  shown :
      {body : AppSettingsUpdate ℤ} {s' : Server F S T} (u : AppSettingsUpdate ℕ)
      → as_body u ≡ body
      → All (λ n. n ≤ 2147483647) (app_integers u)
      → IsShown body s.db s'.db
      → Outcome s (some body) (ok tt) s'
  not_stored :
      {body : AppSettingsUpdate ℤ} (u : AppSettingsUpdate ℕ) (n : ℕ)
      → as_body u ≡ body
      → contains (app_integers u) n ≡ true
      → 2147483647 < n
      → Outcome s (some body) (raise value_error) s
  refused_request : {body : Option (AppSettingsUpdate ℤ)} → Outcome s body (raise (http 422)) s

token_or-TokenAfter :
    (old : String) (sent : Option String) → TokenAfter old sent (token_or old sent)
token_or-TokenAfter old none = missing
token_or-TokenAfter old (some token) = elim (Bool-cases (str_eq token "")) [
  | (inl e) ↦ simp (e) (blank e)
  | (inr e) ↦ simp (e) (replaced e)
]

-- the bounds that `check_update` establishes
abbrev IsPositive : AppSettingsUpdate ℕ → Type 0
IsPositive u =
    (0 < u.ssh_poll_interval_seconds)
    × (0 < u.command_poll_interval_seconds)
    × (0 < u.command_verify_delay_seconds)
    × (0 < u.backup_poll_interval_seconds)
    × (0 < u.optimizer_interval_seconds)
    × (0 < u.liveness_check_interval_seconds)
    × (0 < u.offline_alert_seconds)

check_update-Accepts :
    (body : AppSettingsUpdate ℤ)
    → Accepts (λ u. (as_body u ≡ body) × IsPositive u) (check_update body)
unfolding check_update
check_update-Accepts body = >>=-Accepts (positive-Accepts _) λ a (ea, pa).
    >>=-Accepts (positive-Accepts _) λ b (eb, pb). >>=-Accepts (positive-Accepts _) λ c (ec, pc).
      >>=-Accepts (positive-Accepts _) λ d (ed, pd). >>=-Accepts (positive-Accepts _) λ e (ee, pe).
        >>=-Accepts (positive-Accepts _) λ f (ef, pf).
          >>=-Accepts (positive-Accepts _) λ g (eg, pg).
            >>=-Accepts (non_negative-Accepts _) λ h eh.
              >>=-Accepts (non_negative-Accepts _) λ k ek. accepted (
                (λ i. record {
                  ssh_poll_interval_seconds = ea i;
                  command_poll_interval_seconds = eb i;
                  command_verify_delay_seconds = ec i;
                  backup_poll_interval_seconds = ed i;
                  optimizer_interval_seconds = ee i;
                  liveness_check_interval_seconds = ef i;
                  offline_alert_seconds = eg i;
                  telemetry_retention_days = eh i;
                  backup_retention_count = ek i;
                  ntfy_url = body.ntfy_url;
                  ntfy_topic = body.ntfy_topic;
                  ntfy_token = body.ntfy_token;
                }),
                (pa, pb, pc, pd, pe, pf, pg),
              )

-- What `store_settings` makes of a checked request.
store_settings-IsShown :
    {F : Type 0} (u : AppSettingsUpdate ℕ) (db : Db F)
    → IsPositive u
    → IsShown (as_body u) db (store_settings u db)
unfolding store_settings get_app_settings
store_settings-IsShown u db (pa, pb, pc, pd, pe, pf, pg) = record {
  same = refl;
  in_bounds = record {
    ssh_poll = pa;
    command_poll = pb;
    verify_delay = pc;
    backup_poll = pd;
    optimizer = pe;
    liveness = pf;
    offline_alert = pg;
  };
  token = token_or-TokenAfter db.app_settings.ntfy_token u.ntfy_token;
  rest = refl;
}

module _ {F S T : Type 0} (sch : Scheduler S) (ts : Timescale T)
    (interval : Job → S → Option ℕ) where
  apply_update-Outcome :
      IsScheduler sch interval
      → (body : AppSettingsUpdate ℤ) (s : Server F S T) {r : Result (AppSettingsUpdate ℕ)}
      → IsRunning sch ts interval s
      → Accepts (λ u. (as_body u ≡ body) × IsPositive u) r
      → let (result, s') = apply_update sch ts r s in Outcome s (some body) result s'
  apply_update-Outcome law body s running refused = refused_request
  apply_update-Outcome law body s running (accepted {a = u} (same, positives)) =
      elim (fit_integer-cases (app_integers u)) [
        | inl (fits, below) ↦
            let (done, stored, _) = apply_update_ok sch ts interval law u s fits running in
            subst (λ r. Outcome s (some body) r (apply_update sch ts (ok u) s).1) (sym done)
              (shown u same below (
                subst (IsShown body s.db) (sym stored) (
                  subst (λ b. IsShown b s.db (store_settings u s.db)) same
                    (store_settings-IsShown u s.db positives))))
        | inr (above, (n, there, large)) ↦ simp above (not_stored u n same there large)
      ]

  -- With a scheduler that behaves as documented and whose jobs have the intervals of the
  -- settings, a request is refused with 422, or raises a ValueError because a number is above
  -- 2147483647, the last of an INTEGER column, and changes nothing in both cases; or it succeeds:
  -- the settings shown are then those of the body and in their bounds, a missing or empty token
  -- leaves the stored one and any other replaces it, and the rest of the database is as it was.
  pub update_app_settings-Outcome :
      IsScheduler sch interval
      → (body : Option (AppSettingsUpdate ℤ)) (s : Server F S T) → IsRunning sch ts interval s
      → let (result, s') = update_app_settings sch ts body s in Outcome s body result s'
  unfolding update_app_settings
  update_app_settings-Outcome law none s running = refused_request
  update_app_settings-Outcome law (some body) s running =
      apply_update-Outcome law body s running (check_update-Accepts body)
