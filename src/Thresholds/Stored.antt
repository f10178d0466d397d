-- ===== src/Thresholds/Stored.antt =====
-- What a request to `set_optimizer_settings` of app/main.py stores, and what is shown afterwards.
use heltec_wifi_optimization.Prelude.{
  All, subst, ℕ, ◌≤◌, ◌<◌, contains, value_error, ◌≡◌, refl, sym, ap, true, ◌&&◌, Option, none,
  some, Bool-cases, inl, inr, &&→both, Result, ok, raise, http,
}
use heltec_wifi_optimization.Float.{Float}
use heltec_wifi_optimization.Db.{Db, ℤ, pos}
use heltec_wifi_optimization.Settings.Bounds.{
  Accepts, accepted, refused, >>=-Accepts, positive-Accepts, fit_integer-cases,
}
use heltec_wifi_optimization.Thresholds.{
  OptimizerUpdate, fraction, check_optimizer_update, stored_thresholds, get_optimizer_settings,
  threshold_integers, store_thresholds, set_optimizer_settings,
}

-- the request that the settings answer
abbrev pub as_body : {F : Type 0} → OptimizerUpdate F ℕ → OptimizerUpdate F ℤ
as_body s = record {
  retry_rate_degraded_threshold = s.retry_rate_degraded_threshold;
  degraded_sustain_minutes = pos s.degraded_sustain_minutes;
  channel_cooldown_minutes = pos s.channel_cooldown_minutes;
  bandwidth_widen_utilization_threshold = s.bandwidth_widen_utilization_threshold;
  bandwidth_widen_sustain_minutes = pos s.bandwidth_widen_sustain_minutes;
  bandwidth_narrow_utilization_threshold = s.bandwidth_narrow_utilization_threshold;
  bandwidth_narrow_sustain_minutes = pos s.bandwidth_narrow_sustain_minutes;
  halow_channel_cycling_enabled = s.halow_channel_cycling_enabled;
  halow_bandwidth_changes_enabled = s.halow_bandwidth_changes_enabled;
  wifi24_channel_cycling_enabled = s.wifi24_channel_cycling_enabled;
}

module _ {F : Type 0} ⦃fl : Float F⦄ where
  abbrev pub IsFraction : F → Type 0
  IsFraction x = (fl.le (fl.of_ℕ 0) x ≡ true) × (fl.le x (fl.of_ℕ 1) ≡ true)

  -- the bounds of the model's fields
  pub record IsInBounds (s : OptimizerUpdate F ℕ) : Type 0 where
    pub degraded : IsFraction s.retry_rate_degraded_threshold
    pub widen : IsFraction s.bandwidth_widen_utilization_threshold
    pub narrow : IsFraction s.bandwidth_narrow_utilization_threshold
    pub sustain : 0 < s.degraded_sustain_minutes
    pub cooldown : 0 < s.channel_cooldown_minutes
    pub widen_sustain : 0 < s.bandwidth_widen_sustain_minutes
    pub narrow_sustain : 0 < s.bandwidth_narrow_sustain_minutes

  fraction-Accepts : (x : F) → Accepts (λ y. (y ≡ x) × IsFraction x) (fraction x)
  unfolding fraction
  fraction-Accepts x = elim (Bool-cases (fl.le (fl.of_ℕ 0) x && fl.le x (fl.of_ℕ 1))) [
    | (inl y) ↦ simp (y) (accepted (refl, &&→both _ _ y))
    | (inr n) ↦ simp (n) refused
  ]

  check_optimizer_update-Accepts :
      (body : OptimizerUpdate F ℤ)
      → Accepts (λ u. (as_body u ≡ body) × IsInBounds u) (check_optimizer_update body)
  unfolding check_optimizer_update
  check_optimizer_update-Accepts body = >>=-Accepts (fraction-Accepts _) λ a (ea, pa).
      >>=-Accepts (positive-Accepts _) λ b (eb, pb). >>=-Accepts (positive-Accepts _) λ c (ec, pc).
        >>=-Accepts (fraction-Accepts _) λ d (ed, pd).
          >>=-Accepts (positive-Accepts _) λ e (ee, pe).
            >>=-Accepts (fraction-Accepts _) λ f (ef, pf).
              >>=-Accepts (positive-Accepts _) λ g (eg, pg). accepted (
                (λ i. record {
                  retry_rate_degraded_threshold = ea i;
                  degraded_sustain_minutes = eb i;
                  channel_cooldown_minutes = ec i;
                  bandwidth_widen_utilization_threshold = ed i;
                  bandwidth_widen_sustain_minutes = ee i;
                  bandwidth_narrow_utilization_threshold = ef i;
                  bandwidth_narrow_sustain_minutes = eg i;
                  halow_channel_cycling_enabled = body.halow_channel_cycling_enabled;
                  halow_bandwidth_changes_enabled = body.halow_bandwidth_changes_enabled;
                  wifi24_channel_cycling_enabled = body.wifi24_channel_cycling_enabled;
                }),
                record {
                  degraded = subst IsFraction (sym ea) pa;
                  widen = subst IsFraction (sym ed) pd;
                  narrow = subst IsFraction (sym ef) pf;
                  sustain = pb;
                  cooldown = pc;
                  widen_sustain = pe;
                  narrow_sustain = pg;
                },
              )

  -- What a request leaves: either the settings are in their bounds and shown as they were sent,
  -- the kill switch as it was, or the request was refused or a number does not fit its column, and
  -- nothing was written.
  pub data IsStored (body : Option (OptimizerUpdate F ℤ)) (db : Db F)
      : Result (Unit {0}) → Db F → Type 0 where
    stored :
        {db' : Db F}
        → body ≡ some (as_body (get_optimizer_settings db'))
        → IsInBounds (get_optimizer_settings db')
        → All (λ n. n ≤ 2147483647) (threshold_integers (get_optimizer_settings db'))
        → db'.optimizer_state.enabled ≡ db.optimizer_state.enabled
        → IsStored body db (ok tt) db'
    not_stored :
        (u : OptimizerUpdate F ℕ) (n : ℕ)
        → body ≡ some (as_body u)
        → contains (threshold_integers u) n ≡ true
        → 2147483647 < n
        → IsStored body db (raise value_error) db
    refused_request : IsStored body db (raise (http 422)) db

  store_thresholds-IsStored :
      (body : OptimizerUpdate F ℤ) (db : Db F) {r : Result (OptimizerUpdate F ℕ)}
      → Accepts (λ u. (as_body u ≡ body) × IsInBounds u) r
      → IsStored (some body) db (store_thresholds r db).0 (store_thresholds r db).1
  unfolding stored_thresholds get_optimizer_settings
  store_thresholds-IsStored body db (accepted {a = u} (shown, bounds)) =
      elim (fit_integer-cases (threshold_integers u)) [
        | inl (fits, below) ↦ simp fits (stored (ap some (sym shown)) bounds below refl)
        | inr (above, (n, there, large)) ↦
            simp above (not_stored u n (ap some (sym shown)) there large)
      ]
  store_thresholds-IsStored body db refused = refused_request

  -- A request is refused with 422, or raises a ValueError because a number is above 2147483647,
  -- the last of an INTEGER column, and changes nothing in both cases; or it succeeds: its values
  -- are in their bounds, `get_optimizer_settings` shows them, and the kill switch is as it was.
  pub set_optimizer_settings-IsStored :
      (body : Option (OptimizerUpdate F ℤ)) (db : Db F)
      → let (result, db') = set_optimizer_settings body db in IsStored body db result db'
  unfolding set_optimizer_settings
  set_optimizer_settings-IsStored none db = refused_request
  set_optimizer_settings-IsStored (some body) db =
      store_thresholds-IsStored body db (check_optimizer_update-Accepts body)
