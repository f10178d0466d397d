-- ===== src/Optimizer/Wifi24/Rules.antt =====
-- The outcomes of `_evaluate_wifi24_link` of app/optimizer.py.
use heltec_wifi_optimization.Prelude.{
  ℕ, ◌≡◌, ◌⊎◌, inl, inr, false, some, [], ◌∷◌, ◌++◌, Bool-cases, Option-cases, find,
}
use heltec_wifi_optimization.Float.{Float}
use heltec_wifi_optimization.Db.{Db, Device, Role, same_role, wifi24_channel}
use heltec_wifi_optimization.Notify.{notify}
use heltec_wifi_optimization.Events.{record_server_event}
use heltec_wifi_optimization.Optimizer.Signals.{has_pending_command, in_cooldown, reverted_channels}
use heltec_wifi_optimization.Optimizer.Channels.{next_channel}
use heltec_wifi_optimization.Optimizer.Channels.RoundRobin.{
  IsFirstUsable, next_channel-IsFirstUsable,
}
use heltec_wifi_optimization.Optimizer.Wifi24.{
  wifi24_channels, wifi24_command, current_wifi24_channel, emit_wifi24_command,
  degraded_client_retries, cycle_wifi24_channel, evaluate_wifi24_link,
}

module _ {F : Type 0} ⦃fl : Float F⦄ (now : ℕ) (db : Db F) where
  -- The command that a 2.4GHz evaluation issues, and the state that called for it.
  pub record IsIssued (db' : Db F) : Type 0 where
    pub d : Device
    pub avg_retries : F
    pub current_channel : ℕ
    pub channel : ℕ
    pub is_sta : find (λ (x : Device). same_role x.role Role.sta) db.devices ≡ some d
    pub is_degraded : degraded_client_retries now d.id db ≡ some avg_retries
    pub cooled :
        in_cooldown now d.id wifi24_channel db.optimizer_state.channel_cooldown_minutes db.commands
        ≡ false
    pub idle : has_pending_command d.id wifi24_channel db.commands ≡ false
    pub current : current_wifi24_channel d.id db.telemetry ≡ some current_channel
    pub first :
        IsFirstUsable wifi24_channels current_channel
          (reverted_channels d.id wifi24_channel db.commands)
          channel
    pub commands :
        db'.commands
        ≡ db.commands ++ wifi24_command db.next_id now d.id channel current_channel ∷ []

  abbrev pub IsEvaluated : Db F → Type 0
  IsEvaluated db' = (db' ≡ db) ⊎ IsIssued db'

  -- An evaluation changes nothing, or issues one command to the station, whose clients' retries
  -- are not below the threshold, which had no command in flight and was out of its cooldown: to
  -- the first standard channel after its own that has not reverted.
  pub evaluate_wifi24_link-IsEvaluated : IsEvaluated (evaluate_wifi24_link now db)
  unfolding evaluate_wifi24_link cycle_wifi24_channel emit_wifi24_command notify record_server_event
  evaluate_wifi24_link-IsEvaluated =
      elim (Option-cases (find (λ (x : Device). same_role x.role Role.sta) db.devices)) [
        | inl e ↦ inl (simp (e, evaluate_wifi24_link))
        | inr (d, is_sta) ↦ elim (Option-cases (degraded_client_retries now d.id db)) [
          | inl e ↦ inl (simp (is_sta, evaluate_wifi24_link, e))
          | inr (avg, bad) ↦
              elim (Bool-cases (
                in_cooldown now d.id wifi24_channel db.optimizer_state.channel_cooldown_minutes
                  db.commands)) [
                    | inl hot ↦ inl (simp (is_sta, evaluate_wifi24_link, bad, hot))
                    | inr cooled ↦
                        elim (Bool-cases (has_pending_command d.id wifi24_channel db.commands)) [
                          | inl busy ↦ inl (simp (is_sta, evaluate_wifi24_link, bad, cooled, busy))
                          | inr idle ↦
                              elim (Option-cases (current_wifi24_channel d.id db.telemetry)) [
                                | inl e ↦
                                    inl (simp (is_sta, evaluate_wifi24_link, bad, cooled, idle, e))
                                | inr (cur, current) ↦
                                    elim (Option-cases (
                                      next_channel wifi24_channels cur
                                        (reverted_channels d.id wifi24_channel db.commands))) [
                                          | inl e ↦ inl (
                                              simp (
                                                is_sta, evaluate_wifi24_link, bad, cooled, idle,
                                                current, cycle_wifi24_channel, e,
                                              ))
                                          | inr (c, e) ↦ inr (record {
                                            d = d;
                                            avg_retries = avg;
                                            current_channel = cur;
                                            channel = c;
                                            is_sta = is_sta;
                                            is_degraded = bad;
                                            cooled = cooled;
                                            idle = idle;
                                            current = current;
                                            first =
                                                next_channel-IsFirstUsable wifi24_channels cur _ c
                                                  e;
                                            commands = simp (
                                              is_sta, evaluate_wifi24_link, bad, cooled, idle,
                                              current, cycle_wifi24_channel, e,
                                            );
                                          })
                                        ]
                              ]
                        ]
                  ]
        ]
      ]
