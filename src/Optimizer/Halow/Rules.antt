-- ===== src/Optimizer/Halow/Rules.antt =====
-- The outcomes of `_evaluate_halow_link` of app/optimizer.py.
use heltec_wifi_optimization.Prelude.{
  ℕ, ◌*◌, ◌/◌, ◌≡◌, refl, ◌⊎◌, inl, inr, true, false, Option, none, some, arith, ◌==◌, Bool-cases,
  Option-cases, find, contains, value_error, Result, ok, raise, ◌>>=◌,
}
use heltec_wifi_optimization.Float.{Float}
use heltec_wifi_optimization.Db.{
  Db, Device, Move, degraded, widening, narrowing, Role, same_role, halow_operating_freq,
}
use heltec_wifi_optimization.ChannelPlan.{valid_channels, is_valid}
use heltec_wifi_optimization.Notify.{notify}
use heltec_wifi_optimization.Events.{record_server_event}
use heltec_wifi_optimization.Optimizer.Signals.{
  has_pending_command, in_cooldown, reverted_channels, throughput_utilization,
}
use heltec_wifi_optimization.Optimizer.Channels.{
  next_channel, pick_channel_for_bandwidth, bandwidth_tiers,
}
use heltec_wifi_optimization.Optimizer.Channels.Picks.{
  pick_channel-is_valid, wider_tier-cases, narrower_tier-cases,
}
use heltec_wifi_optimization.Optimizer.Halow.Issued.{IsJustified, IsIssued}
use heltec_wifi_optimization.Optimizer.Channels.RoundRobin.{next_channel-IsFirstUsable}
use heltec_wifi_optimization.Optimizer.Halow.{
  current_setting, emit_halow_command, cycle_channel, widen, narrow, change_width, narrow_unless,
  degraded_retries, apply_rules, evaluate_halow_link, change_bandwidth, emit_picked, or_unchanged,
}

module _ {F : Type 0} ⦃fl : Float F⦄ where
  module _ (now : ℕ) (d : Device) (cur_channel cur_bw : ℕ) (db : Db F) where
    cycle_channel-IsIssued :
        (avg : F)
        → degraded_retries now d.id db ≡ some avg
        → (cycle_channel now d cur_channel cur_bw avg db ≡ db)
          ⊎ IsIssued now d cur_channel cur_bw db (cycle_channel now d cur_channel cur_bw avg db)
    unfolding cycle_channel notify emit_halow_command record_server_event is_valid
    cycle_channel-IsIssued avg bad =
        let s = db.optimizer_state in
        let failed = reverted_channels d.id halow_operating_freq db.commands in
        elim (Bool-cases s.halow_channel_cycling_enabled) [
          | inr off ↦ inl (simp off)
          | inl on ↦ elim (Option-cases (next_channel (valid_channels cur_bw) cur_channel failed)) [
            | inl e ↦ inl (simp (on, e))
            | inr (c, e) ↦
                let first =
                  next_channel-IsFirstUsable (valid_channels cur_bw) cur_channel failed c e in
                inr (
                  simp (on, e)
                    (record {
                      channel = c;
                      new_bw = cur_bw;
                      why = degraded avg s.degraded_sustain_minutes;
                      commands = refl;
                      on_plan = first.is_channel;
                      not_reverted = first.not_failed;
                      justified = (bad, on, refl);
                    }))
          ]
        ]

    -- What a change of bandwidth may come to: nothing, one command, or a ValueError at a bandwidth
    -- that is no tier.
    abbrev IsChange : Result (Option (Db F)) → Type 0
    IsChange (ok none) = Unit
    IsChange (ok (some db')) = IsIssued now d cur_channel cur_bw db db'
    IsChange (raise e) = (e ≡ value_error) × (contains bandwidth_tiers cur_bw ≡ false)

    emit_picked-IsChange :
        (new_bw : ℕ) (why : Move F) (picked : Option ℕ)
        → IsJustified now d cur_bw new_bw db why
        → pick_channel_for_bandwidth new_bw
            (reverted_channels d.id halow_operating_freq db.commands)
          ≡ picked
        → IsChange (ok (emit_picked now d cur_channel cur_bw new_bw why db picked))
    unfolding emit_halow_command record_server_event
    emit_picked-IsChange new_bw why none good e = tt
    emit_picked-IsChange new_bw why (some c) good e =
        let (on_plan, fresh) = pick_channel-is_valid new_bw _ c e in
        record {
          channel = c;
          new_bw = new_bw;
          why = why;
          commands = refl;
          on_plan = on_plan;
          not_reverted = fresh;
          justified = good;
        }

    change_bandwidth-IsChange :
        (new_bw : ℕ) (why : Move F)
        → IsJustified now d cur_bw new_bw db why
        → IsChange (ok (change_bandwidth now d cur_channel cur_bw new_bw why db))
    change_bandwidth-IsChange new_bw why good = emit_picked-IsChange new_bw why _ good refl

    module _ (healthy : degraded_retries now d.id db ≡ none)
        (on : db.optimizer_state.halow_bandwidth_changes_enabled ≡ true) where
      widen-IsChange : IsChange (widen now d cur_channel cur_bw db)
      unfolding widen
      widen-IsChange =
          let s = db.optimizer_state in
          let m = s.bandwidth_widen_sustain_minutes in
          elim (Bool-cases (cur_bw == 8)) [
            | inl widest ↦ simp widest tt
            | inr other ↦ elim (Option-cases (throughput_utilization now d.id m db.telemetry)) [
              | inl e ↦ simp (other, e) tt
              | inr (util, e) ↦
                  elim (Bool-cases (fl.le s.bandwidth_widen_utilization_threshold util)) [
                    | inr low ↦ simp (other, e, low) tt
                    | inl high ↦ elim (wider_tier-cases cur_bw (λ eq. ground arith)) [
                      | inl (err, off) ↦ simp (other, e, high, err) (refl, off)
                      | inr step ↦
                          simp (other, e, high, step)
                            (change_bandwidth-IsChange (cur_bw * 2) (widening util m)
                              (healthy, on, e, refl, high, refl))
                    ]
                  ]
            ]
          ]

      narrow-IsChange : IsChange (narrow now d cur_channel cur_bw db)
      unfolding narrow
      narrow-IsChange =
          let s = db.optimizer_state in
          let m = s.bandwidth_narrow_sustain_minutes in
          elim (Bool-cases (cur_bw == 1)) [
            | inl narrowest ↦ simp narrowest tt
            | inr other ↦ elim (Option-cases (throughput_utilization now d.id m db.telemetry)) [
              | inl e ↦ simp (other, e) tt
              | inr (util, e) ↦
                  elim (Bool-cases (fl.le util s.bandwidth_narrow_utilization_threshold)) [
                    | inr high ↦ simp (other, e, high) tt
                    | inl low ↦ elim (narrower_tier-cases cur_bw (λ eq. ground arith)) [
                      | inl (err, off) ↦ simp (other, e, low, err) (refl, off)
                      | inr (step, half) ↦
                          simp (other, e, low, step)
                            (change_bandwidth-IsChange (cur_bw / 2) (narrowing util m)
                              (healthy, on, e, refl, low, half))
                    ]
                  ]
            ]
          ]

    -- What the rules may come to.
    abbrev IsRuled : Result (Db F) → Type 0
    IsRuled (ok db') = (db' ≡ db) ⊎ IsIssued now d cur_channel cur_bw db db'
    IsRuled (raise e) = (e ≡ value_error) × (contains bandwidth_tiers cur_bw ≡ false)

    narrowed-IsRuled :
        (r : Result (Option (Db F))) → IsChange r → IsRuled (r >>= λ n. ok (or_unchanged db n))
    narrowed-IsRuled (ok none) h = inl refl
    narrowed-IsRuled (ok (some db')) h = inr h
    narrowed-IsRuled (raise e) h = h

    widened-IsRuled :
        (r : Result (Option (Db F)))
        → IsChange r
        → IsChange (narrow now d cur_channel cur_bw db)
        → IsRuled (r >>= narrow_unless now d cur_channel cur_bw db)
    unfolding narrow_unless
    widened-IsRuled (ok none) h n = narrowed-IsRuled (narrow now d cur_channel cur_bw db) n
    widened-IsRuled (ok (some db')) h n = inr h
    widened-IsRuled (raise e) h n = h

    apply_rules-IsRuled : IsRuled (apply_rules now d cur_channel cur_bw db)
    unfolding apply_rules change_width
    apply_rules-IsRuled = elim (Option-cases (degraded_retries now d.id db)) [
      | inr (avg, bad) ↦ simp (bad, apply_rules) (cycle_channel-IsIssued avg bad)
      | inl healthy ↦ elim (Bool-cases db.optimizer_state.halow_bandwidth_changes_enabled) [
        | inr off ↦ simp (healthy, apply_rules, off) (inl refl)
        | inl on ↦
            simp (healthy, apply_rules, on)
              (widened-IsRuled (widen now d cur_channel cur_bw db) (widen-IsChange healthy on)
                (narrow-IsChange healthy on))
      ]
    ]

  -- The state in which an evaluation reaches the rules.
  pub record IsReady (now : ℕ) (db : Db F) : Type 0 where
    pub d : Device
    pub cur_channel : ℕ
    pub cur_bw : ℕ
    pub is_ap : find (λ (x : Device). same_role x.role Role.ap) db.devices ≡ some d
    pub idle : has_pending_command d.id halow_operating_freq db.commands ≡ false
    pub current : current_setting d.id db.telemetry ≡ some (cur_channel, cur_bw)
    pub cooled :
        in_cooldown now d.id halow_operating_freq db.optimizer_state.channel_cooldown_minutes
          db.commands
        ≡ false

  module _ (now : ℕ) (db : Db F) where
    -- What an evaluation of the HaLow link may come to.
    abbrev pub IsEvaluated : Result (Db F) → Type 0
    IsEvaluated (ok db') =
        (db' ≡ db) ⊎ ((r : IsReady now db) × IsIssued now r.d r.cur_channel r.cur_bw db db')
    IsEvaluated (raise e) =
        (e ≡ value_error) × ((r : IsReady now db) × (contains bandwidth_tiers r.cur_bw ≡ false))

    ruled-IsEvaluated :
        (r : IsReady now db) (result : Result (Db F))
        → IsRuled now r.d r.cur_channel r.cur_bw db result
        → IsEvaluated result
    ruled-IsEvaluated r (ok db') (inl same) = inl same
    ruled-IsEvaluated r (ok db') (inr issued) = inr (r, issued)
    ruled-IsEvaluated r (raise e) (is_value_error, off) = (is_value_error, (r, off))

    -- An evaluation changes nothing, or issues one command to the access point, which had none in
    -- flight and was out of its cooldown: to a channel that is valid at the bandwidth it moves to
    -- and has not reverted, for a reason whose switch and threshold hold. It raises only a
    -- ValueError, at a bandwidth that is no tier.
    pub evaluate_halow_link-IsEvaluated : IsEvaluated (evaluate_halow_link now db)
    unfolding evaluate_halow_link
    evaluate_halow_link-IsEvaluated =
        elim (Option-cases (find (λ (x : Device). same_role x.role Role.ap) db.devices)) [
          | inl e ↦ simp (e, evaluate_halow_link) (inl refl)
          | inr (d, is_ap) ↦
              elim (Bool-cases (has_pending_command d.id halow_operating_freq db.commands)) [
                | inl busy ↦ simp (is_ap, evaluate_halow_link, busy) (inl refl)
                | inr idle ↦ elim (Option-cases (current_setting d.id db.telemetry)) [
                  | inl e ↦ simp (is_ap, evaluate_halow_link, idle, e) (inl refl)
                  | inr ((cur_channel, cur_bw), current) ↦
                      elim (Bool-cases (
                        in_cooldown now d.id halow_operating_freq
                          db.optimizer_state.channel_cooldown_minutes db.commands)) [
                            | inl hot ↦
                                simp (is_ap, evaluate_halow_link, idle, current, hot) (inl refl)
                            | inr cooled ↦
                                simp (is_ap, evaluate_halow_link, idle, current, cooled)
                                  (ruled-IsEvaluated
                                    (record {
                                      d = d;
                                      cur_channel = cur_channel;
                                      cur_bw = cur_bw;
                                      is_ap = is_ap;
                                      idle = idle;
                                      current = current;
                                      cooled = cooled;
                                    })
                                    (apply_rules now d cur_channel cur_bw db)
                                    (apply_rules-IsRuled now d cur_channel cur_bw db))
                          ]
                ]
              ]
        ]
