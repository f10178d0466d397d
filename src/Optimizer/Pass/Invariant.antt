-- ===== src/Optimizer/Pass/Invariant.antt =====
-- The commands in flight over a pass of app/optimizer.py.
use heltec_wifi_optimization.Prelude.{
  ℕ, ◌≤◌, ◌≡◌, refl, ◌≢◌, inl, inr, Bool, true, false, ◌&&◌, ◌||◌, List, [], ◌∷◌, ◌++◌, arith, ◌==◌,
  ==→eq, &&→both, Bool-cases, length, length-append, select-append, select-any, select, Result, ok,
  raise, ◌>>=◌,
}
use heltec_wifi_optimization.Float.{Float}
use heltec_wifi_optimization.Db.{Db, Command, Param, reboot, same_param, same_param→eq, in_flight}
use heltec_wifi_optimization.Optimizer.Signals.{has_pending_command, of_param}
use heltec_wifi_optimization.Optimizer.Halow
use heltec_wifi_optimization.Optimizer.Halow.Rules
use heltec_wifi_optimization.Optimizer.Wifi24
use heltec_wifi_optimization.Optimizer.Wifi24.Rules as Wifi24Rules
use heltec_wifi_optimization.Optimizer.Pass.{run_optimizer_pass, wifi24_part, halow_part, catch_all}

-- the commands in flight for a device and a parameter
abbrev pub flying : ℕ → Param → List Command → List Command
flying device_id param = select (λ c. of_param device_id param c && in_flight c.status)

-- At most one command in flight for each device and radio setting. Reboots may queue up.
abbrev pub IsExclusive : List Command → Type 0
IsExclusive commands =
    (device_id : ℕ) (param : Param) → param ≢ reboot → length (flying device_id param commands) ≤ 1

length-select_one : (test : Command → Bool) (c : Command) → length (select test (c ∷ [])) ≤ 1
length-select_one test c = ground arith

-- One more command keeps that, if there was none in flight for its device and parameter.
append-IsExclusive :
    (commands : List Command) (c : Command)
    → has_pending_command c.device_id c.param commands ≡ false
    → IsExclusive commands
    → IsExclusive (commands ++ c ∷ [])
unfolding has_pending_command
append-IsExclusive commands c idle h device_id param radio =
    rw (select-append, length-append {0})
      (elim (Bool-cases (of_param device_id param c)) [
        | inl same ↦
            let (at, kind) = &&→both (c.device_id == device_id) (same_param c.param param) same in
            let none_flying : flying c.device_id c.param commands ≡ [] =
              select-any _ commands idle in
            let here : flying device_id param commands ≡ [] =
              rw (← ==→eq _ _ at, ← same_param→eq _ _ kind) none_flying in
            rw here (omega (arith, length-select_one _ c))
        | inr other ↦ rw other (omega (arith, h device_id param radio))
      ])

module _ {F : Type 0} ⦃fl : Float F⦄ (now : ℕ) where
  halow-IsExclusive :
      (db db' : Db F)
      → Rules.IsEvaluated now db (ok db')
      → IsExclusive db.commands
      → IsExclusive db'.commands
  halow-IsExclusive db db' (inl same) h = rw same h
  halow-IsExclusive db db' (inr (r, issued)) h = rw issued.commands (
      append-IsExclusive db.commands
        (Halow.halow_command db.next_id now r.d.id issued.channel r.cur_channel r.cur_bw) r.idle h)

  wifi24-IsExclusive :
      (db db' : Db F)
      → Wifi24Rules.IsEvaluated now db db'
      → IsExclusive db.commands
      → IsExclusive db'.commands
  wifi24-IsExclusive db db' (inl same) h = rw same h
  wifi24-IsExclusive db db' (inr issued) h = rw issued.commands (
      append-IsExclusive db.commands
        (Wifi24.wifi24_command db.next_id now issued.d.id issued.channel issued.current_channel)
        issued.idle h)

  wifi24_part-IsExclusive :
      (enabled : Bool) (db : Db F)
      → IsExclusive db.commands
      → IsExclusive (wifi24_part enabled now db).commands
  wifi24_part-IsExclusive false db h = h
  wifi24_part-IsExclusive true db h =
      wifi24-IsExclusive db _ (Wifi24Rules.evaluate_wifi24_link-IsEvaluated now db) h

  pass-IsExclusive :
      (enabled : Bool) (db : Db F) (r : Result (Db F))
      → Rules.IsEvaluated now db r
      → IsExclusive db.commands
      → IsExclusive (catch_all db (r >>= λ db'. ok (wifi24_part enabled now db'))).commands
  pass-IsExclusive enabled db (ok db') done h =
      wifi24_part-IsExclusive enabled db' (halow-IsExclusive db db' done h)
  pass-IsExclusive enabled db (raise e) done h = h

  halow_part-IsEvaluated : (db : Db F) → Rules.IsEvaluated now db (halow_part now db)
  halow_part-IsEvaluated db =
      let s = db.optimizer_state in
      elim (Bool-cases (s.halow_channel_cycling_enabled || s.halow_bandwidth_changes_enabled)) [
        | inl on ↦ simp on (Rules.evaluate_halow_link-IsEvaluated now db)
        | inr off ↦ simp off (inl refl)
      ]

  -- Every optimizer pass, whatever it reads and whatever it raises, keeps at most one command in
  -- flight for each device and radio setting.
  pub run_optimizer_pass-IsExclusive :
      (db : Db F) → IsExclusive db.commands → IsExclusive (run_optimizer_pass now db).commands
  unfolding run_optimizer_pass
  run_optimizer_pass-IsExclusive db h =
      let s = db.optimizer_state in
      elim (Bool-cases s.enabled) [
        | inl on ↦ simp on (
            pass-IsExclusive s.wifi24_channel_cycling_enabled db (halow_part now db)
              (halow_part-IsEvaluated db) h)
        | inr off ↦ simp off h
      ]
