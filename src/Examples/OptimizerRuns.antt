-- ===== src/Examples/OptimizerRuns.antt =====
-- The optimizer at concrete inputs.
use heltec_wifi_optimization.Prelude.{
  find, not, ℕ, ◌≡◌, refl, ◌≢◌, true, some, List, [], ◌∷◌, arith, contains,
}
use heltec_wifi_optimization.Db.{Db}
use heltec_wifi_optimization.ChannelPlan.{channels_2mhz, is_valid}
use heltec_wifi_optimization.ChannelPlan.Facts.{is_valid-bandwidth_of, bandwidth_of}
use heltec_wifi_optimization.Optimizer.Signals.{has_pending_command, in_cooldown}
use heltec_wifi_optimization.Optimizer.Channels.{next_channel}
use heltec_wifi_optimization.Optimizer.Channels.Cycle.{rotate, next_channel-rotate}
use heltec_wifi_optimization.Optimizer.Channels.RoundRobin.{next_channel_stays}
use heltec_wifi_optimization.Optimizer.Halow.{current_setting, evaluate_halow_link}
use heltec_wifi_optimization.Optimizer.Halow.Rules as HalowRules
use heltec_wifi_optimization.Optimizer.Wifi24.{evaluate_wifi24_link}
use heltec_wifi_optimization.Optimizer.Wifi24.Rules as Wifi24Rules
use heltec_wifi_optimization.Optimizer.Pass.{run_optimizer_pass}
use heltec_wifi_optimization.Optimizer.Pass.Invariant.{IsExclusive, run_optimizer_pass-IsExclusive}
use heltec_wifi_optimization.Examples.Data.{thousandths, empty, access_point, degraded_db, reading}

-- after channel 42 comes 46, which has reverted, and then the first channel again
next_channel_wraps : next_channel channels_2mhz 42 (46 ∷ []) ≡ some 6
unfolding next_channel
next_channel_wraps = refl

next_channel-rotate_example :
    next_channel channels_2mhz 42 (46 ∷ [])
    ≡ find (λ c. not (contains (46 ∷ []) c)) (rotate [] 42 channels_2mhz)
next_channel-rotate_example = next_channel-rotate channels_2mhz 42 (46 ∷ [])

abbrev standard : List ℕ
standard = 1 ∷ 6 ∷ 11 ∷ []

others_reverted : (c : ℕ) → contains standard c ≡ true → c ≢ 6 → contains (1 ∷ 11 ∷ []) c ≡ true
others_reverted c h ne = ground arith

next_channel_stays_example : next_channel standard 6 (1 ∷ 11 ∷ []) ≡ some 6
next_channel_stays_example = next_channel_stays standard 6 (1 ∷ 11 ∷ []) refl refl others_reverted

is_valid-bandwidth_of_example : ◌≡◌ {A = ℕ} 2 (bandwidth_of 46)
unfolding is_valid
is_valid-bandwidth_of_example = is_valid-bandwidth_of 46 2 refl

evaluate_halow_link-IsEvaluated_example :
    HalowRules.IsEvaluated 4 degraded_db (evaluate_halow_link 4 degraded_db)
evaluate_halow_link-IsEvaluated_example = HalowRules.evaluate_halow_link-IsEvaluated 4 degraded_db

evaluate_wifi24_link-IsEvaluated_example :
    Wifi24Rules.IsEvaluated 4 degraded_db (evaluate_wifi24_link 4 degraded_db)
evaluate_wifi24_link-IsEvaluated_example =
    Wifi24Rules.evaluate_wifi24_link-IsEvaluated 4 degraded_db

run_optimizer_pass-IsExclusive_example : IsExclusive (run_optimizer_pass 4 degraded_db).commands
run_optimizer_pass-IsExclusive_example =
    run_optimizer_pass-IsExclusive 4 degraded_db (λ device_id param radio. omega arith)

-- a healthy and busy link that reports a bandwidth of 3 MHz
abbrev odd_db : Db ℕ
odd_db = record empty {
  telemetry = reading 1 10 6 3 3600 ∷ reading 2 10 6 3 3600 ∷ reading 3 10 6 3 3600 ∷ [];
}

odd-IsReady : HalowRules.IsReady 4 odd_db
unfolding has_pending_command current_setting in_cooldown
odd-IsReady = record {
  d = access_point;
  cur_channel = 6;
  cur_bw = 3;
  is_ap = refl;
  idle = refl;
  current = refl;
  cooled = refl;
}
