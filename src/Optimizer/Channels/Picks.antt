-- ===== src/Optimizer/Channels/Picks.antt =====
-- The picks of app/optimizer.py: a channel of a bandwidth, and the tiers beside one.
use heltec_wifi_optimization.Prelude.{
  ℕ, ◌*◌, ◌/◌, ◌≡◌, refl, ◌≢◌, ◌⊎◌, inl, inr, Bool, true, false, not, some, List, [], ◌∷◌, arith,
  ==_refl, Bool-cases, find, contains, value_error, ok, raise,
}
use heltec_wifi_optimization.ChannelPlan.{valid_channels, is_valid}
use heltec_wifi_optimization.Optimizer.Channels.{
  pick_channel_for_bandwidth, wider_tier, narrower_tier, bandwidth_tiers,
}

find-some :
    (p : ℕ → Bool) (xs : List ℕ) (c : ℕ)
    → find p xs ≡ some c
    → (contains xs c ≡ true) × (p c ≡ true)
find-some p [] c h = cc
find-some p (x ∷ xs) c h = elim (Bool-cases (p x)) [
  | inl pass ↦ let e : x ≡ c = ground arith in rw (← e) (rw (==_refl x) refl, pass)
  | inr fail ↦ let (m, pass) = find-some p xs c (ground arith) in (ground arith, pass)
]

-- A picked channel is valid at the bandwidth, and has not reverted.
pub pick_channel-is_valid :
    (bw : ℕ) (failed : List ℕ) (c : ℕ)
    → pick_channel_for_bandwidth bw failed ≡ some c
    → (is_valid c bw ≡ true) × (contains failed c ≡ false)
unfolding pick_channel_for_bandwidth is_valid
pick_channel-is_valid bw failed c h =
    let (m, pass) = find-some (λ x. not (contains failed x)) (valid_channels bw) c h in
    (m, ground arith)

-- The next tier up is twice as wide; a bandwidth that is no tier is a ValueError.
pub wider_tier-cases :
    (bw : ℕ)
    → bw ≢ 8
    → ((wider_tier bw ≡ raise value_error) × (contains bandwidth_tiers bw ≡ false))
      ⊎ (wider_tier bw ≡ ok (bw * 2))
unfolding wider_tier
wider_tier-cases bw ne = ground arith

-- The next tier down is half as wide.
pub narrower_tier-cases :
    (bw : ℕ)
    → bw ≢ 1
    → ((narrower_tier bw ≡ raise value_error) × (contains bandwidth_tiers bw ≡ false))
      ⊎ ((narrower_tier bw ≡ ok (bw / 2)) × (bw / 2 * 2 ≡ bw))
unfolding narrower_tier
narrower_tier-cases bw ne = ground arith
