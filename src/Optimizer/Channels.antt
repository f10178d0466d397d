-- ===== src/Optimizer/Channels.antt =====
-- How app/optimizer.py picks a channel and a bandwidth.
pub mod Cycle
pub mod Picks
pub mod RoundRobin
use heltec_wifi_optimization.Prelude.{
  ℕ, ◌+◌, ◌-◌, ◌%◌, not, Option, none, some, List, [], ◌∷◌, map, length, get_or, find, contains,
  index, range_from, if◌then◌else◌, Result, ok, raise, value_error, index_error, ltb,
}
use heltec_wifi_optimization.ChannelPlan.{valid_channels}

-- `start_idx + 1`, where `start_idx` is the index of the current channel, or -1
abbrev pub first_step : List ℕ → ℕ → ℕ
first_step valid cur_channel = elim (index valid cur_channel) [ none ↦ 0 | some i ↦ i + 1 ]

-- `valid[(start_idx + step) % len(valid)]` at `step = k + 1`
abbrev pub candidate : List ℕ → ℕ → ℕ → ℕ
candidate valid cur_channel k = get_or valid ((first_step valid cur_channel + k) % length valid) 0

-- the channels after the current one, in order, round to itself
unfoldable pub candidates : List ℕ → ℕ → List ℕ
candidates valid cur_channel = map (candidate valid cur_channel) (range_from 0 (length valid))

-- the `next(…, None)` of both links
unfoldable pub next_channel : List ℕ → ℕ → List ℕ → Option ℕ
unfolding candidates
next_channel valid cur_channel failed =
    find (λ c. not (contains failed c)) (candidates valid cur_channel)

-- `_pick_channel_for_bandwidth`, on the set of reverted channels
unfoldable pub pick_channel_for_bandwidth : ℕ → List ℕ → Option ℕ
pick_channel_for_bandwidth bandwidth_mhz failed =
    find (λ c. not (contains failed c)) (valid_channels bandwidth_mhz)

abbrev pub bandwidth_tiers : List ℕ
bandwidth_tiers = 1 ∷ 2 ∷ 4 ∷ 8 ∷ []

-- `BANDWIDTH_TIERS[i]`
abbrev pub tier : ℕ → Result ℕ
tier i =
    if ltb i (length bandwidth_tiers) then ok (get_or bandwidth_tiers i 0) else raise index_error

-- `BANDWIDTH_TIERS[BANDWIDTH_TIERS.index(cur_bw) + 1]`
unfoldable pub wider_tier : ℕ → Result ℕ
wider_tier cur_bw = elim (index bandwidth_tiers cur_bw) [
  | none ↦ raise value_error
  | some i ↦ tier (i + 1)
]

-- `BANDWIDTH_TIERS[BANDWIDTH_TIERS.index(cur_bw) - 1]`; called with an index above 0
unfoldable pub narrower_tier : ℕ → Result ℕ
narrower_tier cur_bw = elim (index bandwidth_tiers cur_bw) [
  | none ↦ raise value_error
  | some i ↦ tier (i - 1)
]
