-- ===== src/ChannelPlan.antt =====
-- app/halow_channel_plan.py: the HaLow channels that are valid at each bandwidth.
pub mod Facts
use heltec_wifi_optimization.Prelude.{ℕ, Bool, List, [], ◌∷◌, ◌==◌, if◌then◌else◌, contains}

-- `US_CHANNELS_BY_BANDWIDTH_MHZ`, by bandwidth
abbrev pub channels_1mhz : List ℕ
channels_1mhz =
    3 ∷ 5 ∷ 7 ∷ 9 ∷ 11 ∷ 13 ∷ 15 ∷ 17 ∷ 19 ∷ 21 ∷ 23 ∷ 25 ∷ 27 ∷ 29 ∷ 31 ∷ 33 ∷ 35 ∷ 37 ∷ 39 ∷ 41
    ∷ 43 ∷ 45 ∷ 47 ∷ 49 ∷ []

abbrev pub channels_2mhz : List ℕ
channels_2mhz = 6 ∷ 10 ∷ 14 ∷ 18 ∷ 22 ∷ 26 ∷ 30 ∷ 34 ∷ 38 ∷ 42 ∷ 46 ∷ []

abbrev pub channels_4mhz : List ℕ
channels_4mhz = 16 ∷ 24 ∷ 32 ∷ 40 ∷ []

abbrev pub channels_8mhz : List ℕ
channels_8mhz = 12 ∷ 28 ∷ 44 ∷ []

unfoldable pub valid_channels : ℕ → List ℕ
valid_channels bandwidth_mhz =
    if bandwidth_mhz == 1
    then channels_1mhz
    else if bandwidth_mhz == 2
    then channels_2mhz
    else if bandwidth_mhz == 4
    then channels_4mhz
    else if bandwidth_mhz == 8
    then channels_8mhz
    else []

unfoldable pub is_valid : ℕ → ℕ → Bool
unfolding valid_channels
is_valid channel bandwidth_mhz = contains (valid_channels bandwidth_mhz) channel
