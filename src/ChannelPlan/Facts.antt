-- ===== src/ChannelPlan/Facts.antt =====
-- How the channel numbering depends on the bandwidth (app/halow_channel_plan.py).
use heltec_wifi_optimization.Prelude.{
  ℕ, ◌%◌, ◌∙◌, sym, ◌≡◌, refl, true, Bool, [], ◌∷◌, List, arith, contains, ◌==◌, all, if◌then◌else◌,
}
use heltec_wifi_optimization.ChannelPlan.{
  channels_1mhz, channels_2mhz, channels_4mhz, channels_8mhz, is_valid,
}

-- A property of each channel of a list, checked by evaluation, holds of each member.
pub all-contains :
    (test : ℕ → Bool) (xs : List ℕ) (c : ℕ)
    → all test xs ≡ true
    → contains xs c ≡ true
    → test c ≡ true
all-contains test [] c h m = cc
all-contains test (x ∷ xs) c h m = ground (arith, all-contains test xs c)

-- The bandwidth that a channel number belongs to, read off the number itself.
pub bandwidth_of : ℕ → ℕ
bandwidth_of c = if c % 2 == 1 then 1 else if c % 4 == 2 then 2 else if c % 8 == 0 then 4 else 8

tables :
    (all (λ c. bandwidth_of c == 1) channels_1mhz ≡ true)
    × (all (λ c. bandwidth_of c == 2) channels_2mhz ≡ true)
    × (all (λ c. bandwidth_of c == 4) channels_4mhz ≡ true)
    × (all (λ c. bandwidth_of c == 8) channels_8mhz ≡ true)
unfolding bandwidth_of
tables = (refl, refl, refl, refl)

-- A channel is valid at no bandwidth but the one that its number belongs to.
pub is_valid-bandwidth_of : (c b : ℕ) → is_valid c b ≡ true → b ≡ bandwidth_of c
unfolding is_valid
is_valid-bandwidth_of c b h = ground (
  arith,
  all-contains (λ c. bandwidth_of c == 1) channels_1mhz c tables.0,
  all-contains (λ c. bandwidth_of c == 2) channels_2mhz c tables.1,
  all-contains (λ c. bandwidth_of c == 4) channels_4mhz c tables.2,
  all-contains (λ c. bandwidth_of c == 8) channels_8mhz c tables.3,
)

-- No channel is valid at two bandwidths.
pub is_valid_unique : (c b b' : ℕ) → is_valid c b ≡ true → is_valid c b' ≡ true → b ≡ b'
is_valid_unique c b b' h h' = is_valid-bandwidth_of c b h ∙ sym (is_valid-bandwidth_of c b' h')
