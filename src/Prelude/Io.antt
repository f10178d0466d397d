-- ===== src/Prelude/Io.antt =====
-- Coroutines that change a state and may raise.
use heltec_wifi_optimization.Prelude.Errors.{Result, ok, raise}

-- A computation that changes the network and may raise.
abbrev pub Io : Type 0 → Type 0 → Type 0
Io W A = W → Result A × W

module _ {W : Type 0} where
  abbrev pub pass_on : {A B : Type 0} → (A → Io W B) → Result A × W → Result B × W
  pass_on f (ok a, w) = f a w
  pass_on f (raise e, w) = (raise e, w)

  infixl 5 ◌>>=◌
  abbrev pub ◌>>=◌ : {A B : Type 0} → Io W A → (A → Io W B) → Io W B
  m >>= f = λ w. pass_on f (m w)

  abbrev pub pure : {A : Type 0} → Result A → Io W A
  pure r = λ w. (r, w)

  -- `async with`
  abbrev pub within : {A : Type 0} → (W → W) → Io W A → Io W A
  within leave body = λ w. let (r, w') = body w in (r, leave w')

  -- `except Exception: pass`
  abbrev pub ignoring : {A : Type 0} → Io W A → Io W (Unit {0})
  ignoring body = λ w. let (_, w') = body w in (ok tt, w')
