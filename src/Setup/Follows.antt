-- ===== src/Setup/Follows.antt =====
-- What `provision` of app/device_client.py does to a device, call by call.
use mathlib.Core.List.{append-nil, append_assoc}
use heltec_wifi_optimization.Prelude.{
  ℕ, ◌≡◌, sym, ap, ◌∙◌, Bool, true, false, List, [], ◌∷◌, ◌++◌, Result, ok, raise,
}
use heltec_wifi_optimization.Ssh.{Reply}
use heltec_wifi_optimization.AgentClient.{succeeded}
use heltec_wifi_optimization.Prelude.Io.{Io, pass_on, ◌>>=◌, within}
use heltec_wifi_optimization.Setup.{LocalFile, SetupCommand, reboot}

-- the calls that change the device
pub data Action : Type 0 where
  ran : SetupCommand → Action
  copied : LocalFile → Action
  wrote : List ℕ → Action

-- The actions of a plan that were carried out, each with whether it succeeded, and whether the
-- computation went on to its end: it stops at the first action that fails, or raises between two
-- actions. What a reboot answers does not matter.
pub data Follows : List Action → List (Action × Bool) → Bool → Type 0 where
  finished : Follows [] [] true
  goes_on :
      {x : Action} {plan : List Action} {done : List (Action × Bool)} {b : Bool}
      → Follows plan done b
      → Follows (x ∷ plan) ((x, true) ∷ done) b
  stops_at : {x : Action} {plan : List Action} → Follows (x ∷ plan) ((x, false) ∷ []) false
  stops_before : {plan : List Action} → Follows plan [] false
  reboots :
      {answered : Bool} {plan : List Action} {done : List (Action × Bool)} {b : Bool}
      → Follows plan done b
      → Follows (ran reboot ∷ plan) ((ran reboot, answered) ∷ done) b

-- A plan of two parts: the second one is begun if the first one went on to its end.
pub Follows-append_true :
    {plan rest : List Action} {d e : List (Action × Bool)} {b : Bool}
    → Follows plan d true
    → Follows rest e b
    → Follows (plan ++ rest) (d ++ e) b
Follows-append_true finished h = h
Follows-append_true (goes_on f) h = goes_on (Follows-append_true f h)
Follows-append_true (reboots f) h = reboots (Follows-append_true f h)

pub Follows-append_false :
    {plan : List Action} {d : List (Action × Bool)} (rest : List Action)
    → Follows plan d false
    → Follows (plan ++ rest) d false
Follows-append_false rest (goes_on f) = goes_on (Follows-append_false rest f)
Follows-append_false rest stops_at = stops_at
Follows-append_false rest stops_before = stops_before
Follows-append_false rest (reboots f) = reboots (Follows-append_false rest f)

pub Follows-single : (x : Action) (b : Bool) → Follows (x ∷ []) ((x, b) ∷ []) b
Follows-single x true = goes_on finished
Follows-single x false = stops_at

abbrev pub is_ok : {A : Type 0} → Result A → Bool
is_ok (ok a) = true
is_ok (raise e) = false

-- whether a command exited with status 0
abbrev pub exited_zero : Result Reply → Bool
exited_zero (ok reply) = succeeded reply
exited_zero (raise e) = false

module _ {W : Type 0} (log : W → List (Action × Bool)) where
  -- Where a computation that started at `w` has come to.
  abbrev pub Done : {A : Type 0} → List Action → W → Result A × W → Type 0
  Done actions w (r, w') =
      (done : List (Action × Bool)) × (log w' ≡ log w ++ done) × Follows actions done (is_ok r)

  abbrev pub Does : {A : Type 0} → List Action → Io W A → Type 0
  Does actions m = (w : W) → Done actions w (m w)

  pub pass_on-Done :
      {A B : Type 0} {plan rest : List Action} (f : A → Io W B) (w : W) (r : Result A × W)
      → Done plan w r
      → ((a : A) → Does rest (f a))
      → Done (plan ++ rest) w (pass_on f r)
  pass_on-Done {rest = rest} f w (raise e, w') (d, here, follows) h =
      (d, here, Follows-append_false rest follows)
  pass_on-Done f w (ok a, w') (d, here, follows) h =
      let (e, there, follows') = h a w' in
      (
        d ++ e,
        there ∙ ap (λ l. l ++ e) here ∙ append_assoc (log w) d e,
        Follows-append_true follows follows',
      )

  pub >>=-Does :
      {A B : Type 0} {plan rest : List Action} (m : Io W A) (f : A → Io W B)
      → Does plan m
      → ((a : A) → Does rest (f a))
      → Does (plan ++ rest) (m >>= f)
  >>=-Does m f does h w = pass_on-Done f w (m w) (does w) h

  -- A call that changes nothing on the device.
  pub quiet-Done : {A : Type 0} (w w' : W) (r : Result A) → log w' ≡ log w → Done [] w (r, w')
  quiet-Done w w' (ok a) same = ([], same ∙ sym (append-nil (log w)), finished)
  quiet-Done w w' (raise e) same = ([], same ∙ sym (append-nil (log w)), stops_before)

  pub within-Does :
      {A : Type 0} {plan : List Action} (leave : W → W) (body : Io W A)
      → ((w : W) → log (leave w) ≡ log w)
      → Does plan body
      → Does plan (within leave body)
  within-Does leave body same does w =
      let (d, here, follows) = does w in (d, same (body w).1 ∙ here, follows)
