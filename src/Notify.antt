-- ===== src/Notify.antt =====
-- app/notify.py: best-effort pushes. What the HTTP request does is not modelled: `_send` may raise,
-- and `notify` swallows it, so a push is an entry in `pushes` and nothing else.
use text.Mathlib.Text.{◌==◌ as str_eq}
use heltec_wifi_optimization.Prelude.{Bool, not, ◌&&◌, List, [], ◌∷◌, ◌++◌, if◌then◌else◌}
use heltec_wifi_optimization.Db.{Db, Alert, AppSettings}

-- `ntfy_url` and `ntfy_topic` are both set
unfoldable pub configured : AppSettings → Bool
configured row = not (str_eq row.ntfy_url "") && not (str_eq row.ntfy_topic "")

-- the pushes sent so far, after one more `notify`
unfoldable pub push : {F : Type 0} → Alert F → AppSettings → List (Alert F) → List (Alert F)
unfolding configured
push alert row pushes = if configured row then pushes ++ alert ∷ [] else pushes

unfoldable pub notify : {F : Type 0} → Alert F → Db F → Db F
notify alert db = record db { pushes = push alert db.app_settings db.pushes }
