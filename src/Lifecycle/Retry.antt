-- ===== src/Lifecycle/Retry.antt =====
-- How often a connection is dialled, and what its row shows afterwards (src/connections/lifecycle.js).
use tedi_sql_explorer.Base.{
  ℕ, zero, suc, ◌*◌, ltb, Bool, true, false, ◌||◌, List, [], ◌∷◌, if◌then◌else◌,
}
use tedi_sql_explorer.Workbench.{Status, connected, error}
use tedi_sql_explorer.Lifecycle.{Event, status, dial, pause, failure_toast, max_connect_attempts}

-- How many times the helper is asked to connect.
pub dials : List Event → ℕ
dials [] = 0
dials (status s ∷ es) = dials es
dials (dial n ∷ es) = suc (dials es)
dials (pause n ∷ es) = dials es
dials (failure_toast ∷ es) = dials es

-- Whether one of the next `left` attempts succeeds.
pub some_work : (ℕ → Bool) → ℕ → ℕ → Bool
some_work works zero attempt = false
some_work works (suc left) attempt = works attempt || some_work works left (suc attempt)

-- What the row shows.
abbrev pub shown : Bool → Status
shown true = connected
shown false = error

-- What the failed round adds before the rest of the rounds.
abbrev waited : ℕ → List Event → List Event
waited n es = if ltb n max_connect_attempts then pause (400 * n) ∷ es else es
