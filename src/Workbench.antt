-- ===== src/Workbench.antt =====
-- The module state of src/runtime.js, as far as the connections, their sessions and their status go.
-- An object that is used as a map is an association list, in the order of its keys.
pub mod Maps
use tedi_sql_explorer.Base.{
  ℕ, Bool, true, false, Option, none, some, List, [], ◌∷◌, Text, text_eq, if◌then◌else◌, any,
}
use tedi_sql_explorer.Connection.{Connection}
use tedi_sql_explorer.Session.{Session}

pub data Status : Type 0 where
  idle connecting reconnecting connected disconnected error : Status

-- `revision` is the counter of src/connections/store.js.
pub record State : Type 0 where
  pub connections : List Connection
  pub active : Option Text
  pub sessions : List (Text × Session)
  pub conn_status : List (Text × Status)
  pub revision : ℕ

module _ {ℓ} {A : Type ℓ} where
  -- `map[key]`, `map[key] = value` and `delete map[key]`.
  unfoldable pub lookup : Text → List (Text × A) → Option A
  unfolding text_eq
  lookup key [] = none
  lookup key ((k, a) ∷ rest) = if text_eq key k then some a else lookup key rest

  unfoldable pub assign : Text → A → List (Text × A) → List (Text × A)
  unfolding text_eq
  assign key a [] = (key, a) ∷ []
  assign key a ((k, b) ∷ rest) =
      let more = assign key a rest in if text_eq key k then (k, a) ∷ rest else (k, b) ∷ more

  unfoldable pub discard : Text → List (Text × A) → List (Text × A)
  unfolding text_eq
  discard key [] = []
  discard key ((k, b) ∷ rest) =
      let more = discard key rest in if text_eq key k then more else (k, b) ∷ more

-- `state.connections.some((c) => c.id === id)`.
unfoldable pub exists : Text → List Connection → Bool
unfolding text_eq
exists id conns = any (λ c. text_eq c.id id) conns

unfoldable pub with_connections : List Connection → State → State
with_connections cs st = record st { connections = cs }

unfoldable pub with_sessions : List (Text × Session) → State → State
with_sessions ss st = record st { sessions = ss }
