-- ===== src/Tree/Cache.antt =====
-- Loading a node leaves what is known of the tables, and the connection that is open in the pane,
-- alone (src/tree/data.js).
use mathlib.Core.Bool.{false≢true}
use tedi_sql_explorer.Base.{
  ℕ, ◌≡◌, refl, ap, ◌∙◌, inl, inr, Bool, true, false, Option, none, some, List, [], ◌∷◌, Text,
  text_eq, text_eq→eq, Bool-cases, is_some, All, if◌then◌else◌,
}
use tedi_sql_explorer.Session.{CacheEntry, Session}
use tedi_sql_explorer.Connection.{Connection}
use tedi_sql_explorer.Sql.{find_connection}
use tedi_sql_explorer.Store.{ensure_session, ensured}
use tedi_sql_explorer.Lifecycle.{
  Event, status, dial, pause, failure_toast, connect_with_retry, apply_events, set_conn_state,
}
use tedi_sql_explorer.Workbench.{
  State, Status, idle, connecting, reconnecting, connected, disconnected, error, lookup,
  with_sessions,
}
use tedi_sql_explorer.Workbench.Maps.{lookup-assign, lookup-assign_ne}
use tedi_sql_explorer.Tree.Fetch.{
  Listed, cache_key, known_columns, seed_one, seed, is_connected, is_open, dialled,
  ensure_connected,
}

columns_seed_one :
    (d s : Text) (t : Text × Text) (cache : List (Text × CacheEntry)) (key : Text)
    → known_columns (lookup key (seed_one d s t cache)) ≡ known_columns (lookup key cache)
unfolding seed_one
columns_seed_one d s (name, kind) cache key = elim (Bool-cases (text_eq key (cache_key d s name))) [
  | inl e ↦
      rw (text_eq→eq key (cache_key d s name) e)
        (rw (lookup-assign (cache_key d s name) _ cache) refl)
  | inr e ↦ rw (lookup-assign_ne (cache_key d s name) key _ cache e) refl
]

present_seed_one :
    (d s : Text) (t : Text × Text) (cache : List (Text × CacheEntry)) (key : Text)
    → is_some (lookup key cache) ≡ true
    → is_some (lookup key (seed_one d s t cache)) ≡ true
unfolding seed_one
present_seed_one d s (name, kind) cache key h =
    elim (Bool-cases (text_eq key (cache_key d s name))) [
      | inl e ↦
          rw (text_eq→eq key (cache_key d s name) e)
            (rw (lookup-assign (cache_key d s name) _ cache) refl)
      | inr e ↦ rw (lookup-assign_ne (cache_key d s name) key _ cache e) h
    ]

present_seed :
    (d s : Text) (ts : Listed) (cache : List (Text × CacheEntry)) (key : Text)
    → is_some (lookup key cache) ≡ true
    → is_some (lookup key (seed d s ts cache)) ≡ true
unfolding seed
present_seed d s [] cache key h = h
present_seed d s (t ∷ ts) cache key h =
    present_seed d s ts (seed_one d s t cache) key (present_seed_one d s t cache key h)

seeded_here :
    (d s : Text) (t : Text × Text) (cache : List (Text × CacheEntry))
    → is_some (lookup (cache_key d s t.0) (seed_one d s t cache)) ≡ true
unfolding seed_one
seeded_here d s (name, kind) cache = ap is_some (lookup-assign (cache_key d s name) _ cache)

columns_seed :
    (d s : Text) (ts : Listed) (cache : List (Text × CacheEntry)) (key : Text)
    → known_columns (lookup key (seed d s ts cache)) ≡ known_columns (lookup key cache)
unfolding seed
columns_seed d s [] cache key = refl
columns_seed d s (t ∷ ts) cache key =
    columns_seed d s ts (seed_one d s t cache) key ∙ columns_seed_one d s t cache key

listed_seed :
    (d s : Text) (ts : Listed) (cache : List (Text × CacheEntry))
    → All (λ (t : Text × Text). is_some (lookup (cache_key d s t.0) (seed d s ts cache)) ≡ true) ts
unfolding seed
listed_seed d s [] cache = tt
listed_seed d s (t ∷ ts) cache = (
  present_seed d s ts (seed_one d s t cache) (cache_key d s t.0) (seeded_here d s t cache),
  listed_seed d s ts (seed_one d s t cache),
)

-- Listing the tables of a schema gives each of them an entry of the autocomplete cache, and leaves the
-- columns that are known of every table, listed or not, as they were.
pub seed_lem :
    (d s : Text) (ts : Listed) (cache : List (Text × CacheEntry))
    → ((key : Text)
        → known_columns (lookup key (seed d s ts cache)) ≡ known_columns (lookup key cache))
      × All
          (λ (t : Text × Text). is_some (lookup (cache_key d s t.0) (seed d s ts cache)) ≡ true)
          ts
seed_lem d s ts cache = (columns_seed d s ts cache, listed_seed d s ts cache)

-- What a load may not touch.
pub record SamePane (st st' : State) : Type 0 where
  pub active : st'.active ≡ st.active
  pub connections : st'.connections ≡ st.connections

set_conn_state-SamePane :
    (id : Text) (s : Status) (st : State) → SamePane st (set_conn_state id s st)
unfolding set_conn_state
set_conn_state-SamePane id idle st = record { active = refl; connections = refl }
set_conn_state-SamePane id connecting st = record { active = refl; connections = refl }
set_conn_state-SamePane id reconnecting st = record { active = refl; connections = refl }
set_conn_state-SamePane id connected st = record { active = refl; connections = refl }
set_conn_state-SamePane id disconnected st = record { active = refl; connections = refl }
set_conn_state-SamePane id error st = record { active = refl; connections = refl }

apply_events-SamePane :
    (id : Text) (es : List Event) (st : State) → SamePane st (apply_events id es st)
unfolding apply_events
apply_events-SamePane id [] st = record { active = refl; connections = refl }
apply_events-SamePane id (status s ∷ es) st =
    let a = set_conn_state-SamePane id s st in
    let b = apply_events-SamePane id es (set_conn_state id s st) in
    record { active = b.active ∙ a.active; connections = b.connections ∙ a.connections }
apply_events-SamePane id (dial n ∷ es) st = apply_events-SamePane id es st
apply_events-SamePane id (pause n ∷ es) st = apply_events-SamePane id es st
apply_events-SamePane id (failure_toast ∷ es) st = apply_events-SamePane id es st

ensured-SamePane : (o : Option Session) (id : Text) (st : State) → SamePane st (ensured o id st)
unfolding ensured with_sessions
ensured-SamePane none id st = record { active = refl; connections = refl }
ensured-SamePane (some s) id st = record { active = refl; connections = refl }

ensured-present :
    (o : Option Session) (id : Text) (st : State)
    → lookup id st.sessions ≡ o
    → is_some (lookup id (ensured o id st).sessions) ≡ true
unfolding ensured with_sessions
ensured-present none id st e = ap is_some (lookup-assign id _ st.sessions)
ensured-present (some s) id st e = ap is_some e

-- What `ensureConnected` ends with: the pane as it was and, where it returns, a session.
pub record Ensured (id : Text) (st : State) (r : Bool × State) : Type 0 where
  pub same : SamePane st (r.1)
  pub session : r.0 ≡ true → is_some (lookup id (r.1).sessions) ≡ true

with_session :
    (id : Text) (st st' : State) → SamePane st st' → Ensured id st (true, ensure_session id st')
unfolding ensure_session
with_session id st st' h =
    let k = ensured-SamePane (lookup id st'.sessions) id st' in
    record {
      same = record { active = k.active ∙ h.active; connections = k.connections ∙ h.connections };
      session = λ _. ensured-present (lookup id st'.sessions) id st' refl;
    }

branch :
    (id : Text) (st : State) (b : Bool) (r r' : Bool × State)
    → Ensured id st r
    → Ensured id st r'
    → Ensured id st (if b then r else r')
branch id st true r r' h h' = h
branch id st false r r' h h' = h'

failed_branch : (id : Text) (st st' : State) → SamePane st st' → Ensured id st (false, st')
failed_branch id st st' h = record { same = h; session = λ e. absurd (false≢true e) }

same_refl : (st : State) → SamePane st st
same_refl st = record { active = refl; connections = refl }

dialled-Ensured : (id : Text) (works : ℕ → Bool) (st : State) → Ensured id st (dialled id works st)
unfolding dialled
dialled-Ensured id works st =
    let after = apply_events id (connect_with_retry works).0 st in
    let h = apply_events-SamePane id (connect_with_retry works).0 st in
    branch id st (connect_with_retry works).1 (true, ensure_session id after) (false, after)
      (with_session id st after h) (failed_branch id st after h)

-- Opening the connection that a node needs leaves the pane's connection and the saved connections as
-- they are, whether it was open, is dialled or cannot be reached; where it returns, the connection
-- has a session.
pub ensure_connected-Ensured :
    (id : Text) (opened : Option Bool) (works : ℕ → Bool) (st : State)
    → Ensured id st (ensure_connected id opened works st)
unfolding ensure_connected
ensure_connected-Ensured id opened works st = found (find_connection st.connections id)
  where
    here : Ensured id st (true, ensure_session id st)
    here = with_session id st st (same_refl st)

    tried : Ensured id st (
        if is_connected (lookup id st.conn_status)
        then (true, ensure_session id st)
        else if is_open opened
        then (true, ensure_session id st)
        else dialled id works st)
    tried =
        branch id st (is_connected (lookup id st.conn_status)) _ _ here
          (branch id st (is_open opened) _ _ here (dialled-Ensured id works st))

    found :
        (o : Option Connection)
        → Ensured id st (elim o [
          | none ↦ (false, st)
          | some c ↦
              if is_connected (lookup id st.conn_status)
              then (true, ensure_session id st)
              else if is_open opened
              then (true, ensure_session id st)
              else dialled id works st
        ])
    found none = failed_branch id st st (same_refl st)
    found (some c) = tried
