-- ===== src/Store/Restoring.antt =====
-- What restoring a workbench, refreshing the saved list and opening a session do to the state
-- (src/connections/store.js).
use tedi_sql_explorer.Base.{
  ℕ, suc, ◌≡◌, refl, sym, ◌∙◌, inl, inr, true, false, not, ◌&&◌, Option, none, some, List, [], ◌∷◌,
  Text, arith, is_empty, text_eq, text_eq→eq, Bool-cases, ◌==◌, ◌⊎◌, ◌<◌, ◌≤◌, ==_iff,
}
use mathlib.Core.Path.{subst}
use tedi_sql_explorer.Connection.{Connection}
use tedi_sql_explorer.Session.{Session}
use tedi_sql_explorer.Workbench.{State, lookup, exists, with_connections, with_sessions}
use tedi_sql_explorer.Workbench.Maps.{lookup-assign, lookup-assign_ne}
use tedi_sql_explorer.Store.{
  fresh_session, session_of, ensured, ensure_session, SavedSession, Saved, refill, restore_one,
  restore_sessions, restore_active, restore, persist, refresh, or_fresh,
}

-- Every session of the state belongs to a connection of the state.
pub record IsTied (st : State) : Type 0 where
  pub tied :
      (id : Text) (s : Session) → lookup id st.sessions ≡ some s → exists id st.connections ≡ true

restore_one-IsTied : (s : Text × SavedSession) (st : State) → IsTied st → IsTied (restore_one s st)
unfolding restore_one with_sessions
restore_one-IsTied (id, s) st h = elim (Bool-cases (exists id st.connections)) [
  | inl e ↦ rw e (record {
    tied = λ j t found. elim (Bool-cases (text_eq j id)) [
      | inl same ↦ rw (text_eq→eq j id same) e
      | inr ne ↦
          h.tied j t
            (sym (lookup-assign_ne id j (refill s (session_of id st)) st.sessions ne) ∙ found)
    ];
  })
  | inr e ↦ rw e h
]

restore_sessions-IsTied :
    (ss : List (Text × SavedSession)) (st : State) → IsTied st → IsTied (restore_sessions ss st)
unfolding restore_sessions
restore_sessions-IsTied [] st h = h
restore_sessions-IsTied (s ∷ ss) st h =
    restore_sessions-IsTied ss (restore_one s st) (restore_one-IsTied s st h)

restore_active-IsTied : (a : Option Text) (st : State) → IsTied st → IsTied (restore_active a st)
unfolding restore_active
restore_active-IsTied none st h = h
restore_active-IsTied (some id) st h =
    elim (Bool-cases (not (is_empty id) && exists id st.connections)) [
      | inl e ↦ rw e (record { tied = h.tied })
      | inr e ↦ rw e h
    ]

-- The open connection is one that exists, or the one that was open before.
abbrev pub ActiveIn : Option Text → State → Type 0
ActiveIn before st =
    (st.active ≡ before) ⊎ ((id : Text) × (st.active ≡ some id) × (exists id st.connections ≡ true))

restore_active-ActiveIn : (a : Option Text) (st : State) → ActiveIn st.active (restore_active a st)
unfolding restore_active
restore_active-ActiveIn none st = inl refl
restore_active-ActiveIn (some id) st =
    elim (Bool-cases (not (is_empty id) && exists id st.connections)) [
      | inl e ↦ rw e (inr (id, refl, ground arith))
      | inr e ↦ rw e (inl refl)
    ]

restore_one-active :
    (s : Text × SavedSession) (st : State)
    → ((restore_one s st).active ≡ st.active) × ((restore_one s st).connections ≡ st.connections)
unfolding restore_one with_sessions
restore_one-active (id, s) st = elim (Bool-cases (exists id st.connections)) [
  | inl e ↦ rw e (refl, refl)
  | inr e ↦ rw e (refl, refl)
]

restore_sessions-active :
    (ss : List (Text × SavedSession)) (st : State)
    → ((restore_sessions ss st).active ≡ st.active)
      × ((restore_sessions ss st).connections ≡ st.connections)
unfolding restore_sessions
restore_sessions-active [] st = (refl, refl)
restore_sessions-active (s ∷ ss) st =
    let (a, c) = restore_sessions-active ss (restore_one s st) in
    let (a', c') = restore_one-active s st in (a ∙ a', c ∙ c')

-- Whatever was saved, restoring opens sessions only for connections that exist, and the connection
-- that is open afterwards exists or was open before.
pub restore-IsTied :
    (saved : Option Saved) (st : State)
    → IsTied st
    → IsTied (restore saved st) × ActiveIn st.active (restore saved st)
unfolding restore
restore-IsTied none st h = (h, inl refl)
restore-IsTied (some saved) st h = (
  restore_active-IsTied saved.active mid (restore_sessions-IsTied saved.sessions st h),
  subst (λ a. ActiveIn a (restore_active saved.active mid))
      (restore_sessions-active saved.sessions st).0 (restore_active-ActiveIn saved.active mid),
)
  where
    mid : State
    mid = restore_sessions saved.sessions st

ensured_idem :
    (o : Option Session) (id : Text) (st : State)
    → lookup id st.sessions ≡ o
    → ensure_session id (ensured o id st) ≡ ensured o id st
unfolding ensure_session ensured with_sessions
ensured_idem none id st e = rw (lookup-assign id (fresh_session id) st.sessions)
ensured_idem (some s) id st e = rw e

ensured-lookup :
    (o : Option Session) (id : Text) (st : State)
    → lookup id st.sessions ≡ o
    → lookup id (ensured o id st).sessions ≡ some (or_fresh id o)
unfolding ensured with_sessions
ensured-lookup none id st e = lookup-assign id (fresh_session id) st.sessions
ensured-lookup (some s) id st e = e

ensured-lookup_ne :
    (o : Option Session) (id j : Text) (st : State)
    → text_eq j id ≡ false
    → lookup j (ensured o id st).sessions ≡ lookup j st.sessions
unfolding ensured with_sessions
ensured-lookup_ne none id j st ne = lookup-assign_ne id j (fresh_session id) st.sessions ne
ensured-lookup_ne (some s) id j st ne = refl

-- Opening a session gives what the state then holds, a second time gives the same state, and the
-- sessions of other connections stay.
ensure_session_lem :
    (id : Text) (st : State)
    → (lookup id (ensure_session id st).sessions ≡ some (session_of id st))
      × (ensure_session id (ensure_session id st) ≡ ensure_session id st)
      × ((j : Text)
          → text_eq j id ≡ false
          → lookup j (ensure_session id st).sessions ≡ lookup j st.sessions)
unfolding ensure_session session_of
ensure_session_lem id st = (
  ensured-lookup (lookup id st.sessions) id st refl,
  ensured_idem (lookup id st.sessions) id st refl,
  λ j ne. ensured-lookup_ne (lookup id st.sessions) id j st ne,
)

-- The list that a refresh leaves. `saved` was read while the revision was `before`.
module _ (print : List Connection → Text) where
  refresh-stale :
      (before : ℕ) (saved : Option (List Connection)) (st : State)
      → before < st.revision
      → refresh print before saved st ≡ (st, false)
  unfolding refresh
  refresh-stale before none st h = refl
  refresh-stale before (some saved) st h =
      let e : (st.revision == before) ≡ false = ground arith in rw e

  refresh-fresh :
      (saved : List Connection) (st : State)
      → (print saved ≡ print st.connections → saved ≡ st.connections)
      → (refresh print st.revision (some saved) st).0.connections ≡ saved
  unfolding refresh with_connections
  refresh-fresh saved st inj =
      let e : (st.revision == st.revision) ≡ true = (==_iff st.revision st.revision).1 refl in
      elim (Bool-cases (text_eq (print saved) (print st.connections))) [
        | inl s ↦ rw (e, s) (sym (inj (text_eq→eq (print saved) (print st.connections) s)))
        | inr s ↦ rw (e, s)
      ]

  -- A read that was in flight while this window saved is dropped: the state stays as it is. A read
  -- that nothing overtook leaves the saved list in the state, when that list and the one in the state
  -- do not print alike without being the same.
  refresh_lem :
      (before : ℕ) (saved : List Connection) (st : State)
      → (print saved ≡ print st.connections → saved ≡ st.connections)
      → before ≤ st.revision
      → (refresh print before (some saved) (persist st).0 ≡ ((persist st).0, false))
        × (before ≡ st.revision → (refresh print before (some saved) st).0.connections ≡ saved)
  unfolding persist
  refresh_lem before saved st inj h = (
    refresh-stale before (some saved) (record st { revision = suc st.revision }) (omega arith),
    λ e. rw e (refresh-fresh saved st inj),
  )
