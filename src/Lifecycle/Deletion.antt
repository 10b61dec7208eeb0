-- ===== src/Lifecycle/Deletion.antt =====
-- What a deletion leaves (src/connections/lifecycle.js).
use tedi_sql_explorer.Base.{
  ◌≡◌, ◌≢◌, refl, sym, ◌∙◌, inl, inr, Bool, true, false, not, Option, none, some, List, [], ◌∷◌,
  Text, text_eq, text_eq_iff, text_eq→eq, filter, if◌then◌else◌, Bool-cases, some-inj,
}
use mathlib.Core.Bool.{false≢true}
use tedi_sql_explorer.Connection.{Connection}
use tedi_sql_explorer.Sql.{find_connection}
use tedi_sql_explorer.Backup.File.{Keychain}
use tedi_sql_explorer.Backup.File.Laws.{IsKeychain}
use tedi_sql_explorer.History.{entries}
use tedi_sql_explorer.History.Kept.{entries-remove, entries-remove_ne}
use tedi_sql_explorer.Workbench.{lookup, exists}
use tedi_sql_explorer.Workbench.Maps.{lookup-discard, lookup-discard_ne}
use tedi_sql_explorer.Store.{delete_secret, persist}
use tedi_sql_explorer.Lifecycle.{World, delete_connection, is_file_row, close_active}

-- The rows that a deletion keeps.
abbrev rest : Text → List Connection → List Connection
rest id cs = filter (λ (c : Connection). not (text_eq c.id id)) cs

exists-rest : (id : Text) (cs : List Connection) → exists id (rest id cs) ≡ false
unfolding exists
exists-rest id [] = refl
exists-rest id (c ∷ cs) = elim (Bool-cases (text_eq c.id id)) [
  | inl e ↦ rw e (exists-rest id cs)
  | inr e ↦ rw (e, e) (exists-rest id cs)
]

find-rest :
    (id j : Text) (cs : List Connection)
    → text_eq j id ≡ false
    → find_connection (rest id cs) j ≡ find_connection cs j
unfolding find_connection
find-rest id j [] h = refl
find-rest id j (c ∷ cs) h = elim (Bool-cases (text_eq c.id id)) [
  | inl e ↦ let ne : text_eq c.id j ≡ false = differs c.id e in rw (e, ne) (find-rest id j cs h)
  | inr e ↦ elim (Bool-cases (text_eq c.id j)) [
    | inl e' ↦ rw (e, e')
    | inr e' ↦ rw (e, e') (find-rest id j cs h)
  ]
]
  where
    differs : (i : Text) → text_eq i id ≡ true → text_eq i j ≡ false
    differs i e = elim (Bool-cases (text_eq i j)) [
      | inl e' ↦
          let same : j ≡ id = sym (text_eq→eq i j e') ∙ text_eq→eq i id e in
          absurd (false≢true (sym h ∙ (text_eq_iff j id).1 same))
      | inr e' ↦ e'
    ]

close_active-ne : (id : Text) (a : Option Text) → close_active id a ≢ some id
unfolding close_active
close_active-ne id none = λ e. cc
close_active-ne id (some a) = elim (Bool-cases (text_eq a id)) [
  | inl e ↦ rw e (λ e'. cc)
  | inr e ↦ rw e (λ e'. false≢true (sym e ∙ (text_eq_iff a id).1 (some-inj e')))
]

not_same : (id j : Text) → text_eq j id ≡ false → id ≢ j
not_same id j h e = false≢true (sym h ∙ (text_eq_iff j id).1 (sym e))

module _ (K : Keychain) where
  -- Nothing of a deleted connection is left: its row, session, status and history are gone, it is not
  -- the open one, and on a host that can delete from the keychain a server connection's password is
  -- gone too. The keychain obeys its laws.
  pub delete_connection_lem :
      IsKeychain K
      → (id : Text) (w : World K)
      → (exists id (delete_connection K true id w).state.connections ≡ false)
        × (lookup id (delete_connection K true id w).state.sessions ≡ none)
        × (lookup id (delete_connection K true id w).state.conn_status ≡ none)
        × ((delete_connection K true id w).state.active ≢ some id)
        × (entries id (delete_connection K true id w).history ≡ [])
        × (is_file_row (find_connection w.state.connections id) ≡ false
            → K.read (delete_connection K true id w).vault id ≡ none)
  unfolding delete_connection persist delete_secret
  delete_connection_lem laws id w = (
    exists-rest id w.state.connections,
    lookup-discard id w.state.sessions,
    lookup-discard id w.state.conn_status,
    close_active-ne id w.state.active,
    entries-remove id w.history,
    λ server. rw server (laws.read-wipe w.vault id),
  )

  vault-other :
      IsKeychain K
      → (file can_delete : Bool) (id j : Text) (v : K.Vault) → text_eq j id ≡ false
      → K.read (if file then v else delete_secret K can_delete id v) j ≡ K.read v j
  unfolding delete_secret
  vault-other laws true can_delete id j v h = refl
  vault-other laws false true id j v h = laws.read-wipe_ne v id j (not_same id j h)
  vault-other laws false false id j v h = laws.read-write_ne v id j [] (not_same id j h)

  -- A deletion leaves every other connection as it is: its row, session, status, history and
  -- password, whether or not the host can delete from the keychain.
  -- The keychain obeys its laws.
  pub delete_keeps_others :
      IsKeychain K
      → (can_delete : Bool) (id j : Text) (w : World K) → text_eq j id ≡ false
      → (find_connection (delete_connection K can_delete id w).state.connections j
          ≡ find_connection w.state.connections j)
        × (lookup j (delete_connection K can_delete id w).state.sessions
            ≡ lookup j w.state.sessions)
        × (lookup j (delete_connection K can_delete id w).state.conn_status
            ≡ lookup j w.state.conn_status)
        × (entries j (delete_connection K can_delete id w).history ≡ entries j w.history)
        × (K.read (delete_connection K can_delete id w).vault j ≡ K.read w.vault j)
  unfolding delete_connection persist
  delete_keeps_others laws can_delete id j w h = (
    find-rest id j w.state.connections h,
    lookup-discard_ne id j w.state.sessions h,
    lookup-discard_ne id j w.state.conn_status h,
    entries-remove_ne id j w.history h,
    vault-other laws (is_file_row (find_connection w.state.connections id)) can_delete id j w.vault
        h,
  )
