-- ===== src/Backup/File/Laws.antt =====
-- What an import keeps, brings and counts (src/connections/backup.js).
use tedi_sql_explorer.Base.{
  ◌+◌, ◌≡◌, ◌≢◌, refl, sym, ◌∙◌, Bool, true, false, Option, none, some, List, [], ◌∷◌, ◌++◌, arith,
  Text, codes, text_eq, text_eq_iff, All, length, Bool-cases, inl, inr,
}
use tedi_sql_explorer.Connection.{Connection}
use tedi_sql_explorer.Sql.{find_connection}
use tedi_sql_explorer.Backup.File.{
  Keychain, Import, drop_tunnel, find_secret, has_id, replace_connection, import_secret, import_one,
  import_all,
}

-- The documented behaviour of a keychain whose writes succeed.
pub record IsKeychain (K : Keychain) : Type 0 where
  pub read-write : (v : K.Vault) (id p : Text) → K.read (K.write v id p) id ≡ some p
  pub read-wipe : (v : K.Vault) (id : Text) → K.read (K.wipe v id) id ≡ none
  pub read-write_ne :
      (v : K.Vault) (id j p : Text) → id ≢ j → K.read (K.write v id p) j ≡ K.read v j
  pub read-wipe_ne : (v : K.Vault) (id j : Text) → id ≢ j → K.read (K.wipe v id) j ≡ K.read v j

text_eq_ne : (s t : Text) → s ≢ t → text_eq s t ≡ false
text_eq_ne s t h = elim (Bool-cases (text_eq s t)) [
  | inl e ↦ absurd (h ((text_eq_iff s t).0 e))
  | inr e ↦ e
]

find-replace_ne :
    (conn : Connection) (id : Text) (cs : List Connection)
    → conn.id ≢ id
    → find_connection (replace_connection conn cs) id ≡ find_connection cs id
unfolding find_connection replace_connection
find-replace_ne conn id [] h = refl
find-replace_ne conn id (c ∷ cs) h = elim (Bool-cases (text_eq c.id conn.id)) [
  | inl e ↦
      let same : c.id ≡ conn.id = (text_eq_iff c.id conn.id).0 e in
      rw (e, text_eq_ne conn.id id h, text_eq_ne c.id id (λ p. h (sym same ∙ p)))
        (find-replace_ne conn id cs h)
  | inr e ↦ rw (e, find-replace_ne conn id cs h)
]

find-append_ne :
    (conn : Connection) (id : Text) (cs : List Connection)
    → conn.id ≢ id
    → find_connection (cs ++ (conn ∷ [])) id ≡ find_connection cs id
unfolding find_connection
find-append_ne conn id [] h = rw (text_eq_ne conn.id id h)
find-append_ne conn id (c ∷ cs) h = rw (find-append_ne conn id cs h)

drop_tunnel-id : (known : List Text) (c : Connection) → (drop_tunnel known c).0.id ≡ c.id
unfolding drop_tunnel
drop_tunnel-id known c = ground arith

module _ (K : Keychain) (known : List Text) (secrets : List (Text × Text))
    (existing : List Connection) where
  import_one-find_ne :
      (st : Import K) (conn : Connection) (id : Text)
      → conn.id ≢ id
      → find_connection (import_one K known secrets existing st conn).connections id
        ≡ find_connection st.connections id
  unfolding import_one
  import_one-find_ne st conn id h =
      let conn' = (drop_tunnel known conn).0 in
      let ne : conn'.id ≢ id = λ e. h (sym (drop_tunnel-id known conn) ∙ e) in
      elim (Bool-cases (has_id conn'.id existing)) [
        | inl e ↦ rw e (find-replace_ne conn' id st.connections ne)
        | inr e ↦ rw e (find-append_ne conn' id st.connections ne)
      ]

  import_one-vault_ne :
      IsKeychain K
      → (st : Import K) (conn : Connection) (id : Text) → conn.id ≢ id
      → K.read (import_one K known secrets existing st conn).vault id ≡ K.read st.vault id
  unfolding import_one import_secret
  import_one-vault_ne laws st conn id h =
      secret_ne (find_secret conn'.id secrets) (text_eq conn'.kind (codes "sqlite"))
        (has_id conn'.id existing)
    where
      conn' : Connection
      conn' = (drop_tunnel known conn).0

      ne : conn'.id ≢ id
      ne e = h (sym (drop_tunnel-id known conn) ∙ e)

      secret_ne :
          (p : Option Text) (file existed : Bool)
          → K.read (import_secret K p file existed conn'.id st.vault) id ≡ K.read st.vault id
      secret_ne (some p) file existed = laws.read-write_ne st.vault conn'.id id p ne
      secret_ne none true existed = refl
      secret_ne none false true = laws.read-wipe_ne st.vault conn'.id id ne
      secret_ne none false false = refl

  import_all-find_ne :
      (cs : List Connection) (st : Import K) (id : Text)
      → All (λ c. c.id ≢ id) cs
      → find_connection (import_all K known secrets existing st cs).connections id
        ≡ find_connection st.connections id
  unfolding import_all
  import_all-find_ne [] st id h = refl
  import_all-find_ne (c ∷ cs) st id h =
      import_all-find_ne cs (import_one K known secrets existing st c) id h.1
      ∙ import_one-find_ne st c id h.0

  import_all-vault_ne :
      IsKeychain K
      → (cs : List Connection) (st : Import K) (id : Text) → All (λ c. c.id ≢ id) cs
      → K.read (import_all K known secrets existing st cs).vault id ≡ K.read st.vault id
  unfolding import_all
  import_all-vault_ne laws [] st id h = refl
  import_all-vault_ne laws (c ∷ cs) st id h =
      import_all-vault_ne laws cs (import_one K known secrets existing st c) id h.1
      ∙ import_one-vault_ne laws st c id h.0

  -- An import does not touch what it does not name: for an id that no imported record has, the
  -- connection that is saved under it and its stored password are what they were.
  -- The keychain obeys its laws.
  pub import_keeps_others :
      IsKeychain K
      → (cs : List Connection) (st : Import K) (id : Text) → All (λ c. c.id ≢ id) cs
      → (find_connection (import_all K known secrets existing st cs).connections id
          ≡ find_connection st.connections id)
        × (K.read (import_all K known secrets existing st cs).vault id ≡ K.read st.vault id)
  import_keeps_others laws cs st id h =
      (import_all-find_ne cs st id h, import_all-vault_ne laws cs st id h)

  -- Every imported record is counted once, as added or as replaced.
  import_counts :
      (cs : List Connection) (st : Import K)
      → (import_all K known secrets existing st cs).counts.added
          + (import_all K known secrets existing st cs).counts.replaced
        ≡ st.counts.added + st.counts.replaced + length cs
  unfolding import_all
  import_counts [] st = omega arith
  import_counts (c ∷ cs) st =
      omega (arith, import_counts cs (import_one K known secrets existing st c), one)
    where
      one :
          (import_one K known secrets existing st c).counts.added
            + (import_one K known secrets existing st c).counts.replaced
          ≡ st.counts.added + st.counts.replaced + 1
      one = unfold import_one in ground arith
