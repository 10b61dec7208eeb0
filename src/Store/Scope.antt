-- ===== src/Store/Scope.antt =====
-- The databases that a connection's `database` field names (src/connections/store.js).
use tedi_sql_explorer.Base.{
  grow, split-cons, ℕ, ◌≡◌, ◌≢◌, refl, sym, inl, inr, false, not, some, List, [], ◌∷◌, Text, arith,
  ◌==◌, is_empty, is_space, trim, trim_start, trim_end, split, map, filter, Bool-cases, All, Lacks,
  keep, trim_end-cons, if_false, some-inj, ◌∙◌,
}
use mathlib.Core.Path.{subst}
use tedi_sql_explorer.Connection.{Connection}
use tedi_sql_explorer.Dialects.{get_dialect}
use tedi_sql_explorer.Store.{scoped_databases, connect_target, first_text}

split-ne-nil : (sep : ℕ) (s : Text) → split sep s ≢ []
split-ne-nil sep [] = unfold split in λ e. cc
split-ne-nil sep (c ∷ s) = rw (split-cons sep c s) (grow_ne (split sep s))
  where
    grow_ne : (ps : List Text) → grow sep c ps ≢ []
    grow_ne [] = λ e. cc
    grow_ne (p ∷ ps) = elim (Bool-cases (c == sep)) [
      | inl e ↦ rw e (λ e'. cc)
      | inr e ↦ rw e (λ e'. cc)
    ]

grow-Lacks :
    (sep c : ℕ) (ps : List Text) → ps ≢ [] → All (Lacks sep) ps → All (Lacks sep) (grow sep c ps)
grow-Lacks sep c [] ne h = absurd (ne refl)
grow-Lacks sep c (p ∷ ps) ne h = elim (Bool-cases (c == sep)) [
  | inl e ↦ rw e (tt, h)
  | inr e ↦ rw e ((ground arith, h.0), h.1)
]

-- No part of a split holds the separator.
split-Lacks : (sep : ℕ) (s : Text) → All (Lacks sep) (split sep s)
split-Lacks sep [] = unfold split in (tt, tt)
split-Lacks sep (c ∷ s) =
    rw (split-cons sep c s)
      (grow-Lacks sep c (split sep s) (split-ne-nil sep s) (split-Lacks sep s))

trim_start-Lacks : (c : ℕ) (s : Text) → Lacks c s → Lacks c (trim_start s)
unfolding trim_start
trim_start-Lacks c [] h = tt
trim_start-Lacks c (d ∷ s) h = elim (Bool-cases (is_space d)) [
  | inl e ↦ rw e (trim_start-Lacks c s h.1)
  | inr e ↦ rw e h
]

trim_end-Lacks : (c : ℕ) (s : Text) → Lacks c s → Lacks c (trim_end s)
trim_end-Lacks c [] h = unfold trim_end in tt
trim_end-Lacks c (d ∷ s) h = rw (trim_end-cons d s) (kept (trim_end s) (trim_end-Lacks c s h.1))
  where
    kept : (t : Text) → Lacks c t → Lacks c (keep d t)
    kept [] k = elim (Bool-cases (is_space d)) [ inl e ↦ rw e tt | inr e ↦ rw e (h.0, tt) ]
    kept (x ∷ t) k = (h.0, k)

-- A name of a database in the scope: not blank, and without a comma.
pub record IsName (s : Text) : Type 0 where
  pub not_blank : is_empty s ≡ false
  pub one_name : Lacks b',' s

names-All :
    (ps : List Text)
    → All (Lacks b',') ps
    → All IsName (filter (λ s. not (is_empty s)) (map trim ps))
names-All [] h = tt
names-All (p ∷ ps) h = elim (Bool-cases (is_empty (trim p))) [
  | inl e ↦ rw e (names-All ps h.1)
  | inr e ↦ rw e (
    record {
      not_blank = e;
      one_name = unfold trim in trim_end-Lacks b',' (trim_start p) (trim_start-Lacks b',' p h.0);
    },
    names-All ps h.1,
  )
]

-- Whatever the field holds, each database that the tree is narrowed to is one name: not blank, and
-- without a comma.
scoped_databases-IsName : (conn : Connection) → All IsName (scoped_databases conn)
unfolding scoped_databases
scoped_databases-IsName conn =
    elim (Bool-cases (get_dialect (some conn.kind)).database_is_connect_target) [
      | inl e ↦ rw e tt
      | inr e ↦ rw e (names-All (split b',' conn.database) (split-Lacks b',' conn.database))
    ]

first_text-IsName : (ss : List Text) (t : Text) → All IsName ss → first_text ss ≡ some t → IsName t
first_text-IsName [] t h e = cc
first_text-IsName (s ∷ ss) t h e = subst IsName (some-inj (rw h.0.not_blank at e)) h.0

-- For an engine that filters by the field, what the helper gets as the default database is never a
-- list: when there is one, it is one name, not blank and without a comma.
connect_target-IsName :
    (form : Connection) (t : Text)
    → (get_dialect (some form.kind)).database_is_connect_target ≡ false
    → connect_target form ≡ some t
    → IsName t
unfolding connect_target scoped_databases
connect_target-IsName form t filters e =
    first_text-IsName (scoped_databases form) t (scoped_databases-IsName form)
      (sym (if_false _ _ filters) ∙ e)
