-- ===== src/TableGrid/Edits/Requests.antt =====
-- When an edit or a deletion reaches the database, and when it is shown (src/gridedit/cellEdit.js and
-- src/gridedit/rowOps.js).
use tedi_sql_explorer.Base.{
  zero, suc, ◌≡◌, ◌≢◌, refl, sym, ap, ◌∙◌, inl, inr, Bool, true, false, Option, none, some, List,
  [], ◌∷◌, map, Text, Bool-cases, some-inj,
}
use mathlib.Core.Option.{none-ne-some}
use tedi_sql_explorer.Connection.{Connection}
use tedi_sql_explorer.Cell.{Cell}
use tedi_sql_explorer.Session.{Target}
use tedi_sql_explorer.Sql.{Values}
use tedi_sql_explorer.TableGrid.Edits.{
  deep_equal, index_of, cell_of, with_key, pk_map, Answer, affected, unknown, failed, Act, warned,
  reverted, asked, sent_update, sent_delete, written, reported_missing, reported_error,
  reported_done, reloaded, after_update, confirmed_update, confirmed_delete, commit, delete_row,
}

-- The key and value of the first request that is sent.
unfoldable pub sent_key : List Act → Option Values
sent_key [] = none
sent_key (sent_update pk col v ∷ acts) = some pk
sent_key (sent_delete pk ∷ acts) = some pk
sent_key (warned ∷ acts) = sent_key acts
sent_key (reverted ∷ acts) = sent_key acts
sent_key (asked sql ∷ acts) = sent_key acts
sent_key (written v ∷ acts) = sent_key acts
sent_key (reported_missing ∷ acts) = sent_key acts
sent_key (reported_error ∷ acts) = sent_key acts
sent_key (reported_done ∷ acts) = sent_key acts
sent_key (reloaded ∷ acts) = sent_key acts

-- The value that is written into the grid.
unfoldable pub shown_value : List Act → Option Cell
shown_value [] = none
shown_value (written v ∷ acts) = some v
shown_value (sent_update pk col v ∷ acts) = shown_value acts
shown_value (sent_delete pk ∷ acts) = shown_value acts
shown_value (warned ∷ acts) = shown_value acts
shown_value (reverted ∷ acts) = shown_value acts
shown_value (asked sql ∷ acts) = shown_value acts
shown_value (reported_missing ∷ acts) = shown_value acts
shown_value (reported_error ∷ acts) = shown_value acts
shown_value (reported_done ∷ acts) = shown_value acts
shown_value (reloaded ∷ acts) = shown_value acts

with_key-names :
    (pk : Text) (c : Option Cell) (o : Option Values) (vs : Values)
    → with_key pk c o ≡ some vs
    → (rest : Values) × (o ≡ some rest)
      × (map (λ (p : Text × Cell). p.0) vs ≡ pk ∷ map (λ (p : Text × Cell). p.0) rest)
with_key-names pk (some v) (some rest) vs h =
    (rest, refl, ap (map (λ (p : Text × Cell). p.0)) (sym (some-inj h)))
with_key-names pk (some v) none vs h = cc
with_key-names pk none o vs h = cc

-- The key of a row names every column of the primary key, in order.
pk_map-names :
    (columns pks : List Text) (row : List Cell) (vs : Values)
    → pk_map columns pks row ≡ some vs
    → map (λ (p : Text × Cell). p.0) vs ≡ pks
unfolding pk_map
pk_map-names columns [] row vs h = ap (map (λ (p : Text × Cell). p.0)) (sym (some-inj h))
pk_map-names columns (pk ∷ pks) row vs h =
    let (rest, e, names) =
      with_key-names pk (cell_of row (index_of pk columns)) (pk_map columns pks row) vs h in
    names ∙ ap (λ ns. pk ∷ ns) (pk_map-names columns pks row rest e)

sent-after : (v : Cell) (a : Answer) → sent_key (after_update v a) ≡ none
unfolding sent_key
sent-after v failed = refl
sent-after v unknown = refl
sent-after v (affected zero) = refl
sent-after v (affected (suc n)) = refl

module _ (conns : List Connection) (conn_id : Text) (table : Target) (ok : Bool)
    (answer : Answer) where
  confirmed-sent :
      (col : Text) (next : Cell) (o : Option Values) (pk : Values)
      → sent_key (confirmed_update conns conn_id table ok answer col next o) ≡ some pk
      → (ok ≡ true) × (o ≡ some pk)
  unfolding sent_key confirmed_update
  confirmed-sent col next none pk h = absurd (none-ne-some _ h)
  confirmed-sent col next (some vs) pk h = elim (Bool-cases ok) [
    | inl e ↦ (e, rw e at h)
    | inr e ↦ absurd (none-ne-some _ (rw e at h))
  ]

  -- An update is sent only when the value differs from the one the cell had, the user confirmed it,
  -- and the row's key is known: then the key that is sent has a value for each column of the primary
  -- key, in order.
  pub commit-sent :
      (columns pks : List Text) (row : List Cell) (baseline next : Cell) (col : Text) (pk : Values)
      → sent_key (commit conns conn_id table ok answer baseline col next (pk_map columns pks row))
        ≡ some pk
      → (deep_equal next baseline ≡ false) × (ok ≡ true) × (map (λ (p : Text × Cell). p.0) pk ≡ pks)
  unfolding commit sent_key
  commit-sent columns pks row baseline next col pk h =
      elim (Bool-cases (deep_equal next baseline)) [
        | inl e ↦ absurd (none-ne-some _ (rw e at h))
        | inr e ↦
            let (c, k) = confirmed-sent col next (pk_map columns pks row) pk (rw e at h) in
            (e, c, pk_map-names columns pks row pk k)
      ]

  shown-confirmed :
      (col : Text) (next v : Cell) (o : Option Values)
      → shown_value (confirmed_update conns conn_id table ok answer col next o) ≡ some v
      → (v ≡ next) × (answer ≢ failed) × (answer ≢ affected 0)
  unfolding shown_value confirmed_update
  shown-confirmed col next v none h = absurd (none-ne-some _ h)
  shown-confirmed col next v (some vs) h = elim (Bool-cases ok) [
    | inl e ↦ after answer (rw e at h)
    | inr e ↦ absurd (none-ne-some _ (rw e at h))
  ]
    where
      after :
          (a : Answer)
          → shown_value (after_update next a) ≡ some v
          → (v ≡ next) × (a ≢ failed) × (a ≢ affected 0)
      after failed k = absurd (none-ne-some _ k)
      after unknown k = (sym (some-inj k), (λ e. cc), (λ e. cc))
      after (affected zero) k = absurd (none-ne-some _ k)
      after (affected (suc n)) k = (sym (some-inj k), (λ e. cc), (λ e. cc))

  -- A value is written into the grid only when it is the one that was entered, the request did not
  -- fail, and the helper did not say that no row matched.
  pub commit-shown :
      (baseline next v : Cell) (col : Text) (o : Option Values)
      → shown_value (commit conns conn_id table ok answer baseline col next o) ≡ some v
      → (v ≡ next) × (answer ≢ failed) × (answer ≢ affected 0)
  unfolding commit shown_value
  commit-shown baseline next v col o h = elim (Bool-cases (deep_equal next baseline)) [
    | inl e ↦ absurd (none-ne-some _ (rw e at h))
    | inr e ↦ shown-confirmed col next v o (rw e at h)
  ]

  -- A row is deleted only when the user confirmed it, and the key that is sent has a value for each
  -- column of a primary key that is not empty, in order.
  pub delete_row-sent :
      (columns pks : List Text) (row : List Cell) (pk : Values)
      → sent_key (delete_row conns conn_id table ok answer pks columns row) ≡ some pk
      → (ok ≡ true) × (pks ≢ []) × (map (λ (p : Text × Cell). p.0) pk ≡ pks)
  unfolding delete_row sent_key confirmed_delete
  delete_row-sent columns [] row pk h = absurd (none-ne-some _ h)
  delete_row-sent columns (k ∷ ks) row pk h =
      let (c, e) = deleted (pk_map columns (k ∷ ks) row) h in
      (c, (λ e'. cc), pk_map-names columns (k ∷ ks) row pk e)
    where
      deleted :
          (o : Option Values)
          → sent_key (confirmed_delete conns conn_id table ok answer o) ≡ some pk
          → (ok ≡ true) × (o ≡ some pk)
      deleted none d = absurd (none-ne-some _ d)
      deleted (some vs) d = elim (Bool-cases ok) [
        | inl e ↦ (e, rw e at d)
        | inr e ↦ absurd (none-ne-some _ (rw e at d))
      ]
