-- ===== src/Query/Editable.antt =====
-- src/query/editContext.js and `findCachedMatch` of src/query/sqlRefs.js: which results of a query can
-- be edited in place, and what an edit needs. `lower` is `toLowerCase`; the references of the
-- statement come from `parseSqlReferences`, and whether it selects from one table from
-- `isSingleTableSelect`.
use tedi_sql_explorer.Base.{
  first_some, ℕ, suc, ◌==◌, ◌≡◌, ◌≢◌, Bool, true, not, ◌&&◌, ◌||◌, Option, none, some, List, [],
  ◌∷◌, Text, codes, text_eq, is_empty, filter, find, length, get_elem?, if◌then◌else◌, is_some,
}
use tedi_sql_explorer.Session.{CacheEntry}
use tedi_sql_explorer.TableGrid.{Column, primary_keys}

-- What `/columns` names, and where each key column stands in the result.
pub record EditContext : Type 0 where
  pub entry : CacheEntry
  pub pks : List Text
  pub pk_result_idx : List ℕ
  pub editable : List ℕ

abbrev pub last_part : List Text → Text
last_part [] = []
last_part (p ∷ []) = p
last_part (p ∷ q ∷ ps) = last_part (q ∷ ps)

module _ (lower : Text → Text) where
  -- The candidate that a reference's qualifiers name, for three parts, two parts or one.
  unfoldable pub by_qualifier : List Text → List CacheEntry → Option CacheEntry
  unfolding text_eq
  by_qualifier (db ∷ sch ∷ t ∷ ps) es =
      find (λ (e : CacheEntry). text_eq (lower e.database) db && text_eq (lower e.schema) sch) es
  by_qualifier (q ∷ t ∷ []) es =
      find (λ (e : CacheEntry). text_eq (lower e.database) q || text_eq (lower e.schema) q) es
  by_qualifier (t ∷ []) es = none
  by_qualifier [] es = none

  unfoldable pub in_database : Text → List CacheEntry → Option CacheEntry
  unfolding text_eq
  in_database current es =
      if is_empty current
      then none
      else find (λ (e : CacheEntry). text_eq (lower e.database) current) es

  unfoldable pub best_candidate : List Text → Text → List CacheEntry → Option CacheEntry
  unfolding by_qualifier in_database
  best_candidate parts current es =
      first_some (by_qualifier parts es) (first_some (in_database current es) (find (λ e. true) es))

  -- `findCachedMatch(session, refs)`: a reference without a cached table is passed over.
  unfoldable pub find_cached_match : Text → List CacheEntry → List (List Text) → Option CacheEntry
  unfolding best_candidate text_eq
  find_cached_match current cache [] = none
  find_cached_match current cache (parts ∷ refs) =
      let table = last_part parts in
      let candidates = filter (λ (e : CacheEntry). text_eq (lower e.table) table) cache in
      let rest = find_cached_match current cache refs in
      if is_empty table
      then rest
      else first_some (best_candidate parts (lower current) candidates) rest

  -- `columns.findIndex((name) => name.toLowerCase() === pk.toLowerCase())`.
  unfoldable pub find_index : Text → List Text → Option ℕ
  unfolding text_eq
  find_index pk [] = none
  find_index pk (name ∷ names) =
      let rest = find_index pk names in
      if text_eq (lower name) (lower pk)
      then some 0
      else elim rest [ none ↦ none | some i ↦ some (suc i) ]

  abbrev pub with_index : Option ℕ → Option (List ℕ) → Option (List ℕ)
  with_index none rest = none
  with_index (some i) none = none
  with_index (some i) (some is) = some (i ∷ is)

  -- The loop over the key columns; `none` when one of them is not projected.
  unfoldable pub key_indices : List Text → List Text → Option (List ℕ)
  unfolding find_index
  key_indices columns [] = some []
  key_indices columns (pk ∷ pks) = with_index (find_index pk columns) (key_indices columns pks)

  -- The result columns that are columns of the table; `from` is the index of the first one.
  unfoldable pub editable_columns : List Column → ℕ → List Text → List ℕ
  unfolding text_eq
  editable_columns cols from [] = []
  editable_columns cols from (name ∷ names) =
      let rest = editable_columns cols (suc from) names in
      if is_some (find (λ (c : Column). text_eq (lower c.name) (lower name)) cols)
      then from ∷ rest
      else rest

  abbrev pub context_of : CacheEntry → List Text → Option (List ℕ) → List ℕ → Option EditContext
  context_of e pks none editable = none
  context_of e pks (some idx) [] = none
  context_of e pks (some idx) (c ∷ cs) =
      some (record { entry = e; pks = pks; pk_result_idx = idx; editable = c ∷ cs })

  abbrev pub for_keys : CacheEntry → List Text → List Column → List Text → Option EditContext
  unfolding key_indices editable_columns
  for_keys e columns cols [] = none
  for_keys e columns cols (pk ∷ pks) =
      context_of e (pk ∷ pks) (key_indices columns (pk ∷ pks)) (editable_columns cols 0 columns)

  abbrev pub for_entry :
      Bool → (CacheEntry → List Column) → List Text → Option CacheEntry → Option EditContext
  unfolding for_keys text_eq
  for_entry locked fetch columns none = none
  for_entry locked fetch columns (some e) =
      if text_eq e.kind (codes "view") || locked
      then none
      else for_keys e columns (fetch e) (primary_keys (fetch e))

  -- `resolveQueryEditContext(session, sql, columns)`, with what the statement's analysis says, whether
  -- the connection is read-only, and the columns that `/columns` answers (none when it fails).
  unfoldable pub resolve :
      Bool
      → List (List Text)
      → Bool
      → (CacheEntry → List Column)
      → Text
      → List CacheEntry
      → List Text
      → Option EditContext
  unfolding for_entry find_cached_match
  resolve single refs locked fetch current cache columns =
      if not single || not (length refs == 1)
      then none
      else for_entry locked fetch columns (find_cached_match current cache refs)

  -- Each key column stands where the context says: the result column of that index has its name, up
  -- to case.
  abbrev pub Located : List Text → List Text → List ℕ → Type 0
  Located columns [] [] = Unit
  Located columns [] (i ∷ is) = ⊥
  Located columns (pk ∷ pks) [] = ⊥
  Located columns (pk ∷ pks) (i ∷ is) =
      ((name : Text) × (get_elem? columns i ≡ some name) × (lower name ≡ lower pk))
      × Located columns pks is

  shift : Option ℕ → Option ℕ
  shift none = none
  shift (some i) = some (suc i)

  -- The result column of an index has the name, up to case.
  abbrev pub IsAt : Text → List Text → ℕ → Type 0
  IsAt pk columns i = (name : Text) × (get_elem? columns i ≡ some name) × (lower name ≡ lower pk)

  -- What an edit can rely on.
  pub record IsEditable (columns : List Text) (cols : List Column) (c : EditContext) : Type 0 where
    pub has_key : c.pks ≢ []
    pub whole_key : c.pks ≡ primary_keys cols
    pub located : Located columns c.pks c.pk_result_idx
