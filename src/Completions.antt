-- ===== src/Completions.antt =====
-- src/render/completions.js: what the query editor offers for a prefix. `lower` is `toLowerCase`.
mod Tests
use tedi_sql_explorer.Base.{
  ℕ, Bool, true, false, ◌||◌, ◌≡◌, refl, sym, inl, inr, Bool-cases, Option, none, some, List, [],
  ◌∷◌, ◌++◌, Text, codes, text_eq, starts_with, is_empty, filter, map, if◌then◌else◌, All, any,
}
use tedi_sql_explorer.Session.{CacheEntry}
use tedi_sql_explorer.Dialects.{Dialect}
use tedi_sql_explorer.Dialects.Words.{common_keywords, common_functions, common_types}

pub record Item : Type 0 where
  pub label : Text
  pub detail : Text
  pub kind : Text
  pub boost : ℕ

-- A key of `seen` and the item that is pushed under it.
abbrev pub Offer : Type 0
Offer = Text × Item

unfoldable pub qualifier : CacheEntry → Text
unfolding text_eq
qualifier e = if text_eq e.database e.schema then e.database else e.database ++ (b'.' ∷ e.schema)

unfoldable pub table_offer : CacheEntry → List Offer
unfolding qualifier text_eq
table_offer e =
    if is_empty e.table
    then []
    else (
      codes "t:" ++ e.table,
      record {
        label = e.table;
        detail = qualifier e;
        kind = if text_eq e.kind (codes "view") then codes "interface" else codes "class";
        boost = 12;
      },
    )
      ∷ []

unfoldable pub column_offer : Text → Text → Offer
column_offer table col = (
  codes "c:" ++ (col ++ (b':' ∷ table)),
  record { label = col; detail = table; kind = codes "property"; boost = 5 },
)

unfoldable pub entry_offers : List CacheEntry → List Offer
unfolding table_offer column_offer
entry_offers [] = []
entry_offers (e ∷ es) = table_offer e ++ (map (column_offer e.table) e.columns ++ entry_offers es)

unfoldable pub word_offer : ℕ → Text → Text → ℕ → Text → Offer
word_offer letter detail kind boost w =
    (letter ∷ b':' ∷ w, record { label = w; detail = detail; kind = kind; boost = boost })

-- Everything that may be offered, in the order in which it is pushed.
unfoldable pub offers : List CacheEntry → Text → Dialect → List Offer
unfolding entry_offers word_offer
offers cache conn_kind d =
    entry_offers cache
    ++ (map (word_offer b'k' (codes "keyword") (codes "keyword") 10) common_keywords
        ++ (map (word_offer b'k' (conn_kind ++ codes " keyword") (codes "keyword") 10) d.keywords
            ++ (map (word_offer b'f' (codes "function") (codes "function") 8) common_functions
                ++ (map (word_offer b'f' (conn_kind ++ codes " function") (codes "function") 8)
                      d.functions
                    ++ map (word_offer b'y' (codes "type") (codes "type") 3) common_types))))

abbrev pub seen_in : Text → List Text → Bool
unfolding text_eq
seen_in key seen = any (text_eq key) seen

module _ (lower : Text → Text) where
  -- `matches(label)`.
  unfoldable pub matches : Text → Text → Bool
  unfolding starts_with
  matches needle label = is_empty needle || starts_with (lower label) needle

  -- The pushes of the offers that match, without those whose key was seen.
  unfoldable pub pushed : Text → List Text → List Offer → List Item
  unfolding matches seen_in
  pushed needle seen [] = []
  pushed needle seen ((key, item) ∷ rest) =
      let again = seen_in key seen in
      let more = pushed needle (if matches needle item.label then key ∷ seen else seen) rest in
      if matches needle item.label then (if again then more else item ∷ more) else more

  -- `buildSchemaCompletions(session, prefix)`.
  unfoldable pub build_schema_completions : List CacheEntry → Text → Dialect → Text → List Item
  unfolding pushed offers
  build_schema_completions cache conn_kind d prefix =
      pushed (lower prefix) [] (offers cache conn_kind d)

  pushed-match :
      (needle : Text) (seen : List Text) (os : List Offer)
      → All (λ (i : Item). matches needle i.label ≡ true) (pushed needle seen os)
  unfolding pushed
  pushed-match needle seen [] = tt
  pushed-match needle seen ((key, item) ∷ rest) = elim (Bool-cases (matches needle item.label)) [
    | inl m ↦ elim (Bool-cases (seen_in key seen)) [
      | inl s ↦ rw (m, s) (pushed-match needle (key ∷ seen) rest)
      | inr s ↦ rw (m, s) (m, pushed-match needle (key ∷ seen) rest)
    ]
    | inr m ↦ rw m (pushed-match needle seen rest)
  ]

  -- Everything that is offered begins with the prefix, whatever the case of either.
  pub completions-match :
      (cache : List CacheEntry) (conn_kind : Text) (d : Dialect) (prefix : Text)
      → All
          (λ (i : Item). matches (lower prefix) i.label ≡ true)
          (build_schema_completions cache conn_kind d prefix)
  unfolding build_schema_completions
  completions-match cache conn_kind d prefix =
      pushed-match (lower prefix) [] (offers cache conn_kind d)
