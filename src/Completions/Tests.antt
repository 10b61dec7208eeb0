-- ===== src/Completions/Tests.antt =====
-- A run of src/render/completions.js at a concrete cache.
use tedi_sql_explorer.Base.{◌≡◌, refl, [], ◌∷◌, codes, map}
use tedi_sql_explorer.Session.{CacheEntry}
use tedi_sql_explorer.Completions.{Item, entry_offers, pushed}

abbrev users : CacheEntry
users = record {
  database = codes "app";
  schema = codes "app";
  table = codes "users";
  kind = codes "view";
  columns = codes "user_id" ∷ codes "name" ∷ [];
}

-- The second entry of the same table is not offered again.
offers_run :
    map
      (λ (i : Item). i.label)
      (pushed (λ s. s) (codes "us") [] (entry_offers (users ∷ users ∷ [])))
    ≡ codes "users" ∷ codes "user_id" ∷ []
unfolding pushed entry_offers
offers_run = refl
