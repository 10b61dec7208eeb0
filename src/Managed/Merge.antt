-- ===== src/Managed/Merge.antt =====
-- What a merge does to the saved rows (src/connections/managed.js).
use tedi_sql_explorer.Base.{
  ◌≡◌, refl, ap, ◌∙◌, inl, inr, Bool, true, false, not, Option, none, some, List, [], ◌∷◌, ◌++◌,
  Bool-cases, All, filter, append-nil, codes, if◌then◌else◌,
}
use tedi_sql_explorer.Connection.{Connection}
use tedi_sql_explorer.Json.{Json, null, bool, number, text, array, object, get_field}
use tedi_sql_explorer.Backup.{sanitize_connection}
use tedi_sql_explorer.Backup.Sound.{IsSound, sanitize-IsSound}
use tedi_sql_explorer.Backup.File.{valid_kinds, as_list, is_known_version}
use tedi_sql_explorer.Managed.{
  is_managed, keep_managed, offers, offered_fields, read_offered, is_handoff_kind, offer_of,
  readdress, moved, keep_rows, is_seen, new_rows, merge,
}

-- A row that may be published: its id has the prefix, and it passed the checks of an import.
pub record IsOffer (c : Connection) : Type 0 where
  pub managed : is_managed c.id ≡ true
  pub sound : IsSound valid_kinds c

offers-IsOffer : (js : List Json) → All IsOffer (offers js)
unfolding offers
offers-IsOffer [] = tt
offers-IsOffer (j ∷ js) = step (sanitize_connection j valid_kinds) refl (offers-IsOffer js)
  where
    step :
        (o : Option Connection)
        → sanitize_connection j valid_kinds ≡ o
        → All IsOffer (offers js)
        → All IsOffer (keep_managed o (offers js))
    step none e h = h
    step (some c) e h = elim (Bool-cases (is_managed c.id)) [
      | inl m ↦ rw m (record { managed = m; sound = sanitize-IsSound j valid_kinds e }, h)
      | inr m ↦ rw m h
    ]

gated :
    (a b : Bool) (cs : List Connection)
    → All IsOffer cs
    → All IsOffer (if a then [] else if b then [] else cs)
gated true b cs h = tt
gated false true cs h = tt
gated false false cs h = h

-- Whatever the published file holds, every row that is taken from it has an id with the prefix of the
-- Dev Environment and passed the checks of an import.
pub read_offered-IsOffer : (raw : Option Json) → All IsOffer (read_offered raw)
unfolding read_offered offered_fields
read_offered-IsOffer none = tt
read_offered-IsOffer (some (object fs)) =
    gated (not (is_handoff_kind (get_field (codes "kind") fs)))
      (not (is_known_version (get_field (codes "version") fs)))
      (offers (as_list (get_field (codes "connections") fs)))
      (offers-IsOffer (as_list (get_field (codes "connections") fs)))
read_offered-IsOffer (some null) = tt
read_offered-IsOffer (some (bool b)) = tt
read_offered-IsOffer (some (number n)) = tt
read_offered-IsOffer (some (text s)) = tt
read_offered-IsOffer (some (array js)) = tt

-- A row that the user typed.
abbrev pub is_own : Connection → Bool
is_own c = not (is_managed c.id)

own-readdress : (c o : Connection) → is_own (readdress c o) ≡ is_own c
unfolding readdress
own-readdress c o = refl

own-moved :
    (c : Connection) (o : Option Connection) (cs : List Connection)
    → is_own c ≡ false
    → filter is_own (moved c o cs) ≡ filter is_own cs
unfolding moved
own-moved c none cs h = refl
own-moved c (some o) cs h = rw (own-readdress c o, h)

own-keep_rows :
    (offered saved : List Connection)
    → filter is_own (keep_rows offered saved) ≡ filter is_own saved
unfolding keep_rows
own-keep_rows offered [] = refl
own-keep_rows offered (c ∷ cs) = elim (Bool-cases (is_own c)) [
  | inl e ↦ rw (e, e, own-keep_rows offered cs)
  | inr e ↦
      rw (e)
        (own-moved c (offer_of c.id offered) (keep_rows offered cs) e ∙ own-keep_rows offered cs)
]

own-new_rows :
    (saved offered : List Connection)
    → All IsOffer offered
    → filter is_own (new_rows saved offered) ≡ []
unfolding new_rows
own-new_rows saved [] h = refl
own-new_rows saved (o ∷ os) h = elim (Bool-cases (is_seen o.id saved)) [
  | inl e ↦ rw e (own-new_rows saved os h.1)
  | inr e ↦ rw (e, h.0.managed) (own-new_rows saved os h.1)
]

filter-append :
    (p : Connection → Bool) (xs ys : List Connection)
    → filter p (xs ++ ys) ≡ filter p xs ++ filter p ys
filter-append p [] ys = refl
filter-append p (x ∷ xs) ys = elim (Bool-cases (p x)) [
  | inl e ↦ rw (e, filter-append p xs ys)
  | inr e ↦ rw (e, filter-append p xs ys)
]

-- The rows that the user typed are the same after a merge with the file, field by field and in the
-- same order, whatever the file holds.
pub own-merge :
    (raw : Option Json) (saved : List Connection)
    → filter is_own (merge (read_offered raw) saved) ≡ filter is_own saved
unfolding merge
own-merge raw saved =
    let offered = read_offered raw in
    filter-append is_own (keep_rows offered saved) (new_rows saved offered)
    ∙ ap (λ cs. filter is_own (keep_rows offered saved) ++ cs)
        (own-new_rows saved offered (read_offered-IsOffer raw))
    ∙ append-nil (filter is_own (keep_rows offered saved))
    ∙ own-keep_rows offered saved

readdressed : Connection → Option Connection → Option Connection
readdressed o none = none
readdressed o (some c) = some (readdress c o)
