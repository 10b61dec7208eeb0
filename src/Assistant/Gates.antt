-- ===== src/Assistant/Gates.antt =====
-- The gates and the caps of the assistant's query (src/ai.js).
use Prim.Native.Nat.{min}
use mathlib.Core.Option.{none-ne-some}
use tedi_sql_explorer.Base.{
  ℕ, ◌≤◌, ◌<◌, ltb, ◌≡◌, refl, sym, ap, ◌∙◌, ◌⊎◌, inl, inr, Bool, true, false, ◌&&◌, Bool-cases,
  Option, none, some, List, [], ◌++◌, Text, arith, trim, is_empty, length, take, drop, length-take,
  take-append-drop, some-inj, if◌then◌else◌,
}
use tedi_sql_explorer.Cell.{Cell}
use tedi_sql_explorer.Connection.{Connection}
use tedi_sql_explorer.Session.{Session}
use tedi_sql_explorer.Sql.{find_connection, is_read_only}
use tedi_sql_explorer.Sql.Destructive.{Reason, destructive_reason}
use tedi_sql_explorer.Assistant.{
  max_rows, Args, starts_write, Request, Verdict, no_connection, empty_sql, read_only, refused,
  sent, request, judged, for_connection, sql_query, rows, Handed, handed_rows, hand_back,
}

-- The request of a verdict, if anything is sent.
unfoldable pub request_of : Verdict → Option Request
request_of no_connection = none
request_of empty_sql = none
request_of (read_only n) = none
request_of (refused d) = none
request_of (sent r) = some r

-- What is known of a statement that is sent.
pub record IsAllowed (conns : List Connection) (args : Args) (r : Request) : Type 0 where
  pub text : r.sql ≡ trim args.sql
  pub not_empty : is_empty r.sql ≡ false
  pub limit : r.row_limit ≡ 201
  pub writable : (is_read_only conns r.conn && starts_write r.sql) ≡ false
  pub safe : (destructive_reason r.sql ≡ none) ⊎ (args.confirm ≡ true)

judged_sent :
    (e w : Bool) (d : Option Reason) (c : Connection) (s : Option Session) (args : Args)
    (r : Request)
    → request_of (judged e w d c s args) ≡ some r
    → (e ≡ false) × (w ≡ false) × ((d ≡ none) ⊎ (args.confirm ≡ true)) × (request c s args ≡ r)
unfolding judged request_of
judged_sent true w d c s args r h = absurd (none-ne-some r h)
judged_sent false true d c s args r h = absurd (none-ne-some r h)
judged_sent false false none c s args r h = (refl, refl, inl refl, some-inj h)
judged_sent false false (some d) c s args r h = elim (Bool-cases args.confirm) [
  | inl k ↦ (
    refl,
    refl,
    inr k,
    some-inj (sym (ap (λ b. request_of (if b then sent (request c s args) else refused d)) k) ∙ h),
  )
  | inr k ↦ absurd (
      none-ne-some r
        (sym (ap (λ b. request_of (if b then sent (request c s args) else refused d)) k) ∙ h))
]

for_connection-IsAllowed :
    (conns : List Connection) (o : Option Connection) (s : Option Session) (args : Args)
    (r : Request)
    → request_of (for_connection conns o s args) ≡ some r
    → IsAllowed conns args r
unfolding for_connection request
for_connection-IsAllowed conns none s args r h = absurd (none-ne-some r (unfold request_of in h))
for_connection-IsAllowed conns (some c) s args r h =
    let (e, w, d, same) =
      judged_sent (is_empty (trim args.sql))
        (is_read_only conns c.id && starts_write (trim args.sql))
        (destructive_reason (trim args.sql)) c s args r h in
    rw (← same) (record { text = refl; not_empty = e; limit = refl; writable = w; safe = d })

-- What the assistant's query sends is the trimmed text, not empty, for at most 201 rows; on a read-only
-- connection it does not begin with a word that writes; and it is not taken for destructive, or the
-- caller confirmed it.
pub sql_query-IsAllowed :
    (conns : List Connection) (s : Option Session) (args : Args) (r : Request)
    → request_of (sql_query conns s args) ≡ some r
    → IsAllowed conns args r
unfolding sql_query
sql_query-IsAllowed conns s args r h =
    for_connection-IsAllowed conns (find_connection conns args.connection_id) s args r h

-- The rows that are handed back for a statement with rows.
abbrev pub handed : Handed → List (List Cell)
handed (handed_rows columns n source here rs) = rs
handed _ = []

abbrev pub cut_here : Handed → Bool
cut_here (handed_rows columns n source here rs) = here
cut_here _ = false

ltb_take : (m n k : ℕ) → k ≡ min m n → ltb m n ≡ ltb k n
ltb_take m n k e = elim (Bool-cases (ltb m n)) [
  | inl l ↦
      let less : m < n = ground arith in let same : k ≡ m = omega (arith, e, less) in rw same refl
  | inr l ↦
      let more : n ≤ m = ground arith in
      let same : k ≡ n = omega (arith, e, more) in rw (same, l) (ground arith)
]

-- At most 200 rows are handed back, they are the first ones, and the flag says whether any were left out.
pub hand_back_lem :
    (columns : List Text) (rs : List (List Cell)) (truncated : Bool)
    → (length {0} (handed (hand_back (rows columns rs truncated))) ≤ 200)
      × (handed (hand_back (rows columns rs truncated)) ++ drop max_rows rs ≡ rs)
      × (cut_here (hand_back (rows columns rs truncated))
          ≡ ltb (length {0} (handed (hand_back (rows columns rs truncated)))) (length {0} rs))
unfolding hand_back
hand_back_lem columns rs truncated = (
  omega (arith, length-take {0} max_rows rs),
  take-append-drop max_rows rs,
  ltb_take max_rows (length {0} rs) (length {0} (take max_rows rs)) (length-take {0} max_rows rs),
)
