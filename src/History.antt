-- ===== src/History.antt =====
-- src/query/history.js: the statements that were run, per connection, newest first. The settings of
-- the host and the clock are outside the repository: a history is what `cache` holds once `load` has
-- run, and the time is an argument.
pub mod Kept
pub mod Refining
mod Tests
use tedi_sql_explorer.Base.{
  ℕ, ◌+◌, ◌-◌, ◌/◌, ltb, Bool, true, false, ◌&&◌, ◌||◌, Option, none, some, List, [], ◌∷◌, ◌++◌,
  Text, codes, text_eq, is_empty, trim, if◌then◌else◌, length, take, keyword, skip_spaces,
  starts_word, boundary, test, show_ℕ, ◌==◌,
}
use tedi_sql_explorer.Sql.Destructive.{ends_here, two_words}

pub record Entry : Type 0 where
  pub sql : Text
  pub at : ℕ

-- The object of lists, by connection id.
abbrev pub History : Type 0
History = List (Text × List Entry)

abbrev pub max_entries : ℕ
max_entries = 200

abbrev pub max_sql_length : ℕ
max_sql_length = 20_000

-- `all[connId]`, or `[]`.
unfoldable pub entries : Text → History → List Entry
unfolding text_eq
entries id [] = []
entries id ((j, es) ∷ rest) = if text_eq id j then es else entries id rest

-- `all[connId] = es` and `delete all[connId]`.
unfoldable pub put : Text → List Entry → History → History
unfolding text_eq
put id es [] = (id, es) ∷ []
put id es ((j, fs) ∷ rest) =
    let more = put id es rest in if text_eq id j then (j, es) ∷ rest else (j, fs) ∷ more

unfoldable pub remove : Text → History → History
unfolding text_eq
remove id [] = []
remove id ((j, fs) ∷ rest) =
    let more = remove id rest in if text_eq id j then more else (j, fs) ∷ more

-- `\(\b`: behind the bracket the boundary asks for a word character.
abbrev opens_word : Text → Bool
unfolding starts_word
opens_word [] = false
opens_word (c ∷ s) = c == b'(' && starts_word s

abbrev calls : Option Text → Bool
unfolding skip_spaces opens_word
calls none = false
calls (some s) = opens_word (skip_spaces s)

-- `/\b(IDENTIFIED\s+BY|PASSWORD\s*\(|ENCRYPTED\s+PASSWORD)\b/i`.
unfoldable pub password_at : Option ℕ → Text → Bool
unfolding boundary ends_here two_words keyword calls
password_at prev s =
    boundary prev s
    && (ends_here (two_words (codes "identified") (codes "by") s)
        || calls (keyword (codes "password") s)
        || ends_here (two_words (codes "encrypted") (codes "password") s))

unfoldable pub holds_password : Text → Bool
unfolding password_at test
holds_password s = test password_at s

-- `list[0]?.sql === trimmed`.
unfoldable pub newest_is : Text → List Entry → Bool
unfolding text_eq
newest_is t [] = false
newest_is t (e ∷ es) = text_eq e.sql t

unfoldable pub push : ℕ → Text → Text → History → History
unfolding entries put newest_is
push now id t all =
    let es = entries id all in
    if newest_is t es
    then all
    else put id (take max_entries (record { sql = t; at = now } ∷ es)) all

-- `record(connId, sql)`.
unfoldable pub record_sql : ℕ → Text → Text → History → History
unfolding trim holds_password push
record_sql now id sql all =
    let t = trim sql in
    if is_empty id || is_empty t || ltb max_sql_length (length t)
    then all
    else if holds_password t
    then all
    else push now id t all

-- The calls that reach the history, and what a series of them leaves. `forgetConnection` is `clear`.
pub data Call : Type 0 where
  ran : ℕ → Text → Text → Call
  cleared : Text → Call

unfoldable pub step : Call → History → History
unfolding record_sql remove
step (ran now id sql) all = record_sql now id sql all
step (cleared id) all = remove id all

unfoldable pub run : List Call → History → History
unfolding step
run [] all = all
run (c ∷ cs) all = run cs (step c all)

-- `relativeTime(ts)`: `Math.round` of a quotient of whole numbers, and what is shown for it.
pub data Age : Type 0 where
  just_now : Age
  minutes hours days : ℕ → Age

unfoldable pub round_div : ℕ → ℕ → ℕ
round_div a b = (a + b / 2) / b

unfoldable pub age : ℕ → ℕ → Age
unfolding round_div
age now ts =
    let secs = round_div (now - ts) 1000 in
    let mins = round_div secs 60 in
    let hs = round_div mins 60 in
    if ltb secs 60
    then just_now
    else if ltb mins 60
    then minutes mins
    else if ltb hs 24
    then hours hs
    else days (round_div hs 24)

unfoldable pub age_text : Age → Text
unfolding show_ℕ
age_text just_now = codes "just now"
age_text (minutes n) = show_ℕ n ++ codes "m ago"
age_text (hours n) = show_ℕ n ++ codes "h ago"
age_text (days n) = show_ℕ n ++ codes "d ago"
