-- ===== src/CopyInfo/Command.antt =====
-- The words of the command that a copied connection offers (src/connections/copyInfo.js).
use tedi_sql_explorer.Base.{
  ℕ, ◌≡◌, false, Option, none, some, List, [], ◌∷◌, ◌++◌, Text, codes, is_empty,
}
use tedi_sql_explorer.Connection.{Connection}
use tedi_sql_explorer.CopyInfo.Shell.{IsPlain, Arg, bare, literal, joined}

-- An option and its value, or nothing for an empty value.
abbrev pub option_words : Text → Text → List Text
option_words flag [] = []
option_words flag (c ∷ s) = flag ∷ (c ∷ s) ∷ []

abbrev pub env_words : Option Text → List Text
env_words none = []
env_words (some []) = []
env_words (some (c ∷ s)) = (codes "PGPASSWORD=" ++ (c ∷ s)) ∷ []

abbrev pub password_words : Option Text → List Text
password_words none = codes "-p" ∷ []
password_words (some []) = []
password_words (some (c ∷ s)) = (codes "-p" ++ (c ∷ s)) ∷ []

abbrev option_args : ℕ → Text → List Arg
option_args x [] = []
option_args x (c ∷ s) = bare b'-' (x ∷ []) ∷ literal (c ∷ s) ∷ []

abbrev password_args : Option Text → List Arg
password_args none = bare b'-' (codes "p") ∷ []
password_args (some []) = []
password_args (some (c ∷ s)) = joined b'-' (codes "p") (c ∷ s) ∷ []

-- A host and a port as the command needs them: not empty, and without blanks, quotes and backslashes.
pub record IsServer (form : Connection) : Type 0 where
  pub host_full : is_empty form.host ≡ false
  pub host_plain : IsPlain form.host
  pub port_full : is_empty form.port ≡ false
  pub port_plain : IsPlain form.port

-- The part behind the program's name.
server : Text → Text → ℕ → Text → Text
server host port x rest = codes " -h " ++ (host ++ (b' ' ∷ b'-' ∷ x ∷ b' ' ∷ (port ++ rest)))

-- The words of the two clients' commands.
abbrev pub psql_words : Connection → List Text
psql_words form =
    codes "psql"
    ∷ codes "-h"
    ∷ form.host
    ∷ codes "-p"
    ∷ form.port
    ∷ (option_words (codes "-U") form.user ++ option_words (codes "-d") form.database)

abbrev pub mysql_words : Connection → Option Text → List Text
mysql_words form password =
    codes "mysql"
    ∷ codes "-h"
    ∷ form.host
    ∷ codes "-P"
    ∷ form.port
    ∷ (option_words (codes "-u") form.user
        ++ (password_words password ++ option_words (codes "-D") form.database))
