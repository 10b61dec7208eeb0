-- ===== src/Dialects/Url.antt =====
-- `buildConnectionUrl` of src/dialects/index.js, with the `encodeURIComponent` of the language. That
-- function throws on a lone surrogate: then there is no URL.
pub mod Authority
use tedi_sql_explorer.Base.{
  ℕ, ◌+◌, ◌-◌, ◌*◌, ◌/◌, ◌%◌, ◌≡◌, ◌≢◌, refl, Bool, true, false, ◌&&◌, ◌||◌, Option, none, some,
  List, [], ◌∷◌, ◌++◌, arith, Text, codes, text_eq, is_empty, replace_char, if◌then◌else◌, ◌==◌,
  leb, or_else, All, All-append, is_word,
}
use tedi_sql_explorer.Connection.{Connection}
use tedi_sql_explorer.Dialects.{Dialect, DialectSsl}

-- A hexadecimal digit, in upper case.
hex : ℕ → ℕ
hex n = if leb n 9 then 48 + n else 55 + n

percent : ℕ → Text
unfolding hex
percent byte = b'%' ∷ hex (byte / 16) ∷ hex (byte % 16) ∷ []

-- The UTF-8 octets of a code point, escaped.
octets : ℕ → Text
unfolding percent
octets c =
    if leb c 0x7f
    then percent c
    else if leb c 0x7ff
    then percent (0xc0 + c / 0x40) ++ percent (0x80 + c % 0x40)
    else if leb c 0xffff
    then percent (0xe0 + c / 0x1000)
      ++ percent (0x80 + c / 0x40 % 0x40)
      ++ percent (0x80 + c % 0x40)
    else percent (0xf0 + c / 0x40000)
      ++ percent (0x80 + c / 0x1000 % 0x40)
      ++ percent (0x80 + c / 0x40 % 0x40)
      ++ percent (0x80 + c % 0x40)

unfoldable pub is_unreserved : ℕ → Bool
unfolding is_word
is_unreserved c =
    is_word c
    || c == b'-'
    || c == b'.'
    || c == b'!'
    || c == b'~'
    || c == b'*'
    || c == b'\''
    || c == b'('
    || c == b')'

abbrev map_text : (Text → Text) → Option Text → Option Text
map_text f none = none
map_text f (some s) = some (f s)

-- The first argument is the high surrogate that was read just before.
encode_from : Option ℕ → Text → Option Text
encode_from none [] = some []
encode_from (some h) [] = none
encode_from none (c ∷ s) =
    let plain = map_text (λ r. c ∷ r) (encode_from none s) in
    let pair = encode_from (some c) s in
    let escaped = map_text (λ r. octets c ++ r) (encode_from none s) in
    if is_unreserved c
    then plain
    else if leb 0xdc00 c && leb c 0xdfff
    then none
    else if leb 0xd800 c && leb c 0xdbff
    then pair
    else escaped
encode_from (some h) (c ∷ s) =
    let point = 0x10000 + (h - 0xd800) * 0x400 + (c - 0xdc00) in
    let pair = map_text (λ r. octets point ++ r) (encode_from none s) in
    if leb 0xdc00 c && leb c 0xdfff then pair else none

unfoldable pub encode_uri_component : Text → Option Text
unfolding encode_from octets is_unreserved
encode_uri_component s = encode_from none s

find_value : Text → List (Text × Text) → Option Text
unfolding text_eq
find_value k [] = none
find_value k ((j, v) ∷ rest) = if text_eq k j then some v else find_value k rest

-- `sslParam(dialect, sslMode)`.
ssl_query : DialectSsl → Text → Text
unfolding find_value
ssl_query ssl mode =
    b'?' ∷ (ssl.param ++ (b'=' ∷ or_else (find_value mode ssl.values) ssl.fallback))

unfoldable pub ssl_param : Dialect → Text → Text
unfolding ssl_query text_eq
ssl_param d mode =
    if is_empty mode || text_eq mode (codes "none")
    then []
    else elim d.ssl [ none ↦ [] | some ssl ↦ ssl_query ssl mode ]

infixl 5 ◌>>=◌
abbrev ◌>>=◌ : Option Text → (Text → Option Text) → Option Text
none >>= f = none
some a >>= f = f a

-- `x ? before + x + after : ""`.
abbrev when_set : Text → Text → Text
when_set [] t = []
when_set (c ∷ s) t = t

file_url : Dialect → Connection → Text
unfolding replace_char text_eq
file_url d form =
    let path = replace_char b'\\' (b'/' ∷ []) form.sqlite_path in
    let ro = if form.sqlite_read_only then codes "?mode=ro" else [] in
    if text_eq path (codes ":memory:")
    then d.url_scheme ++ codes "::memory:"
    else d.url_scheme ++ (codes "://" ++ (path ++ ro))

-- `user:pass@`, `user@` or nothing.
unfoldable pub credentials : Text → Text → Option Text
unfolding encode_uri_component
credentials user password = do
  u ← encode_uri_component user
  p ← encode_uri_component password
  let pass = when_set password (b':' ∷ p)
  some (when_set u (u ++ (pass ++ (b'@' ∷ []))))

-- What follows the credentials.
unfoldable pub location : Dialect → Connection → Option Text
unfolding encode_uri_component ssl_param
location d form = do
  db ← encode_uri_component form.database
  some (
      form.host
      ++ (when_set form.port (b':' ∷ form.port)
          ++ (when_set form.database (b'/' ∷ db) ++ ssl_param d form.ssl_mode)))

server_url : Dialect → Connection → Text → Option Text
unfolding credentials location
server_url d form password = do
  cred ← credentials form.user password
  rest ← location d form
  some (d.url_scheme ++ (codes "://" ++ (cred ++ rest)))

-- `buildConnectionUrl(dialect, form)`: the form is a connection and its password.
unfoldable pub build_connection_url : Dialect → Connection → Text → Option Text
unfolding file_url server_url
build_connection_url d form password =
    if d.file_based then some (file_url d form) else server_url d form password
