-- ===== src/Dialects/Url/Authority.antt =====
-- Where a URL parser finds the user, the password and the server in what `buildConnectionUrl` of
-- src/dialects/index.js writes.
use tedi_sql_explorer.Base.{
  ℕ, ◌≡◌, ◌≢◌, refl, sym, ap, Bool, true, false, Option, none, some, [], ◌∷◌, ◌++◌, append_assoc,
  append-nil, arith, Text, codes, is_word, if◌then◌else◌, ◌==◌, All, All-append, ==_refl, drop,
}
use mathlib.Core.Path.{subst}
use tedi_sql_explorer.Connection.{Connection}
use tedi_sql_explorer.Dialects.{Dialect}
use tedi_sql_explorer.Dialects.Url.{
  hex, percent, octets, is_unreserved, map_text, encode_from, encode_uri_component, when_set,
  credentials, location, build_connection_url,
}

abbrev before : ℕ → Option (Text × Text) → Option (Text × Text)
before c none = none
before c (some (p, rest)) = some (c ∷ p, rest)

-- The text before the first `sep`, and the text behind it.
unfoldable pub cut_at : ℕ → Text → Option (Text × Text)
cut_at sep [] = none
cut_at sep (c ∷ s) = let more = before c (cut_at sep s) in if c == sep then some ([], s) else more

abbrev Lacks : ℕ → Text → Type 0
Lacks sep = All (λ c. c ≢ sep)

cut_at-append :
    (sep : ℕ) (s rest : Text) → Lacks sep s → cut_at sep (s ++ sep ∷ rest) ≡ some (s, rest)
unfolding cut_at
cut_at-append sep [] rest h = rw (==_refl sep)
cut_at-append sep (c ∷ s) rest h = ground (arith, cut_at-append sep s rest h.1)

-- A text with no `@` and no `:` in it.
record IsPlain (s : Text) : Type 0 where
  no_at : Lacks b'@' s
  no_colon : Lacks b':' s

IsPlain-append : (s t : Text) → IsPlain s → IsPlain t → IsPlain (s ++ t)
IsPlain-append s t hs ht = record {
  no_at = All-append _ s t hs.no_at ht.no_at;
  no_colon = All-append _ s t hs.no_colon ht.no_colon;
}

IsPlain-if : (b : Bool) (s t : Text) → IsPlain s → IsPlain t → IsPlain (if b then s else t)
IsPlain-if true s t hs ht = hs
IsPlain-if false s t hs ht = ht

IsPlain-percent : (b : ℕ) → IsPlain (percent b)
unfolding percent hex
IsPlain-percent b = ground arith

IsPlain-octets : (c : ℕ) → IsPlain (octets c)
unfolding octets
IsPlain-octets c = search (IsPlain-if, IsPlain-append, IsPlain-percent) depth 8

IsPlain-nil : IsPlain []
IsPlain-nil = omega arith

IsPlain-cons : (c : ℕ) (s : Text) → is_unreserved c ≡ true → IsPlain s → IsPlain (c ∷ s)
unfolding is_unreserved is_word
IsPlain-cons c s safe h = record {
  no_at = (ground arith, h.no_at);
  no_colon = (ground arith, h.no_colon);
}

-- The result is plain, if there is one.
data Each : Option Text → Type 0 where
  nothing : Each none
  just : (r : Text) → IsPlain r → Each (some r)

Each-map :
    (f : Text → Text) (o : Option Text)
    → ((r : Text) → IsPlain r → IsPlain (f r))
    → Each o
    → Each (map_text f o)
Each-map f none keep h = nothing
Each-map f (some r) keep (just _ h) = just (f r) (keep r h)

Each-if : (b : Bool) (x y : Option Text) → (b ≡ true → Each x) → Each y → Each (if b then x else y)
Each-if true x y hx hy = hx refl
Each-if false x y hx hy = hy

Each-some : {r : Text} → Each (some r) → IsPlain r
Each-some (just r h) = h

encode_from-Each : (p : Option ℕ) (s : Text) → Each (encode_from p s)
unfolding encode_from
encode_from-Each none [] = just [] IsPlain-nil
encode_from-Each (some h) [] = nothing
encode_from-Each none (c ∷ s) =
    let rest = encode_from-Each none s in
    let pair = encode_from-Each (some c) s in
    search (Each-if, Each-map, IsPlain-cons, IsPlain-append, IsPlain-octets, nothing) depth 8
encode_from-Each (some h) (c ∷ s) =
    let rest = encode_from-Each none s in
    search (Each-if, Each-map, IsPlain-append, IsPlain-octets, nothing) depth 8

encode-IsPlain : (s : Text) {r : Text} → encode_uri_component s ≡ some r → IsPlain r
unfolding encode_uri_component
encode-IsPlain s e = Each-some (subst Each e (encode_from-Each none s))

-- The result is not empty, if there is one.
data Begins : Option Text → Type 0 where
  absent : Begins none
  begun : (c : ℕ) (r : Text) → Begins (some (c ∷ r))

Begins-if : (b : Bool) (x y : Option Text) → Begins x → Begins y → Begins (if b then x else y)
Begins-if true x y hx hy = hx
Begins-if false x y hx hy = hy

Begins-cons : (c : ℕ) (o : Option Text) → Begins (map_text (λ r. c ∷ r) o)
Begins-cons c none = absent
Begins-cons c (some r) = begun c r

-- Every escape begins with a percent sign.
octets-begin : (c : ℕ) (r : Text) → (t : Text) × (octets c ++ r ≡ b'%' ∷ t)
octets-begin c r = (drop 1 (octets c ++ r), unfold octets percent in ground arith)

Begins-octets : (c : ℕ) (o : Option Text) → Begins (map_text (λ r. octets c ++ r) o)
Begins-octets c none = absent
Begins-octets c (some r) =
    let (t, e) = octets-begin c r in subst (λ x. Begins (some x)) (sym e) (begun b'%' t)

Begins-pair : (h : ℕ) (s : Text) → Begins (encode_from (some h) s)
unfolding encode_from
Begins-pair h [] = absent
Begins-pair h (c ∷ s) = search (Begins-if, Begins-octets, absent)

Begins-encode_from : (c : ℕ) (s : Text) → Begins (encode_from none (c ∷ s))
unfolding encode_from
Begins-encode_from c s =
    Begins-if _ _ _ (Begins-cons c _)
      (Begins-if _ _ _ absent (Begins-if _ _ _ (Begins-pair c s) (Begins-octets c _)))

Begins-encode : (c : ℕ) (s : Text) → Begins (encode_uri_component (c ∷ s))
unfolding encode_uri_component
Begins-encode c s = Begins-encode_from c s

Begins-some : {r : Text} → Begins (some r) → r ≢ []
Begins-some (begun c r) = λ e. cc

encode-ne-nil : (s : Text) {r : Text} → s ≢ [] → encode_uri_component s ≡ some r → r ≢ []
encode-ne-nil [] h e = absurd (h refl)
encode-ne-nil (c ∷ s) h e = Begins-some (subst Begins e (Begins-encode c s))

-- What `user:pass` holds behind the user.
abbrev pub password_part : Text → Text → Text
password_part password p = when_set password (b':' ∷ p)

password_part-Lacks : (password p : Text) → Lacks b'@' p → Lacks b'@' (password_part password p)
password_part-Lacks [] p h = tt
password_part-Lacks (c ∷ s) p h = (omega arith, h)

credentials_lem :
    (user password : Text) {u p : Text}
    → u ≢ []
    → encode_uri_component user ≡ some u
    → encode_uri_component password ≡ some p
    → credentials user password ≡ some ((u ++ password_part password p) ++ b'@' ∷ [])
unfolding credentials
credentials_lem user password {u = []} h eu ep = absurd (h refl)
credentials_lem user password {u = c ∷ u} {p} h eu ep =
    rw (eu, ep)
      (ap (λ (t : Text). some (c ∷ t)) (sym (append_assoc u (password_part password p) _)))

cut_password :
    (password : Text) {u p : Text}
    → Lacks b':' u
    → password ≢ []
    → cut_at b':' (u ++ password_part password p) ≡ some (u, p)
cut_password [] plain h = absurd (h refl)
cut_password (c ∷ s) {u} {p} plain h = cut_at-append b':' u p plain

no_password :
    (password : Text) {u : Text} (p : Text) → password ≡ [] → u ++ password_part password p ≡ u
no_password [] {u} p h = append-nil u
no_password (c ∷ s) p h = cc

-- For a server engine, when the user is not empty and the encodings of the user, the password and
-- what follows them exist, the URL is `scheme://`, credentials, `@` and the location, and a parser
-- that looks for the first `@` finds that one, whatever the user and the password hold. With a
-- password the first `:` of the credentials stands right behind the encoded user; with none the
-- credentials are the encoded user.
pub url_authority :
    (d : Dialect) (form : Connection) (password : Text) {u p rest : Text}
    → d.file_based ≡ false
    → form.user ≢ []
    → encode_uri_component form.user ≡ some u
    → encode_uri_component password ≡ some p
    → location d form ≡ some rest
    → (info : Text) × (build_connection_url d form password
        ≡ some (d.url_scheme ++ (codes "://" ++ (info ++ b'@' ∷ rest))))
      × (cut_at b'@' (info ++ b'@' ∷ rest) ≡ some (info, rest))
      × (password ≢ [] → cut_at b':' info ≡ some (u, p))
      × (password ≡ [] → info ≡ u)
unfolding build_connection_url
url_authority d form password {u} {p} {rest} server named eu ep el = (
  u ++ password_part password p,
  rw (
    server,
    credentials_lem form.user password (encode-ne-nil form.user named eu) eu ep,
    el,
    append_assoc (u ++ password_part password p),
  ),
  cut_at-append b'@' _ rest (
      All-append _ u _ (encode-IsPlain form.user eu).no_at
        (password_part-Lacks password p (encode-IsPlain password ep).no_at)),
  cut_password password (encode-IsPlain form.user eu).no_colon,
  no_password password p,
)
