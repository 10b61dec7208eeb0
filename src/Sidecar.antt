-- ===== src/Sidecar.antt =====
-- src/sidecar.js: the helper process, its boot and adoption, and the requests with their retries. The
-- host and the network are outside the repository: what they answer are parameters.
pub mod Chunks
pub mod Retries
mod Tests
use tedi_sql_explorer.Base.{
  ℕ, zero, suc, ◌+◌, Bool, true, false, not, ◌&&◌, ◌||◌, Option, none, some, List, [], ◌∷◌, ◌++◌,
  Text, codes, text_eq, is_empty, trim, strip_prefix, replace_char, if◌then◌else◌, ◌==◌,
}

pub record Os : Type 0 where
  pub platform : Text
  pub arch : Text

-- `platformDir(os)`: the directories that the release builds; `none` is an unsupported platform.
unfoldable pub platform_dir : Os → Option Text
unfolding text_eq
platform_dir os =
    let arch = if is_empty os.arch then codes "x86_64" else os.arch in
    let arm = text_eq arch (codes "aarch64") in
    if text_eq os.platform (codes "windows")
    then (if arm then none else some (codes "windows-x86_64"))
    else if text_eq os.platform (codes "macos")
    then some (if arm then codes "macos-aarch64" else codes "macos-x86_64")
    else if text_eq os.platform (codes "linux")
    then (if arm then none else some (codes "linux-x86_64"))
    else none

abbrev pub in_dir : Text → Os → Option Text → Option Text
unfolding replace_char text_eq
in_dir install os none = none
in_dir install os (some dir) =
    let exe =
      if text_eq os.platform (codes "windows")
      then codes "tedi-sql-helper.exe"
      else codes "tedi-sql-helper" in
    some (replace_char b'\\' (b'/' ∷ []) install ++ (codes "/sidecar/" ++ (dir ++ (b'/' ∷ exe))))

-- `helperPath(installPath, os)`.
unfoldable pub helper_path : Text → Os → Option Text
unfolding in_dir platform_dir
helper_path install os = if is_empty install then none else in_dir install os (platform_dir os)

-- What `READY` announces, and the running helper.
pub record Ready : Type 0 where
  pub port : ℕ
  pub token : Text

pub record Helper : Type 0 where
  pub handle : Option ℕ
  pub port : ℕ
  pub token : Text

-- `buf.slice(idx + "READY ".length)` for the first `READY `.
unfoldable pub after_ready : Text → Option Text
unfolding strip_prefix
after_ready [] = none
after_ready (c ∷ s) = elim (strip_prefix (codes "READY ") (c ∷ s)) [
  | none ↦ after_ready s
  | some t ↦ some t
]

-- The text before the first newline, if there is one.
unfoldable pub first_line : Text → Option Text
first_line [] = none
first_line (c ∷ s) = elim (first_line s) [
  | none ↦ if c == 10 then some [] else none
  | some l ↦ if c == 10 then some [] else some (c ∷ l)
]

abbrev pub then_parse : (Text → Option Ready) → Option Text → Option Ready
unfolding trim
then_parse parse none = none
then_parse parse (some l) = parse (trim l)

abbrev pub then_line : Option Text → Option Text
unfolding first_line
then_line none = none
then_line (some t) = first_line t

-- `extractReady(buf)`; `parse` is `JSON.parse`.
unfoldable pub extract_ready : (Text → Option Ready) → Text → Option Ready
unfolding then_parse then_line after_ready
extract_ready parse buf = then_parse parse (then_line (after_ready buf))

-- One answer of `shell_bg_logs`.
pub record Poll : Type 0 where
  pub bytes : Text
  pub exited : Bool

pub data Boot : Type 0 where
  ready : Ready → Boot
  exited_early timed_out : Boot

abbrev pub found : Option Ready → Boot → Boot
found none rest = rest
found (some r) rest = ready r

-- The loop of `bootSidecar` over the polls that the deadline leaves room for.
unfoldable pub boot_loop : (Text → Option Ready) → Text → List Poll → Boot
unfolding extract_ready
boot_loop parse buf [] = timed_out
boot_loop parse buf (p ∷ ps) =
    let rest = boot_loop parse (buf ++ p.bytes) ps in
    if p.exited then exited_early else found (extract_ready parse (buf ++ p.bytes)) rest

-- What this window and the others share: the helper that this window uses, the endpoint that is
-- published for all, and the handles of the processes that were killed.
pub record Shared : Type 0 where
  pub sidecar : Option Helper
  pub published : Option Helper
  pub killed : List ℕ

-- The outside world of a boot: whether the helper of an endpoint answers the probe, and what a spawn
-- gives, `none` when it throws.
pub record Outside : Type 0 where
  pub alive : Helper → Bool
  pub spawned : Option Helper

module _ (out : Outside) where
  abbrev pub adopted : Option Helper → Option Helper
  adopted none = none
  adopted (some h) =
      if h.port == 0 || is_empty h.token then none else if out.alive h then some h else none

  -- `adoptRunningSidecar()`.
  unfoldable pub adopt : Shared → Option Helper
  adopt sh = adopted sh.published

  abbrev pub booted : Option Helper → Shared → Shared
  booted none sh = sh
  booted (some h) sh = record sh { sidecar = some h; published = some h }

  abbrev pub adopted_or_booted : Option Helper → Shared → Shared
  adopted_or_booted none sh = booted out.spawned sh
  adopted_or_booted (some h) sh = record sh { sidecar = some h }

  abbrev pub ensured : Option Helper → Shared → Shared
  unfolding adopt
  ensured none sh = adopted_or_booted (adopt sh) sh
  ensured (some h) sh = sh

  -- `ensureSidecar()`.
  unfoldable pub ensure_sidecar : Shared → Shared
  unfolding ensured
  ensure_sidecar sh = ensured sh.sidecar sh

  abbrev pub kill : Option Helper → List ℕ → List ℕ
  kill none ks = ks
  kill (some h) ks = elim h.handle [ none ↦ ks | some n ↦ n ∷ ks ]

  abbrev pub respawned : Option Helper → Option Helper → Shared → Shared
  unfolding ensure_sidecar
  respawned none dead sh =
      ensure_sidecar (record sh { sidecar = none; killed = kill dead sh.killed })
  respawned (some h) dead sh = record sh { sidecar = some h }

  -- `respawnSidecar()`.
  unfoldable pub respawn_sidecar : Shared → Shared
  unfolding respawned adopt
  respawn_sidecar sh = respawned (adopt sh) sh.sidecar sh

-- What one `fetch` of `request` meets: no answer, a success, the helper's `not found: connection`, or
-- another failure.
pub data Reply : Type 0 where
  lost success unknown_connection failure : Reply

pub data Act : Type 0 where
  sent respawned_helper reconnected : Act

pub data Answer : Type 0 where
  response network_error http_error boot_error reopen_error out_of_fuel : Answer

-- `request(path, opts, allowRespawn, allowReconnect)`: `replies n` is what fetch number `n` meets. The
-- fuel counts the fetches; that three are enough is a theorem of `Sidecar.Retries`. `can_boot` and
-- `can_reopen` say whether `respawnSidecar` and the reconnect handler return; what they throw, the
-- request throws.
module _ (replies : ℕ → Reply) (aborted names_connection can_boot can_reopen : Bool) where
  -- What follows a reply; `again` and `reopened` are the two retries.
  unfoldable pub react :
      Reply → Bool → Bool → List Act × Answer → List Act × Answer → List Act × Answer
  react success allow_respawn allow_reconnect again reopened = (sent ∷ [], response)
  react failure allow_respawn allow_reconnect again reopened = (sent ∷ [], http_error)
  react lost allow_respawn allow_reconnect again reopened =
      if not (allow_respawn && not aborted)
      then (sent ∷ [], network_error)
      else if can_boot
      then (sent ∷ respawned_helper ∷ again.0, again.1)
      else (sent ∷ respawned_helper ∷ [], boot_error)
  react unknown_connection allow_respawn allow_reconnect again reopened =
      if not (names_connection && allow_reconnect)
      then (sent ∷ [], http_error)
      else if can_reopen
      then (sent ∷ reconnected ∷ reopened.0, reopened.1)
      else (sent ∷ reconnected ∷ [], reopen_error)

  unfoldable pub request : ℕ → ℕ → Bool → Bool → List Act × Answer
  unfolding react
  request zero n allow_respawn allow_reconnect = ([], out_of_fuel)
  request (suc fuel) n allow_respawn allow_reconnect =
      react (replies n) allow_respawn allow_reconnect (request fuel (suc n) false allow_reconnect)
        (request fuel (suc n) allow_respawn false)
