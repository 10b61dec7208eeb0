-- ===== src/Sidecar/Tests.antt =====
-- Runs of src/sidecar.js at a concrete network.
use tedi_sql_explorer.Base.{
  ◌≡◌, refl, ℕ, ◌==◌, true, false, none, some, [], codes, List, ◌∷◌, Text, Option, if◌then◌else◌,
}
use tedi_sql_explorer.Sidecar.{
  helper_path, Helper, Shared, Outside, Reply, lost, success, extract_ready, Ready, Poll, ready,
  timed_out, found, boot_loop,
}
use tedi_sql_explorer.Sidecar.Chunks.{output, boot_loop-output}

path_run :
    helper_path (codes "C:\\ext") (record { platform = codes "windows"; arch = codes "x86_64" })
    ≡ some (codes "C:/ext/sidecar/windows-x86_64/tedi-sql-helper.exe")
unfolding helper_path
path_run = refl

ready_run :
    extract_ready (λ s. some (record { port = 7; token = s })) (codes "log READY {x}") ≡ none
unfolding extract_ready
ready_run = refl

-- The first fetch is lost, the next one succeeds.
abbrev network : ℕ → Reply
network n = if n == 0 then lost else success

abbrev helper : Helper
helper = record { handle = some 9; port = 4000; token = codes "t" }

abbrev outside : Outside
outside = record { alive = λ h. true; spawned = none }

abbrev shared : Shared
shared = record { sidecar = none; published = some helper; killed = [] }

-- The line comes in three pieces, behind a line of the log.
abbrev polls : List Poll
polls =
    record { bytes = codes "log\nREA"; exited = false }
    ∷ record { bytes = codes "DY {x"; exited = false }
    ∷ record { bytes = codes "}\nmore"; exited = false }
    ∷ []

abbrev parse : Text → Option Ready
parse s = some (record { port = 7; token = s })

boot_run : boot_loop parse [] polls ≡ ready (record { port = 7; token = codes "{x}" })
unfolding boot_loop
boot_run = refl

boot_loop-output_example :
    boot_loop parse [] polls ≡ found (extract_ready parse (output polls)) timed_out
boot_loop-output_example = boot_loop-output parse polls (refl, (refl, (refl, tt)))
