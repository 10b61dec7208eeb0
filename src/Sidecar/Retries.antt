-- ===== src/Sidecar/Retries.antt =====
-- How often a request is sent, and when a helper is killed (src/sidecar.js).
use tedi_sql_explorer.Base.{
  ℕ, suc, ◌+◌, ◌≤◌, ◌≡◌, ◌≢◌, refl, Bool, true, false, some, List, [], ◌∷◌,
}
use tedi_sql_explorer.Sidecar.{
  Act, sent, respawned_helper, reconnected, Answer, out_of_fuel, Helper, Shared, Outside, adopt,
  respawn_sidecar,
}

abbrev pub bit : Bool → ℕ
bit true = 1
bit false = 0

-- How often each thing is done.
pub sends : List Act → ℕ
sends [] = 0
sends (sent ∷ acts) = suc (sends acts)
sends (respawned_helper ∷ acts) = sends acts
sends (reconnected ∷ acts) = sends acts

pub respawns : List Act → ℕ
respawns [] = 0
respawns (sent ∷ acts) = respawns acts
respawns (respawned_helper ∷ acts) = suc (respawns acts)
respawns (reconnected ∷ acts) = respawns acts

pub reconnects : List Act → ℕ
reconnects [] = 0
reconnects (sent ∷ acts) = reconnects acts
reconnects (respawned_helper ∷ acts) = reconnects acts
reconnects (reconnected ∷ acts) = suc (reconnects acts)

-- What the retries are held to.
pub record IsBounded (respawn reconnect : Bool) (done : List Act × Answer) : Type 0 where
  pub few_sends : sends done.0 ≤ 1 + bit respawn + bit reconnect
  pub few_respawns : respawns done.0 ≤ bit respawn
  pub few_reconnects : reconnects done.0 ≤ bit reconnect
  pub ends : done.1 ≢ out_of_fuel

module _ (out : Outside) where
  -- A respawn does not kill a helper that answers: when the published endpoint is well formed and its
  -- helper is alive, nothing is killed, nothing is started, and this window uses that helper.
  respawn-adopts :
      (sh : Shared) (h : Helper)
      → adopt out sh ≡ some h
      → ((respawn_sidecar out sh).killed ≡ sh.killed)
        × ((respawn_sidecar out sh).sidecar ≡ some h)
        × ((respawn_sidecar out sh).published ≡ sh.published)
  unfolding respawn_sidecar adopt
  respawn-adopts sh h e = rw e (refl, refl, refl)
